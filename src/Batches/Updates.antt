-- ===== src/Batches/Updates.antt =====
-- A batch item is updated, and its job's counts follow.
use backend_template.Prelude.{
  ℕ, ◌+◌, ◌≡◌, ◌≢◌, refl, sym, ◌∙◌, ap, Bool, true, false, ◌&&◌, Option, none, some, List, [], ◌∷◌,
  ◌==◌, arith, ==_iff, Bool-cases, Option-cases, inl, inr, if◌then◌else◌,
}
use backend_template.Prelude.Int.{pos, ◌+ℤ◌}
use backend_template.Batches.{
  ItemStatus, is_completed, is_failed, same_status, Job, Item, ItemUpdate, Db, find_job, find_item,
  put_job, put_item, delta, is_zero, finish, update_counts, count_change, update_job_counts,
  changed_item, change_status, change_item, update_batch_item, StatusUpdate, apply_status,
  update_batch_items_status,
}
use backend_template.Batches.Counts.{
  tally, Accounted, find_job-put_job, tally-put_item, find_job-id, find_item-id,
}

same_status_lem : (a b : ItemStatus) → same_status a b ≡ true → a ≡ b
same_status_lem a b e = ground arith

abbrev one : Bool → ℕ
one b = if b then 1 else 0

-- the sum of a count and a change is the count after the change
pos_delta :
    (test : ItemStatus → Bool) (old new : ItemStatus) (n m : ℕ)
    → m + one (test old) ≡ n + one (test new)
    → pos n +ℤ delta test old new ≡ pos m
pos_delta test old new n m e = ground arith

zero_delta :
    (test : ItemStatus → Bool) (old new : ItemStatus)
    → is_zero (delta test old new) ≡ true
    → test old ≡ test new
zero_delta test old new e = ground arith

finish_counts :
    (now : ℕ) (j : Job)
    → ((finish now j).id ≡ j.id)
      × ((finish now j).success_count ≡ j.success_count)
      × ((finish now j).error_count ≡ j.error_count)
finish_counts now j = ground arith

picked :
    {c j : Job} (t : Bool) (o : Option Job) → t ≡ true → (if t then some c else o) ≡ some j → c ≡ j
picked {c} true o e f = ap (λ x. elim x [ none ↦ c | some k ↦ k ]) f
picked false o e f = absurd (ground arith)

-- what a tally becomes when the status of an item changes
module _ (db : Db) (u : ItemUpdate) (item : Item) (new : ItemStatus) (test : ItemStatus → Bool)
    (found : find_item item.id db.items ≡ some item) where
  abbrev after : List Item
  after = put_item (changed_item u new item) db.items

  tally_here :
      tally test item.job_id after + one (test item.status)
      ≡ tally test item.job_id db.items + one (test new)
  tally_here =
      ground (arith, tally-put_item test item.job_id item (changed_item u new item) db.items found)

  tally_elsewhere : (b : ℕ) → item.job_id ≢ b → tally test b after ≡ tally test b db.items
  tally_elsewhere b ne =
      ground (arith, tally-put_item test b item (changed_item u new item) db.items found)

  tally_same : (b : ℕ) → test item.status ≡ test new → tally test b after ≡ tally test b db.items
  tally_same b e =
      ground (arith, tally-put_item test b item (changed_item u new item) db.items found)

module _ (db : Db) (u : ItemUpdate) (item : Item) (new : ItemStatus)
    (found : find_item item.id db.items ≡ some item) (ok_db : Accounted db) where
  abbrev with_item : Db
  with_item = record db { items = put_item (changed_item u new item) db.items }

  unchanged-Accounted :
      is_completed item.status ≡ is_completed new
      → is_failed item.status ≡ is_failed new
      → Accounted with_item
  unchanged-Accounted c f = record {
    successes = λ b j e.
        ground (arith, ok_db.successes b j e, tally_same db u item new is_completed found b c);
    errors =
        λ b j e. ground (arith, ok_db.errors b j e, tally_same db u item new is_failed found b f);
    new_job = ok_db.new_job;
    new_owner = λ b h. tally_same db u item new (λ _. true) found b refl ∙ ok_db.new_owner b h;
  }

  no_job-Accounted : find_job item.job_id db.jobs ≡ none → Accounted with_item
  no_job-Accounted gone = record {
    successes = λ b j e.
        ground (arith, ok_db.successes b j e, tally_elsewhere db u item new is_completed found b);
    errors = λ b j e.
        ground (arith, ok_db.errors b j e, tally_elsewhere db u item new is_failed found b);
    new_job = ok_db.new_job;
    new_owner = λ b h. tally_same db u item new (λ _. true) found b refl ∙ ok_db.new_owner b h;
  }

  abbrev pub counted : Job → Job
  counted job =
      finish db.now
        (update_counts (delta is_completed item.status new) (delta is_failed item.status new) job)

  module _ (job : Job) (e : find_job item.job_id db.jobs ≡ some job) where
    pub counted_lem :
        ((counted job).id ≡ item.job_id)
        × ((counted job).success_count
            ≡ pos (tally is_completed item.job_id (put_item (changed_item u new item) db.items)))
        × ((counted job).error_count
            ≡ pos (tally is_failed item.job_id (put_item (changed_item u new item) db.items)))
    counted_lem =
        let updated =
          update_counts (delta is_completed item.status new) (delta is_failed item.status new)
            job in
        let (same_id, same_successes, same_errors) = finish_counts db.now updated in
        let all = put_item (changed_item u new item) db.items in
        let b = item.job_id in
        (
          same_id ∙ find_job-id b db.jobs job e,
          same_successes
              ∙ ap (λ x. x +ℤ delta is_completed item.status new) (ok_db.successes b job e)
              ∙ pos_delta is_completed item.status new (tally is_completed b db.items)
                  (tally is_completed b all) (tally_here db u item new is_completed found),
          same_errors
              ∙ ap (λ x. x +ℤ delta is_failed item.status new) (ok_db.errors b job e)
              ∙ pos_delta is_failed item.status new (tally is_failed b db.items)
                  (tally is_failed b all) (tally_here db u item new is_failed found),
        )

    pub put :
        (b : ℕ)
        → find_job b (put_job (counted job) db.jobs)
          ≡ (if item.job_id == b then some (counted job) else find_job b db.jobs)
    put b =
        let (id, _, _) = counted_lem in
        find_job-put_job job (counted job) b db.jobs (rw id e)
        ∙ ap (λ x. if x == b then some (counted job) else find_job b db.jobs) id

    same_job : (b : ℕ) → (item.job_id == b) ≡ true → item.job_id ≡ b
    same_job b here = (==_iff item.job_id b).0 here

    chosen :
        (b : ℕ) (j : Job)
        → (item.job_id == b) ≡ true
        → find_job b (put_job (counted job) db.jobs) ≡ some j
        → counted job ≡ j
    chosen b j here f = picked (item.job_id == b) (find_job b db.jobs) here (sym (put b) ∙ f)

    counted-Accounted : Accounted (record with_item { jobs = put_job (counted job) db.jobs })
    counted-Accounted =
        let (_, right_successes, right_errors) = counted_lem in
        let all = put_item (changed_item u new item) db.items in
        record {
          successes = λ b j f. elim (Bool-cases (item.job_id == b)) [
            | inl here ↦
                sym (ap {A = Job} (λ k. k.success_count) (chosen b j here f))
                ∙ right_successes
                ∙ ap (λ x. pos (tally is_completed x all)) (same_job b here)
            | inr there ↦ ground (
              arith,
              put b,
              ok_db.successes b j,
              tally_elsewhere db u item new is_completed found b,
            )
          ];
          errors = λ b j f. elim (Bool-cases (item.job_id == b)) [
            | inl here ↦
                sym (ap {A = Job} (λ k. k.error_count) (chosen b j here f))
                ∙ right_errors
                ∙ ap (λ x. pos (tally is_failed x all)) (same_job b here)
            | inr there ↦
                ground
                  (arith, put b, ok_db.errors b j, tally_elsewhere db u item new is_failed found b)
          ];
          new_job = λ b h. ground (arith, put b, ok_db.new_job b h, e);
          new_owner =
              λ b h. tally_same db u item new (λ _. true) found b refl ∙ ok_db.new_owner b h;
        }

  count_change-Accounted :
      (o : Option Job)
      → find_job item.job_id db.jobs ≡ o
      → Accounted (count_change item.status new with_item o)
  count_change-Accounted none e = no_job-Accounted e
  count_change-Accounted (some job) e =
      elim (Bool-cases (
        is_zero (delta is_completed item.status new)
        && is_zero (delta is_failed item.status new))) [
          | inl same ↦ rw same (
              unchanged-Accounted (zero_delta is_completed item.status new (ground arith))
                (zero_delta is_failed item.status new (ground arith)))
          | inr change ↦ rw change (counted-Accounted job e)
        ]

  change_status-Accounted : Accounted (change_status u new item db).1
  unfolding update_job_counts
  change_status-Accounted = elim (Bool-cases (same_status new item.status)) [
    | inl same ↦
        let e = same_status_lem new item.status same in
        rw same (unchanged-Accounted (ap is_completed (sym e)) (ap is_failed (sym e)))
    | inr change ↦ rw change (count_change-Accounted (find_job item.job_id db.jobs) refl)
  ]

change_item-Accounted :
    (db : Db) (u : ItemUpdate) (item : Item) (status : Option (Option ItemStatus))
    → find_item item.id db.items ≡ some item
    → Accounted db
    → Accounted (change_item u db status item).1
change_item-Accounted db u item none found ok_db =
    change_status-Accounted db u item item.status found ok_db
change_item-Accounted db u item (some none) found ok_db = ok_db
change_item-Accounted db u item (some (some new)) found ok_db =
    change_status-Accounted db u item new found ok_db

pub update_batch_item-Accounted :
    (item_id : ℕ) (u : ItemUpdate) (db : Db)
    → Accounted db
    → Accounted (update_batch_item item_id u db).1
unfolding update_batch_item
update_batch_item-Accounted item_id u db ok_db = elim (Option-cases (find_item item_id db.items)) [
  | inl e ↦ rw e ok_db
  | inr (item, e) ↦ rw e (
      change_item-Accounted db u item u.status
        (ap (λ x. find_item x db.items) (find_item-id item_id db.items item e) ∙ e) ok_db)
]

apply_status-Accounted :
    (x : StatusUpdate) (item_id : Option ℕ) (status : Option ItemStatus) (db : Db)
    → Accounted db
    → Accounted (apply_status x item_id status db).1
apply_status-Accounted x (some item_id) (some new) db a = update_batch_item-Accounted item_id _ db a
apply_status-Accounted x (some item_id) none db a = a
apply_status-Accounted x none status db a = a

pub update_batch_items_status-Accounted :
    (xs : List StatusUpdate) (db : Db)
    → Accounted db
    → Accounted (update_batch_items_status xs db).1
unfolding update_batch_items_status
update_batch_items_status-Accounted [] db a = a
update_batch_items_status-Accounted (x ∷ more) db a =
    update_batch_items_status-Accounted more (apply_status x x.item_id x.status db).1
      (apply_status-Accounted x x.item_id x.status db a)
