-- ===== src/Batches/Counts.antt =====
-- The counts of a batch job against the statuses of its items.
use backend_template.Prelude.{
  ℕ, suc, ◌+◌, ◌≤◌, String, ◌≡◌, ◌≢◌, refl, Bool, true, false, ◌&&◌, none, some, List, [], ◌∷◌,
  ◌++◌, length, ◌==◌, arith, Option-cases, inl, inr, if◌then◌else◌,
}
use backend_template.Prelude.Int.{pos}
use backend_template.Batches.{
  ItemStatus, queued, is_completed, is_failed, Job, Item, Db, find_job, find_item, put_job,
  put_item, new_items, create_batch_job, create_batch_items,
}

-- 1 for an item of a job whose status passes a test
abbrev pub hit : (ItemStatus → Bool) → ℕ → Item → ℕ
hit test b i = if i.job_id == b && test i.status then 1 else 0

-- how many items of a job have a status that passes a test
unfoldable pub tally : (ItemStatus → Bool) → ℕ → List Item → ℕ
tally test b [] = 0
tally test b (i ∷ items) = hit test b i + tally test b items

pub find_job-put_job :
    (j j' : Job) (b : ℕ) (jobs : List Job)
    → find_job j'.id jobs ≡ some j
    → find_job b (put_job j' jobs) ≡ (if j'.id == b then some j' else find_job b jobs)
unfolding find_job put_job
find_job-put_job j j' b [] e = ground arith
find_job-put_job j j' b (k ∷ jobs) e = ground (arith, find_job-put_job j j' b jobs)

pub tally-put_item :
    (test : ItemStatus → Bool) (b : ℕ) (i i' : Item) (items : List Item)
    → find_item i'.id items ≡ some i
    → tally test b (put_item i' items) + hit test b i ≡ tally test b items + hit test b i'
unfolding find_item put_item tally
tally-put_item test b i i' [] e = ground arith
tally-put_item test b i i' (k ∷ items) e = ground (arith, tally-put_item test b i i' items)

pub tally-append :
    (test : ItemStatus → Bool) (b : ℕ) (xs ys : List Item)
    → tally test b (xs ++ ys) ≡ tally test b xs + tally test b ys
unfolding tally
tally-append test b [] ys = omega arith
tally-append test b (x ∷ xs) ys = ground (arith, tally-append test b xs ys)

pub tally-new_items :
    (test : ItemStatus → Bool) (b job_id : ℕ) (items_data : List String) (n : ℕ)
    → test queued ≡ false
    → tally test b (new_items job_id items_data n) ≡ 0
unfolding tally new_items
tally-new_items test b job_id [] n e = refl
tally-new_items test b job_id (x ∷ more) n e =
    ground (arith, tally-new_items test b job_id more (suc n))

pub tally_le :
    (test : ItemStatus → Bool) (b : ℕ) (items : List Item)
    → tally test b items ≤ tally (λ _. true) b items
unfolding tally
tally_le test b [] = omega arith
tally_le test b (i ∷ items) = ground (arith, tally_le test b items)

pub find_job-id : (b : ℕ) (jobs : List Job) (j : Job) → find_job b jobs ≡ some j → j.id ≡ b
unfolding find_job
find_job-id b [] j e = ground arith
find_job-id b (k ∷ jobs) j e = ground (arith, find_job-id b jobs j)

pub find_item-id : (b : ℕ) (items : List Item) (i : Item) → find_item b items ≡ some i → i.id ≡ b
unfolding find_item
find_item-id b [] i e = ground arith
find_item-id b (k ∷ items) i e = ground (arith, find_item-id b items i)

pub find_job-append :
    (b : ℕ) (jobs : List Job) (j : Job)
    → find_job b (jobs ++ j ∷ [])
      ≡ elim (find_job b jobs) [ none ↦ if j.id == b then some j else none | some k ↦ some k ]
unfolding find_job
find_job-append b [] j = refl
find_job-append b (k ∷ jobs) j = ground (arith, find_job-append b jobs j)

-- Every job counts its completed and its failed items; identifiers that were not drawn are not in use.
pub record Accounted (db : Db) : Type 0 where
  pub successes :
      (b : ℕ) (j : Job)
      → find_job b db.jobs ≡ some j
      → j.success_count ≡ pos (tally is_completed b db.items)
  pub errors :
      (b : ℕ) (j : Job)
      → find_job b db.jobs ≡ some j
      → j.error_count ≡ pos (tally is_failed b db.items)
  pub new_job : (b : ℕ) → db.drawn ≤ b → find_job b db.jobs ≡ none
  pub new_owner : (b : ℕ) → db.drawn ≤ b → tally (λ _. true) b db.items ≡ 0

pub create_batch_job-Accounted :
    (provider : String) (n : ℕ) (db : Db)
    → Accounted db
    → Accounted (create_batch_job provider n db).1
unfolding create_batch_job
create_batch_job-Accounted provider n db ok_db =
    let job = (create_batch_job provider n db).0 in
    record {
      successes = λ b j e. ground (
        arith,
        find_job-append b db.jobs job,
        ok_db.successes b j,
        ok_db.new_owner b,
        tally_le is_completed b db.items,
      );
      errors = λ b j e. ground (
        arith,
        find_job-append b db.jobs job,
        ok_db.errors b j,
        ok_db.new_owner b,
        tally_le is_failed b db.items,
      );
      new_job = λ b h. ground (arith, find_job-append b db.jobs job, ok_db.new_job b);
      new_owner = λ b h. ground (arith, ok_db.new_owner b);
    }

tally-new_items_other :
    (test : ItemStatus → Bool) (b job_id : ℕ) (items_data : List String) (n : ℕ)
    → job_id ≢ b
    → tally test b (new_items job_id items_data n) ≡ 0
unfolding tally new_items
tally-new_items_other test b job_id [] n e = refl
tally-new_items_other test b job_id (x ∷ more) n e =
    ground (arith, tally-new_items_other test b job_id more (suc n) e)

pub create_batch_items-Accounted :
    (job_id : ℕ) (items_data : List String) (db : Db)
    → Accounted db
    → Accounted (create_batch_items job_id items_data db).1
unfolding create_batch_items
create_batch_items-Accounted job_id items_data db ok_db =
    elim (Option-cases (find_job job_id db.jobs)) [
      | inl e ↦ rw e ok_db
      | inr (job, e) ↦
          let job' : Job = record job { request_count = length items_data } in
          let items = new_items job_id items_data db.drawn in
          let id = find_job-id job_id db.jobs job e in
          rw e record {
            successes = λ b j f. ground (
              arith,
              find_job-put_job job job' b db.jobs,
              ok_db.successes b j,
              ok_db.successes b job,
              tally-append is_completed b db.items items,
              tally-new_items is_completed b job_id items_data db.drawn,
            );
            errors = λ b j f. ground (
              arith,
              find_job-put_job job job' b db.jobs,
              ok_db.errors b j,
              ok_db.errors b job,
              tally-append is_failed b db.items items,
              tally-new_items is_failed b job_id items_data db.drawn,
            );
            new_job = λ b h.
                ground (
                  arith,
                  find_job-put_job job job' b db.jobs,
                  ok_db.new_job b,
                  ok_db.new_job job_id,
                );
            new_owner = λ b h. ground (
              arith,
              tally-append (λ _. true) b db.items items,
              ok_db.new_owner b,
              ok_db.new_job job_id,
              tally-new_items_other (λ _. true) b job_id items_data db.drawn,
            );
          }
    ]
