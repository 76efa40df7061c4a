-- ===== src/Batches/Jobs.antt =====
-- inference_core/services/batch_service.py: the update and the deletion of a batch job.
use backend_template.Prelude.{
  ℕ, str_eq, ◌≡◌, refl, ap, ◌∙◌, Bool, true, false, ◌||◌, Option, none, some, List, [], ◌∷◌, ◌==◌,
  arith, Option-cases, inl, inr, Bool-cases, if◌then◌else◌,
}
use backend_template.Prelude.Int.{ℤ, pos}
use backend_template.Server.{raised, Result, ok, err}
use backend_template.Batches.{
  ItemStatus, is_completed, is_failed, JobStatus, Job, Item, Event, Db, status_name,
  create_status_change_event, find_job, put_job, set_field,
}
use backend_template.Batches.Counts.{tally, Accounted, find_job-put_job, find_job-id}

-- `BatchJobUpdate`, for the columns of `Job`: a field that is not set is `none`
pub record JobUpdate : Type 0 where
  pub status : Option (Option JobStatus)
  pub completed_at : Option (Option ℕ)
  pub success_count : Option (Option ℕ)
  pub error_count : Option (Option ℕ)

-- None for a column that is not nullable
abbrev pub is_refused : {A : Type 0} → Option (Option A) → Bool
is_refused (some none) = true
is_refused _ = false

abbrev pub set_column : {A : Type 0} → A → Option (Option A) → A
set_column old (some (some new)) = new
set_column old _ = old

abbrev pub set_count : ℤ → Option (Option ℕ) → ℤ
set_count old (some (some new)) = pos new
set_count old _ = old

-- the loop over `update_data`
abbrev pub changed_job : JobUpdate → Job → Job
changed_job u job = record job {
  status = set_column job.status u.status;
  completed_at = set_field job.completed_at u.completed_at;
  success_count = set_count job.success_count u.success_count;
  error_count = set_count job.error_count u.error_count;
}

-- the event, if a status is given that differs from the old one
abbrev pub record_change : ℕ → JobStatus → Option (Option JobStatus) → Db → Db
record_change job_id old_status (some (some new_status)) db =
    if str_eq (status_name new_status) (status_name old_status)
    then db
    else create_status_change_event job_id (some old_status) new_status db
record_change job_id old_status _ db = db

abbrev pub update_found : JobUpdate → Db → Option Job → Result (Option Job) × Db
update_found u db none = (ok none, db)
update_found u db (some job) =
    if is_refused u.status || is_refused u.success_count || is_refused u.error_count
    then (err (raised "IntegrityError"), db)
    else (
      ok (some (changed_job u job)),
      record_change job.id job.status u.status
          (record db { jobs = put_job (changed_job u job) db.jobs }),
    )

-- `update_batch_job`
unfoldable pub update_batch_job : ℕ → JobUpdate → Db → Result (Option Job) × Db
unfolding find_job put_job
update_batch_job job_id u db = update_found u db (find_job job_id db.jobs)

-- the deletion of a row
unfoldable pub remove_job : ℕ → List Job → List Job
remove_job id [] = []
remove_job id (j ∷ jobs) = let rest = remove_job id jobs in if j.id == id then rest else j ∷ rest

-- the cascade of the relationship `items`
unfoldable pub remove_items : ℕ → List Item → List Item
remove_items id [] = []
remove_items id (i ∷ items) =
    let rest = remove_items id items in if i.job_id == id then rest else i ∷ rest

-- the cascade of the relationship `events`
unfoldable pub remove_events : ℕ → List Event → List Event
remove_events id [] = []
remove_events id (v ∷ events) =
    let rest = remove_events id events in if v.job_id == id then rest else v ∷ rest

abbrev pub delete_found : Db → Option Job → Bool × Db
delete_found db none = (false, db)
delete_found db (some job) = (
  true,
  record db {
    jobs = remove_job job.id db.jobs;
    items = remove_items job.id db.items;
    events = remove_events job.id db.events;
  },
)

-- `delete_batch_job`
unfoldable pub delete_batch_job : ℕ → Db → Bool × Db
unfolding find_job remove_job remove_items remove_events
delete_batch_job job_id db = delete_found db (find_job job_id db.jobs)

find_job-remove_job :
    (id b : ℕ) (jobs : List Job)
    → find_job b (remove_job id jobs) ≡ (if id == b then none else find_job b jobs)
unfolding find_job remove_job
find_job-remove_job id b [] = ground arith
find_job-remove_job id b (k ∷ jobs) = ground (arith, find_job-remove_job id b jobs)

tally-remove_items :
    (test : ItemStatus → Bool) (id b : ℕ) (items : List Item)
    → tally test b (remove_items id items) ≡ (if id == b then 0 else tally test b items)
unfolding tally remove_items
tally-remove_items test id b [] = ground arith
tally-remove_items test id b (i ∷ items) = ground (arith, tally-remove_items test id b items)

pub delete_batch_job-Accounted :
    (job_id : ℕ) (db : Db) → Accounted db → Accounted (delete_batch_job job_id db).1
unfolding delete_batch_job
delete_batch_job-Accounted job_id db ok_db = elim (Option-cases (find_job job_id db.jobs)) [
  | inl e ↦ rw e ok_db
  | inr (job, e) ↦ rw e record {
    successes = λ b j f. ground (
      arith,
      find_job-remove_job job.id b db.jobs,
      tally-remove_items is_completed job.id b db.items,
      ok_db.successes b j,
    );
    errors = λ b j f. ground (
      arith,
      find_job-remove_job job.id b db.jobs,
      tally-remove_items is_failed job.id b db.items,
      ok_db.errors b j,
    );
    new_job = λ b h. ground (arith, find_job-remove_job job.id b db.jobs, ok_db.new_job b);
    new_owner =
        λ b h. ground (arith, tally-remove_items (λ _. true) job.id b db.items, ok_db.new_owner b);
  }
]

-- an update that sets neither of the counts
abbrev pub without_counts : Option (Option JobStatus) → Option (Option ℕ) → JobUpdate
without_counts status completed_at = record {
  status = status;
  completed_at = completed_at;
  success_count = none;
  error_count = none;
}

put_same_counts-Accounted :
    (db : Db) (job job' : Job)
    → find_job job'.id db.jobs ≡ some job
    → job'.success_count ≡ job.success_count
    → job'.error_count ≡ job.error_count
    → Accounted db
    → Accounted (record db { jobs = put_job job' db.jobs })
put_same_counts-Accounted db job job' e s t ok_db = record {
  successes = λ b j f.
      ground
        (arith, find_job-put_job job job' b db.jobs, ok_db.successes b j, ok_db.successes b job);
  errors = λ b j f.
      ground (arith, find_job-put_job job job' b db.jobs, ok_db.errors b j, ok_db.errors b job);
  new_job = λ b h.
      ground (arith, find_job-put_job job job' b db.jobs, ok_db.new_job b, ok_db.new_job job'.id);
  new_owner = ok_db.new_owner;
}

record_change-Accounted :
    (job_id : ℕ) (old_status : JobStatus) (status : Option (Option JobStatus)) (db : Db)
    → Accounted db
    → Accounted (record_change job_id old_status status db)
record_change-Accounted job_id old_status none db a = a
record_change-Accounted job_id old_status (some none) db a = a
record_change-Accounted job_id old_status (some (some s)) db a =
    elim (Bool-cases (str_eq (status_name s) (status_name old_status))) [
      | inl e ↦ rw (record_change, e) a
      | inr e ↦
          rw (record_change, e)
            record {
              successes = a.successes;
              errors = a.errors;
              new_job = a.new_job;
              new_owner = a.new_owner;
            }
    ]

changed_job-Accounted :
    (status : Option (Option JobStatus)) (completed_at : Option (Option ℕ)) (db : Db) (job : Job)
    → find_job job.id db.jobs ≡ some job
    → Accounted db
    → let job' = changed_job (without_counts status completed_at) job in
      Accounted (record_change job.id job.status status (record db { jobs = put_job job' db.jobs }))
changed_job-Accounted status completed_at db job e ok_db =
    let job' = changed_job (without_counts status completed_at) job in
    let kept = put_same_counts-Accounted db job job' e refl refl ok_db in
    record_change-Accounted job.id job.status status (record db { jobs = put_job job' db.jobs })
      kept

pub update_batch_job-Accounted :
    (job_id : ℕ) (status : Option (Option JobStatus)) (completed_at : Option (Option ℕ)) (db : Db)
    → Accounted db
    → Accounted (update_batch_job job_id (without_counts status completed_at) db).1
unfolding update_batch_job
update_batch_job-Accounted job_id (some none) completed_at db ok_db =
    elim (Option-cases (find_job job_id db.jobs)) [ inl e ↦ rw e ok_db | inr (job, e) ↦ rw e ok_db ]
update_batch_job-Accounted job_id none completed_at db ok_db =
    elim (Option-cases (find_job job_id db.jobs)) [
      | inl e ↦ rw e ok_db
      | inr (job, e) ↦
          let id = find_job-id job_id db.jobs job e in
          rw e (
            changed_job-Accounted none completed_at db job (ap (λ x. find_job x db.jobs) id ∙ e)
              ok_db)
    ]
update_batch_job-Accounted job_id (some (some s)) completed_at db ok_db =
    elim (Option-cases (find_job job_id db.jobs)) [
      | inl e ↦ rw e ok_db
      | inr (job, e) ↦
          let id = find_job-id job_id db.jobs job e in
          rw e (
            changed_job-Accounted (some (some s)) completed_at db job
              (ap (λ x. find_job x db.jobs) id ∙ e) ok_db)
    ]
