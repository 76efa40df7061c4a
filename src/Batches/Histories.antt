-- ===== src/Batches/Histories.antt =====
-- Sequences of calls of the batch service, from an empty database.
use backend_template.Prelude.{
  ℕ, ◌+◌, String, ◌≡◌, refl, ap, ◌∙◌, Option, some, List, [], ◌∷◌, ◌++◌, length, arith, ==_iff,
}
use backend_template.Prelude.Int.{pos}
use backend_template.Batches.{
  is_completed, is_failed, JobStatus, Job, ItemUpdate, Db, find_job, put_job, new_items,
  create_batch_job, create_batch_items, update_batch_item, StatusUpdate, update_batch_items_status,
}
use backend_template.Batches.Counts.{
  tally, Accounted, create_batch_job-Accounted, create_batch_items-Accounted, find_job-put_job,
  find_job-id,
}
use backend_template.Batches.Jobs.{
  without_counts, update_batch_job, delete_batch_job, update_batch_job-Accounted,
  delete_batch_job-Accounted,
}
use backend_template.Batches.Updates.{
  update_batch_item-Accounted, update_batch_items_status-Accounted,
}

-- A call with its arguments; an update of a job sets neither of its counts; `wait` lets time pass.
pub data Operation : Type 0 where
  create_job : String → ℕ → Operation
  create_items : ℕ → List String → Operation
  update_item : ℕ → ItemUpdate → Operation
  update_status : List StatusUpdate → Operation
  update_job : ℕ → Option (Option JobStatus) → Option (Option ℕ) → Operation
  delete_job : ℕ → Operation
  wait : ℕ → Operation

pub perform : Operation → Db → Db
perform (create_job provider n) db = (create_batch_job provider n db).1
perform (create_items job_id items_data) db = (create_batch_items job_id items_data db).1
perform (update_item item_id u) db = (update_batch_item item_id u db).1
perform (update_status xs) db = (update_batch_items_status xs db).1
perform (update_job job_id status completed_at) db =
    (update_batch_job job_id (without_counts status completed_at) db).1
perform (delete_job job_id) db = (delete_batch_job job_id db).1
perform (wait n) db = record db { now = db.now + n }

unfoldable pub history : List Operation → Db → Db
unfolding perform
history [] db = db
history (o ∷ os) db = history os (perform o db)

abbrev pub empty : Db
empty = record { jobs = []; items = []; events = []; now = 0; drawn = 0 }

pub empty-Accounted : Accounted empty
unfolding find_job tally
empty-Accounted = record {
  successes = λ b j e. ground arith;
  errors = λ b j e. ground arith;
  new_job = λ b h. refl;
  new_owner = λ b h. refl;
}

perform-Accounted : (o : Operation) (db : Db) → Accounted db → Accounted (perform o db)
unfolding perform
perform-Accounted (create_job provider n) db a = create_batch_job-Accounted provider n db a
perform-Accounted (create_items job_id items_data) db a =
    create_batch_items-Accounted job_id items_data db a
perform-Accounted (update_item item_id u) db a = update_batch_item-Accounted item_id u db a
perform-Accounted (update_status xs) db a = update_batch_items_status-Accounted xs db a
perform-Accounted (update_job job_id status completed_at) db a =
    update_batch_job-Accounted job_id status completed_at db a
perform-Accounted (delete_job job_id) db a = delete_batch_job-Accounted job_id db a
perform-Accounted (wait n) db a = record {
  successes = a.successes;
  errors = a.errors;
  new_job = a.new_job;
  new_owner = a.new_owner;
}

pub history-Accounted : (os : List Operation) (db : Db) → Accounted db → Accounted (history os db)
unfolding history
history-Accounted [] db a = a
history-Accounted (o ∷ os) db a = history-Accounted os (perform o db) (perform-Accounted o db a)

-- After any jobs and items are created, any items updated, and any jobs updated without their counts or
-- deleted, in any order, and failing or not, from an empty database: the counts of a job are the numbers of its completed and of its failed items.
pub history-counts :
    (os : List Operation) (b : ℕ) (j : Job)
    → find_job b (history os empty).jobs ≡ some j
    → (j.success_count ≡ pos (tally is_completed b (history os empty).items))
      × (j.error_count ≡ pos (tally is_failed b (history os empty).items))
history-counts os b j e =
    let a = history-Accounted os empty empty-Accounted in (a.successes b j e, a.errors b j e)

-- When items are created in two calls for a job that exists, all of them are kept, and the request
-- count of the job is the number of those of the second call alone.
pub create_batch_items_again :
    (job_id : ℕ) (xs ys : List String) (db : Db) (job : Job)
    → find_job job_id db.jobs ≡ some job
    → let db' = (create_batch_items job_id ys (create_batch_items job_id xs db).1).1 in
      (find_job job_id db'.jobs ≡ some (record job { request_count = length ys }))
      × (db'.items
          ≡ (db.items ++ new_items job_id xs db.drawn)
            ++ new_items job_id ys (db.drawn + length xs))
unfolding create_batch_items
create_batch_items_again job_id xs ys db job e =
    let first : Job = record job { request_count = length xs } in
    let second : Job = record job { request_count = length ys } in
    let id = find_job-id job_id db.jobs job e in
    let same_id = ap (λ x. find_job x db.jobs) id ∙ e in
    let once : find_job job_id (put_job first db.jobs) ≡ some first =
      find_job-put_job job first job_id db.jobs same_id ∙ rw ((==_iff job.id job_id).1 id) refl in
    let twice : find_job job_id (put_job second (put_job first db.jobs)) ≡ some second =
      find_job-put_job first second job_id (put_job first db.jobs)
        (ap (λ x. find_job x (put_job first db.jobs)) id ∙ once)
      ∙ rw ((==_iff job.id job_id).1 id) refl in
    rw (e, once) (twice, refl)
