-- ===== src/Batches/Completion.antt =====
-- When a batch job is marked as completed.
use backend_template.Prelude.{
  ℕ, ◌+◌, ◌≡◌, refl, ◌∙◌, true, false, ◌&&◌, ◌⊎◌, some, leb, arith, ==_iff,
}
use backend_template.Prelude.Int.{pos}
use backend_template.Batches.{
  ItemStatus, is_completed, is_failed, same_status, job_completed, Job, Item, ItemUpdate, Db,
  find_job, find_item, put_item, delta, is_zero, finish, update_counts, update_job_counts,
  changed_item, update_batch_item,
}
use backend_template.Batches.Counts.{tally, Accounted}
use backend_template.Batches.Updates.{counted_lem, put}

finish_lem :
    (now a b : ℕ) (j : Job)
    → (finish now j).success_count ≡ pos a
    → (finish now j).error_count ≡ pos b
    → ((leb j.request_count (a + b) ≡ true)
        × ((finish now j).status ≡ job_completed)
        × ((finish now j).completed_at ≡ some now))
      ⊎ ((leb j.request_count (a + b) ≡ false)
          × ((finish now j).status ≡ j.status)
          × ((finish now j).completed_at ≡ j.completed_at))
finish_lem now a b j e f = ground arith

differs :
    (old new : ItemStatus)
    → (is_zero (delta is_completed old new) && is_zero (delta is_failed old new)) ≡ false
    → same_status new old ≡ false
differs old new h = ground arith

-- Where the jobs count their items rightly: when an item of a job that exists gets a new status
-- that changes one of the counts, the job is marked as completed, at the time, if its completed
-- and its failed items together are at least as many as its request count; if they are fewer, it
-- keeps its status and its time of completion.
pub update_batch_item_finishes :
    (db : Db) (u : ItemUpdate) (item : Item) (new : ItemStatus) (job : Job)
    → Accounted db
    → find_item item.id db.items ≡ some item
    → find_job item.job_id db.jobs ≡ some job
    → u.status ≡ some (some new)
    → (is_zero (delta is_completed item.status new) && is_zero (delta is_failed item.status new))
      ≡ false
    → let db' = (update_batch_item item.id u db).1 in
      let done = tally is_completed item.job_id db'.items + tally is_failed item.job_id db'.items in
      (j : Job) × (find_job item.job_id db'.jobs ≡ some j)
      × (((leb job.request_count done ≡ true)
            × (j.status ≡ job_completed)
            × (j.completed_at ≡ some db.now))
          ⊎ ((leb job.request_count done ≡ false)
              × (j.status ≡ job.status)
              × (j.completed_at ≡ job.completed_at)))
unfolding update_batch_item update_job_counts
update_batch_item_finishes db u item new job ok_db found has_job set moves =
    let all = put_item (changed_item u new item) db.items in
    let updated =
      update_counts (delta is_completed item.status new) (delta is_failed item.status new) job in
    let (id, right_successes, right_errors) = counted_lem db u item new found ok_db job has_job in
    let here = put db u item new found ok_db job has_job item.job_id in
    let new_status : same_status new item.status ≡ false = differs item.status new moves in
    rw (found, set, new_status, has_job, moves)
      (
        finish db.now updated,
        here ∙ rw ((==_iff item.job_id item.job_id).1 refl) refl,
        finish_lem db.now (tally is_completed item.job_id all) (tally is_failed item.job_id all)
            updated right_successes right_errors,
      )
