-- ===== src/Tests/Batching.antt =====
-- A batch job with two items.
use backend_template.Prelude.{
  ◌+◌, ◌≡◌, refl, none, some, List, [], ◌∷◌, ◌++◌, leb, true, false, ◌⊎◌,
}
use backend_template.Prelude.Int.{pos}
use backend_template.Batches.{
  completed, failed, is_completed, is_failed, job_completed, Job, ItemUpdate, Db, find_job,
  new_items, create_batch_items, queued, job_created, Item, find_item, update_batch_item,
}
use backend_template.Batches.Counts.{tally}
use backend_template.Batches.Completion.{update_batch_item_finishes}
use backend_template.Batches.Histories.{
  Operation, create_job, create_items, update_item, update_job, delete_job, history, empty,
  history-counts, history-Accounted, empty-Accounted, create_batch_items_again,
}

abbrev to_completed : ItemUpdate
to_completed = record { status = some (some completed); output_payload = none; error_detail = none }

abbrev to_failed : ItemUpdate
to_failed = record to_completed { status = some (some failed) }

abbrev calls : List Operation
calls =
    create_job "openai" 0
    ∷ create_items 0 ("x" ∷ "y" ∷ [])
    ∷ update_item 1 to_completed
    ∷ update_item 2 to_completed
    ∷ update_item 2 to_failed
    ∷ create_job "openai" 1
    ∷ create_items 3 ("z" ∷ [])
    ∷ update_job 0 (some (some job_completed)) none
    ∷ delete_job 3
    ∷ []

abbrev job : Job
job = record {
  id = 0;
  provider = "openai";
  status = job_completed;
  completed_at = some 0;
  request_count = 2;
  success_count = pos 1;
  error_count = pos 1;
}

the_job : find_job 0 (history calls empty).jobs ≡ some job
unfolding history find_job backend_template.Batches.create_batch_job
    backend_template.Batches.create_batch_items backend_template.Batches.update_batch_item
    backend_template.Batches.Jobs.delete_batch_job backend_template.Batches.Jobs.update_batch_job
the_job = refl

history-counts_example :
    (pos 1 ≡ pos (tally is_completed 0 (history calls empty).items))
    × (pos 1 ≡ pos (tally is_failed 0 (history calls empty).items))
history-counts_example = history-counts calls 0 job the_job

create_batch_items_again_example :
    let db = history calls empty in
    let after = (create_batch_items 0 ("z" ∷ []) (create_batch_items 0 ("u" ∷ "v" ∷ []) db).1).1 in
    (find_job 0 after.jobs ≡ some (record job { request_count = 1 }))
    × (after.items
        ≡ (db.items ++ new_items 0 ("u" ∷ "v" ∷ []) db.drawn)
          ++ new_items 0 ("z" ∷ []) (db.drawn + 2))
create_batch_items_again_example =
    create_batch_items_again 0 ("u" ∷ "v" ∷ []) ("z" ∷ []) (history calls empty) job the_job

abbrev first_calls : List Operation
first_calls = create_job "openai" 0 ∷ create_items 0 ("x" ∷ []) ∷ []

abbrev before : Db
before = history first_calls empty

abbrev open_job : Job
open_job = record job {
  status = job_created;
  completed_at = none;
  request_count = 1;
  success_count = pos 0;
  error_count = pos 0;
}

abbrev item : Item
item = record {
  id = 1;
  job_id = 0;
  status = queued;
  input_payload = "x";
  output_payload = none;
  error_detail = none;
}

update_batch_item_finishes_example :
    let after = (update_batch_item 1 to_completed before).1 in
    let done = tally is_completed 0 after.items + tally is_failed 0 after.items in
    (j : Job) × (find_job 0 after.jobs ≡ some j)
    × (((leb 1 done ≡ true) × (j.status ≡ job_completed) × (j.completed_at ≡ some before.now))
        ⊎ ((leb 1 done ≡ false) × (j.status ≡ job_created) × (j.completed_at ≡ none)))
unfolding history find_job find_item backend_template.Batches.create_batch_job
    backend_template.Batches.create_batch_items
update_batch_item_finishes_example =
    update_batch_item_finishes before to_completed item completed open_job
      (history-Accounted first_calls empty empty-Accounted) refl refl refl refl
