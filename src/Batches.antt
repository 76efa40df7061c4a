-- ===== src/Batches.antt =====
-- inference_core/services/batch_service.py and database/sql/models/batch.py: batch jobs, their items and
-- events, and the counts that a job keeps of its items. An identifier is the number of its draw, since uuid4 does
-- not repeat; the identifiers of events are left out.
pub mod Counts
pub mod Updates
pub mod Completion
pub mod Jobs
pub mod Histories
use backend_template.Prelude.{
  ℕ, suc, ◌+◌, String, Bool, true, false, ◌&&◌, not, Option, none, some, List, [], ◌∷◌, ◌++◌,
  length, ◌==◌, if◌then◌else◌,
}
use backend_template.Prelude.Int.{ℤ, pos, negsuc, ◌+ℤ◌, leb_ℤ}
use backend_template.Server.{Error, raised, Result, ok, err}

-- `BatchJobStatus`
pub data JobStatus : Type 0 where
  job_created job_submitted job_in_progress job_completed job_failed job_cancelled job_expired :
      JobStatus

-- `BatchItemStatus`
pub data ItemStatus : Type 0 where
  queued sent completed failed : ItemStatus

abbrev pub is_completed : ItemStatus → Bool
is_completed completed = true
is_completed _ = false

abbrev pub is_failed : ItemStatus → Bool
is_failed failed = true
is_failed _ = false

-- the value of a status
abbrev pub status_name : JobStatus → String
status_name job_created = "created"
status_name job_submitted = "submitted"
status_name job_in_progress = "in_progress"
status_name job_completed = "completed"
status_name job_failed = "failed"
status_name job_cancelled = "cancelled"
status_name job_expired = "expired"

abbrev pub same_status : ItemStatus → ItemStatus → Bool
same_status queued queued = true
same_status sent sent = true
same_status completed completed = true
same_status failed failed = true
same_status _ _ = false

-- `BatchJob`, with the columns that the service computes with
pub record Job : Type 0 where
  pub id : ℕ
  pub provider : String
  pub status : JobStatus
  pub completed_at : Option ℕ
  pub request_count : ℕ
  pub success_count : ℤ
  pub error_count : ℤ

-- `BatchItem`
pub record Item : Type 0 where
  pub id : ℕ
  pub job_id : ℕ
  pub status : ItemStatus
  pub input_payload : String
  pub output_payload : Option String
  pub error_detail : Option String

-- `BatchItemUpdate`: a field that is not set is `none`
pub record ItemUpdate : Type 0 where
  pub status : Option (Option ItemStatus)
  pub output_payload : Option (Option String)
  pub error_detail : Option (Option String)

-- `BatchEvent` of the type STATUS_CHANGE
pub record Event : Type 0 where
  pub job_id : ℕ
  pub old_status : Option JobStatus
  pub new_status : JobStatus

pub record Db : Type 0 where
  pub jobs : List Job
  pub items : List Item
  pub events : List Event
  pub now : ℕ
  -- how many identifiers have been drawn
  pub drawn : ℕ

unfoldable pub find_job : ℕ → List Job → Option Job
find_job id [] = none
find_job id (j ∷ jobs) = if j.id == id then some j else find_job id jobs

unfoldable pub find_item : ℕ → List Item → Option Item
find_item id [] = none
find_item id (i ∷ items) = if i.id == id then some i else find_item id items

-- the commit of a changed row
unfoldable pub put_job : Job → List Job → List Job
put_job j [] = []
put_job j (k ∷ jobs) = let rest = put_job j jobs in if k.id == j.id then j ∷ jobs else k ∷ rest

unfoldable pub put_item : Item → List Item → List Item
put_item i [] = []
put_item i (k ∷ items) = let rest = put_item i items in if k.id == i.id then i ∷ items else k ∷ rest

-- `_create_status_change_event`
abbrev pub create_status_change_event : ℕ → Option JobStatus → JobStatus → Db → Db
create_status_change_event job_id old_status new_status db = record db {
  events =
      db.events
      ++ record { job_id = job_id; old_status = old_status; new_status = new_status } ∷ [];
}

-- `create_batch_job`
unfoldable pub create_batch_job : String → ℕ → Db → Job × Db
create_batch_job provider request_count db =
    let job : Job = record {
      id = db.drawn;
      provider = provider;
      status = job_created;
      completed_at = none;
      request_count = request_count;
      success_count = pos 0;
      error_count = pos 0;
    } in
    (
      job,
      create_status_change_event job.id none job_created
          (record db { jobs = db.jobs ++ job ∷ []; drawn = suc db.drawn }),
    )

-- the loop of `create_batch_items`
unfoldable pub new_items : ℕ → List String → ℕ → List Item
new_items job_id [] n = []
new_items job_id (payload ∷ more) n =
    record {
      id = n;
      job_id = job_id;
      status = queued;
      input_payload = payload;
      output_payload = none;
      error_detail = none;
    }
    ∷ new_items job_id more (suc n)

abbrev pub add_items : ℕ → List String → Db → Option Job → Result (List Item) × Db
add_items job_id items_data db none = (err (raised "ValueError"), db)
add_items job_id items_data db (some job) =
    let items = new_items job_id items_data db.drawn in
    (
      ok items,
      record db {
        jobs = put_job (record job { request_count = length items_data }) db.jobs;
        items = db.items ++ items;
        drawn = db.drawn + length items_data;
      },
    )

-- `create_batch_items`
unfoldable pub create_batch_items : ℕ → List String → Db → Result (List Item) × Db
unfolding find_job put_job new_items
create_batch_items job_id items_data db = add_items job_id items_data db (find_job job_id db.jobs)

-- `success_delta` or `error_delta`: of the statuses that a test picks
abbrev pub delta : (ItemStatus → Bool) → ItemStatus → ItemStatus → ℤ
delta test old new = (if test old then negsuc 0 else pos 0) +ℤ (if test new then pos 1 else pos 0)

abbrev pub is_zero : ℤ → Bool
is_zero (pos n) = n == 0
is_zero (negsuc n) = false

-- `update_counts`
abbrev pub update_counts : ℤ → ℤ → Job → Job
update_counts success_delta error_delta job = record job {
  success_count = job.success_count +ℤ success_delta;
  error_count = job.error_count +ℤ error_delta;
}

-- the check whether the job is complete; both of its branches set COMPLETED
abbrev pub finish : ℕ → Job → Job
finish now job =
    if leb_ℤ (pos job.request_count) (job.success_count +ℤ job.error_count)
    then record job { status = job_completed; completed_at = some now }
    else job

abbrev pub count_change : ItemStatus → ItemStatus → Db → Option Job → Db
count_change old new db none = db
count_change old new db (some job) =
    let success_delta = delta is_completed old new in
    let error_delta = delta is_failed old new in
    if is_zero success_delta && is_zero error_delta then db else record db {
      jobs = put_job (finish db.now (update_counts success_delta error_delta job)) db.jobs;
    }

-- `_update_job_counts_from_item_status_change`
unfoldable pub update_job_counts : ℕ → ItemStatus → ItemStatus → Db → Db
unfolding find_job put_job
update_job_counts job_id old_status new_status db =
    count_change old_status new_status db (find_job job_id db.jobs)

abbrev pub set_field : {A : Type 0} → A → Option A → A
set_field old none = old
set_field old (some new) = new

abbrev pub changed_item : ItemUpdate → ItemStatus → Item → Item
changed_item u new_status item = record item {
  status = new_status;
  output_payload = set_field item.output_payload u.output_payload;
  error_detail = set_field item.error_detail u.error_detail;
}

abbrev pub change_status : ItemUpdate → ItemStatus → Item → Db → Result (Option Item) × Db
change_status u new_status item db =
    let item' = changed_item u new_status item in
    let db' : Db = record db { items = put_item item' db.items } in
    (
      ok (some item'),
      if same_status new_status item.status
          then db'
          else update_job_counts item.job_id item.status new_status db',
    )

-- A status that is set to None is refused by the column.
abbrev pub change_item :
    ItemUpdate → Db → Option (Option ItemStatus) → Item → Result (Option Item) × Db
change_item u db none item = change_status u item.status item db
change_item u db (some none) item = (err (raised "IntegrityError"), db)
change_item u db (some (some new_status)) item = change_status u new_status item db

abbrev pub change_found : ItemUpdate → Db → Option Item → Result (Option Item) × Db
change_found u db none = (ok none, db)
change_found u db (some item) = change_item u db u.status item

-- `update_batch_item`
unfoldable pub update_batch_item : ℕ → ItemUpdate → Db → Result (Option Item) × Db
unfolding find_item put_item update_job_counts
update_batch_item item_id u db = change_found u db (find_item item_id db.items)

-- an entry of `items_status_updates`
pub record StatusUpdate : Type 0 where
  pub item_id : Option ℕ
  pub status : Option ItemStatus
  pub output_payload : Option String
  pub error_detail : Option String

abbrev pub one_if_found : Result (Option Item) → ℕ
one_if_found (ok (some item)) = 1
one_if_found _ = 0

-- one pass of the loop of `update_batch_items_status`, with how many items it updates
abbrev pub apply_status : StatusUpdate → Option ℕ → Option ItemStatus → Db → ℕ × Db
apply_status x (some item_id) (some new_status) db =
    let (found, db') =
      update_batch_item item_id
        (record {
          status = some (some new_status);
          output_payload = some x.output_payload;
          error_detail = some x.error_detail;
        })
        db in
    (one_if_found found, db')
apply_status x _ _ db = (0, db)

-- `update_batch_items_status`
unfoldable pub update_batch_items_status : List StatusUpdate → Db → ℕ × Db
unfolding update_batch_item
update_batch_items_status [] db = (0, db)
update_batch_items_status (x ∷ more) db =
    let (one, db') = apply_status x x.item_id x.status db in
    let (count, db'') = update_batch_items_status more db' in (one + count, db'')
