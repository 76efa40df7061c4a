-- ===== src/Instances/Histories.antt =====
-- The default instances after any calls of the service (services/user_agent_instance_service.py).
use backend_template.Prelude.{String, ℕ, ◌≤◌, ◌≡◌, refl, Option, none, some, List, [], ◌∷◌, arith}
use backend_template.Instances.{
  Instance, ok, Resolved, Limits, NewInstance, Changes, select, one_or_none, create_instance,
  update_instance, delete_instance,
}
use backend_template.Instances.{is_active_default, get_default_instance}
use backend_template.Instances.Rows.{
  create_instance-Step, update_instance-Step, delete_instance-Step,
}
use backend_template.Instances.Defaults.{defaults, AtMostOne, Step-AtMostOne}
use backend_template.Prelude.{length}

length-select :
    (v : String) (rows : List Instance)
    → length (select (is_active_default v) rows) ≤ defaults v rows
unfolding select defaults
length-select v [] = omega arith
length-select v (row ∷ rows) = ground (arith, length-select v rows)

one_or_none-ok :
    (rows : List Instance) → length rows ≤ 1 → (r : Option Instance) × (one_or_none rows ≡ ok r)
one_or_none-ok [] h = (none, refl)
one_or_none-ok (row ∷ []) h = (some row, refl)
one_or_none-ok (row ∷ other ∷ rows) h = ground arith

-- the calls of the service that change the table
pub data Call : Type 0 where
  create : String → String → NewInstance → Call
  update : String → String → Changes → Call
  delete : String → String → Call

module _ (len : String → ℕ) (limits : Limits) (resolve : String → Resolved) where
  abbrev pub call : Call → List Instance → List Instance
  call (create id user_id new) rows = (create_instance len limits resolve id user_id new rows).1
  call (update user_id id changes) rows =
      (update_instance len limits resolve user_id id changes rows).1
  call (delete user_id id) rows = (delete_instance user_id id rows).1

  unfoldable pub calls : List Call → List Instance → List Instance
  calls [] rows = rows
  calls (c ∷ cs) rows = calls cs (call c rows)

  call-AtMostOne : (c : Call) (rows : List Instance) → AtMostOne rows → AtMostOne (call c rows)
  call-AtMostOne (create id user_id new) rows p =
      Step-AtMostOne (create_instance-Step len limits resolve id user_id new rows) p
  call-AtMostOne (update user_id id changes) rows p =
      Step-AtMostOne (update_instance-Step len limits resolve user_id id changes rows) p
  call-AtMostOne (delete user_id id) rows p =
      Step-AtMostOne (delete_instance-Step user_id id rows) p

  calls-AtMostOne :
      (cs : List Call) (rows : List Instance) → AtMostOne rows → AtMostOne (calls cs rows)
  unfolding calls
  calls-AtMostOne [] rows p = p
  calls-AtMostOne (c ∷ cs) rows p = calls-AtMostOne cs (call c rows) (call-AtMostOne c rows p)

  -- After any calls of `create_instance`, `update_instance` and `delete_instance` by any users on an empty table, no user
  -- has more than one default instance, so that `get_default_instance` does not raise for any user.
  pub calls-defaults :
      (cs : List Call) (v : String)
      → (defaults v (calls cs []) ≤ 1)
        × ((r : Option Instance) × (get_default_instance v (calls cs []) ≡ ok r))
  unfolding AtMostOne defaults get_default_instance
  calls-defaults cs v =
      let one = calls-AtMostOne cs [] (λ w. omega arith) v in
      (
        one,
        one_or_none-ok (select (is_active_default v) (calls cs []))
            (omega (arith, one, length-select v (calls cs []))),
      )
