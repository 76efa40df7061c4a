-- ===== src/Instances/Owners.antt =====
-- Whose instances a call may change (services/user_agent_instance_service.py).
use backend_template.Prelude.{
  String, ℕ, ◌≡◌, refl, ◌∙◌, Bool, true, false, List, [], ◌∷◌, ◌++◌, str_eq, eq_iff, arith,
  if◌then◌else◌,
}
use backend_template.Instances.{
  Instance, Resolved, Limits, NewInstance, Changes, clear_user_defaults, put_row, delete_row,
  create_instance, update_instance, delete_instance,
}
use backend_template.Instances.Rows.{
  Step, clear_if, create_instance-Step, update_instance-Step, delete_instance-Step,
}

-- the instances of the other users
unfoldable pub others : String → List Instance → List Instance
others u [] = []
others u (row ∷ rows) =
    let rest = others u rows in if str_eq row.user_id u then rest else row ∷ rest

others-append :
    (u : String) (rows : List Instance) (new : Instance)
    → new.user_id ≡ u
    → others u (rows ++ (new ∷ [])) ≡ others u rows
unfolding others
others-append u [] new e = ground (arith, eq_iff new.user_id u)
others-append u (row ∷ rows) new e = ground (arith, others-append u rows new e)

others-clear :
    (u : String) (rows : List Instance) → others u (clear_user_defaults u rows) ≡ others u rows
unfolding others clear_user_defaults
others-clear u [] = refl
others-clear u (row ∷ rows) = ground (arith, others-clear u rows)

others-put :
    (u id : String) (new : Instance) (rows : List Instance)
    → new.user_id ≡ u
    → others u (put_row u id new rows) ≡ others u rows
unfolding others put_row
others-put u id new [] e = refl
others-put u id new (row ∷ rows) e =
    ground (arith, others-put u id new rows e, eq_iff new.user_id u)

others-delete :
    (u id : String) (rows : List Instance) → others u (delete_row u id rows) ≡ others u rows
unfolding others delete_row
others-delete u id [] = refl
others-delete u id (row ∷ rows) = ground (arith, others-delete u id rows)

others-clear_if :
    (b : Bool) (u : String) (rows : List Instance) → others u (clear_if b u rows) ≡ others u rows
others-clear_if true u rows = others-clear u rows
others-clear_if false u rows = refl

Step-others :
    {u : String} {rows rows' : List Instance} → Step u rows rows' → others u rows' ≡ others u rows
Step-others Step.unchanged = refl
Step-others {u} {rows} (Step.added new e) =
    others-append u (clear_if new.is_default u rows) new e ∙ others-clear_if new.is_default u rows
Step-others {u} {rows} (Step.put id old new b f e g) =
    others-put u id new (clear_if b u rows) e ∙ others-clear_if b u rows
Step-others {u} {rows} (Step.deleted id) = others-delete u id rows

-- Whatever a user asks `create_instance`, `update_instance` and `delete_instance` for, the instances of all other
-- users stay as they are, in their order.
pub others-calls :
    (len : String → ℕ) (limits : Limits) (resolve : String → Resolved)
    (user_id instance_id : String) (new : NewInstance) (changes : Changes) (rows : List Instance)
    → (others user_id (create_instance len limits resolve instance_id user_id new rows).1
        ≡ others user_id rows)
      × (others user_id (update_instance len limits resolve user_id instance_id changes rows).1
          ≡ others user_id rows)
      × (others user_id (delete_instance user_id instance_id rows).1 ≡ others user_id rows)
others-calls len limits resolve user_id instance_id new changes rows = (
  Step-others (create_instance-Step len limits resolve instance_id user_id new rows),
  Step-others (update_instance-Step len limits resolve user_id instance_id changes rows),
  Step-others (delete_instance-Step user_id instance_id rows),
)
