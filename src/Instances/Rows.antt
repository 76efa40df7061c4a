-- ===== src/Instances/Rows.antt =====
-- What a call may do to the table of instances (services/user_agent_instance_service.py).
use backend_template.Prelude.{
  String, ℕ, ◌≡◌, refl, Bool, false, not, ◌&&◌, Option, none, some, List, [], ◌∷◌, ◌++◌, eq_iff,
  arith, Bool-cases, Option-cases, inl, inr, if◌then◌else◌,
}
use backend_template.Instances.{
  Instance, Answer, ok, value_error, multiple_results, Resolved, Limits, NewInstance, Changes,
  ConfigOverrides, select, is_instance, one_or_none, get_instance, get_instance_by_name,
  clear_user_defaults, put_row, delete_row, create_instance, update_instance, delete_instance,
  insert_new, write_changes, changed, built, new_subagents, changed_subagents, takes_default, set,
  is_rejected, is_rejected_update, prompts_too_long,
}
use backend_template.Instances.Overrides.{normalize_and_validate}

abbrev pub clear_if : Bool → String → List Instance → List Instance
clear_if b user_id rows = if b then clear_user_defaults user_id rows else rows

-- A change of the table on behalf of a user.
pub data Step (user_id : String) (rows : List Instance) : List Instance → Type 0 where
  unchanged : Step user_id rows rows
  added :
      (new : Instance)
      → new.user_id ≡ user_id
      → Step user_id rows (clear_if new.is_default user_id rows ++ (new ∷ []))
  put :
      (instance_id : String) (old new : Instance) (b : Bool)
      → select (is_instance user_id instance_id) rows ≡ old ∷ []
      → new.user_id ≡ user_id
      → (new.is_default && not old.is_default && not b) ≡ false
      → Step user_id rows (put_row user_id instance_id new (clear_if b user_id rows))
  deleted : (instance_id : String) → Step user_id rows (delete_row user_id instance_id rows)

one_or_none_lem :
    (rows : List Instance) (i : Instance) → one_or_none rows ≡ ok (some i) → rows ≡ i ∷ []
one_or_none_lem [] i h = ground arith
one_or_none_lem (row ∷ []) i h = ground arith
one_or_none_lem (row ∷ other ∷ rows) i h = ground arith

found_row :
    (user_id instance_id : String) (rows : List Instance) (i : Instance)
    → get_instance user_id instance_id rows ≡ ok (some i)
    → select (is_instance user_id instance_id) rows ≡ i ∷ []
unfolding get_instance
found_row user_id instance_id rows i h =
    one_or_none_lem (select (is_instance user_id instance_id) rows) i h

-- the row that is found belongs to the user
select-user :
    (user_id instance_id : String) (rows : List Instance) (i : Instance)
    → select (is_instance user_id instance_id) rows ≡ i ∷ []
    → i.user_id ≡ user_id
unfolding select
select-user user_id instance_id [] i h = ground arith
select-user user_id instance_id (row ∷ rows) i h =
    ground (arith, select-user user_id instance_id rows i, eq_iff row.user_id user_id)

insert_new-Step :
    (id user_id : String) (new : NewInstance) (c : Option ConfigOverrides) (rows : List Instance)
    → Step user_id rows (insert_new id user_id new c rows).1
insert_new-Step id user_id new c rows =
    by_name (get_instance_by_name user_id new.instance_name rows) refl
  where
    by_name :
        (a : Answer (Option Instance))
        → get_instance_by_name user_id new.instance_name rows ≡ a
        → Step user_id rows (insert_new id user_id new c rows).1
    by_name multiple_results e = rw (insert_new, e) Step.unchanged
    by_name value_error e = rw (insert_new, e) Step.unchanged
    by_name (ok (some existing)) e = rw (insert_new, e) Step.unchanged
    by_name (ok none) e = elim (Option-cases (new_subagents user_id new rows)) [
      | inl f ↦ rw (insert_new, e, f) Step.unchanged
      | inr (subagents, f) ↦
          rw (insert_new, e, f) (Step.added (built id user_id new c subagents) refl)
    ]

takes_default_lem :
    (changes : Changes) (i : Instance)
    → (set changes.is_default i.is_default && not i.is_default && not (takes_default changes i))
      ≡ false
takes_default_lem changes i = ground arith

write_changes-Step :
    (user_id instance_id : String) (changes : Changes) (c : Option ConfigOverrides) (i : Instance)
    (rows : List Instance)
    → select (is_instance user_id instance_id) rows ≡ i ∷ []
    → Step user_id rows (write_changes user_id instance_id changes c i rows).1
unfolding changed
write_changes-Step user_id instance_id changes c i rows found =
    elim (Option-cases (changed_subagents user_id changes i rows)) [
      | inl e ↦ rw (write_changes, e) Step.unchanged
      | inr (subagents, e) ↦
          rw (write_changes, e)
            (Step.put instance_id i (changed changes c subagents i) (takes_default changes i) found
              (select-user user_id instance_id rows i found) (takes_default_lem changes i))
    ]

module _ (len : String → ℕ) (limits : Limits) (resolve : String → Resolved) where
  pub create_instance-Step :
      (id user_id : String) (new : NewInstance) (rows : List Instance)
      → Step user_id rows (create_instance len limits resolve id user_id new rows).1
  unfolding create_instance
  create_instance-Step id user_id new rows =
      elim (Bool-cases (is_rejected len limits (resolve user_id) new)) [
        | inl e ↦ rw (create_instance, e) Step.unchanged
        | inr e ↦
            elim (Option-cases
              (normalize_and_validate (resolve user_id).available_models new.config_overrides)) [
                | inl f ↦ rw (create_instance, e, f) Step.unchanged
                | inr (c, f) ↦ rw (create_instance, e, f) (insert_new-Step id user_id new c rows)
              ]
      ]

  pub update_instance-Step :
      (user_id instance_id : String) (changes : Changes) (rows : List Instance)
      → Step user_id rows (update_instance len limits resolve user_id instance_id changes rows).1
  unfolding update_instance
  update_instance-Step user_id instance_id changes rows =
      elim (Bool-cases
        (prompts_too_long len limits changes.system_prompt_override changes.system_prompt_append)) [
          | inl e ↦ rw (update_instance, e) Step.unchanged
          | inr e ↦ by_row e (get_instance user_id instance_id rows) refl
        ]
    where
      by_row :
          prompts_too_long len limits changes.system_prompt_override changes.system_prompt_append
            ≡ false
          → (a : Answer (Option Instance)) → get_instance user_id instance_id rows ≡ a
          → Step user_id rows
              (update_instance len limits resolve user_id instance_id changes rows).1
      by_row e multiple_results f = rw (update_instance, e, f) Step.unchanged
      by_row e value_error f = rw (update_instance, e, f) Step.unchanged
      by_row e (ok none) f = rw (update_instance, e, f) Step.unchanged
      by_row e (ok (some i)) f = elim (Bool-cases (is_rejected_update (resolve user_id) changes)) [
        | inl g ↦ rw (update_instance, e, f, g) Step.unchanged
        | inr g ↦
            elim (Option-cases (
              normalize_and_validate (resolve user_id).available_models changes.config_overrides)) [
                | inl h ↦ rw (update_instance, e, f, g, h) Step.unchanged
                | inr (c, h) ↦
                    rw (update_instance, e, f, g, h)
                      (write_changes-Step user_id instance_id changes c i rows
                        (found_row user_id instance_id rows i f))
              ]
      ]

pub delete_instance-Step :
    (user_id instance_id : String) (rows : List Instance)
    → Step user_id rows (delete_instance user_id instance_id rows).1
unfolding delete_instance
delete_instance-Step user_id instance_id rows = by_row (get_instance user_id instance_id rows) refl
  where
    by_row :
        (a : Answer (Option Instance))
        → get_instance user_id instance_id rows ≡ a
        → Step user_id rows (delete_instance user_id instance_id rows).1
    by_row multiple_results e = rw (delete_instance, e) Step.unchanged
    by_row value_error e = rw (delete_instance, e) Step.unchanged
    by_row (ok none) e = rw (delete_instance, e) Step.unchanged
    by_row (ok (some i)) e = rw (delete_instance, e) (Step.deleted instance_id)
