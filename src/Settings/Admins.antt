-- ===== src/Settings/Admins.antt =====
-- The overrides of the admins: how services/llm_config_service.py creates, updates and deletes them.
use backend_template.Prelude.{
  ℕ, suc, String, str_eq, Bool, true, false, ◌&&◌, ◌||◌, ◌==◌, Option, none, some, List, [], ◌∷◌,
  ◌++◌, if◌then◌else◌,
}
use backend_template.Prelude.Int.{ℤ}
use backend_template.Values.{Fields}
use backend_template.Settings.{Scope, same_scope, Override, State, invalidate_admin_cache}

unfoldable pub same_key : Option String → Option String → Bool
same_key (some k) (some l) = str_eq k l
same_key _ _ = false

-- the constraint `uq_llm_config_override_scope_key`, in which nulls are distinct
unfoldable pub is_taken : Override → List Override → Bool
is_taken o [] = false
is_taken o (p ∷ ps) =
    (same_scope o.scope p.scope
      && same_key o.scope_key p.scope_key
      && str_eq o.config_key p.config_key)
    || is_taken o ps

unfoldable pub find_override : ℕ → List Override → Option Override
find_override id [] = none
find_override id (o ∷ os) = if o.id == id then some o else find_override id os

unfoldable pub put_override : Override → List Override → List Override
put_override o [] = []
put_override o (p ∷ ps) = let rest = put_override o ps in if p.id == o.id then o ∷ ps else p ∷ rest

unfoldable pub remove_override : ℕ → List Override → List Override
remove_override id [] = []
remove_override id (o ∷ os) =
    let rest = remove_override id os in if o.id == id then rest else o ∷ rest

abbrev pub or_old : {A : Type 0} → A → Option A → A
or_old old none = old
or_old old (some new) = new

-- the keyword arguments of `update_admin_override`: the fields of its request
abbrev pub changed_override :
    Option Fields → Option ℤ → Option Bool → Option ℕ → Override → Override
changed_override config_value priority is_active expires_at o = record o {
  config_value = or_old o.config_value config_value;
  priority = or_old o.priority priority;
  is_active = or_old o.is_active is_active;
  expires_at = elim expires_at [ none ↦ o.expires_at | some t ↦ some t ];
}

abbrev pub new_override : ℕ → Scope → String → Fields → Option String → ℤ → Option ℕ → Override
new_override id scope config_key config_value scope_key priority expires_at = record {
  id = id;
  scope = scope;
  scope_key = scope_key;
  config_key = config_key;
  config_value = config_value;
  priority = priority;
  is_active = true;
  expires_at = expires_at;
}

module _ {R : Type 0} where
  -- `create_admin_override`; none stands for the IntegrityError of the commit
  unfoldable pub create_admin_override :
      Scope → String → Fields → Option String → ℤ → Option ℕ → State R → Option Override × State R
  unfolding is_taken same_key
  create_admin_override scope config_key config_value scope_key priority expires_at s =
      let o = new_override s.drawn scope config_key config_value scope_key priority expires_at in
      if is_taken o s.overrides then (none, s) else (
        some o,
        invalidate_admin_cache
            (record s { overrides = s.overrides ++ o ∷ []; drawn = suc s.drawn }),
      )

  -- `update_admin_override`
  unfoldable pub update_admin_override :
      ℕ → Option Fields → Option ℤ → Option Bool → Option ℕ → State R → Option Override × State R
  unfolding find_override put_override
  update_admin_override id config_value priority is_active expires_at s =
      elim (find_override id s.overrides) [
        | none ↦ (none, s)
        | some o ↦
            let o' = changed_override config_value priority is_active expires_at o in
            (some o', invalidate_admin_cache (record s { overrides = put_override o' s.overrides }))
      ]

  -- `delete_admin_override`
  unfoldable pub delete_admin_override : ℕ → State R → Bool × State R
  unfolding find_override remove_override
  delete_admin_override id s = elim (find_override id s.overrides) [
    | none ↦ (false, s)
    | some o ↦
        (true, invalidate_admin_cache (record s { overrides = remove_override id s.overrides }))
  ]
