-- ===== src/Settings/Unique.antt =====
-- At most one row for a user, type and key (services/llm_config_service.py).
use mathlib.Core.Option.{some-injective}
use backend_template.Prelude.{
  ℕ, zero, suc, ◌+◌, ◌≤◌, String, ◌≡◌, refl, Bool, true, some, List, [], ◌∷◌, arith, Bool-cases,
  inl, inr,
}
use backend_template.Values.{Fields}
use backend_template.Settings.{PreferenceType, Preference}
use backend_template.Settings.Users.{is_preference, count_preferences, upsert}
use backend_template.Prelude.{zero, suc, str_eq, eq_iff, ◌++◌, if◌then◌else◌, sym}
use backend_template.Settings.{same_type, default_model, model_params, agent_params}
use backend_template.Settings.Users.{put_value, remove_preference, new_preference}

-- one row for a user, type and key
abbrev pub IsUnique : List Preference → Type 0
IsUnique rows =
    (u : ℕ) (t : PreferenceType) (k : String) → count_preferences (is_preference u t k) rows ≤ 1

count-append :
    (test : Preference → Bool) (rows : List Preference) (p : Preference)
    → count_preferences test (rows ++ p ∷ [])
      ≡ count_preferences test rows + (if test p then 1 else 0)
unfolding count_preferences
count-append test [] p = ground arith
count-append test (q ∷ rows) p = ground (arith, count-append test rows p)

count-put_value :
    (test test' : Preference → Bool) (value : Fields) (rows : List Preference)
    → ((p : Preference) → test' (record p { preference_value = value; is_active = true }) ≡ test' p)
    → count_preferences test' (put_value test value rows) ≡ count_preferences test' rows
unfolding count_preferences put_value
count-put_value test test' value [] keep = refl
count-put_value test test' value (p ∷ rows) keep = elim (Bool-cases (test p)) [
  | inl e ↦ rw (put_value, e, count_preferences, keep p) refl
  | inr e ↦ rw (put_value, e, count_preferences, count-put_value test test' value rows keep) refl
]

pub count-remove :
    (test test' : Preference → Bool) (rows : List Preference)
    → count_preferences test' (remove_preference test rows) ≤ count_preferences test' rows
unfolding count_preferences remove_preference
count-remove test test' [] = omega arith
count-remove test test' (p ∷ rows) = ground (arith, count-remove test test' rows)

same_type-eq : (t t' : PreferenceType) → same_type t t' ≡ true → t ≡ t'
same_type-eq default_model default_model h = refl
same_type-eq model_params model_params h = refl
same_type-eq agent_params agent_params h = refl
same_type-eq default_model model_params h = ground arith
same_type-eq default_model agent_params h = ground arith
same_type-eq model_params default_model h = ground arith
same_type-eq model_params agent_params h = ground arith
same_type-eq agent_params default_model h = ground arith
same_type-eq agent_params model_params h = ground arith

-- the row that an upsert adds passes the test for its own type and key alone
is_preference-new :
    (u u' : ℕ) (t t' : PreferenceType) (k k' : String) (value : Fields) (rows : List Preference)
    → is_preference u' t' k' (new_preference u t k value) ≡ true
    → count_preferences (is_preference u' t' k') rows ≡ count_preferences (is_preference u t k) rows
unfolding is_preference
is_preference-new u u' t t' k k' value rows h =
    let same_u : u' ≡ u = ground arith in
    let same_t : same_type t t' ≡ true = ground arith in
    let same_k : str_eq k k' ≡ true = ground arith in
    rw (same_u, sym (same_type-eq t t' same_t), sym ((eq_iff k k').0 same_k)) refl

pub upsert-IsUnique :
    (n user : ℕ) (type : PreferenceType) (key : String) (value : Fields)
    (rows rows' : List Preference)
    → n ≡ count_preferences (is_preference user type key) rows
    → upsert n user type key value rows ≡ some rows'
    → IsUnique rows
    → IsUnique rows'
upsert-IsUnique zero user type key value rows rows' c h one u t k =
    rw
      (
        sym (some-injective _ _ h),
        count-append (is_preference u t k) rows (new_preference user type key value),
      )
      (elim (Bool-cases (is_preference u t k (new_preference user type key value))) [
        | inl e ↦
            let same = is_preference-new user u type t key k value rows e in
            rw e (omega (arith, same, c))
        | inr e ↦ let before = one u t k in rw e (omega (arith, before))
      ])
upsert-IsUnique (suc zero) user type key value rows rows' c h one u t k =
    rw
      (
        sym (some-injective _ _ h),
        count-put_value (is_preference user type key) (is_preference u t k) value rows
            (λ p. unfold is_preference in refl),
      )
      (one u t k)
upsert-IsUnique (suc (suc n)) user type key value rows rows' c h one u t k = ground arith
