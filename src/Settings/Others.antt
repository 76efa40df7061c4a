-- ===== src/Settings/Others.antt =====
-- Changes of one user's preferences and the preferences of the others (services/llm_config_service.py).
use mathlib.Core.Option.{some-injective}
use backend_template.Prelude.{
  ℕ, zero, suc, String, ◌≡◌, refl, sym, Bool, true, false, ◌==◌, some, List, [], ◌∷◌, ◌++◌, arith,
  Bool-cases, inl, inr,
}
use backend_template.Values.{Fields}
use backend_template.Settings.{PreferenceType, Preference, Preferences}
use backend_template.Settings.Users.{
  is_preference, is_users_key, put_value, remove_preference, upsert, add_preferences,
  load_user_preferences,
}

-- a test that only rows of one user pass
abbrev OfUser : ℕ → (Preference → Bool) → Type 0
OfUser user test = (p : Preference) → test p ≡ true → p.user_id ≡ user

is_preference-OfUser :
    (user : ℕ) (type : PreferenceType) (key : String) → OfUser user (is_preference user type key)
unfolding is_preference
is_preference-OfUser user type key p h = ground arith

is_users_key-OfUser : (user : ℕ) (key : String) → OfUser user (is_users_key user key)
unfolding is_users_key
is_users_key-OfUser user key p h = ground arith

-- the preferences of one user do not depend on the rows of another
add_preferences-put_value :
    (u user : ℕ)
    → (u == user) ≡ false
    → (test : Preference → Bool) → OfUser user test
    → (value : Fields) (rows : List Preference) (r : Preferences)
    → add_preferences u (put_value test value rows) r ≡ add_preferences u rows r
unfolding add_preferences put_value
add_preferences-put_value u user ne test of value [] r = refl
add_preferences-put_value u user ne test of value (p ∷ ps) r = elim (Bool-cases (test p)) [
  | inl e ↦
      let other : (p.user_id == u) ≡ false = ground (arith, of p) in
      rw (put_value, e, add_preferences, other) refl
  | inr e ↦
      rw (put_value, e, add_preferences) (add_preferences-put_value u user ne test of value ps _)
]

add_preferences-remove :
    (u user : ℕ)
    → (u == user) ≡ false
    → (test : Preference → Bool) → OfUser user test
    → (rows : List Preference) (r : Preferences)
    → add_preferences u (remove_preference test rows) r ≡ add_preferences u rows r
unfolding add_preferences remove_preference
add_preferences-remove u user ne test of [] r = refl
add_preferences-remove u user ne test of (p ∷ ps) r = elim (Bool-cases (test p)) [
  | inl e ↦
      let other : (p.user_id == u) ≡ false = ground (arith, of p) in
      rw (remove_preference, e, add_preferences, other) refl
  | inr e ↦
      rw (remove_preference, e, add_preferences) (add_preferences-remove u user ne test of ps _)
]

add_preferences-append :
    (u : ℕ) (rows : List Preference) (p : Preference) (r : Preferences)
    → (p.user_id == u) ≡ false
    → add_preferences u (rows ++ p ∷ []) r ≡ add_preferences u rows r
unfolding add_preferences
add_preferences-append u [] p r e = rw (add_preferences, e) refl
add_preferences-append u (q ∷ rows) p r e = add_preferences-append u rows p _ e

-- An upsert for one user leaves the preferences of the others.
pub upsert-others :
    (u user : ℕ)
    → (u == user) ≡ false
    → (n : ℕ) (type : PreferenceType) (key : String) (value : Fields) (rows rows' : List Preference)
    → upsert n user type key value rows ≡ some rows'
    → load_user_preferences u rows' ≡ load_user_preferences u rows
unfolding load_user_preferences
upsert-others u user ne zero type key value rows rows' h =
    rw (sym (some-injective _ _ h)) (add_preferences-append u rows _ _ (ground arith))
upsert-others u user ne (suc zero) type key value rows rows' h = rw (sym (some-injective _ _ h)) (
    add_preferences-put_value u user ne (is_preference user type key)
      (is_preference-OfUser user type key) value rows _)
upsert-others u user ne (suc (suc n)) type key value rows rows' h = ground arith

-- So does a deletion.
pub remove-others :
    (u user : ℕ)
    → (u == user) ≡ false
    → (key : String) (rows : List Preference)
    → load_user_preferences u (remove_preference (is_users_key user key) rows)
      ≡ load_user_preferences u rows
unfolding load_user_preferences
remove-others u user ne key rows =
    add_preferences-remove u user ne (is_users_key user key) (is_users_key-OfUser user key) rows _
