-- ===== src/Settings/Stored.antt =====
-- A preference that is stored, and what is read back (services/llm_config_service.py).
use mathlib.Core.Option.{some-injective}
use backend_template.Prelude.{
  ℕ, zero, suc, String, str_eq, eq_iff, ◌≡◌, refl, sym, ap, ◌∙◌, Bool, true, ◌&&◌, ◌==◌, ==_iff,
  Option, some, List, [], ◌∷◌, ◌++◌, arith, Bool-cases, inl, inr, if◌then◌else◌,
}
use backend_template.Values.{Fields}
use backend_template.Settings.{
  PreferenceType, default_model, model_params, agent_params, same_type, Preference, Preferences,
  Dict,
}
use backend_template.Settings.Users.{
  is_preference, count_preferences, put_value, upsert, add_preferences, add_preference_to,
  load_user_preferences,
}
use backend_template.ParamPolicy.{get}
use backend_template.ParamPolicy.Targets.{get-assign}

abbrev pub dict_of : PreferenceType → Preferences → Dict Fields
dict_of default_model r = r.default_model_dict
dict_of model_params r = r.model_params_dict
dict_of agent_params r = r.agent_params_dict

get-add_preference_to :
    (type t : PreferenceType) (key : String) (p : Preference) (r : Preferences)
    → get key (dict_of type (add_preference_to t p r)) ≡ (
        if same_type t type && str_eq p.preference_key key
        then some p.preference_value
        else get key (dict_of type r))
get-add_preference_to default_model default_model key p r = get-assign key _ _ r.default_model_dict
get-add_preference_to model_params model_params key p r = get-assign key _ _ r.model_params_dict
get-add_preference_to agent_params agent_params key p r = get-assign key _ _ r.agent_params_dict
get-add_preference_to default_model model_params key p r = refl
get-add_preference_to default_model agent_params key p r = refl
get-add_preference_to model_params default_model key p r = refl
get-add_preference_to model_params agent_params key p r = refl
get-add_preference_to agent_params default_model key p r = refl
get-add_preference_to agent_params model_params key p r = refl

-- the last active row of a user for a type and key
last_value : (Preference → Bool) → List Preference → Option Fields → Option Fields
last_value test [] old = old
last_value test (p ∷ ps) old =
    last_value test ps (if test p && p.is_active then some p.preference_value else old)

get-add_preferences :
    (u : ℕ) (type : PreferenceType) (key : String) (ps : List Preference) (r : Preferences)
    → get key (dict_of type (add_preferences u ps r))
      ≡ last_value (is_preference u type key) ps (get key (dict_of type r))
unfolding add_preferences last_value is_preference
get-add_preferences u type key [] r = refl
get-add_preferences u type key (p ∷ ps) r =
    get-add_preferences u type key ps _
    ∙ ap (last_value (is_preference u type key) ps)
        (elim (Bool-cases ((p.user_id == u) && p.is_active)) [
          | inl e ↦ rw (e, get-add_preference_to type p.preference_type key p r) (ground arith)
          | inr e ↦ rw e (ground arith)
        ])

last_value-append :
    (test : Preference → Bool) (ps : List Preference) (p : Preference) (old : Option Fields)
    → test p ≡ true
    → p.is_active ≡ true
    → last_value test (ps ++ p ∷ []) old ≡ some p.preference_value
unfolding last_value
last_value-append test [] p old e f = rw (e, f) refl
last_value-append test (q ∷ ps) p old e f = last_value-append test ps p _ e f

last_value-none :
    (test : Preference → Bool) (ps : List Preference) (old : Option Fields)
    → count_preferences test ps ≡ 0
    → last_value test ps old ≡ old
unfolding last_value count_preferences
last_value-none test [] old h = refl
last_value-none test (p ∷ ps) old h = elim (Bool-cases (test p)) [
  | inl e ↦
      let i : suc (count_preferences test ps) ≡ 0 = rw (count_preferences, e) at h in ground arith
  | inr e ↦ rw (last_value, e) (last_value-none test ps old (rw (count_preferences, e) at h))
]

last_value-put_value :
    (test : Preference → Bool) (value : Fields) (ps : List Preference) (old : Option Fields)
    → count_preferences test ps ≡ 1
    → ((p : Preference) → test (record p { preference_value = value; is_active = true }) ≡ test p)
    → last_value test (put_value test value ps) old ≡ some value
unfolding last_value put_value count_preferences
last_value-put_value test value [] old h keep = ground arith
last_value-put_value test value (p ∷ ps) old h keep = elim (Bool-cases (test p)) [
  | inl e ↦
      let i : suc (count_preferences test ps) ≡ 1 = rw (count_preferences, e) at h in
      rw (put_value, e, last_value, keep p, e)
        (last_value-none test ps (some value) (omega (arith, i)))
  | inr e ↦
      rw (put_value, e, last_value, e)
        (last_value-put_value test value ps old (rw (count_preferences, e) at h) keep)
]

keep_preference :
    (u : ℕ) (type : PreferenceType) (key : String) (value : Fields) (p : Preference)
    → is_preference u type key (record p { preference_value = value; is_active = true })
      ≡ is_preference u type key p
unfolding is_preference
keep_preference u type key value p = refl

same_type_self : (t : PreferenceType) → same_type t t ≡ true
same_type_self default_model = refl
same_type_self model_params = refl
same_type_self agent_params = refl

is_preference_self :
    (u : ℕ) (type : PreferenceType) (key : String) (value : Fields)
    → is_preference u type key (record {
      user_id = u;
      preference_type = type;
      preference_key = key;
      preference_value = value;
      is_active = true;
    })
      ≡ true
unfolding is_preference
is_preference_self u type key value =
    rw ((==_iff u u).1 refl, same_type_self type, (eq_iff key key).1 refl) refl

-- What an upsert writes is read back.
pub upsert-load :
    (n user : ℕ) (type : PreferenceType) (key : String) (value : Fields)
    (rows rows' : List Preference)
    → n ≡ count_preferences (is_preference user type key) rows
    → upsert n user type key value rows ≡ some rows'
    → get key (dict_of type (load_user_preferences user rows')) ≡ some value
unfolding load_user_preferences
upsert-load zero user type key value rows rows' c h =
    get-add_preferences user type key rows' _
    ∙ rw (sym (some-injective _ _ h)) (
        last_value-append (is_preference user type key) rows _ _
          (is_preference_self user type key value) refl)
upsert-load (suc zero) user type key value rows rows' c h =
    get-add_preferences user type key rows' _
    ∙ rw (sym (some-injective _ _ h)) (
        last_value-put_value (is_preference user type key) value rows _ (sym c)
          (keep_preference user type key value))
upsert-load (suc (suc n)) user type key value rows rows' c h = ground arith
