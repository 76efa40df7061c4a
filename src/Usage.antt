-- ===== src/Usage.antt =====
-- inference_core/llm/usage_logging.py: the usage that a request adds up, the costs that it comes to, and the snapshots of
-- prices. A usage is a dict of counts; values that are no counts are left out. Python's arithmetic on floats
-- is a parameter.
pub mod Costs
pub mod Billing
pub mod Fragments
pub mod Snapshots
pub mod Workers
pub mod Schedules
use Prim.Native.String as Text
use backend_template.Prelude.{
  ℕ, ◌+◌, String, str_eq, Bool, true, false, ◌||◌, not, Option, none, some, List, [], ◌∷◌,
  if◌then◌else◌,
}
use backend_template.ParamPolicy.{get, assign, is_some, starts_with}

abbrev pub Dict : Type 0 → Type 0
Dict V = List (String × V)

-- `usage.get(key, 0)`
abbrev pub or_zero : Option ℕ → ℕ
or_zero none = 0
or_zero (some n) = n

-- `part in name`
unfoldable pub contains : String → String → Bool
contains part Text.[] = starts_with part Text.[]
contains part (Text.◌∷◌ c s) = starts_with part (Text.◌∷◌ c s) || contains part s

-- `name.endswith(suffix)`
unfoldable pub ends_with : String → String → Bool
ends_with suffix Text.[] = str_eq suffix Text.[]
ends_with suffix (Text.◌∷◌ c s) = str_eq suffix (Text.◌∷◌ c s) || ends_with suffix s

-- `accumulate` of a fragment
unfoldable pub accumulate : Dict ℕ → Dict ℕ → Dict ℕ
accumulate [] usage = usage
accumulate ((key, n) ∷ fragment) usage =
    accumulate fragment (assign key (or_zero (get key usage) + n) usage)

-- the loop over `key_aliases`
unfoldable pub apply_aliases : Dict String → Dict ℕ → Dict ℕ → Dict ℕ
apply_aliases [] raw d = d
apply_aliases ((provider_key, normalized_key) ∷ aliases) raw d =
    apply_aliases aliases raw
      (elim (get provider_key raw) [ none ↦ d | some n ↦ assign normalized_key n d ])

unfoldable pub copy_rest : Dict ℕ → Dict String → Dict ℕ → Dict ℕ
copy_rest [] aliases d = d
copy_rest ((key, n) ∷ raw) aliases d =
    copy_rest raw aliases (if is_some (get key aliases) then d else assign key n d)

-- `normalize_usage`
unfoldable pub normalize_usage : Dict ℕ → Dict String → Dict ℕ
unfolding apply_aliases copy_rest
normalize_usage raw aliases = copy_rest raw aliases (apply_aliases aliases raw [])
