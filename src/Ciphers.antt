-- ===== src/Ciphers.antt =====
-- inference_core/services/content_cipher.py: texts encrypted by Fernet under the keys of the environment. Fernet, `sha256`,
-- `os.environ`, `strip` and `split` are parameters; a call that raises gives none.
pub mod Rings
pub mod Tokens
pub mod Roundtrip
use Prim.Native.String
use Prim.Native.String.{◌++◌}
use Prim.Native.Char.{code}
use backend_template.Prelude.{
  String, ℕ, zero, suc, Bool, true, false, not, ◌&&◌, ◌||◌, ◌==◌, Option, none, some, List, [], ◌∷◌,
  str_eq, if◌then◌else◌,
}
use backend_template.Prelude.{◌++◌ as ◌appended◌}
use backend_template.Prelude.Options.{◌>>=◌}
use backend_template.ParamPolicy.{mem, starts_with}

-- the keys of `_PURPOSES`
pub data Purpose : Type 0 where
  content memory checkpoints : Purpose

abbrev pub purpose_name : Purpose → String
purpose_name content = "content"
purpose_name memory = "memory"
purpose_name checkpoints = "checkpoints"

abbrev pub env_var : Purpose → String
env_var content = "CONTENT_ENCRYPTION_KEY"
env_var memory = "MEMORY_ENCRYPTION_KEY"
env_var checkpoints = "CHECKPOINT_ENCRYPTION_KEY"

-- a purpose and its fallbacks, which form no cycle
abbrev pub chain : Purpose → List Purpose
chain content = content ∷ []
chain memory = memory ∷ content ∷ []
chain checkpoints = checkpoints ∷ content ∷ []

abbrev pub same_purpose : Purpose → Purpose → Bool
same_purpose content content = true
same_purpose memory memory = true
same_purpose checkpoints checkpoints = true
same_purpose _ _ = false

-- `_key_cache`
abbrev pub KeyCache : Type 0
KeyCache = Purpose → Option (List String)

abbrev pub remember : Purpose → List String → KeyCache → KeyCache
remember p keys cache q = if same_purpose p q then some keys else cache q

abbrev pub Environ : Type 0
Environ = String → Option String

-- Fernet: encryption by the number of a random draw, the key and the text, and decryption by the key.
pub record Fernet : Type 0 where
  pub encrypt : ℕ → String → String → Option String
  pub decrypt : String → String → Option String

-- `if key and key not in out: out.append(key)`; the keys are not empty
unfoldable pub add_keys : List String → List String → List String
add_keys [] out = out
add_keys (key ∷ keys) out = add_keys keys (if mem key out then out else out appended (key ∷ []))

-- `str.strip`, and `split(",")`
module _ (strip : String → String) (split : String → List String) where
  unfoldable pub stripped : List String → List String
  stripped [] = []
  stripped (part ∷ parts) =
      let rest = stripped parts in if str_eq (strip part) "" then rest else strip part ∷ rest

  abbrev pub raw_value : Option String → String
  raw_value none = strip ""
  raw_value (some raw) = strip raw

  -- the keys under a purpose's own variable, if it is set
  unfoldable pub ring : Environ → Purpose → Option (List String)
  ring environ p =
      let raw = raw_value (environ (env_var p)) in
      if str_eq raw "" then none else some (stripped (split raw))

  -- the loop of `_resolve_keys`
  unfoldable pub resolve :
      Environ → List Purpose → KeyCache → Option (Purpose × List String) × KeyCache
  resolve environ [] cache = (none, cache)
  resolve environ (p ∷ ps) cache = elim (cache p) [
    | some keys ↦ (some (p, keys), cache)
    | none ↦ elim (ring environ p) [
      | some keys ↦ (some (p, keys), remember p keys cache)
      | none ↦ resolve environ ps cache
    ]
  ]

  -- `_resolve_keys`
  abbrev pub resolve_keys : Environ → Purpose → KeyCache → Option (Purpose × List String) × KeyCache
  resolve_keys environ p = resolve environ (chain p)

  unfoldable pub all_keys : Environ → List Purpose → List String → List String
  all_keys environ [] out = out
  all_keys environ (p ∷ ps) out = elim (ring environ p) [
    | none ↦ all_keys environ ps out
    | some keys ↦ all_keys environ ps (add_keys keys out)
  ]

  -- `_resolve_all_keys`
  abbrev pub resolve_all_keys : Environ → Purpose → List String
  resolve_all_keys environ p = all_keys environ (chain p) []

-- `is_cipher_token`
unfoldable pub is_cipher_token : String → Bool
is_cipher_token value = starts_with "enc.v1." value || starts_with "gAAAA" value

-- what comes after a number of dots
unfoldable pub after_dots : ℕ → String → Option String
after_dots zero s = some s
after_dots (suc n) String.[] = none
after_dots (suc n) (String.◌∷◌ c s) = if code c == 46 then after_dots n s else after_dots (suc n) s

-- the payload: `token.split(".", 4)[4]`, if there are five parts
unfoldable pub payload_of : String → String
payload_of token =
    if starts_with "enc.v1." token
    then elim (after_dots 4 token) [ some payload ↦ payload | none ↦ token ]
    else token

-- the loop of `decrypt_text`
unfoldable pub try_keys : Fernet → List String → String → Option String
try_keys fernet [] payload = none
try_keys fernet (key ∷ keys) payload = elim (fernet.decrypt key payload) [
  | some text ↦ some text
  | none ↦ try_keys fernet keys payload
]

-- the service with its parameters: `_key_id` besides
module _ (strip : String → String) (split : String → List String) (key_id : String → String)
    (fernet : Fernet) where
  -- the end of `encrypt_text`, with the keys
  abbrev pub encrypt_with : ℕ → String → Option (Purpose × List String) → Option String
  encrypt_with draw value none = none
  encrypt_with draw value (some (p, [])) = none
  encrypt_with draw value (some (p, primary ∷ keys)) = do
    token ← fernet.encrypt draw primary value
    some ("enc.v1." ++ purpose_name p ++ "." ++ key_id primary ++ "." ++ token)

  unfoldable pub encrypt_text : ℕ → Environ → Purpose → String → KeyCache → Option String × KeyCache
  encrypt_text draw environ p value cache =
      let (found, after) = resolve_keys strip split environ p cache in
      (encrypt_with draw value found, after)

  unfoldable pub decrypt_text : Environ → Purpose → String → Option String
  decrypt_text environ p token =
      try_keys fernet (resolve_all_keys strip split environ p) (payload_of token)

  -- `enc_field`, where the outer none stands for an exception
  unfoldable pub enc_field :
      ℕ → Environ → Purpose → Bool → Option String → KeyCache → Option (Option String) × KeyCache
  enc_field draw environ p enabled none cache = (some none, cache)
  enc_field draw environ p enabled (some value) cache =
      if str_eq value "" || not enabled || is_cipher_token value
      then (some (some value), cache)
      else let (token, after) = encrypt_text draw environ p value cache in
        (elim token [ none ↦ none | some t ↦ some (some t) ], after)

  unfoldable pub dec_field : Environ → Purpose → Option String → Option String
  dec_field environ p none = none
  dec_field environ p (some value) =
      if is_cipher_token value
      then elim (decrypt_text environ p value) [ none ↦ some value | some text ↦ some text ]
      else some value
