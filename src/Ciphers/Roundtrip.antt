-- ===== src/Ciphers/Roundtrip.antt =====
-- What is encrypted decrypts (services/content_cipher.py).
use Prim.Native.String.{◌++◌}
use mathlib.Core.Option.{some-injective}
use backend_template.Prelude.{
  String, ℕ, ◌≡◌, refl, sym, Bool, true, false, not, ◌||◌, Option, none, some, List, [], ◌∷◌,
  str_eq, eq_iff, arith, Bool-cases, Option-cases, inl, inr,
}
use backend_template.ParamPolicy.{mem}
use backend_template.Ciphers.{
  Purpose, purpose_name, chain, KeyCache, Environ, Fernet, ring, resolve, resolve_all_keys,
  try_keys, is_cipher_token, after_dots, encrypt_with, encrypt_text, decrypt_text, enc_field,
  dec_field,
}
use backend_template.Ciphers.Tokens.{starts_with-append, payload_of_lem}
use backend_template.Ciphers.Rings.{resolve-all_keys}

-- What is relied on: Fernet decrypts with the key that encrypted, and refuses every other key; the hexadecimal
-- identifier of a key has no dot.
pub record Lawful (fernet : Fernet) (key_id : String → String) : Type 0 where
  pub same_key :
      (draw : ℕ) (k v t : String) → fernet.encrypt draw k v ≡ some t → fernet.decrypt k t ≡ some v
  pub other_key :
      (draw : ℕ) (k k' v t : String)
      → fernet.encrypt draw k v ≡ some t
      → str_eq k' k ≡ false
      → fernet.decrypt k' t ≡ none
  pub no_dot : (k : String) → after_dots 1 (key_id k) ≡ none

abbrev pub no_cache : KeyCache
no_cache p = none

-- the keys of a ring in turn, one of which encrypted
try_keys-Lawful :
    (fernet : Fernet) (key_id : String → String)
    → Lawful fernet key_id
    → (draw : ℕ) (k v t : String) → fernet.encrypt draw k v ≡ some t
    → (keys : List String) → mem k keys ≡ true
    → try_keys fernet keys t ≡ some v
unfolding try_keys mem
try_keys-Lawful fernet key_id law draw k v t e [] h = ground arith
try_keys-Lawful fernet key_id law draw k v t e (key ∷ keys) h = elim (Bool-cases (str_eq key k)) [
  | inl same ↦ rw (try_keys, (eq_iff key k).0 same, law.same_key draw k v t e) refl
  | inr other ↦
      rw (try_keys, law.other_key draw k key v t e other)
        (try_keys-Lawful fernet key_id law draw k v t e keys (rw other at h))
]

module _ (strip : String → String) (split : String → List String) (key_id : String → String)
    (fernet : Fernet) where
  -- how a token comes about
  encrypt_with-some :
      (draw : ℕ) (v token : String) (found : Option (Purpose × List String))
      → encrypt_with strip split key_id fernet draw v found ≡ some token
      → (p : Purpose) × (k : String) × (keys : List String) × (t : String) × (found
          ≡ some (p, k ∷ keys))
        × (fernet.encrypt draw k v ≡ some t)
        × (token ≡ "enc.v1." ++ purpose_name p ++ "." ++ key_id k ++ "." ++ t)
  encrypt_with-some draw v token none h = ground arith
  encrypt_with-some draw v token (some (p, [])) h = ground arith
  encrypt_with-some draw v token (some (p, k ∷ keys)) h =
      elim (Option-cases (fernet.encrypt draw k v)) [
        | inl e ↦ ground arith
        | inr (t, e) ↦
            (p, k, keys, t, refl, e, sym (some-injective _ _ (rw (encrypt_with, e) at h)))
      ]

  module _ (law : Lawful fernet key_id) (environ later : Environ)
      (kept : (p : Purpose) (keys : List String)
        → ring strip split environ p ≡ some keys
        → ring strip split later p ≡ some keys) where
    -- A text that is encrypted under a purpose, with no key in the cache, decrypts under that purpose: in the same
    -- environment, and in one to which keys of further purposes were added while the variables that were set keep
    -- their keys.
    decrypt_text-encrypt_text :
        (draw : ℕ) (p : Purpose) (v token : String)
        → (encrypt_text strip split key_id fernet draw environ p v no_cache).0 ≡ some token
        → decrypt_text strip split key_id fernet later p token ≡ some v
    unfolding encrypt_text decrypt_text
    decrypt_text-encrypt_text draw p v token h =
        let (q, k, keys, t, found, made, is_token) =
          encrypt_with-some draw v token (resolve strip split environ (chain p) no_cache).0 h in
        let in_ring = resolve-all_keys strip split environ later kept (chain p) q k keys [] found in
        rw (is_token, payload_of_lem q (key_id k) t (law.no_dot k))
          (try_keys-Lawful fernet key_id law draw k v t made (resolve_all_keys strip split later p)
            in_ring)

    token-is_cipher_token :
        (draw : ℕ) (p : Purpose) (v token : String)
        → (encrypt_text strip split key_id fernet draw environ p v no_cache).0 ≡ some token
        → is_cipher_token token ≡ true
    unfolding encrypt_text is_cipher_token
    token-is_cipher_token draw p v token h =
        let (q, k, keys, t, found, made, is_token) =
          encrypt_with-some draw v token (resolve strip split environ (chain p) no_cache).0 h in
        rw (is_token, starts_with-append "enc.v1." (purpose_name q ++ "." ++ key_id k ++ "." ++ t))
          refl

    -- A field that is written with or without encryption reads as the value that was written, in the same
    -- environments, unless the value itself looks like a token.
    pub dec_field-enc_field :
        (draw : ℕ) (p : Purpose) (enabled : Bool) (v : String) (stored : Option String)
        → is_cipher_token v ≡ false
        → (enc_field strip split key_id fernet draw environ p enabled (some v) no_cache).0
          ≡ some stored
        → dec_field strip split key_id fernet later p stored ≡ some v
    unfolding enc_field dec_field
    dec_field-enc_field draw p enabled v stored plain h =
        elim (Bool-cases (str_eq v "" || not enabled || is_cipher_token v)) [
          | inl e ↦ rw (sym (some-injective _ _ (rw (enc_field, e) at h)), plain) refl
          | inr e ↦
              elim (Option-cases
                (encrypt_text strip split key_id fernet draw environ p v no_cache).0) [
                  | inl f ↦
                      let raised : none ≡ some stored = rw (enc_field, e, f) at h in ground arith
                  | inr (t, f) ↦
                      let is_stored : some t ≡ stored =
                        some-injective _ _ (rw (enc_field, e, f) at h) in
                      rw
                        (
                          sym is_stored,
                          token-is_cipher_token draw p v t f,
                          decrypt_text-encrypt_text draw p v t f,
                        )
                        refl
                ]
        ]
