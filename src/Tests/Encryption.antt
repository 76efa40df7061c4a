-- ===== src/Tests/Encryption.antt =====
-- A key for all content, and a key for memory that is added later.
use backend_template.Prelude.{
  String, ◌≡◌, refl, true, false, ◌&&◌, none, some, List, [], ◌∷◌, str_eq, eq_iff, arith,
  if◌then◌else◌,
}
use backend_template.Ciphers.{
  Purpose, content, memory, checkpoints, Environ, Fernet, ring, stripped, encrypt_text, resolve,
  enc_field, dec_field, is_cipher_token, after_dots,
}
use backend_template.Ciphers.Roundtrip.{Lawful, no_cache, dec_field-enc_field}

-- a cipher for one text
abbrev fernet : Fernet
fernet = record {
  encrypt = λ draw k v. if str_eq k "a" && str_eq v "hello" then some "token" else none;
  decrypt = λ k t. if str_eq k "a" && str_eq t "token" then some "hello" else none;
}

abbrev key_id : String → String
key_id k = "0a"

fernet-Lawful : Lawful fernet key_id
unfolding after_dots
fernet-Lawful = record {
  same_key = λ draw k v t e. ground (arith, eq_iff k "a", eq_iff v "hello", eq_iff t "token");
  other_key = λ draw k k' v t e h. ground (arith, eq_iff k "a", eq_iff k' "a", eq_iff k' k);
  no_dot = λ k. refl;
}

abbrev strip : String → String
strip s = s

abbrev split : String → List String
split s = s ∷ []

abbrev environ : Environ
environ var = if str_eq var "CONTENT_ENCRYPTION_KEY" then some "a" else none

abbrev later : Environ
later var = if str_eq var "MEMORY_ENCRYPTION_KEY" then some "b" else environ var

keys_are_kept :
    (p : Purpose) (keys : List String)
    → ring strip split environ p ≡ some keys
    → ring strip split later p ≡ some keys
unfolding ring stripped
keys_are_kept content keys h = h
keys_are_kept memory keys h = ground arith
keys_are_kept checkpoints keys h = h

abbrev stored : String
stored = "enc.v1.content.0a.token"

encrypted :
    (enc_field strip split key_id fernet 0 environ memory true (some "hello") no_cache).0
    ≡ some (some stored)
unfolding enc_field encrypt_text resolve ring stripped is_cipher_token
    backend_template.ParamPolicy.starts_with
encrypted = refl

plain : is_cipher_token "hello" ≡ false
unfolding is_cipher_token backend_template.ParamPolicy.starts_with
plain = refl

dec_field-enc_field_example :
    dec_field strip split key_id fernet later memory (some stored) ≡ some "hello"
dec_field-enc_field_example =
    dec_field-enc_field strip split key_id fernet fernet-Lawful environ later keys_are_kept 0 memory
      true "hello" (some stored) plain encrypted
