-- ===== src/Security/Passwords.antt =====
-- Password hashes of core/security.py: round trip and the 72-byte limit.
use backend_template.Prelude.{
  ℕ, String, ◌≡◌, true, false, none, some, List, take, arith, Option-cases, inl, inr,
}
use backend_template.Security.{
  utf8, Libs, Lawful, encode_password, verify_password, get_password_hash,
}

module _ (l : Libs) where
  -- A password verifies against the hash that was made of it, whatever the salt.
  pub verify_password-get_password_hash :
      (law : Lawful l) (n : ℕ) (pw : List ℕ) (h : String)
      → get_password_hash l n pw ≡ some h
      → verify_password l pw h ≡ true
  unfolding verify_password get_password_hash
  verify_password-get_password_hash law n pw h e = elim (Option-cases (encode_password pw)) [
    | inl none_encoded ↦ ground arith
    | inr (b, encoded) ↦ ground (arith, law.checkpw-hashpw b n h)
  ]

module _ (l : Libs) (p q : List ℕ) where
  -- Two passwords whose first 72 bytes of UTF-8 agree are the same password: one verifies exactly
  -- when the other does, and with the same salt they have the same hash.
  bytes_beyond_72 :
      (b c : List ℕ)
      → utf8 p ≡ some b
      → utf8 q ≡ some c
      → take 72 b ≡ take 72 c
      → ((h : String) → verify_password l p h ≡ verify_password l q h)
        × ((n : ℕ) → get_password_hash l n p ≡ get_password_hash l n q)
  unfolding verify_password get_password_hash encode_password
  bytes_beyond_72 b c eb ec same = (λ h. ground arith, λ n. ground arith)

-- A text that UTF-8 cannot encode verifies against no hash, and cannot be hashed.
not_encodable :
    (l : Libs) (p : List ℕ)
    → utf8 p ≡ none
    → ((h : String) → verify_password l p h ≡ false) × ((n : ℕ) → get_password_hash l n p ≡ none)
unfolding verify_password get_password_hash encode_password
not_encodable l p e = (λ h. ground arith, λ n. ground arith)
