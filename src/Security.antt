-- ===== src/Security.antt =====
-- inference_core/core/security.py: password hashing and the tokens of `SecurityManager`.
-- bcrypt, python-jose and the random source are not part of the repository: they are the fields of
-- `Libs`, and what is relied on of them is `Lawful`.
pub mod Tokens
pub mod Passwords
use backend_template.Prelude.{
  ℕ, ◌+◌, ◌*◌, ◌/◌, ◌%◌, ◌≤◌, String, ◌≡◌, Bool, true, false, ◌&&◌, Option, none, some, List, [],
  ◌∷◌, ◌++◌, take, ltb, leb, ◌==◌, str_eq, if◌then◌else◌,
}

-- The claims that the code reads or writes; an absent key is `none`. Times are in seconds.
pub record Payload : Type 0 where
  pub sub : Option String
  pub kind : Option String
  pub jti : Option String
  pub exp : Option ℕ
  pub nbf : Option ℕ

pub record Libs : Type 0 where
  -- bcrypt.checkpw; `none` is a ValueError or TypeError
  pub checkpw : List ℕ → String → Option Bool
  -- bcrypt.hashpw with bcrypt.gensalt(), by the number of the draw; `none` is a ValueError
  pub hashpw : List ℕ → ℕ → Option String
  -- jwt.encode(claims, key, algorithm)
  pub encode : Payload → String → String → String
  -- jwt.decode(token, key, algorithms=[algorithm]) at a time; `none` is a JWTError
  pub decode : ℕ → String → String → String → Option Payload
  -- secrets.token_urlsafe(nbytes), by the number of the draw
  pub token_urlsafe : ℕ → ℕ → String
  -- uuid.uuid4(), by the number of the draw
  pub uuid4 : ℕ → String
  -- str(UUID(text)); `none` is a ValueError
  pub uuid : String → Option String

-- A claim set that `jwt.decode` accepts at a time.
abbrev pub Timely : ℕ → Payload → Type 0
Timely now p = ((t : ℕ) → p.exp ≡ some t → now ≤ t) × ((t : ℕ) → p.nbf ≡ some t → t ≤ now)

-- What the proofs rely on, where they say so.
pub record Lawful (l : Libs) : Type 0 where
  pub decode-encode :
      (now : ℕ) (p : Payload) (key alg : String)
      → Timely now p
      → l.decode now (l.encode p key alg) key alg ≡ some p
  pub checkpw-hashpw :
      (pw : List ℕ) (n : ℕ) (h : String) → l.hashpw pw n ≡ some h → l.checkpw pw h ≡ some true

-- The settings that the modelled code reads (core/config.py).
pub record Settings : Type 0 where
  pub secret_key : String
  pub algorithm : String
  pub access_token_expire_minutes : ℕ
  pub refresh_token_expire_days : ℕ
  pub auth_email_verification_token_ttl_minutes : ℕ
  pub auth_register_endpoint_enabled : Bool
  pub auth_register_default_active : Bool
  pub auth_send_verification_email_on_register : Bool
  pub auth_login_require_active : Bool
  pub auth_login_require_verified : Bool
  pub auth_forgot_password_endpoint_enabled : Bool
  pub auth_email_verification_makes_active : Bool
  pub redis_refresh_prefix : String
  pub llm_api_access_mode : String
  -- `EMAIL_AVAILABLE`, and whether `get_email_service()` returns a service (auth_service.py)
  pub email_available : Bool
  pub direct_email : Bool

-- `str.encode("utf-8")` of one code point; `none` is the UnicodeEncodeError of a surrogate
unfoldable pub utf8_char : ℕ → Option (List ℕ)
utf8_char c =
    if ltb c 0x80
    then some (c ∷ [])
    else if ltb c 0x800
    then some ((0xc0 + c / 64) ∷ (0x80 + c % 64) ∷ [])
    else if leb 0xd800 c && leb c 0xdfff
    then none
    else if ltb c 0x10000
    then some ((0xe0 + c / 4096) ∷ (0x80 + c / 64 % 64) ∷ (0x80 + c % 64) ∷ [])
    else some
        ((0xf0 + c / 262144) ∷ (0x80 + c / 4096 % 64) ∷ (0x80 + c / 64 % 64) ∷ (0x80 + c % 64) ∷ [])

unfoldable pub utf8 : List ℕ → Option (List ℕ)
unfolding utf8_char
utf8 [] = some []
utf8 (c ∷ s) = elim (utf8_char c) [
  | none ↦ none
  | some b ↦ elim (utf8 s) [ none ↦ none | some bs ↦ some (b ++ bs) ]
]

abbrev pub bcrypt_max_password_bytes : ℕ
bcrypt_max_password_bytes = 72

-- `_encode_password`; a password is the list of its code points
unfoldable pub encode_password : List ℕ → Option (List ℕ)
unfolding utf8
encode_password password = elim (utf8 password) [
  | none ↦ none
  | some b ↦ some (take bcrypt_max_password_bytes b)
]

module _ (l : Libs) where
  -- `SecurityManager.verify_password`: an exception of the encoding or of bcrypt gives False
  unfoldable pub verify_password : List ℕ → String → Bool
  verify_password plain_password hashed_password = elim (encode_password plain_password) [
    | none ↦ false
    | some b ↦ elim (l.checkpw b hashed_password) [ none ↦ false | some same ↦ same ]
  ]

  -- `SecurityManager.get_password_hash` with the salt of draw `n`; `none` is an exception
  unfoldable pub get_password_hash : ℕ → List ℕ → Option String
  get_password_hash n password = elim (encode_password password) [
    | none ↦ none
    | some b ↦ l.hashpw b n
  ]

-- `bool(value)` of an optional text, as `if not user_id_str` reads it
abbrev pub truthy : Option String → Bool
truthy none = false
truthy (some s) = if str_eq s "" then false else true

-- `expires_delta` in minutes' seconds if it is given and not zero, else the configured time
abbrev pub access_seconds : Settings → Option ℕ → ℕ
access_seconds cfg none = cfg.access_token_expire_minutes * 60
access_seconds cfg (some delta) = if delta == 0 then cfg.access_token_expire_minutes * 60 else delta

-- `payload.get("type") == name`
abbrev pub has_kind : String → Payload → Bool
has_kind name p = elim p.kind [ none ↦ false | some k ↦ str_eq k name ]

-- what `verify_token` reads off a decoded token
abbrev pub access_subject : Option Payload → Option String
access_subject none = none
access_subject (some payload) = if has_kind "access" payload then payload.sub else none

-- What the two other checks read off a decoded token. The outer `none` is the KeyError of
-- `decoded_token["sub"]`.
abbrev pub subject_of_kind : String → Option Payload → Option (Option String)
subject_of_kind name none = some none
subject_of_kind name (some payload) =
    if has_kind name payload
    then elim payload.sub [ none ↦ none | some s ↦ some (some s) ]
    else some none

-- Each method at the time `now`; `n` is the number of the random draw that it makes.
module _ (l : Libs) (cfg : Settings) where
  unfoldable pub create_access_token : ℕ → ℕ → Payload → Option ℕ → String
  create_access_token now n claims expires_delta =
      l.encode
        (record claims {
          exp = some (now + access_seconds cfg expires_delta);
          kind = some "access";
          jti = some (l.token_urlsafe 16 n);
        })
        cfg.secret_key cfg.algorithm

  unfoldable pub create_refresh_token : ℕ → ℕ → Payload → String
  create_refresh_token now n claims =
      l.encode
        (record claims {
          exp = some (now + cfg.refresh_token_expire_days * 86400);
          kind = some "refresh";
          jti = some (l.token_urlsafe 24 n);
        })
        cfg.secret_key cfg.algorithm

  unfoldable pub decode : ℕ → String → Option Payload
  decode now token = l.decode now token cfg.secret_key cfg.algorithm

  unfoldable pub verify_token : ℕ → String → Option String
  verify_token now token = access_subject (decode now token)

  unfoldable pub generate_password_reset_token : ℕ → String → String
  generate_password_reset_token now email =
      l.encode
        (record {
          sub = some email;
          kind = some "reset";
          jti = none;
          exp = some (now + 3600);
          nbf = some now;
        })
        cfg.secret_key cfg.algorithm

  unfoldable pub verify_password_reset_token : ℕ → String → Option (Option String)
  verify_password_reset_token now token = subject_of_kind "reset" (decode now token)

  unfoldable pub generate_email_verification_token : ℕ → String → String
  generate_email_verification_token now user_id =
      l.encode
        (record {
          sub = some user_id;
          kind = some "email_verify";
          jti = none;
          exp = some (now + cfg.auth_email_verification_token_ttl_minutes * 60);
          nbf = some now;
        })
        cfg.secret_key cfg.algorithm

  unfoldable pub verify_email_verification_token : ℕ → String → Option (Option String)
  verify_email_verification_token now token = subject_of_kind "email_verify" (decode now token)
