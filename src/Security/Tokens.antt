-- ===== src/Security/Tokens.antt =====
-- The kinds of token of core/security.py, and which check accepts which.
use backend_template.Prelude.{
  ℕ, ◌+◌, ◌*◌, ◌≤◌, String, ◌≡◌, ap, Bool, true, false, Option, none, some, arith, if◌then◌else◌,
}
use backend_template.Security.{
  Payload, Libs, Lawful, Settings, access_seconds, create_access_token, create_refresh_token,
  decode, verify_token, generate_password_reset_token, verify_password_reset_token, access_subject,
  subject_of_kind, generate_email_verification_token, verify_email_verification_token,
}

pub data Kind : Type 0 where
  access refresh reset email_verify : Kind

-- the claims `{"sub": subject}` that every caller passes
abbrev pub subject_claims : String → Payload
subject_claims s = record { sub = some s; kind = none; jti = none; exp = none; nbf = none }

-- the three checks that turn a token into a subject
pub data Check : Type 0 where
  access_check reset_check email_check : Check

abbrev pub expects : Check → Kind → Bool
expects access_check access = true
expects reset_check reset = true
expects email_check email_verify = true
expects _ _ = false

-- how long a token of each kind lives, in seconds
abbrev pub lifetime : Settings → Kind → ℕ
lifetime cfg access = access_seconds cfg none
lifetime cfg refresh = cfg.refresh_token_expire_days * 86400
lifetime cfg reset = 3600
lifetime cfg email_verify = cfg.auth_email_verification_token_ttl_minutes * 60

module _ (l : Libs) (cfg : Settings) where
  -- the token of a kind that is minted at a time for a subject
  abbrev pub mint : Kind → ℕ → ℕ → String → String
  mint access now n s = create_access_token l cfg now n (subject_claims s) none
  mint refresh now n s = create_refresh_token l cfg now n (subject_claims s)
  mint reset now n s = generate_password_reset_token l cfg now s
  mint email_verify now n s = generate_email_verification_token l cfg now s

  -- what each check returns; the outer `none` is an exception
  abbrev pub checked : Check → ℕ → String → Option (Option String)
  checked access_check now token = some (verify_token l cfg now token)
  checked reset_check now token = verify_password_reset_token l cfg now token
  checked email_check now token = verify_email_verification_token l cfg now token

  -- the claims of a minted token
  abbrev pub minted : Kind → ℕ → ℕ → String → Payload
  minted access now n s = record (subject_claims s) {
    exp = some (now + access_seconds cfg none);
    kind = some "access";
    jti = some (l.token_urlsafe 16 n);
  }
  minted refresh now n s = record (subject_claims s) {
    exp = some (now + cfg.refresh_token_expire_days * 86400);
    kind = some "refresh";
    jti = some (l.token_urlsafe 24 n);
  }
  minted reset now n s = record {
    sub = some s;
    kind = some "reset";
    jti = none;
    exp = some (now + 3600);
    nbf = some now;
  }
  minted email_verify now n s = record {
    sub = some s;
    kind = some "email_verify";
    jti = none;
    exp = some (now + cfg.auth_email_verification_token_ttl_minutes * 60);
    nbf = some now;
  }

  module _ (law : Lawful l) where
    pub decode-mint :
        (k : Kind) (now n : ℕ) (s : String) (later : ℕ)
        → now ≤ later
        → later ≤ now + lifetime cfg k
        → decode l cfg later (mint k now n s) ≡ some (minted k now n s)
    unfolding decode create_access_token create_refresh_token generate_password_reset_token
        generate_email_verification_token
    decode-mint access now n s later h g =
        law.decode-encode later (minted access now n s) cfg.secret_key cfg.algorithm
          (λ t e. ground arith, λ t e. ground arith)
    decode-mint refresh now n s later h g =
        law.decode-encode later (minted refresh now n s) cfg.secret_key cfg.algorithm
          (λ t e. ground arith, λ t e. ground arith)
    decode-mint reset now n s later h g =
        law.decode-encode later (minted reset now n s) cfg.secret_key cfg.algorithm
          (λ t e. ground arith, λ t e. ground arith)
    decode-mint email_verify now n s later h g =
        law.decode-encode later (minted email_verify now n s) cfg.secret_key cfg.algorithm
          (λ t e. ground arith, λ t e. ground arith)

    -- During its life a token passes the check of its own kind, which returns its subject, and is
    -- refused by each of the others, none of which raises: a refresh, reset or verification token
    -- is no access token, and so on for every pair.
    pub checked-mint :
        (c : Check) (k : Kind) (now n : ℕ) (s : String) (later : ℕ)
        → now ≤ later
        → later ≤ now + lifetime cfg k
        → checked c later (mint k now n s) ≡ some (if expects c k then some s else none)
    unfolding verify_token verify_password_reset_token verify_email_verification_token
    checked-mint access_check access now n s later h g =
        ap (λ p. some (access_subject p)) (decode-mint access now n s later h g)
    checked-mint access_check refresh now n s later h g =
        ap (λ p. some (access_subject p)) (decode-mint refresh now n s later h g)
    checked-mint access_check reset now n s later h g =
        ap (λ p. some (access_subject p)) (decode-mint reset now n s later h g)
    checked-mint access_check email_verify now n s later h g =
        ap (λ p. some (access_subject p)) (decode-mint email_verify now n s later h g)
    checked-mint reset_check access now n s later h g =
        ap (λ p. subject_of_kind "reset" p) (decode-mint access now n s later h g)
    checked-mint reset_check refresh now n s later h g =
        ap (λ p. subject_of_kind "reset" p) (decode-mint refresh now n s later h g)
    checked-mint reset_check reset now n s later h g =
        ap (λ p. subject_of_kind "reset" p) (decode-mint reset now n s later h g)
    checked-mint reset_check email_verify now n s later h g =
        ap (λ p. subject_of_kind "reset" p) (decode-mint email_verify now n s later h g)
    checked-mint email_check access now n s later h g =
        ap (λ p. subject_of_kind "email_verify" p) (decode-mint access now n s later h g)
    checked-mint email_check refresh now n s later h g =
        ap (λ p. subject_of_kind "email_verify" p) (decode-mint refresh now n s later h g)
    checked-mint email_check reset now n s later h g =
        ap (λ p. subject_of_kind "email_verify" p) (decode-mint reset now n s later h g)
    checked-mint email_check email_verify now n s later h g =
        ap (λ p. subject_of_kind "email_verify" p) (decode-mint email_verify now n s later h g)
