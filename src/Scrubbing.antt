-- ===== src/Scrubbing.antt =====
-- inference_core/observability/sentry_scrubbing.py: what is taken out of a value before it leaves the
-- process. The regular expressions, the configured detector of personal data and `str.lower` are
-- parameters.
pub mod Clean
pub mod Detectors
pub mod Events
pub mod Finding
pub mod Sections
pub mod Traces
pub mod Requests
pub mod Outgoing
use backend_template.Prelude.{
  String, ℕ, suc, ◌+◌, Bool, true, false, Option, none, some, List, [], ◌∷◌, ltb, if◌then◌else◌,
}
use backend_template.Values.{
  Key, text, number, Value, null, bool, int, float, str, list, tuple, dict, Items, nil, cons,
  Fields, end, field,
}
use backend_template.Prelude.Int.{ℤ}
use backend_template.ParamPolicy.{mem}

-- `_REDACTED`
abbrev pub redacted : String
redacted = "***REDACTED***"

-- `_SENSITIVE_KEYS`
abbrev pub sensitive_keys : List String
sensitive_keys =
    "password" ∷ "passwd" ∷ "secret" ∷ "api_key" ∷ "apikey" ∷ "token" ∷ "access_token"
    ∷ "refresh_token" ∷ "authorization" ∷ "cookie" ∷ "cookies" ∷ "set-cookie" ∷ "x-api-key"
    ∷ "encrypted_credentials" ∷ "message" ∷ "message_content" ∷ "content" ∷ "body" ∷ "body_text"
    ∷ "body_html" ∷ "prompt" ∷ "email" ∷ "user_email" ∷ "subject" ∷ []

-- `_MAX_DEPTH`
abbrev pub max_depth : ℕ
max_depth = 8

-- the test on a key of a dict, over `str.lower`
unfoldable pub is_sensitive : (String → String) → Key → Bool
is_sensitive lower (text key) = mem (lower key) sensitive_keys
is_sensitive lower (number n) = false

-- the first test of `_redact`
abbrev pub if_shallow : ℕ → Value → Value
if_shallow depth value = if ltb max_depth depth then str redacted else value

-- `str.lower`, and `redact_pii_text`
module _ (lower : String → String) (redact_text : String → String) where
  -- `_redact`
  unfoldable mutual
    pub redact : Value → ℕ → Value
    redact null depth = if_shallow depth null
    redact (bool b) depth = if_shallow depth (bool b)
    redact (int n) depth = if_shallow depth (int n)
    redact (float x) depth = if_shallow depth (float x)
    redact (str s) depth = if_shallow depth (str (redact_text s))
    redact (list items) depth = if_shallow depth (list (redact_items items (suc depth)))
    redact (tuple items) depth = if_shallow depth (tuple (redact_items items (suc depth)))
    redact (dict fields) depth = if_shallow depth (dict (redact_fields fields (suc depth)))

    pub redact_items : Items → ℕ → Items
    redact_items nil depth = nil
    redact_items (cons item items) depth = cons (redact item depth) (redact_items items depth)

    pub redact_fields : Fields → ℕ → Fields
    redact_fields end depth = end
    redact_fields (field key value fields) depth =
        field key (if is_sensitive lower key then str redacted else redact value depth)
          (redact_fields fields depth)
