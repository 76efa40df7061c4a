-- ===== src/Scrubbing/Requests.antt =====
-- What `scrub_event` leaves of a request (observability/sentry_scrubbing.py).
use backend_template.Prelude.{
  String, ◌≡◌, refl, ◌∙◌, true, false, Option, none, some, List, [], ◌∷◌, str_eq, Option-cases,
  Bool-cases, inl, inr, if◌then◌else◌,
}
use backend_template.Values.{
  text, number, Value, null, bool, int, float, str, list, tuple, dict, Fields, end, field, is_key,
  find, put,
}
use backend_template.Prelude.Options.{◌>>=◌}
use backend_template.ParamPolicy.{mem}
use backend_template.Scrubbing.{redact}
use backend_template.Scrubbing.Clean.{IsClean}
use backend_template.Scrubbing.Events.{request_step}
use backend_template.Scrubbing.Finding.{find-put, ends}
use backend_template.Scrubbing.Clean.{redact-IsClean_at}
use backend_template.Scrubbing.Events.{allowed_headers, keep_headers, copy_redacted, scrub_request}

-- The keys of a dict are among the names.
unfoldable pub HasKeys : List String → Fields → Type 0
HasKeys names end = Unit
HasKeys names (field (text key) v d) = (mem key names ≡ true) × HasKeys names d
HasKeys names (field (number n) v d) = ⊥

abbrev pub request_keys : List String
request_keys = "url" ∷ "method" ∷ "headers" ∷ []

put-HasKeys :
    (names : List String) (k : String) (v : Value) (d : Fields)
    → mem k names ≡ true
    → HasKeys names d
    → HasKeys names (put k v d)
unfolding HasKeys put is_key
put-HasKeys names k v end h p = (h, tt)
put-HasKeys names k v (field (text key) w d) h p = elim (Bool-cases (str_eq key k)) [
  | inl e ↦ rw e p
  | inr e ↦ rw e (p.0, put-HasKeys names k v d h p.1)
]
put-HasKeys names k v (field (number n) w d) h p = absurd p

module _ (lower : String → String) (redact_text : String → String) where
  -- The headers are allowed ones.
  unfoldable pub AllowedHeaders : Fields → Type 0
  AllowedHeaders end = Unit
  AllowedHeaders (field (text key) v d) =
      (mem (lower key) allowed_headers ≡ true) × AllowedHeaders d
  AllowedHeaders (field (number n) v d) = ⊥

  unfoldable pub HeadersKept : Option Value → Type 0
  HeadersKept (some (dict headers)) = AllowedHeaders headers
  HeadersKept _ = Unit

  unfoldable pub ShallowClean : Option Value → Type 0
  ShallowClean (some v) = IsClean lower redact_text 2 v
  ShallowClean none = Unit

  -- A request has an address and a method, redacted, and allowed headers at most.
  unfoldable pub RequestClean : Option Value → Type 0
  RequestClean (some (dict request)) =
      HasKeys request_keys request
      × ShallowClean (find "url" request)
      × ShallowClean (find "method" request)
      × HeadersKept (find "headers" request)
  RequestClean _ = Unit

  HeadersLeft : Option Fields → Type 0
  HeadersLeft none = Unit
  HeadersLeft (some d) = AllowedHeaders d

  headers-left : (d : Fields) → HeadersLeft (keep_headers lower redact_text d)
  unfolding HeadersLeft AllowedHeaders keep_headers
  headers-left end = tt
  headers-left (field (number n) v d) = tt
  headers-left (field (text key) v d) = keep (keep_headers lower redact_text d) (headers-left d)
    where
      keep :
          (o : Option Fields)
          → HeadersLeft o
          → HeadersLeft (
              o >>= λ kept.
              some (if mem (lower key) allowed_headers then field (text key) v kept else kept))
      keep none p = tt
      keep (some kept) p = elim (Bool-cases (mem (lower key) allowed_headers)) [
        | inl e ↦ rw e (e, p)
        | inr e ↦ rw e p
      ]

  find-copied :
      (P : Option Value → Type 0) (k j : String) (request s : Fields)
      → ((v : Value) → P (some (redact lower redact_text v 7)))
      → P (find k s)
      → P (find k (copy_redacted lower redact_text j request s))
  find-copied P k j request s P-redacted P-s = elim (Option-cases (find j request)) [
    | inl missing ↦ rw (copy_redacted, missing) P-s
    | inr (v, found) ↦
        rw (copy_redacted, found, find-put k j (redact lower redact_text v 7) s)
          (elim (Bool-cases (str_eq j k)) [ inl e ↦ rw e (P-redacted v) | inr e ↦ rw e P-s ])
  ]

  copied-HasKeys :
      (j : String) (request s : Fields)
      → mem j request_keys ≡ true
      → HasKeys request_keys s
      → HasKeys request_keys (copy_redacted lower redact_text j request s)
  copied-HasKeys j request s h p = elim (Option-cases (find j request)) [
    | inl missing ↦ rw (copy_redacted, missing) p
    | inr (v, found) ↦ rw (copy_redacted, found) (put-HasKeys request_keys j _ s h p)
  ]

  -- the address and the method, before the headers
  abbrev routing : Fields → Fields
  routing request =
      copy_redacted lower redact_text "method" request
        (copy_redacted lower redact_text "url" request end)

  shallow : (v : Value) → ShallowClean (some (redact lower redact_text v 7))
  unfolding ShallowClean
  shallow v = redact-IsClean_at lower redact_text v 7

  routing-ShallowClean : (k : String) (request : Fields) → ShallowClean (find k (routing request))
  unfolding ShallowClean find
  routing-ShallowClean k request =
      find-copied ShallowClean k "method" request _ shallow
        (find-copied ShallowClean k "url" request end shallow tt)

  routing-HasKeys : (request : Fields) → HasKeys request_keys (routing request)
  unfolding HasKeys mem
  routing-HasKeys request =
      copied-HasKeys "method" request _ refl (copied-HasKeys "url" request end refl tt)

  find-copied_other :
      (k j : String) (request s : Fields)
      → str_eq j k ≡ false
      → find k (copy_redacted lower redact_text j request s) ≡ find k s
  find-copied_other k j request s differ = elim (Option-cases (find j request)) [
    | inl missing ↦ rw (copy_redacted, missing) refl
    | inr (v, found) ↦
        rw (copy_redacted, found, find-put k j (redact lower redact_text v 7) s, differ) refl
  ]

  no_headers : (request : Fields) → find "headers" (routing request) ≡ none
  unfolding find
  no_headers request =
      find-copied_other "headers" "method" request _ refl
      ∙ find-copied_other "headers" "url" request end refl

  without-headers : (request : Fields) → RequestClean (some (dict (routing request)))
  unfolding RequestClean HeadersKept
  without-headers request = (
    routing-HasKeys request,
    routing-ShallowClean "url" request,
    routing-ShallowClean "method" request,
    rw (no_headers request) tt,
  )

  with-headers :
      (request kept : Fields)
      → AllowedHeaders kept
      → RequestClean (some (dict (put "headers" (dict kept) (routing request))))
  unfolding RequestClean HeadersKept mem
  with-headers request kept p = (
    put-HasKeys request_keys "headers" _ _ refl (routing-HasKeys request),
    rw (find-put "url" "headers" (dict kept) (routing request))
        (routing-ShallowClean "url" request),
    rw (find-put "method" "headers" (dict kept) (routing request))
        (routing-ShallowClean "method" request),
    rw (find-put "headers" "headers" (dict kept) (routing request)) p,
  )

  RequestLeft : Option Fields → Type 0
  RequestLeft none = Unit
  RequestLeft (some d) = RequestClean (some (dict d))

  request-left : (request : Fields) → RequestLeft (scrub_request lower redact_text request)
  unfolding RequestLeft HeadersLeft scrub_request
  request-left request = by_headers (find "headers" request) refl
    where
      kept_headers :
          (o : Option Fields)
          → HeadersLeft o
          → RequestLeft (o >>= λ kept. some (put "headers" (dict kept) (routing request)))
      kept_headers none p = tt
      kept_headers (some kept) p = with-headers request kept p

      by_headers :
          (o : Option Value)
          → find "headers" request ≡ o
          → RequestLeft (scrub_request lower redact_text request)
      by_headers none e = rw (scrub_request, e) (without-headers request)
      by_headers (some null) e = rw (scrub_request, e) (without-headers request)
      by_headers (some (bool b)) e = rw (scrub_request, e) (without-headers request)
      by_headers (some (int n)) e = rw (scrub_request, e) (without-headers request)
      by_headers (some (float x)) e = rw (scrub_request, e) (without-headers request)
      by_headers (some (str s)) e = rw (scrub_request, e) (without-headers request)
      by_headers (some (list vs)) e = rw (scrub_request, e) (without-headers request)
      by_headers (some (tuple vs)) e = rw (scrub_request, e) (without-headers request)
      by_headers (some (dict headers)) e =
          rw (scrub_request, e)
            (kept_headers (keep_headers lower redact_text headers) (headers-left headers))

  pub request-clean : (v : Value) → RequestClean (request_step lower redact_text v >>= some)
  unfolding RequestClean RequestLeft request_step
  request-clean null = tt
  request-clean (bool b) = tt
  request-clean (int n) = tt
  request-clean (float x) = tt
  request-clean (str s) = tt
  request-clean (list vs) = tt
  request-clean (tuple vs) = tt
  request-clean (dict d) =
      ends RequestClean _ (left (scrub_request lower redact_text d) (request-left d))
    where
      left : (o : Option Fields) → RequestLeft o → RequestClean (o >>= λ new. some (dict new))
      left none p = tt
      left (some new) p = p
