-- ===== src/Scrubbing/Clean.antt =====
-- What `_redact` leaves in a value (observability/sentry_scrubbing.py).
use backend_template.Prelude.{
  String, ℕ, suc, ◌-◌, ◌≤◌, subst, ◌≡◌, refl, ltb, arith, Bool-cases, inl, inr, ◌⊎◌, if◌then◌else◌,
}
use backend_template.Values.{
  Value, null, bool, int, float, str, list, tuple, dict, Items, nil, cons, Fields, end, field,
}
use backend_template.Scrubbing.{
  redacted, max_depth, is_sensitive, redact, redact_items, redact_fields, if_shallow,
}

module _ (lower : String → String) (redact_text : String → String) where
  -- A text that may leave: the mark, or what the redactor made of some text.
  abbrev pub IsSafe : String → Type 0
  IsSafe s = (s ≡ redacted) ⊎ ((t : String) × s ≡ redact_text t)

  -- Every text of the value is safe, under a sensitive key there is the mark alone, and containers are nested
  -- in at most `n` levels.
  unfoldable mutual
    pub IsClean : ℕ → Value → Type 0
    IsClean n null = Unit
    IsClean n (bool b) = Unit
    IsClean n (int m) = Unit
    IsClean n (float x) = Unit
    IsClean n (str s) = IsSafe s
    IsClean n (list items) = (m : ℕ) × (n ≡ suc m) × AreClean m items
    IsClean n (tuple items) = (m : ℕ) × (n ≡ suc m) × AreClean m items
    IsClean n (dict fields) = (m : ℕ) × (n ≡ suc m) × HasClean m fields

    pub AreClean : ℕ → Items → Type 0
    AreClean n nil = Unit
    AreClean n (cons item items) = IsClean n item × AreClean n items

    pub HasClean : ℕ → Fields → Type 0
    HasClean n end = Unit
    HasClean n (field key value fields) =
        (if is_sensitive lower key then value ≡ str redacted else IsClean n value)
        × HasClean n fields

  -- what is clean at the next depth makes a container that is clean at this one
  nested :
      (P : ℕ → Type 0) (depth : ℕ)
      → depth ≤ max_depth
      → P (suc max_depth - suc depth)
      → (m : ℕ) × (suc max_depth - depth ≡ suc m) × P m
  nested P depth h clean = (max_depth - depth, omega arith, subst P (omega arith) clean)

  if_shallow-IsClean :
      (n depth : ℕ) (v : Value) → (depth ≤ max_depth → IsClean n v) → IsClean n (if_shallow depth v)
  unfolding IsClean
  if_shallow-IsClean n depth v clean = elim (Bool-cases (ltb max_depth depth)) [
    | inl e ↦ rw e (inl refl)
    | inr e ↦ rw e (clean (ground arith))
  ]

  mutual
    unfolding IsClean redact

    pub redact-IsClean_at :
        (v : Value) (depth : ℕ) → IsClean (suc max_depth - depth) (redact lower redact_text v depth)
    redact-IsClean_at null depth = if_shallow-IsClean _ depth null (λ h. tt)
    redact-IsClean_at (bool b) depth = if_shallow-IsClean _ depth (bool b) (λ h. tt)
    redact-IsClean_at (int n) depth = if_shallow-IsClean _ depth (int n) (λ h. tt)
    redact-IsClean_at (float x) depth = if_shallow-IsClean _ depth (float x) (λ h. tt)
    redact-IsClean_at (str s) depth = if_shallow-IsClean _ depth _ (λ h. inr (s, refl))
    redact-IsClean_at (list items) depth = if_shallow-IsClean _ depth _ (λ h.
        nested (λ n. AreClean n (redact_items lower redact_text items (suc depth))) depth h
          (redact_items-AreClean items (suc depth)))
    redact-IsClean_at (tuple items) depth = if_shallow-IsClean _ depth _ (λ h.
        nested (λ n. AreClean n (redact_items lower redact_text items (suc depth))) depth h
          (redact_items-AreClean items (suc depth)))
    redact-IsClean_at (dict fields) depth = if_shallow-IsClean _ depth _ (λ h.
        nested (λ n. HasClean n (redact_fields lower redact_text fields (suc depth))) depth h
          (redact_fields-HasClean fields (suc depth)))

    redact_items-AreClean :
        (items : Items) (depth : ℕ)
        → AreClean (suc max_depth - depth) (redact_items lower redact_text items depth)
    redact_items-AreClean nil depth = tt
    redact_items-AreClean (cons item items) depth =
        (redact-IsClean_at item depth, redact_items-AreClean items depth)

    redact_fields-HasClean :
        (fields : Fields) (depth : ℕ)
        → HasClean (suc max_depth - depth) (redact_fields lower redact_text fields depth)
    redact_fields-HasClean end depth = tt
    redact_fields-HasClean (field key value fields) depth =
        elim (Bool-cases (is_sensitive lower key)) [
          | inl e ↦ rw e (refl, redact_fields-HasClean fields depth)
          | inr e ↦ rw e (redact-IsClean_at value depth, redact_fields-HasClean fields depth)
        ]

  -- Whatever value `_redact` gets, in what it returns every text that is a value is the mark or an output
  -- of `redact_pii_text`, under every sensitive key, in any case of letters, there is the mark alone, and containers are
  -- nested in at most nine levels.
  pub redact-IsClean : (v : Value) → IsClean 9 (redact lower redact_text v 0)
  redact-IsClean v = redact-IsClean_at v 0
