-- ===== src/Ciphers/Rings.antt =====
-- The keys that decrypt what was encrypted (services/content_cipher.py).
use backend_template.Prelude.{
  String, ◌≡◌, refl, sym, ap, true, ◌||◌, Option, none, some, List, [], ◌∷◌, ◌++◌, str_eq, eq_iff,
  arith, if◌then◌else◌, Bool-cases, Option-cases, inl, inr,
}
use backend_template.ParamPolicy.{mem}
use backend_template.Ciphers.{Purpose, Environ, ring, resolve, add_keys, all_keys}

mem-append : (k x : String) (ys : List String) → mem k (ys ++ (x ∷ [])) ≡ (mem k ys || str_eq x k)
unfolding mem
mem-append k x [] = elim (Bool-cases (str_eq x k)) [ inl e ↦ rw e refl | inr e ↦ rw e refl ]
mem-append k x (y ∷ ys) = ground (arith, mem-append k x ys)

mem-add_keys_out :
    (k : String) (keys out : List String) → mem k out ≡ true → mem k (add_keys keys out) ≡ true
unfolding add_keys
mem-add_keys_out k [] out h = h
mem-add_keys_out k (key ∷ keys) out h = elim (Bool-cases (mem key out)) [
  | inl e ↦ rw e (mem-add_keys_out k keys out h)
  | inr e ↦ rw e (mem-add_keys_out k keys (out ++ (key ∷ [])) (rw (mem-append k key out, h) refl))
]

just_added :
    (k key : String) (out : List String)
    → k ≡ key
    → mem k (if mem key out then out else out ++ (key ∷ [])) ≡ true
unfolding mem
just_added k key out e = elim (Bool-cases (mem key out)) [
  | inl h ↦ rw (e, h) h
  | inr h ↦ rw (e, h, mem-append key key out, h) ((eq_iff key key).1 refl)
]

mem-add_keys :
    (k : String) (keys out : List String) → mem k keys ≡ true → mem k (add_keys keys out) ≡ true
unfolding add_keys mem
mem-add_keys k [] out h = ground arith
mem-add_keys k (key ∷ keys) out h = elim (Bool-cases (str_eq key k)) [
  | inl e ↦
      mem-add_keys_out k keys (if mem key out then out else out ++ (key ∷ []))
        (just_added k key out (sym ((eq_iff key k).0 e)))
  | inr e ↦ mem-add_keys k keys (if mem key out then out else out ++ (key ∷ [])) (rw e at h)
]

-- The key that encrypts stands in the ring of its purpose.
all_keys-out :
    (strip : String → String) (split : String → List String) (environ : Environ) (ps : List Purpose)
    (k : String) (out : List String)
    → mem k out ≡ true
    → mem k (all_keys strip split environ ps out) ≡ true
unfolding all_keys
all_keys-out strip split environ [] k out h = h
all_keys-out strip split environ (p ∷ ps) k out h =
    elim (Option-cases (ring strip split environ p)) [
      | inl e ↦ rw (all_keys, e) (all_keys-out strip split environ ps k out h)
      | inr (keys, e) ↦
          rw (all_keys, e)
            (all_keys-out strip split environ ps k (add_keys keys out)
              (mem-add_keys_out k keys out h))
    ]

first_mem : (k : String) (keys : List String) → mem k (k ∷ keys) ≡ true
unfolding mem
first_mem k keys = ground (arith, eq_iff k k)

keys_in : Option (Purpose × List String) → List String
keys_in none = []
keys_in (some (p, keys)) = keys

-- what resolves in one environment is among all keys of another that has the same rings and maybe more
pub resolve-all_keys :
    (strip : String → String) (split : String → List String) (environ later : Environ)
    → ((p : Purpose) (keys : List String)
        → ring strip split environ p ≡ some keys
        → ring strip split later p ≡ some keys)
    → (ps : List Purpose) (p : Purpose) (k : String) (keys out : List String)
    → (resolve strip split environ ps (λ q. none)).0 ≡ some (p, k ∷ keys)
    → mem k (all_keys strip split later ps out) ≡ true
unfolding resolve all_keys keys_in
resolve-all_keys strip split environ later kept [] p k keys out h = ground arith
resolve-all_keys strip split environ later kept (q ∷ ps) p k keys out h =
    elim (Option-cases (ring strip split environ q)) [
      | inl e ↦
          let again : (resolve strip split environ ps (λ r. none)).0 ≡ some (p, k ∷ keys) =
            rw (resolve, e) at h in
          elim (Option-cases (ring strip split later q)) [
            | inl f ↦
                rw (all_keys, f)
                  (resolve-all_keys strip split environ later kept ps p k keys out again)
            | inr (now, f) ↦
                rw (all_keys, f)
                  (resolve-all_keys strip split environ later kept ps p k keys (add_keys now out)
                    again)
          ]
      | inr (found, e) ↦
          let is_found : found ≡ k ∷ keys = ap keys_in (rw (resolve, e) at h) in
          rw (all_keys, kept q found e)
            (all_keys-out strip split later ps k (add_keys found out)
              (mem-add_keys k found out (rw is_found (first_mem k keys))))
    ]
