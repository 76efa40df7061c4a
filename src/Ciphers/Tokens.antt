-- ===== src/Ciphers/Tokens.antt =====
-- The parts of a token (services/content_cipher.py).
use Prim.Native.String.append
use Prim.Native.String.{◌++◌}
use Prim.Native.Char.{code}
use backend_template.Prelude.{
  String, ℕ, zero, suc, ◌≡◌, refl, ◌∙◌, ap, true, ◌==◌, none, some, arith, Bool-cases, inl, inr,
  ==_iff,
}
use mathlib.Core.Option.{some-injective}
use backend_template.Prelude.Options.{◌>>=◌}
use backend_template.ParamPolicy.{starts_with}
use backend_template.Ciphers.{
  Purpose, content, memory, checkpoints, purpose_name, after_dots, payload_of,
}

pub starts_with-append : (p s : String) → starts_with p (p ++ s) ≡ true
unfolding starts_with
starts_with-append String.[] s = refl
starts_with-append (String.◌∷◌ c p) s =
    rw (append.cons c p s, (==_iff (code c) (code c)).1 refl) (starts_with-append p s)

-- a text without a dot is passed over
after_dots-no_dot :
    (n : ℕ) (p s : String)
    → after_dots 1 p ≡ none
    → after_dots (suc n) (p ++ s) ≡ after_dots (suc n) s
unfolding after_dots
after_dots-no_dot n String.[] s h = rw (append.nil s) refl
after_dots-no_dot n (String.◌∷◌ c p) s h = elim (Bool-cases (code c == 46)) [
  | inl e ↦ ground arith
  | inr e ↦ rw (append.cons c p s, e) (after_dots-no_dot n p s (ground arith))
]

after_dots-append :
    (n : ℕ) (p s u : String) → after_dots n p ≡ some u → after_dots n (p ++ s) ≡ some (u ++ s)
unfolding after_dots
after_dots-append zero p s u h = ap (λ o. some (o ++ s)) (some-injective p u h)
after_dots-append (suc n) String.[] s u h = ground arith
after_dots-append (suc n) (String.◌∷◌ c p) s u h = elim (Bool-cases (code c == 46)) [
  | inl e ↦ rw (append.cons c p s, e) (after_dots-append n p s u (ground arith))
  | inr e ↦ rw (append.cons c p s, e) (after_dots-append (suc n) p s u (ground arith))
]

after_dots-suc : (n : ℕ) (s : String) → after_dots (suc n) s ≡ (after_dots 1 s >>= after_dots n)
unfolding after_dots
after_dots-suc n String.[] = refl
after_dots-suc n (String.◌∷◌ c s) = elim (Bool-cases (code c == 46)) [
  | inl e ↦ rw e refl
  | inr e ↦ rw e (after_dots-suc n s)
]

-- one dot, and the dot at the end of a part
after_dots-dot : (n : ℕ) (s : String) → after_dots (suc n) ("." ++ s) ≡ after_dots n s
unfolding after_dots
after_dots-dot n s =
    after_dots-suc n ("." ++ s) ∙ rw (after_dots-append 1 "." s "" refl, append.nil s) refl

after_dots-part :
    (n : ℕ) (p s : String)
    → after_dots 1 p ≡ none
    → after_dots (suc n) (p ++ ("." ++ s)) ≡ after_dots n s
after_dots-part n p s h = after_dots-no_dot n p ("." ++ s) h ∙ after_dots-dot n s

-- the two dots of the prefix
after_dots-prefix : (s : String) → after_dots 4 ("enc.v1." ++ s) ≡ after_dots 2 s
unfolding after_dots
after_dots-prefix s =
    let first : after_dots 4 ("enc.v1." ++ s) ≡ after_dots 3 ("v1." ++ s) =
      after_dots-suc 3 ("enc.v1." ++ s) ∙ rw (after_dots-append 1 "enc.v1." s "v1." refl) refl in
    let second : after_dots 3 ("v1." ++ s) ≡ after_dots 2 s =
      after_dots-suc 2 ("v1." ++ s) ∙ rw (after_dots-append 1 "v1." s "" refl, append.nil s) refl in
    first ∙ second

purpose_name-no_dot : (p : Purpose) → after_dots 1 (purpose_name p) ≡ none
unfolding after_dots
purpose_name-no_dot content = refl
purpose_name-no_dot memory = refl
purpose_name-no_dot checkpoints = refl

pub payload_of_lem :
    (p : Purpose) (key_id token : String)
    → after_dots 1 key_id ≡ none
    → payload_of ("enc.v1." ++ purpose_name p ++ "." ++ key_id ++ "." ++ token) ≡ token
unfolding payload_of after_dots
payload_of_lem p key_id token h =
    let rest = purpose_name p ++ "." ++ key_id ++ "." ++ token in
    let parts : after_dots 4 ("enc.v1." ++ rest) ≡ some token =
      after_dots-prefix rest
      ∙ after_dots-part 1 (purpose_name p) (key_id ++ "." ++ token) (purpose_name-no_dot p)
      ∙ after_dots-part 0 key_id token h in
    rw (starts_with-append "enc.v1." rest, parts) refl
