-- ===== src/ThinkTags/Holdback.antt =====
-- What `_partial_suffix_len` holds back: no tag that ends in later text begins in what is released.
use backend_template.Prelude.{
  ℕ, zero, suc, ◌-◌, ◌≤◌, ◌<◌, ◌≡◌, ap, false, inl, inr, none, [], ◌∷◌, ◌++◌, length, take, drop,
  arith, Bool-cases, leb, sym, ◌∙◌, take-append-drop, ◌==◌, ==_iff,
}
use mathlib.Core.List.{append_assoc}
use backend_template.ThinkTags.{Text, starts_with, text_eq, find, suffix_loop, partial_suffix_len}
use backend_template.ThinkTags.Tags.{starts_with-split}

suffix_loop-le : (m : ℕ) (w tag : Text) → suffix_loop m w tag ≤ m
unfolding suffix_loop
suffix_loop-le zero w tag = omega arith
suffix_loop-le (suc m) w tag = ground (arith, suffix_loop-le m w tag)

-- The loop returns the largest match: no larger suffix is a prefix of the tag.
suffix_loop_max :
    (m : ℕ) (w tag : Text) (j : ℕ)
    → suffix_loop m w tag < j
    → j ≤ m
    → text_eq (drop (length w - j) w) (take j tag) ≡ false
unfolding suffix_loop
suffix_loop_max zero w tag j h l = absurd (omega arith)
suffix_loop_max (suc m) w tag j h l = elim (Bool-cases (j == suc m)) [
  | inl e ↦
      let same : j ≡ suc m = (==_iff j (suc m)).0 e in
      let past : suffix_loop (suc m) w tag < suc m = omega arith in rw same (ground arith)
  | inr e ↦ ground (arith, suffix_loop_max m w tag j)
]

pub partial_suffix_len-le : (w tag : Text) → partial_suffix_len w tag ≤ length w
unfolding partial_suffix_len
partial_suffix_len-le w tag =
    ground (arith, suffix_loop-le (length w) w tag, suffix_loop-le (length tag - 1) w tag)

pub partial_suffix_len-lt : (w tag : Text) → 0 < length tag → partial_suffix_len w tag < length tag
unfolding partial_suffix_len
partial_suffix_len-lt w tag h =
    ground (arith, suffix_loop-le (length w) w tag, suffix_loop-le (length tag - 1) w tag)

pub partial_suffix_len_max :
    (w tag : Text) (j : ℕ)
    → partial_suffix_len w tag < j
    → j ≤ length w
    → j < length tag
    → text_eq (drop (length w - j) w) (take j tag) ≡ false
unfolding partial_suffix_len
partial_suffix_len_max w tag j h l m =
    ground (arith, suffix_loop_max (length w) w tag j, suffix_loop_max (length tag - 1) w tag j)

-- No tag stands in `u ++ z` at a place of `u`.
abbrev pub NoStart : Text → Text → Text → Type 0
NoStart tag [] z = Unit
NoStart tag (c ∷ u) z = (starts_with tag (c ∷ u ++ z) ≡ false) × NoStart tag u z

zero_sub : (k : ℕ) → 0 - k ≡ 0
zero_sub k = omega arith

-- No suffix of `w` longer than `k` begins the tag.
abbrev pub NoLonger : Text → Text → ℕ → Type 0
NoLonger tag w k =
    (j : ℕ)
    → k < j
    → j ≤ length w
    → j < length tag
    → text_eq (drop (length w - j) w) (take j tag) ≡ false

NoLonger-tail : (tag w : Text) (c k : ℕ) → NoLonger tag (c ∷ w) k → NoLonger tag w k
NoLonger-tail tag w c k m j past fits short =
    let step : suc (length w) - j ≡ suc (length w - j) = omega arith in
    let here : text_eq (drop (suc (length w) - j) (c ∷ w)) (take j tag) ≡ false =
      m j past (omega arith) short in
    rw step at here

find-none-tail : (tag w : Text) (c : ℕ) → find tag (c ∷ w) ≡ none → find tag w ≡ none
unfolding find
find-none-tail tag w c h = ground arith

pub find-none-drop :
    (tag : Text) (n : ℕ) (w : Text) → find tag w ≡ none → find tag (drop n w) ≡ none
find-none-drop tag zero w h = h
find-none-drop tag (suc n) [] h = h
find-none-drop tag (suc n) (c ∷ w) h = find-none-drop tag n w (find-none-tail tag w c h)

find-none-head : (tag w : Text) → find tag w ≡ none → starts_with tag w ≡ false
unfolding find
find-none-head tag [] h = ground arith
find-none-head tag (c ∷ w) h = ground arith

-- The tag does not begin at the head of the text, even when more text follows.
no_start_here :
    (tag w s : Text) (k : ℕ)
    → find tag w ≡ none
    → k < length w
    → NoLonger tag w k
    → starts_with tag (w ++ s) ≡ false
no_start_here tag w s k h l m = elim (Bool-cases (starts_with tag (w ++ s))) [
  | inr no_start ↦ no_start
  | inl start ↦
      let (short, _, begins) = starts_with-split tag w s start (find-none-head tag w h) in
      let none_begins : text_eq (drop (length w - length w) w) (take (length w) tag) ≡ false =
        m (length w) l (omega arith) short in
      let zero_drop : length w - length w ≡ 0 = omega arith in
      absurd (ground (arith, rw zero_drop at none_begins))
]

-- Text without the tag, cut before the longest suffix that could begin it, has no start of the tag
-- in its first part, whatever follows.
pub NoStart-of_max :
    (tag w s : Text) (k : ℕ)
    → find tag w ≡ none
    → k ≤ length w
    → NoLonger tag w k
    → NoStart tag (take (length w - k) w) (drop (length w - k) w ++ s)
NoStart-of_max tag [] s k h l m = rw (zero_sub k) tt
NoStart-of_max tag (c ∷ w) s k h l m = elim (Bool-cases (leb k (length w))) [
  | inl e ↦
      let n = length w - k in
      let step : suc (length w) - k ≡ suc n = ground arith in
      let fits : k ≤ length w = ground arith in
      let join : take n w ++ (drop n w ++ s) ≡ w ++ s =
        sym (append_assoc (take n w) (drop n w) s) ∙ ap (λ u. u ++ s) (take-append-drop n w) in
      rw step (
        rw join (no_start_here tag (c ∷ w) s k h (omega arith) m),
        NoStart-of_max tag w s k (find-none-tail tag w c h) fits (NoLonger-tail tag w c k m),
      )
  | inr e ↦ let all : suc (length w) - k ≡ 0 = ground arith in rw all tt
]
