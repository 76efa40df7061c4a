-- ===== src/ThinkTags/Tags.antt =====
-- Facts about `starts_with`, `find` and `lstrip` when more text follows.
use backend_template.Prelude.{
  ℕ, zero, suc, ◌+◌, ◌≤◌, ◌<◌, ◌≡◌, refl, true, false, some, [], ◌∷◌, ◌++◌, length, take, drop,
  arith,
}
use backend_template.ThinkTags.{Text, lstrip, starts_with, text_eq, find}

-- A tag that stands stays when text is added, and the added text stays behind it.
pub starts_with-append :
    (tag y s : Text)
    → starts_with tag y ≡ true
    → (starts_with tag (y ++ s) ≡ true) × (drop (length tag) (y ++ s) ≡ drop (length tag) y ++ s)
unfolding starts_with
starts_with-append [] y s h = (refl, refl)
starts_with-append (t ∷ tag) [] s h = ground arith
starts_with-append (t ∷ tag) (c ∷ y) s h = ground (arith, starts_with-append tag y s)

-- A tag that stands only with the added text has begun in the text before.
pub starts_with-split :
    (tag y s : Text)
    → starts_with tag (y ++ s) ≡ true
    → starts_with tag y ≡ false
    → (length y < length tag)
      × (starts_with y tag ≡ true)
      × (text_eq y (take (length y) tag) ≡ true)
unfolding starts_with text_eq
starts_with-split [] y s h g = ground arith
starts_with-split (t ∷ tag) [] s h g = (omega arith, refl, refl)
starts_with-split (t ∷ tag) (c ∷ y) s h g = ground (arith, starts_with-split tag y s)

starts_with-length : (tag y : Text) → starts_with tag y ≡ true → length tag ≤ length y
unfolding starts_with
starts_with-length [] y h = omega arith
starts_with-length (t ∷ tag) [] h = ground arith
starts_with-length (t ∷ tag) (c ∷ y) h = ground (arith, starts_with-length tag y)

find-length : (tag w : Text) (i : ℕ) → find tag w ≡ some i → i + length tag ≤ length w
unfolding find
find-length tag [] i h = ground (arith, starts_with-length tag [])
find-length tag (c ∷ w) zero h = ground (arith, starts_with-length tag (c ∷ w))
find-length tag (c ∷ w) (suc i) h = ground (arith, find-length tag w i)

-- The first occurrence stays the first when text is added.
pub find-append :
    (t : ℕ) (tag w s : Text) (i : ℕ)
    → find (t ∷ tag) w ≡ some i
    → (find (t ∷ tag) (w ++ s) ≡ some i)
      × (take i (w ++ s) ≡ take i w)
      × (drop (length (t ∷ tag)) (drop i (w ++ s)) ≡ drop (length (t ∷ tag)) (drop i w) ++ s)
unfolding find
find-append t tag [] s i h = absurd (unfold starts_with in ground arith)
find-append t tag (c ∷ w) s zero h =
    let here : starts_with (t ∷ tag) (c ∷ w) ≡ true = ground arith in
    let (stays, rest) = starts_with-append (t ∷ tag) (c ∷ w) s here in (rw stays, refl, rest)
find-append t tag (c ∷ w) s (suc i) h = ground (
  arith,
  find-append t tag w s i,
  find-length (t ∷ tag) w i,
  starts_with-split (t ∷ tag) (c ∷ w) s,
)

-- `lstrip` of text that goes on, by what it leaves of the first part.
pub lstrip-append_nil : (w s : Text) → lstrip w ≡ [] → lstrip (w ++ s) ≡ lstrip s
unfolding lstrip
lstrip-append_nil [] s h = refl
lstrip-append_nil (c ∷ w) s h = ground (arith, lstrip-append_nil w s)

pub lstrip-append_cons :
    (w s : Text) (d : ℕ) (v : Text) → lstrip w ≡ d ∷ v → lstrip (w ++ s) ≡ d ∷ (v ++ s)
unfolding lstrip
lstrip-append_cons [] s d v h = ground arith
lstrip-append_cons (c ∷ w) s d v h = ground (arith, lstrip-append_cons w s d v)
