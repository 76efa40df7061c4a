-- ===== src/ThinkTags/Latency.antt =====
-- How much text the router of llm/think_tags.py holds back between two fragments.
use backend_template.Prelude.{
  ℕ, zero, suc, ◌-◌, ◌<◌, ◌≡◌, refl, ◌∙◌, true, ◌&&◌, [], ◌∷◌, ◌++◌, inl, inr, subst, length,
  length-drop, drop, arith, Option-cases, Bool-cases, ltb,
}
use backend_template.ThinkTags.{
  Text, open_tag, close_tag, is_space, lstrip, starts_with, find, partial_suffix_len, Phase,
  detecting, reasoning, content, Router, init, feed_content, close_at, feed_reasoning,
  enter_reasoning, feed_detecting, feed_by, feed,
}
use backend_template.ThinkTags.Holdback.{partial_suffix_len-le, partial_suffix_len-lt}
use backend_template.ThinkTags.Reasoning.{hold_back_lem}

abbrev pub BoundedBy : Phase → Router → Type 0
BoundedBy detecting r = length (lstrip r.buffer) < length open_tag
BoundedBy reasoning r = length r.buffer < length close_tag
BoundedBy content r = r.buffer ≡ []

-- Less than one tag is held back, the white space in front of an open tag not counted.
abbrev pub IsBounded : Router → Type 0
IsBounded r = BoundedBy r.state r

feed_content_buffer :
    (t : Text) (r : Router)
    → let r' = (feed_content t r).0 in (r'.state ≡ r.state) × (r'.buffer ≡ r.buffer)
unfolding feed_content
feed_content_buffer t r = ground arith

close_at-IsBounded : (w : Text) (r : Router) (i : ℕ) → r.buffer ≡ [] → IsBounded (close_at i w r).0
unfolding close_at
close_at-IsBounded w r i e =
    let r' : Router = record r { state = content; skip_ws_after_close = true } in
    let (st, buf) = feed_content_buffer (drop (length close_tag) (drop i w)) r' in rw st (buf ∙ e)

feed_reasoning-IsBounded :
    (t : Text) (r : Router) → r.state ≡ reasoning → IsBounded (feed_reasoning t r).0
unfolding feed_reasoning
feed_reasoning-IsBounded t r st =
    let w = r.buffer ++ t in
    let r' : Router = record r { buffer = [] } in
    elim (Option-cases (find close_tag w)) [
      | inl e ↦
          let k = partial_suffix_len w close_tag in
          rw (e, feed_reasoning)
            (rw (hold_back_lem k w r' refl) (
              rw st (
                omega (
                  arith,
                  length-drop (length w - k) w,
                  partial_suffix_len-le w close_tag,
                  partial_suffix_len-lt w close_tag,
                ))))
      | inr (i, e) ↦ rw (e, feed_reasoning) (close_at-IsBounded w r' i refl)
    ]

enter_reasoning-IsBounded :
    (t : Text) (r : Router)
    → r.state ≡ reasoning
    → r.buffer ≡ []
    → IsBounded (enter_reasoning t r).0
unfolding enter_reasoning
enter_reasoning-IsBounded [] r st e = rw st (rw e (omega arith))
enter_reasoning-IsBounded (c ∷ t) r st e = feed_reasoning-IsBounded (c ∷ t) r st

feed_detecting-IsBounded :
    (t : Text) (r : Router) → r.state ≡ detecting → IsBounded (feed_detecting t r).0
unfolding feed_detecting
feed_detecting-IsBounded t r st =
    let u = lstrip (r.buffer ++ t) in
    let part = ltb (length u) (length open_tag) && starts_with u open_tag in
    elim (Bool-cases (starts_with open_tag u)) [
      | inl tag ↦
          let r' : Router = record r { state = reasoning; buffer = [] } in
          rw (tag, feed_detecting)
            (enter_reasoning-IsBounded (drop (length open_tag) u) r' refl refl)
      | inr no_tag ↦ elim (Bool-cases part) [
        | inl e ↦ rw (no_tag, e, feed_detecting) (rw st (ground arith))
        | inr e ↦ rw (no_tag, e, feed_detecting) refl
      ]
    ]

feed_by-IsBounded :
    (p : Phase) (t : Text) (r : Router) → r.state ≡ p → IsBounded r → IsBounded (feed_by p t r).0
unfolding feed_by
feed_by-IsBounded detecting t r st b = feed_detecting-IsBounded t r st
feed_by-IsBounded reasoning t r st b = feed_reasoning-IsBounded t r st
feed_by-IsBounded content t r st b =
    let (same, buf) = feed_content_buffer t r in
    rw (same ∙ st) (buf ∙ subst (λ p. BoundedBy p r) st b)

-- From a router that holds back less than one tag, the white space in front of an open tag not
-- counted, any fragment leaves one that does.
pub feed-IsBounded : (t : Text) (r : Router) → IsBounded r → IsBounded (feed t r).0
unfolding feed
feed-IsBounded [] r b = b
feed-IsBounded (c ∷ t) r b = feed_by-IsBounded r.state (c ∷ t) r refl b

-- `n` spaces
abbrev pub spaces : ℕ → Text
spaces zero = []
spaces (suc n) = b' ' ∷ spaces n

lstrip-spaces : (n : ℕ) → lstrip (spaces n) ≡ []
unfolding lstrip is_space
lstrip-spaces zero = refl
lstrip-spaces (suc n) = lstrip-spaces n

-- Any number of spaces at the start of the stream is held back whole.
feed-spaces : (n : ℕ) → (feed (spaces (suc n)) init).0.buffer ≡ spaces (suc n)
unfolding feed feed_by feed_detecting starts_with
feed-spaces n = let e : lstrip (b' ' ∷ spaces n) ≡ [] = lstrip-spaces (suc n) in rw e refl
