-- ===== src/ThinkTags/Reasoning.antt =====
-- `_feed_content` and `_feed_reasoning` of llm/think_tags.py against the outcome of the stream.
use backend_template.Prelude.{
  ℕ, zero, suc, ◌-◌, ◌≤◌, ◌≡◌, refl, sym, ◌∙◌, ap, true, inl, inr, none, some, [], ◌∷◌, ◌++◌,
  append_assoc, append-nil, length, take, drop, take-append-drop, take_all, drop_all, arith,
  Option-cases,
}
use backend_template.ThinkTags.{
  Text, close_tag, lstrip, starts_with, find, partial_suffix_len, reasoning, content, Router,
  feed_content, close_at, hold_back, feed_reasoning, enter_reasoning,
}
use backend_template.ThinkTags.Tags.{find-append, lstrip-append_nil, lstrip-append_cons}
use backend_template.ThinkTags.Holdback.{
  partial_suffix_len-le, partial_suffix_len_max, NoStart, NoStart-of_max, find-none-drop,
}
use backend_template.ThinkTags.Outcome.{
  split_close, trim, outcome_by, outcome, prefix, IsValid, Splits, List-cases, outcome_content,
  outcome_reasoning_append,
}

pub find_skip :
    (u z : Text) → NoStart close_tag u z → split_close (u ++ z) ≡ prefix u [] (split_close z)
unfolding split_close find
find_skip [] z h = refl
find_skip (c ∷ u) z h = ground (arith, find_skip u z h.1)

pub feed_content_joins :
    (t : Text) (r : Router) (s : Text)
    → r.state ≡ content
    → let (r', c) = feed_content t r in
      (r'.state ≡ content)
      × (trim r.skip_ws_after_close (t ++ s) ≡ c ++ trim r'.skip_ws_after_close s)
unfolding feed_content trim
feed_content_joins t r s h = elim (List-cases (lstrip t)) [
  | inl e ↦ ground (arith, lstrip-append_nil t s e)
  | inr (c, v, e) ↦ ground (arith, lstrip-append_cons t s c v e)
]

-- the content phase
pub content-Splits :
    (t : Text) (r : Router)
    → r.state ≡ content
    → let (r', c) = feed_content t r in Splits r t (r', [], c)
unfolding outcome outcome_by
content-Splits t r h = record {
  valid = ground (arith, feed_content_joins t r [] h);
  joins = λ s. ground (arith, feed_content_joins t r s h);
}

pub split_close-append :
    (w s : Text) (i : ℕ)
    → find close_tag w ≡ some i
    → split_close (w ++ s) ≡ (take i w, lstrip (drop (length close_tag) (drop i w) ++ s))
unfolding split_close
split_close-append w s i h =
    let (found, same, rest) = find-append b'<' (drop 1 close_tag) w s i h in
    let stays : find close_tag (w ++ s) ≡ some i = found in rw stays (ground (arith, same, rest))

-- what follows the close tag
pub after_close :
    (t : Text) (r : Router) (a s : Text)
    → r.state ≡ content
    → r.skip_ws_after_close ≡ true
    → let (r', c) = feed_content t r in
      (r'.state ≡ content) × ((a, lstrip (t ++ s)) ≡ prefix a c (outcome r' s))
unfolding outcome outcome_by trim
after_close t r a s st sk =
    let (st', j) = feed_content_joins t r s st in
    (st', ground (arith, j, append-nil a, outcome_content (feed_content t r).0 s st'))

pub close_at-Splits :
    (w : Text) (r : Router) (i : ℕ)
    → find close_tag w ≡ some i
    → let o = close_at i w r in
      (IsValid o.0) × ((s : Text) → split_close (w ++ s) ≡ prefix o.1 o.2 (outcome o.0 s))
unfolding close_at
close_at-Splits w r i h =
    let t = drop (length close_tag) (drop i w) in
    let r' : Router = record r { state = content; skip_ws_after_close = true } in
    (
      rw ((after_close t r' [] [] refl refl).0) tt,
      λ s. split_close-append w s i h ∙ (after_close t r' (take i w) s refl refl).1,
    )

pub hold_back_lem :
    (k : ℕ) (w : Text) (r : Router)
    → r.buffer ≡ []
    → hold_back k w r ≡ (record r { buffer = drop (length w - k) w }, take (length w - k) w, [])
unfolding hold_back
hold_back_lem zero w r e =
    let none_held : length w - 0 ≡ length w = omega arith in
    rw (none_held, take_all, drop_all) (ground arith)
hold_back_lem (suc k) w r e = refl

pub hold_back-Splits :
    (w : Text) (r : Router)
    → find close_tag w ≡ none
    → r.state ≡ reasoning
    → r.buffer ≡ []
    → let o = hold_back (partial_suffix_len w close_tag) w r in
      (IsValid o.0) × ((s : Text) → split_close (w ++ s) ≡ prefix o.1 o.2 (outcome o.0 s))
unfolding outcome outcome_by
hold_back-Splits w r h st e =
    let k = partial_suffix_len w close_tag in
    let n = length w - k in
    let le : k ≤ length w = partial_suffix_len-le w close_tag in
    rw (hold_back_lem k w r e) (
      rw st (find-none-drop close_tag n w h),
      λ s.
          let fresh : NoStart close_tag (take n w) (drop n w ++ s) =
            NoStart-of_max close_tag w s k h le (partial_suffix_len_max w close_tag) in
          let join : w ++ s ≡ take n w ++ (drop n w ++ s) =
            sym (ap (λ u. u ++ s) (take-append-drop n w)) ∙ append_assoc (take n w) (drop n w) s in
          rw (join, st) (find_skip (take n w) (drop n w ++ s) fresh),
    )

pub feed_reasoning-Splits :
    (t : Text) (r : Router) → r.state ≡ reasoning → Splits r t (feed_reasoning t r)
unfolding feed_reasoning
feed_reasoning-Splits t r st =
    let w = r.buffer ++ t in
    let r' : Router = record r { buffer = [] } in
    elim (Option-cases (find close_tag w)) [
      | inl e ↦
          let (v, j) = hold_back-Splits w r' e st refl in
          rw (e, feed_reasoning)
            (record { valid = v; joins = λ s. outcome_reasoning_append r t s st ∙ j s })
      | inr (i, e) ↦
          let (v, j) = close_at-Splits w r' i e in
          rw (e, feed_reasoning)
            (record { valid = v; joins = λ s. outcome_reasoning_append r t s st ∙ j s })
    ]

pub enter_reasoning-Splits :
    (t : Text) (r : Router) → r.state ≡ reasoning → r.buffer ≡ [] → Splits r t (enter_reasoning t r)
unfolding enter_reasoning
enter_reasoning-Splits [] r st e = record {
  valid = rw st (rw e (unfold find starts_with in refl));
  joins = λ s. refl;
}
enter_reasoning-Splits (c ∷ t) r st e = feed_reasoning-Splits (c ∷ t) r st
