-- ===== src/ThinkTags/Detecting.antt =====
-- `_feed_detecting` of llm/think_tags.py against the outcome of the stream.
use backend_template.Prelude.{
  ◌≡◌, ◌≢◌, refl, sym, subst, ◌∙◌, ap, Bool, true, false, ◌&&◌, inl, inr, [], ◌++◌, length, drop,
  ltb, arith, Bool-cases,
}
use backend_template.ThinkTags.{
  Text, open_tag, lstrip, starts_with, detecting, reasoning, content, Router, feed_detecting,
}
use backend_template.ThinkTags.Tags.{starts_with-append, starts_with-split, lstrip-append_cons}
use backend_template.ThinkTags.Outcome.{
  split_close, split_stream, trim, ValidBy, IsValid, Splits, List-cases, outcome_reasoning,
  outcome_content, outcome_detecting, outcome_detecting_append,
}
use backend_template.ThinkTags.Reasoning.{enter_reasoning-Splits}

-- `lstrip` of a text that it does not leave empty goes on with what follows.
lstrip-append : (w s : Text) → lstrip w ≢ [] → lstrip (w ++ s) ≡ lstrip w ++ s
lstrip-append w s h = elim (List-cases (lstrip w)) [
  | inl e ↦ absurd (h e)
  | inr (c, v, e) ↦ lstrip-append_cons w s c v e ∙ ap (λ u. u ++ s) (sym e)
]

-- Text that is no open tag, and no part of one, is content with whatever follows.
split_stream_content :
    (w s : Text)
    → starts_with open_tag (lstrip w) ≡ false
    → (ltb (length (lstrip w)) (length open_tag) && starts_with (lstrip w) open_tag) ≡ false
    → split_stream (w ++ s) ≡ ([], w ++ s)
unfolding split_stream
split_stream_content w s no_tag no_part =
    let rest : lstrip w ≢ [] = λ e. unfold starts_with in cc (rw e at no_part) in
    let e : lstrip (w ++ s) ≡ lstrip w ++ s = lstrip-append w s rest in
    let no_start : starts_with open_tag (lstrip w ++ s) ≡ false =
      ground (arith, starts_with-split open_tag (lstrip w) s) in
    rw (e, no_start)

split_stream_open :
    (w s : Text)
    → starts_with open_tag (lstrip w) ≡ true
    → split_stream (w ++ s) ≡ split_close (drop (length open_tag) (lstrip w) ++ s)
unfolding split_stream
split_stream_open w s tag =
    let rest : lstrip w ≢ [] = λ e. unfold starts_with in cc (rw e at tag) in
    let e : lstrip (w ++ s) ≡ lstrip w ++ s = lstrip-append w s rest in
    let (stays, after) = starts_with-append open_tag (lstrip w) s tag in
    rw (e, stays) (ap split_close after)

module _ (t : Text) (r : Router) (st : r.state ≡ detecting) (v : IsValid r) where
  not_skipping : r.skip_ws_after_close ≡ false
  not_skipping = let v' : ValidBy detecting r = subst (λ p. ValidBy p r) st v in v'.1

  open_tag-Splits :
      starts_with open_tag (lstrip (r.buffer ++ t)) ≡ true → Splits r t (feed_detecting t r)
  unfolding feed_detecting
  open_tag-Splits tag =
      let w = r.buffer ++ t in
      let r' : Router = record r { state = reasoning; buffer = [] } in
      let enter = enter_reasoning-Splits (drop (length open_tag) (lstrip w)) r' refl refl in
      rw (tag, feed_detecting)
        (record {
          valid = enter.valid;
          joins = λ s.
              outcome_detecting_append r t s st
              ∙ split_stream_open w s tag
              ∙ sym (outcome_reasoning r' (drop (length open_tag) (lstrip w) ++ s) refl)
              ∙ enter.joins s;
        })

  module _ (no_tag : starts_with open_tag (lstrip (r.buffer ++ t)) ≡ false) where
    abbrev partial : Bool
    partial =
        ltb (length (lstrip (r.buffer ++ t))) (length open_tag)
        && starts_with (lstrip (r.buffer ++ t)) open_tag

    buffered-Splits : partial ≡ true → Splits r t (feed_detecting t r)
    unfolding feed_detecting
    buffered-Splits part =
        rw (no_tag, part, feed_detecting)
          (record {
            valid = rw st (no_tag, not_skipping);
            joins = λ s.
                outcome_detecting_append r t s st
                ∙ sym (outcome_detecting (record r { buffer = r.buffer ++ t }) s st);
          })

    content_from_start : partial ≡ false → Splits r t (feed_detecting t r)
    unfolding feed_detecting trim
    content_from_start part =
        let r' : Router = record r { state = content; buffer = [] } in
        rw (no_tag, part, feed_detecting)
          (record {
            valid = tt;
            joins = λ s.
                outcome_detecting_append r t s st
                ∙ split_stream_content (r.buffer ++ t) s no_tag part
                ∙ ground (arith, outcome_content r' s refl, not_skipping);
          })

-- the three branches of `_feed_detecting`
pub feed_detecting-Splits :
    (t : Text) (r : Router) → r.state ≡ detecting → IsValid r → Splits r t (feed_detecting t r)
feed_detecting-Splits t r st v = elim (Bool-cases (starts_with open_tag (lstrip (r.buffer ++ t)))) [
  | inl tag ↦ open_tag-Splits t r st v tag
  | inr no_tag ↦ elim (Bool-cases (partial t r st v no_tag)) [
    | inl part ↦ buffered-Splits t r st v no_tag part
    | inr more ↦ content_from_start t r st v no_tag more
  ]
]
