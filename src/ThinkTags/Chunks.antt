-- ===== src/ThinkTags/Chunks.antt =====
-- The router of llm/think_tags.py over a whole stream: the cuts between fragments do not show.
use backend_template.Prelude.{
  ◌≡◌, refl, inl, inr, List, [], ◌∷◌, flatten, append-nil, arith, Bool-cases,
}
use backend_template.ThinkTags.{
  Text, lstrip, starts_with, Phase, detecting, reasoning, content, Router, init, feed_by, feed,
  flush_by, flush, run,
}
use backend_template.ThinkTags.Outcome.{
  split_close, split_stream, trim, outcome_by, outcome, ValidBy, IsValid, Splits,
}
use backend_template.ThinkTags.Reasoning.{content-Splits, feed_reasoning-Splits}
use backend_template.ThinkTags.Detecting.{feed_detecting-Splits}

feed_by-Splits :
    (p : Phase) (t : Text) (r : Router) → r.state ≡ p → IsValid r → Splits r t (feed_by p t r)
unfolding feed_by
feed_by-Splits detecting t r e v = feed_detecting-Splits t r e v
feed_by-Splits reasoning t r e v = feed_reasoning-Splits t r e
feed_by-Splits content t r e v = content-Splits t r e

pub feed-Splits : (t : Text) (r : Router) → IsValid r → Splits r t (feed t r)
unfolding feed
feed-Splits [] r v = record { valid = v; joins = λ s. refl }
feed-Splits (c ∷ t) r v = feed_by-Splits r.state (c ∷ t) r refl v

-- the flush gives what the empty rest gives
flush_by-outcome :
    (p : Phase) (r : Router)
    → ValidBy p r
    → let o = flush_by p r.buffer (record r { buffer = [] }) in (o.1, o.2) ≡ outcome_by p r []
unfolding flush_by outcome_by split_close split_stream trim
flush_by-outcome detecting r v = rw append-nil (ground (arith, v.0))
flush_by-outcome reasoning r v = rw (append-nil, v) (ground arith)
flush_by-outcome content r v = elim (Bool-cases r.skip_ws_after_close) [
  | inl e ↦ unfold lstrip in rw e
  | inr e ↦ rw e
]

run-outcome : (ts : List Text) (r : Router) → IsValid r → run ts r ≡ outcome r (flatten ts)
unfolding run flatten flush outcome
run-outcome [] r v = flush_by-outcome r.state r v
run-outcome (t ∷ ts) r v =
    let splits = feed-Splits t r v in
    ground (arith, run-outcome ts (feed t r).0 splits.valid, splits.joins (flatten ts))

init-IsValid : IsValid init
unfolding starts_with lstrip
init-IsValid = (refl, refl)

-- Fed from the start with any fragments and then flushed, the router returns the reasoning and the
-- content of the joined text, whatever the cuts: reasoning is what stands between an open tag at
-- the start, behind white space only, and the first close tag after it, or to the end if there is
-- none; content is the rest without the white space after the close tag; text with no open tag at
-- the start is all content, unchanged.
pub run-split_stream : (ts : List Text) → run ts init ≡ split_stream (flatten ts)
unfolding outcome outcome_by
run-split_stream ts = run-outcome ts init init-IsValid
