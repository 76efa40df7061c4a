-- ===== src/Tests/Streams.antt =====
-- Fragments of text through the router of llm/think_tags.py.
use backend_template.Prelude.{◌≡◌, arith, List, [], ◌∷◌, flatten}
use backend_template.ThinkTags.{Text, open_tag, init, feed, run}
use backend_template.ThinkTags.Outcome.{split_stream}
use backend_template.ThinkTags.Chunks.{run-split_stream}
use backend_template.ThinkTags.Latency.{IsBounded, feed-IsBounded}

-- a tag cut in two, thoughts, and an answer
abbrev fragments : List Text
fragments =
    (b'<' ∷ b't' ∷ b'h' ∷ [])
    ∷ (b'i' ∷ b'n' ∷ b'k' ∷ b'>' ∷ b'a' ∷ b'<' ∷ b'/' ∷ b't' ∷ [])
    ∷ (b'h' ∷ b'i' ∷ b'n' ∷ b'k' ∷ b'>' ∷ b' ' ∷ b'b' ∷ [])
    ∷ []

run-split_stream_example : run fragments init ≡ split_stream (flatten fragments)
run-split_stream_example = run-split_stream fragments

feed-IsBounded_example : IsBounded (feed open_tag init).0
unfolding backend_template.ThinkTags.lstrip
feed-IsBounded_example = feed-IsBounded open_tag init (omega arith)
