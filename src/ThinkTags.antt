-- ===== src/ThinkTags.antt =====
-- inference_core/llm/think_tags.py: the incremental router that splits streamed model output into
-- reasoning and content. A text is the list of its code points.
mod Tags
pub mod Outcome
mod Reasoning
mod Detecting
pub mod Chunks
pub mod Latency
mod Holdback
use backend_template.Prelude.{
  ℕ, zero, suc, ◌-◌, Bool, true, false, ◌&&◌, ◌||◌, Option, none, some, List, [], ◌∷◌, ◌++◌, length,
  take, drop, leb, ltb, ◌==◌, if◌then◌else◌,
}

abbrev pub Text : Type 0
Text = List ℕ

-- `<think>`
abbrev pub open_tag : Text
open_tag = b'<' ∷ b't' ∷ b'h' ∷ b'i' ∷ b'n' ∷ b'k' ∷ b'>' ∷ []

-- `</think>`
abbrev pub close_tag : Text
close_tag = b'<' ∷ b'/' ∷ b't' ∷ b'h' ∷ b'i' ∷ b'n' ∷ b'k' ∷ b'>' ∷ []

-- `str.isspace` of one code point, for `str.lstrip()`
pub is_space : ℕ → Bool
is_space c =
    (leb 9 c && leb c 13)
    || (leb 28 c && leb c 32)
    || (c == 133)
    || (c == 160)
    || (c == 5760)
    || (leb 8192 c && leb c 8202)
    || (leb 8232 c && leb c 8233)
    || (c == 8239)
    || (c == 8287)
    || (c == 12288)

unfoldable pub lstrip : Text → Text
lstrip [] = []
lstrip (c ∷ s) = if is_space c then lstrip s else c ∷ s

-- `s.startswith(tag)`
pub starts_with : Text → Text → Bool
starts_with [] s = true
starts_with (t ∷ tag) [] = false
starts_with (t ∷ tag) (c ∷ s) = (t == c) && starts_with tag s

-- `a == b` of two texts
pub text_eq : Text → Text → Bool
text_eq [] [] = true
text_eq (a ∷ s) (b ∷ t) = (a == b) && text_eq s t
text_eq _ _ = false

-- `s.find(tag)`, with `none` for -1
pub find : Text → Text → Option ℕ
find tag [] = if starts_with tag [] then some 0 else none
find tag (c ∷ s) =
    if starts_with tag (c ∷ s)
    then some 0
    else elim (find tag s) [ none ↦ none | some i ↦ some (suc i) ]

-- the loop `for k in range(max_len, 0, -1)` of `_partial_suffix_len`
pub suffix_loop : ℕ → Text → Text → ℕ
suffix_loop zero text tag = 0
suffix_loop (suc k) text tag =
    let rest = suffix_loop k text tag in
    if text_eq (drop (length text - suc k) text) (take (suc k) tag) then suc k else rest

pub partial_suffix_len : Text → Text → ℕ
partial_suffix_len text tag =
    suffix_loop (if leb (length text) (length tag - 1) then length text else length tag - 1) text
      tag

pub data Phase : Type 0 where
  detecting reasoning content : Phase

-- `ThinkTagStreamRouter`
pub record Router : Type 0 where
  pub state : Phase
  pub buffer : Text
  pub skip_ws_after_close : Bool

abbrev pub init : Router
init = record { state = detecting; buffer = []; skip_ws_after_close = false }

-- what a call returns, `(reasoning, content)`, behind the router that it leaves
abbrev pub Output : Type 0
Output = Router × Text × Text

pub feed_content : Text → Router → Router × Text
feed_content text r =
    if r.skip_ws_after_close
    then elim (lstrip text) [
      | [] ↦ (r, [])
      | c ∷ s ↦ (record r { skip_ws_after_close = false }, c ∷ s)
    ]
    else (r, text)

-- the branch of `_feed_reasoning` in which the close tag stands at `idx`
pub close_at : ℕ → Text → Router → Output
close_at idx working r =
    let (r', rest) =
      feed_content (drop (length close_tag) (drop idx working))
        (record r { state = content; skip_ws_after_close = true }) in
    (r', take idx working, rest)

-- the branch in which it does not stand yet
pub hold_back : ℕ → Text → Router → Output
hold_back zero working r = (r, working, [])
hold_back (suc k) working r = (
  record r { buffer = drop (length working - suc k) working },
  take (length working - suc k) working,
  [],
)

pub feed_reasoning : Text → Router → Output
feed_reasoning text r =
    let working = r.buffer ++ text in
    let r' : Router = record r { buffer = [] } in
    elim (find close_tag working) [
      | some idx ↦ close_at idx working r'
      | none ↦ hold_back (partial_suffix_len working close_tag) working r'
    ]

pub enter_reasoning : Text → Router → Output
enter_reasoning [] r = (r, [], [])
enter_reasoning (c ∷ s) r = feed_reasoning (c ∷ s) r

pub feed_detecting : Text → Router → Output
feed_detecting text r =
    let buffer = r.buffer ++ text in
    let stripped = lstrip buffer in
    if starts_with open_tag stripped
    then enter_reasoning (drop (length open_tag) stripped)
        (record r { state = reasoning; buffer = [] })
    else if ltb (length stripped) (length open_tag) && starts_with stripped open_tag
    then (record r { buffer = buffer }, [], [])
    else (record r { state = content; buffer = [] }, [], buffer)

pub feed_by : Phase → Text → Router → Output
feed_by detecting text r = feed_detecting text r
feed_by reasoning text r = feed_reasoning text r
feed_by content text r = let (r', c) = feed_content text r in (r', [], c)

pub feed : Text → Router → Output
feed [] r = (r, [], [])
feed (c ∷ s) r = feed_by r.state (c ∷ s) r

pub flush_by : Phase → Text → Router → Output
flush_by detecting held r = (record r { state = content }, [], held)
flush_by reasoning held r = (r, held, [])
flush_by content held r = (r, [], [])

pub flush : Router → Output
flush r = flush_by r.state r.buffer (record r { buffer = [] })

-- a client's use: every fragment is fed, then the rest is flushed, and the parts are joined
pub run : List Text → Router → Text × Text
run [] r = let (_, reasoned, said) = flush r in (reasoned, said)
run (text ∷ more) r =
    let (r', reasoned, said) = feed text r in
    let (reasoned', said') = run more r' in (reasoned ++ reasoned', said ++ said')
