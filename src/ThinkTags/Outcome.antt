-- ===== src/ThinkTags/Outcome.antt =====
-- What a whole stream gives, described with no state, and what a router still gives from a given
-- state: the meaning against which llm/think_tags.py is proved.
use backend_template.Prelude.{
  ℕ, ◌≡◌, refl, sym, ◌∙◌, ap, Bool, false, ◌⊎◌, inl, inr, Option, none, some, [], ◌∷◌, ◌++◌,
  append_assoc, length, take, drop, if◌then◌else◌,
}
use backend_template.ThinkTags.{
  Text, open_tag, close_tag, lstrip, starts_with, find, Phase, detecting, reasoning, content,
  Router, Output,
}

-- Reasoning up to the close tag, then content without the white space in front; all is reasoning
-- where no close tag stands.
unfoldable pub cut : Text → Option ℕ → Text × Text
cut s none = (s, [])
cut s (some i) = (take i s, lstrip (drop (length close_tag) (drop i s)))

unfoldable pub split_close : Text → Text × Text
unfolding cut
split_close s = cut s (find close_tag s)

-- The whole stream: only an open tag at the start, behind white space, begins reasoning.
unfoldable pub split_stream : Text → Text × Text
split_stream s =
    if starts_with open_tag (lstrip s)
    then split_close (drop (length open_tag) (lstrip s))
    else ([], s)

unfoldable pub trim : Bool → Text → Text
trim b s = if b then lstrip s else s

-- what the rest `s` of the stream gives from a router, the flush at its end included
unfoldable pub outcome_by : Phase → Router → Text → Text × Text
outcome_by detecting r s = split_stream (r.buffer ++ s)
outcome_by reasoning r s = split_close (r.buffer ++ s)
outcome_by content r s = ([], trim r.skip_ws_after_close s)

unfoldable pub outcome : Router → Text → Text × Text
outcome r s = outcome_by r.state r s

abbrev pub prefix : Text → Text → Text × Text → Text × Text
prefix a b (c, d) = (a ++ c, b ++ d)

-- a tag that is not complete is all that a router holds back
abbrev pub ValidBy : Phase → Router → Type 0
ValidBy detecting r =
    (starts_with open_tag (lstrip r.buffer) ≡ false) × (r.skip_ws_after_close ≡ false)
ValidBy reasoning r = find close_tag r.buffer ≡ none
ValidBy content r = Unit

abbrev pub IsValid : Router → Type 0
IsValid r = ValidBy r.state r

-- What a call does: its output and what later text will give make up what all of the text gives.
pub record Splits (r : Router) (t : Text) (o : Output) : Type 0 where
  pub valid : IsValid o.0
  pub joins : (s : Text) → outcome r (t ++ s) ≡ prefix o.1 o.2 (outcome o.0 s)

pub List-cases : (l : Text) → (l ≡ []) ⊎ ((c : ℕ) × (s : Text) × (l ≡ c ∷ s))
List-cases [] = inl refl
List-cases (c ∷ s) = inr (c, s, refl)

pub outcome_reasoning :
    (r : Router) (s : Text) → r.state ≡ reasoning → outcome r s ≡ split_close (r.buffer ++ s)
unfolding outcome outcome_by
outcome_reasoning r s e = rw e

pub outcome_content :
    (r : Router) (s : Text) → r.state ≡ content → outcome r s ≡ ([], trim r.skip_ws_after_close s)
unfolding outcome outcome_by
outcome_content r s e = rw e

pub outcome_detecting :
    (r : Router) (s : Text) → r.state ≡ detecting → outcome r s ≡ split_stream (r.buffer ++ s)
unfolding outcome outcome_by
outcome_detecting r s e = rw e

pub outcome_reasoning_append :
    (r : Router) (t s : Text)
    → r.state ≡ reasoning
    → outcome r (t ++ s) ≡ split_close ((r.buffer ++ t) ++ s)
outcome_reasoning_append r t s st =
    outcome_reasoning r (t ++ s) st ∙ ap split_close (sym (append_assoc r.buffer t s))

pub outcome_detecting_append :
    (r : Router) (t s : Text)
    → r.state ≡ detecting
    → outcome r (t ++ s) ≡ split_stream ((r.buffer ++ t) ++ s)
outcome_detecting_append r t s st =
    outcome_detecting r (t ++ s) st ∙ ap split_stream (sym (append_assoc r.buffer t s))
