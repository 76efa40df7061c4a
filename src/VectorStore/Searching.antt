-- ===== src/VectorStore/Searching.antt =====
-- `similarity_search` of the in-memory provider (vectorstores/base.py).
use mathlib.Core.List.{Perm}
use mathlib.Core.List.Perm
use backend_template.Prelude.{
  All, take-append-drop, length-drop, ◌-◌, String, ℕ, suc, ◌≤◌, ◌≡◌, refl, ◌∙◌, ap, Bool, Option,
  none, some, List, [], ◌∷◌, ◌++◌, arith, ◌==◌, ltb, if◌then◌else◌, length, take, drop, filter, map,
  Bool-cases, inl, inr,
}
use backend_template.ParamPolicy.{get}
use backend_template.VectorStore.{Document, Store, Config, collection_or}

-- `x.score or 0.0`: the quotients of one search have the same denominator, so that their numerators order them
abbrev pub rank : Document → ℕ
rank doc = elim doc.score [ none ↦ 0 | some score ↦ score.hits ]

-- `list.sort` with `reverse=True`, which keeps documents of the same rank in their order
unfoldable pub insert_ranked : Document → List Document → List Document
insert_ranked doc [] = doc ∷ []
insert_ranked doc (d ∷ ds) =
    let rest = insert_ranked doc ds in if ltb (rank doc) (rank d) then d ∷ rest else doc ∷ d ∷ ds

unfoldable pub sort_ranked : List Document → List Document
sort_ranked [] = []
sort_ranked (doc ∷ docs) = insert_ranked doc (sort_ranked docs)

-- `str.lower`, `str.split` and `in`
module _ (lower : String → String) (split : String → List String)
    (contains : String → String → Bool) where
  unfoldable pub count_hits : List String → String → ℕ
  count_hits [] content = 0
  count_hits (word ∷ words) content =
      let rest = count_hits words content in if contains word content then suc rest else rest

  -- the loop over the documents: those with a score, scored
  unfoldable pub score_docs : List String → List Document → List Document
  score_docs words [] = []
  score_docs words (doc ∷ docs) =
      let hits = count_hits words (lower doc.content) in
      let rest = score_docs words docs in
      if hits == 0
      then rest
      else record doc { score = some (record { hits = hits; words = length words }) } ∷ rest

  unfoldable pub similarity_search : Config → String → ℕ → Option String → Store → List Document
  similarity_search config query k collection store =
      elim (get (collection_or config collection) store.documents) [
        | none ↦ []
        | some docs ↦ take k (sort_ranked (score_docs (split (lower query)) docs))
      ]

-- the words found in a document, by its score
abbrev pub score_hits : Document → ℕ
score_hits doc = elim doc.score [ none ↦ 0 | some score ↦ score.hits ]

-- At most `n` words found in each, and numbers that do not rise along the list.
abbrev pub RankedBelow : ℕ → List Document → Type 0
RankedBelow n docs = All (λ d. score_hits d ≤ n) docs

unfoldable pub IsRanked : List Document → Type 0
IsRanked [] = Unit
IsRanked (d ∷ ds) = RankedBelow (score_hits d) ds × IsRanked ds

RankedBelow-le : (m n : ℕ) (ds : List Document) → m ≤ n → RankedBelow m ds → RankedBelow n ds
RankedBelow-le m n [] h p = tt
RankedBelow-le m n (d ∷ ds) h (p, ps) = (omega arith, RankedBelow-le m n ds h ps)

insert_ranked-RankedBelow :
    (n : ℕ) (doc : Document) (ds : List Document)
    → rank doc ≤ n
    → RankedBelow n ds
    → RankedBelow n (insert_ranked doc ds)
unfolding insert_ranked
insert_ranked-RankedBelow n doc [] h p = (h, tt)
insert_ranked-RankedBelow n doc (d ∷ ds) h (p, ps) = elim (Bool-cases (ltb (rank doc) (rank d))) [
  | inl e ↦ rw e (p, insert_ranked-RankedBelow n doc ds h ps)
  | inr e ↦ rw e (h, (p, ps))
]

insert_ranked-IsRanked :
    (doc : Document) (ds : List Document) → IsRanked ds → IsRanked (insert_ranked doc ds)
unfolding insert_ranked IsRanked
insert_ranked-IsRanked doc [] p = (tt, tt)
insert_ranked-IsRanked doc (d ∷ ds) (p, ps) = elim (Bool-cases (ltb (rank doc) (rank d))) [
  | inl e ↦
      rw e (
        insert_ranked-RankedBelow (rank d) doc ds (ground arith) p,
        insert_ranked-IsRanked doc ds ps,
      )
  | inr e ↦
      let h : rank d ≤ rank doc = ground arith in
      rw e ((h, RankedBelow-le (rank d) (rank doc) ds h p), (p, ps))
]

insert_ranked-Perm : (doc : Document) (ds : List Document) → Perm (insert_ranked doc ds) (doc ∷ ds)
unfolding insert_ranked
insert_ranked-Perm doc [] = Perm.rfl
insert_ranked-Perm doc (d ∷ ds) = elim (Bool-cases (ltb (rank doc) (rank d))) [
  | inl e ↦ rw e (Perm.trans (Perm.cons d (insert_ranked-Perm doc ds)) (Perm.swap doc d ds))
  | inr e ↦ rw e Perm.rfl
]

sort_ranked-IsRanked : (ds : List Document) → IsRanked (sort_ranked ds)
unfolding sort_ranked IsRanked
sort_ranked-IsRanked [] = tt
sort_ranked-IsRanked (d ∷ ds) = insert_ranked-IsRanked d (sort_ranked ds) (sort_ranked-IsRanked ds)

sort_ranked-Perm : (ds : List Document) → Perm (sort_ranked ds) ds
unfolding sort_ranked
sort_ranked-Perm [] = Perm.rfl
sort_ranked-Perm (d ∷ ds) =
    Perm.trans (insert_ranked-Perm d (sort_ranked ds)) (Perm.cons d (sort_ranked-Perm ds))

length-insert_ranked :
    (doc : Document) (ds : List Document) → length (insert_ranked doc ds) ≡ suc (length ds)
unfolding insert_ranked
length-insert_ranked doc [] = refl
length-insert_ranked doc (d ∷ ds) = ground (arith, length-insert_ranked doc ds)

length-sort_ranked : (ds : List Document) → length (sort_ranked ds) ≡ length ds
unfolding sort_ranked
length-sort_ranked [] = refl
length-sort_ranked (d ∷ ds) =
    omega (arith, length-insert_ranked d (sort_ranked ds), length-sort_ranked ds)

-- What a search is to find, by words alone: `words_in words content` are the words in a content.
module _ (contains : String → String → Bool) where
  abbrev pub words_in : List String → String → List String
  words_in words content = filter (λ word. contains word content) words

  abbrev pub has_word : List String → String → Bool
  has_word words content = ltb 0 (length (words_in words content))

  abbrev pub scored : (String → String) → List String → Document → Document
  scored lower words doc = record doc {
    score =
        some (record { hits = length (words_in words (lower doc.content)); words = length words });
  }

  -- the documents with a word of the query, scored, in their order
  abbrev pub with_words : (String → String) → List String → List Document → List Document
  with_words lower words docs =
      map (scored lower words) (filter (λ doc. has_word words (lower doc.content)) docs)

module _ (lower : String → String) (split : String → List String)
    (contains : String → String → Bool) where
  count_hits_lem :
      (words : List String) (content : String)
      → count_hits lower split contains words content ≡ length (words_in contains words content)
  unfolding count_hits
  count_hits_lem [] content = refl
  count_hits_lem (word ∷ words) content = ground (arith, count_hits_lem words content)

  score_docs_lem :
      (words : List String) (docs : List Document)
      → score_docs lower split contains words docs ≡ with_words contains lower words docs
  unfolding score_docs
  score_docs_lem words [] = refl
  score_docs_lem words (doc ∷ docs) =
      ground (arith, count_hits_lem words (lower doc.content), score_docs_lem words docs)

module _ (lower : String → String) (split : String → List String)
    (contains : String → String → Bool) where
  -- A search in a collection returns documents that have words of the query, each scored by the
  -- number of those words over the number of the query's, the ones with most words first: together
  -- with the documents that have words of the query but are left out they make up all of those, none
  -- that is left out has more words than one that is returned, and a document is left out only where
  -- there are more than `k`.
  pub similarity_search-IsRanked :
      (config : Config) (query : String) (k : ℕ) (collection : Option String) (store : Store)
      (docs : List Document)
      → get (collection_or config collection) store.documents ≡ some docs
      → let found = similarity_search lower split contains config query k collection store in
        let matching = with_words contains lower (split (lower query)) docs in
        (rest : List Document) × Perm (found ++ rest) matching
        × IsRanked (found ++ rest)
        × (length rest ≡ length matching - k)
  unfolding similarity_search
  similarity_search-IsRanked config query k collection store docs e =
      let matching : List Document = with_words contains lower (split (lower query)) docs in
      let all : List Document = sort_ranked matching in
      rw (similarity_search, e, score_docs_lem lower split contains (split (lower query)) docs)
        (
          drop k all,
          rw (take-append-drop k all) (sort_ranked-Perm matching),
          rw (take-append-drop k all) (sort_ranked-IsRanked matching),
          length-drop k all ∙ ap (λ n. n - k) (length-sort_ranked matching),
        )
