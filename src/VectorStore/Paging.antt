-- ===== src/VectorStore/Paging.antt =====
-- What the pages of a listing are, apart from the loops of the in-memory provider (vectorstores/base.py).
use mathlib.Core.List.{map-append, Perm}
use mathlib.Core.List.Perm
use mathlib.Core.List.{Permᴰ}
use mathlib.Core.Logic.{∥∥₁_elim}
use backend_template.Prelude.{
  take-add, take_all, drop-drop, filter, Bool-cases, String, ℕ, ◌+◌, ◌≡◌, refl, sym, ◌∙◌, ap, subst,
  arith, suc, Bool, true, false, ◌&&◌, Option, none, some, List, [], ◌∷◌, ◌++◌, map, str_eq,
  if◌then◌else◌, length, take, drop, Option-cases, inl, inr,
}
use backend_template.Values.{
  text, number, Value, null, bool, int, float, list, str, tuple, dict, Fields, end, field, find,
}
use backend_template.ParamPolicy.{get}
use backend_template.VectorStore.{Document, Store, or_default}
use backend_template.VectorStore.Listing.{
  matches_filter, matches_value, filter_docs, sort_key, without_score, ordered, list_documents,
}

-- What a filter without dicts asks for: every key of it is in the metadata, with an equal value.
module _ (equal : Value → Value → Bool) where
  abbrev pub is_plain : Fields → Bool
  is_plain end = true
  is_plain (field k (dict flt) more) = false
  is_plain (field k _ more) = is_plain more

  abbrev pub has_value : Option Value → Value → Bool
  has_value none v = false
  has_value (some current) v = equal current v

  abbrev pub has_all : Fields → Fields → Bool
  has_all end meta = true
  has_all (field (text k) v more) meta = has_value (find k meta) v && has_all more meta
  has_all (field (number n) v more) meta = false

  -- the test that a listing applies: for filters without dicts that on keys and equal values
  abbrev pub is_wanted : Fields → Fields → Bool
  is_wanted filters meta =
      if is_plain filters then has_all filters meta else matches_filter equal filters meta

  abbrev show_one : Bool → Document → Document
  show_one include_scores doc = if include_scores then doc else record doc { score = none }

  -- the documents that a listing shows, in the collection's order
  abbrev pub wanted : Bool → Fields → List Document → List Document
  wanted include_scores filters docs =
      map (show_one include_scores) (filter (λ doc. is_wanted filters doc.metadata) docs)

  matches_filter-plain :
      (filters meta : Fields)
      → is_plain filters ≡ true
      → matches_filter equal filters meta ≡ has_all filters meta
  unfolding matches_filter matches_value
  matches_filter-plain end meta plain = refl
  matches_filter-plain (field (number n) v more) meta plain = refl
  matches_filter-plain (field (text k) null more) meta plain =
      ground (arith, matches_filter-plain more meta)
  matches_filter-plain (field (text k) (bool b) more) meta plain =
      ground (arith, matches_filter-plain more meta)
  matches_filter-plain (field (text k) (int n) more) meta plain =
      ground (arith, matches_filter-plain more meta)
  matches_filter-plain (field (text k) (float x) more) meta plain =
      ground (arith, matches_filter-plain more meta)
  matches_filter-plain (field (text k) (str x) more) meta plain =
      ground (arith, matches_filter-plain more meta)
  matches_filter-plain (field (text k) (list xs) more) meta plain =
      ground (arith, matches_filter-plain more meta)
  matches_filter-plain (field (text k) (tuple xs) more) meta plain =
      ground (arith, matches_filter-plain more meta)
  matches_filter-plain (field (text k) (dict flt) more) meta plain = ground arith

  matches_filter-is_wanted :
      (filters meta : Fields) → matches_filter equal filters meta ≡ is_wanted filters meta
  matches_filter-is_wanted filters meta = elim (Bool-cases (is_plain filters)) [
    | inl plain ↦ rw (is_wanted, plain) (matches_filter-plain filters meta plain)
    | inr nested ↦ rw (is_wanted, nested) refl
  ]

  filter_docs_lem :
      (filters : Fields) (docs : List Document)
      → filter_docs equal filters docs ≡ filter (λ doc. is_wanted filters doc.metadata) docs
  unfolding filter_docs
  filter_docs_lem filters [] = refl
  filter_docs_lem filters (doc ∷ docs) =
      let kept : List Document = filter (λ d. is_wanted filters d.metadata) docs in
      ap (λ rest. if matches_filter equal filters doc.metadata then doc ∷ rest else rest)
        (filter_docs_lem filters docs)
      ∙ ap (λ b. if b then doc ∷ kept else kept) (matches_filter-is_wanted filters doc.metadata)

  module _ (sorted : (Document → Value) → Bool → List Document → Option (List Document)) where
    ordered-Perm :
        ((key : Document → Value) (down : Bool) (docs ds : List Document)
          → sorted key down docs ≡ some ds
          → Perm ds docs)
        → (order_by : Option String) (order : String) (docs : List Document)
        → Perm (ordered equal sorted order_by order docs) docs
    ordered-Perm sorts none order docs = Perm.rfl
    ordered-Perm sorts (some order_by) order docs = elim (Bool-cases (str_eq order_by "")) [
      | inl e ↦ rw e Perm.rfl
      | inr e ↦
          let key = sort_key equal order_by order in
          let down = str_eq order "desc" in
          rw e (elim (Option-cases (sorted key down docs)) [
            | inl raises ↦ rw raises Perm.rfl
            | inr (ds, e') ↦ rw e' (sorts key down docs ds e')
          ])
    ]

Perm-length : {A : Type 0} {xs ys : List A} → Perm xs ys → length xs ≡ length ys
Perm-length {A} {xs} {ys} p = ∥∥₁_elim {P = length xs ≡ length ys} p (hlevel) same
  where
    same : {xs ys : List A} → Permᴰ xs ys → length xs ≡ length ys
    same Permᴰ.nil = refl
    same (Permᴰ.cons e p) = ap suc (same p)
    same (Permᴰ.swap e e') = refl
    same (Permᴰ.trans p q) = same p ∙ same q

length-map : {A B : Type 0} (f : A → B) (xs : List A) → length (map f xs) ≡ length xs
length-map f [] = refl
length-map f (x ∷ xs) = ap suc (length-map f xs)

map_id : {A : Type 0} (xs : List A) → map (λ x. x) xs ≡ xs
map_id [] = refl
map_id (x ∷ xs) = ap (◌∷◌ x) (map_id xs)

take_longer : {A : Type 0} (n : ℕ) (xs : List A) → length xs ≡ n → take n xs ≡ xs
take_longer n xs e = rw (sym e) (take_all xs)

module _ (equal : Value → Value → Bool)
    (sorted : (Document → Value) → Bool → List Document → Option (List Document)) where
  consecutive :
      (b : Bool) (m n offset : ℕ) (docs : List Document)
      → (if b
            then take m (drop offset docs)
            else map (without_score equal sorted) (take m (drop offset docs)))
          ++ (if b
              then take n (drop (offset + m) docs)
              else map (without_score equal sorted) (take n (drop (offset + m) docs)))
        ≡ (if b
            then take (m + n) (drop offset docs)
            else map (without_score equal sorted) (take (m + n) (drop offset docs)))
  consecutive true m n offset docs =
      rw (sym (drop-drop offset m docs)) (take-add m n (drop offset docs))
  consecutive false m n offset docs = rw (sym (drop-drop offset m docs)) (
      sym (map-append _ (take m (drop offset docs)) _)
      ∙ ap (map (without_score equal sorted)) (take-add m n (drop offset docs)))

  -- the page from the start that is as long as the list
  whole :
      (b : Bool) (n : ℕ) (all docs : List Document)
      → length docs ≡ n
      → Perm all docs
      → Perm
          (if b
            then take n (drop 0 all)
            else map (without_score equal sorted) (take n (drop 0 all)))
          (map (show_one equal b) docs)
  whole true n all docs long p = rw (take_longer n all (Perm-length p ∙ long), map_id docs) p
  whole false n all docs long p =
      rw (take_longer n all (Perm-length p ∙ long)) (Perm.map (without_score equal sorted) p)

  -- The total of a listing is the number of the documents of the collection that the filters let
  -- through, none for a missing collection, whatever the page and the order. A page from the start
  -- with that limit lists exactly these documents, without their scores where these are not asked
  -- for, and pages that follow each other make up the page of both lengths. Filters without dicts
  -- let through the documents whose metadata has every key of the filters with an equal value.
  -- `sorted` gives a permutation where it does not raise.
  pub list_documents-pages :
      ((key : Document → Value) (down : Bool) (docs ds : List Document)
        → sorted key down docs ≡ some ds
        → Perm ds docs)
      → (name : String) (filters : Option Fields) (m n offset : ℕ) (order_by : Option String)
        (order : String) (include_scores : Bool) (store : Store)
      → let page : ℕ → ℕ → List Document × ℕ = λ limit start.
        list_documents equal sorted name filters limit start order_by order include_scores store in
        let listed =
          wanted equal include_scores
            (or_default filters end)
            (or_default (get name store.documents) []) in
        ((page m offset).1 ≡ length listed)
        × Perm (page (length listed) 0).0 listed
        × ((page m offset).0 ++ (page n (offset + m)).0 ≡ (page (m + n) offset).0)
  unfolding list_documents
  list_documents-pages sorts name filters m n offset order_by order include_scores store =
      elim (Option-cases (get name store.documents)) [
        | inl e ↦ rw (list_documents, e) (refl, Perm.rfl, refl)
        | inr (docs, e) ↦
            let matching = filter_docs equal (or_default filters end) docs in
            let kept = filter (λ doc. is_wanted equal (or_default filters end) doc.metadata) docs in
            let same : matching ≡ kept = filter_docs_lem equal (or_default filters end) docs in
            let all = ordered equal sorted order_by order matching in
            let n_listed = length (
              wanted equal include_scores (or_default filters end)
                (or_default (get name store.documents) [])) in
            let long : length kept ≡ n_listed =
              rw e (sym (length-map (show_one equal include_scores) kept)) in
            rw (list_documents, e)
              (
                ap length same ∙ sym (length-map (show_one equal include_scores) kept),
                whole include_scores n_listed all kept long (
                    subst (Perm all) same
                      (ordered-Perm equal sorted sorts order_by order matching)),
                consecutive include_scores m n offset all,
              )
      ]
