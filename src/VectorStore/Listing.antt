-- ===== src/VectorStore/Listing.antt =====
-- `list_documents` of the in-memory provider (vectorstores/base.py).

use backend_template.Prelude.{
  String, ℕ, Bool, true, false, ◌&&◌, Option, none, some, List, [], ◌∷◌, map, str_eq, if◌then◌else◌,
  length, take, drop,
}
use backend_template.Values.{
  text, number, Value, null, str, tuple, dict, cons, nil, Fields, end, field, find,
}
use backend_template.ParamPolicy.{get}
use backend_template.VectorStore.{Document, Store, or_default}

-- Python's `==` on values
module _ (equal : Value → Value → Bool) where
  -- `_matches_filter`; the keys of metadata and of filters are texts
  unfoldable mutual
    pub matches_filter : Fields → Fields → Bool
    matches_filter end meta = true
    matches_filter (field (text k) v flt) meta =
        (elim (find k meta) [ none ↦ false | some current ↦ matches_value v current ])
        && matches_filter flt meta
    matches_filter (field (number n) v flt) meta = false

    pub matches_value : Value → Value → Bool
    matches_value (dict end) current = true
    matches_value (dict (field k v flt)) (dict current) = matches_nested (field k v flt) current
    matches_value (dict (field k v flt)) current = false
    matches_value v current = equal current v

    pub matches_nested : Fields → Fields → Bool
    matches_nested end current = true
    matches_nested (field (text k) v flt) current =
        matches_item v (or_default (find k current) null) && matches_nested flt current
    matches_nested (field (number n) v flt) current = false

    pub matches_item : Value → Value → Bool
    matches_item (dict flt) (dict current) = matches_filter flt current
    matches_item (dict flt) current = false
    matches_item v current = equal current v

  unfoldable pub filter_docs : Fields → List Document → List Document
  filter_docs filters [] = []
  filter_docs filters (doc ∷ docs) =
      let rest = filter_docs filters docs in
      if matches_filter filters doc.metadata then doc ∷ rest else rest

  -- `get_sort_key`
  unfoldable pub sort_key : String → String → Document → Value
  sort_key order_by order doc = elim (find order_by doc.metadata) [
    | some null ↦ none_key
    | none ↦ none_key
    | some value ↦ value
  ]
    where
      none_key : Value
      none_key =
          if str_eq order "asc"
          then tuple (cons (str "") (cons (str "") nil))
          else tuple (cons (str "~") (cons (str "~") nil))

  -- `sorted` by a key, descending or not, which raises where keys do not compare
  module _ (sorted : (Document → Value) → Bool → List Document → Option (List Document)) where
    abbrev pub without_score : Document → Document
    without_score doc = record doc { score = none }

    abbrev pub ordered : Option String → String → List Document → List Document
    ordered none order docs = docs
    ordered (some order_by) order docs =
        if str_eq order_by ""
        then docs
        else or_default (sorted (sort_key order_by order) (str_eq order "desc") docs) docs

    unfoldable pub list_documents :
        String → Option Fields → ℕ → ℕ → Option String → String → Bool → Store → List Document × ℕ
    list_documents name filters limit offset order_by order include_scores store =
        elim (get name store.documents) [
          | none ↦ ([], 0)
          | some docs ↦
              let matching = filter_docs (or_default filters end) docs in
              let page = take limit (drop offset (ordered order_by order matching)) in
              (if include_scores then page else map without_score page, length matching)
        ]
