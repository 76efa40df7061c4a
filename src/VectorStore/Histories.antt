-- ===== src/VectorStore/Histories.antt =====
-- The in-memory provider as a map from names to lists of documents (vectorstores/base.py).
use mathlib.Core.Path.{fun_ext}
use backend_template.Prelude.{
  String, ℕ, ◌≡◌, refl, sym, ◌∙◌, ap, ◌||◌, Option, none, some, List, [], ◌∷◌, ◌++◌, str_eq, eq_iff,
  arith, if◌then◌else◌, length, Bool-cases, inl, inr,
}
use backend_template.Values.{Fields}
use backend_template.ParamPolicy.{get}
use backend_template.ParamPolicy.Targets.{get-assign}
use backend_template.VectorStore.{
  Document, Collection, Stats, Store, empty_store, Config, Reply, done, value_error, or_default,
  collection_or, if_nonempty, other_length, ensure_collection, add_loop, add_texts,
  collection_stats, delete_collection, health_check,
}
use backend_template.VectorStore.Collections.{
  IsMatched, Paired, get-Paired, assign-Paired, delete_key-Paired, get-delete_key, sum_lengths,
  sum_counts-Paired,
}
use backend_template.VectorStore.Adding.{new_documents, Added, add_loop-Added}

-- the abstract state: the documents under each name, if there is a collection
abbrev pub View : Type 0
View = String → Option (List Document)

abbrev pub view : Store → View
view s k = get k s.documents

abbrev pub at_name : String → Option (List Document) → View → View
at_name name docs v k = if str_eq name k then docs else v k

-- the calls that change a store
pub data Call : Type 0 where
  ensure : String → Option ℕ → Call
  add : List String → Option (List Fields) → Option (List String) → Option String → Call
  delete : String → Call

at_name_same :
    (name : String) (docs : List Document) (s : Store) (k : String)
    → view s name ≡ some docs
    → view s k ≡ at_name name (some docs) (view s) k
at_name_same name docs s k f = ground (arith, eq_iff name k)

-- the number that a reply tells
unfoldable pub stats_count : Reply Stats → Option ℕ
stats_count value_error = none
stats_count (done stats) = some stats.count

-- the number of documents, if there is a collection
unfoldable pub size : Option (List Document) → Option ℕ
size none = none
size (some docs) = some (length docs)

collection_stats-size :
    (name : String) (s : Store)
    → IsMatched s
    → stats_count (collection_stats name s) ≡ size (view s name)
unfolding IsMatched stats_count collection_stats size
collection_stats-size name s p = elim (get-Paired name s.collections s.documents p) [
  | inl (e, f) ↦ rw (collection_stats, e, f) refl
  | inr (c, docs, e, f, g) ↦ rw (collection_stats, e, f, sym g) refl
]

module _ (config : Config) (show : ℕ → String) where
  abbrev pub call : Call → Store → Store
  call (ensure name dimension) s = (ensure_collection config name dimension s).1
  call (add texts metadatas ids collection) s =
      (add_texts config show texts metadatas ids collection s).1
  call (delete name) s = (delete_collection name s).1

  unfoldable pub calls : List Call → Store → Store
  calls [] s = s
  calls (c ∷ cs) s = calls cs (call c s)

  -- What a call means for the view. A call of `add_texts` with a list of another length than the texts adds nothing, but
  -- makes the collection.
  abbrev pub spec_add :
      List String
      → Option (List Fields)
      → Option (List String)
      → List Document
      → String
      → List Document
  spec_add texts metadatas ids docs name =
      if other_length (if_nonempty metadatas) (length texts)
        || other_length (if_nonempty ids) (length texts)
      then docs
      else docs
        ++ new_documents show name 0 (length docs) texts (if_nonempty metadatas) (if_nonempty ids)

  abbrev pub spec : Call → View → View
  spec (ensure name dimension) v = at_name name (some (or_default (v name) [])) v
  spec (add texts metadatas ids collection) v =
      let name = collection_or config collection in
      at_name name (some (spec_add texts metadatas ids (or_default (v name) []) name)) v
  spec (delete name) v = at_name name none v

  unfoldable pub specs : List Call → View → View
  specs [] v = v
  specs (c ∷ cs) v = specs cs (spec c v)

  Refines : Store → View → Type 0
  Refines s v = ((k : String) → view s k ≡ v k) × IsMatched s

  ensure_collection-view :
      (name : String) (dimension : Option ℕ) (s : Store)
      → IsMatched s
      → Refines
          (ensure_collection config name dimension s).1
          (at_name name (some (or_default (view s name) [])) (view s))
  unfolding Refines IsMatched ensure_collection
  ensure_collection-view name dimension s p = elim (get-Paired name s.collections s.documents p) [
    | inl (e, f) ↦
        rw (e, f) ((λ k. get-assign k name [] s.documents), assign-Paired name _ [] _ _ p refl)
    | inr (c, docs, e, f, g) ↦ rw (e, f) ((λ k. at_name_same name docs s k f), p)
  ]

  -- the collection that `add_texts` adds to
  opened :
      (name : String) (docs : List Document) (s : Store)
      → IsMatched s
      → view s name ≡ some docs
      → (c : Collection) × (get name s.collections ≡ some c) × (c.count ≡ length docs)
  unfolding IsMatched
  opened name docs s p found = elim (get-Paired name s.collections s.documents p) [
    | inl (e, f) ↦ ground arith
    | inr (c, docs', e, f, g) ↦ (c, e, ground arith)
  ]

  add_loop-Refines :
      (name : String) (texts : List String) (metadatas : Option (List Fields))
      (ids : Option (List String)) (docs : List Document) (s : Store) (v : View)
      → Refines s (at_name name (some docs) v)
      → Refines (add_loop show name 0 texts metadatas ids s).1 (
          at_name name
            (some (docs ++ new_documents show name 0 (length docs) texts metadatas ids))
            v)
  unfolding Refines Added
  add_loop-Refines name texts metadatas ids docs s v (same, p) =
      let found : view s name ≡ some docs = same name ∙ ground (arith, eq_iff name name) in
      let (c, e, g) = opened name docs s p found in
      let (same_ids, after, matched) =
        add_loop-Added show name 0 texts metadatas ids s c docs e found g p in
      (
        (λ k. after k ∙ elim (Bool-cases (str_eq name k)) [
          | inl here ↦ rw here refl
          | inr other ↦ rw other (same k ∙ rw other refl)
        ]),
        matched,
      )

  add_texts-Refines :
      (texts : List String) (metadatas : Option (List Fields)) (ids : Option (List String))
      (collection : Option String) (s : Store)
      → IsMatched s
      → Refines
          (add_texts config show texts metadatas ids collection s).1
          (spec (add texts metadatas ids collection) (view s))
  unfolding add_texts
  add_texts-Refines texts metadatas ids collection s p =
      let name = collection_or config collection in
      let ensured = ensure_collection-view name none s p in
      elim (Bool-cases (other_length (if_nonempty metadatas) (length texts))) [
        | inl e ↦ rw e ensured
        | inr e ↦ elim (Bool-cases (other_length (if_nonempty ids) (length texts))) [
          | inl f ↦ rw (e, f) ensured
          | inr f ↦
              rw (e, f)
                (add_loop-Refines name texts (if_nonempty metadatas) (if_nonempty ids)
                  (or_default (view s name) []) (ensure_collection config name none s).1 (view s)
                  ensured)
        ]
      ]

  delete_collection-Refines :
      (name : String) (s : Store)
      → IsMatched s
      → Refines (delete_collection name s).1 (at_name name none (view s))
  unfolding Refines IsMatched delete_collection
  delete_collection-Refines name s p = elim (get-Paired name s.collections s.documents p) [
    | inl (e, f) ↦ rw e ((λ k. ground (arith, eq_iff name k)), p)
    | inr (c, docs, e, f, g) ↦
        rw e ((λ k. get-delete_key k name s.documents), delete_key-Paired name _ _ p)
  ]

  call-Refines : (c : Call) (s : Store) → IsMatched s → Refines (call c s) (spec c (view s))
  call-Refines (ensure name dimension) s p = ensure_collection-view name dimension s p
  call-Refines (add texts metadatas ids collection) s p =
      add_texts-Refines texts metadatas ids collection s p
  call-Refines (delete name) s p = delete_collection-Refines name s p

  calls-Refines :
      (cs : List Call) (s : Store) → IsMatched s → Refines (calls cs s) (specs cs (view s))
  unfolding calls specs Refines
  calls-Refines [] s p = ((λ k. refl), p)
  calls-Refines (c ∷ cs) s p =
      let (same, matched) = call-Refines c s p in
      rw (sym (fun_ext same)) (calls-Refines cs (call c s) matched)

  -- After any calls of `ensure_collection`, `add_texts` and `delete_collection` on a new provider, the documents
  -- under every name are those that the calls on a map from names to documents give, and `collection_stats` tells
  -- their number, or raises ValueError where the map has no such name; the total of `health_check` is the number of all
  -- documents that are kept.
  pub calls-specs :
      (cs : List Call) (name : String)
      → (view (calls cs empty_store) name ≡ specs cs (λ k. none) name)
        × (stats_count (collection_stats name (calls cs empty_store))
            ≡ size (specs cs (λ k. none) name))
        × ((health_check (calls cs empty_store)).total_documents
            ≡ sum_lengths (calls cs empty_store).documents)
  unfolding IsMatched Refines Paired health_check get
  calls-specs cs name =
      let (same, matched) = calls-Refines cs empty_store tt in
      (
        same name,
        collection_stats-size name _ matched ∙ ap size (same name),
        sum_counts-Paired _ _ matched,
      )
