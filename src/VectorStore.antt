-- ===== src/VectorStore.antt =====
-- inference_core/vectorstores/base.py: the in-memory provider of vector stores. A call takes the store and
-- returns its answer and the store after it. `str` of a number is a parameter.
pub mod Collections
pub mod Adding
pub mod Histories
pub mod Searching
pub mod Listing
pub mod Paging
use Prim.Native.String.{◌++◌ as ◌and_then◌}
use backend_template.Prelude.{
  String, ℕ, zero, suc, ◌+◌, ◌<◌, Bool, true, false, not, ◌&&◌, Option, none, some, List, [], ◌∷◌,
  ◌++◌, map, str_eq, ◌==◌, ltb, leb, if◌then◌else◌, length, take, drop,
}
use backend_template.Prelude.Options.{◌>>=◌}
use backend_template.Values.{
  Key, text, number, Value, null, str, tuple, dict, cons, nil, Fields, end, field, find,
}
use backend_template.ParamPolicy.{get, assign, mem, is_some}

-- A score is a quotient of numbers, kept as its parts.
pub record Score : Type 0 where
  pub hits : ℕ
  pub words : ℕ

-- `VectorStoreDocument`
pub record Document : Type 0 where
  pub id : String
  pub content : String
  pub metadata : Fields
  pub score : Option Score

pub record Collection : Type 0 where
  pub dimension : ℕ
  pub distance : String
  pub count : ℕ

-- `CollectionStats`
pub record Stats : Type 0 where
  pub name : String
  pub count : ℕ
  pub dimension : ℕ
  pub distance_metric : String

-- the dicts `_collections` and `_documents`
pub record Store : Type 0 where
  pub collections : List (String × Collection)
  pub documents : List (String × List Document)

abbrev pub empty_store : Store
empty_store = record { collections = []; documents = [] }

pub record Config : Type 0 where
  pub default_collection : Option String
  pub dimension : Option ℕ
  pub distance : Option String

-- an answer, or a ValueError
pub data Reply {ℓ} (A : Type ℓ) : Type ℓ where
  done : A → Reply A
  value_error : Reply A

abbrev pub or_default : {A : Type 0} → Option A → A → A
or_default none d = d
or_default (some a) d = a

-- `del d[key]`
unfoldable pub delete_key : {V : Type 0} → String → List (String × V) → List (String × V)
delete_key k [] = []
delete_key k ((j, v) ∷ d) = let rest = delete_key k d in if str_eq j k then rest else (j, v) ∷ rest

-- `xs or None` for a sequence that may be None or empty
abbrev pub if_nonempty : {A : Type 0} → Option (List A) → Option (List A)
if_nonempty none = none
if_nonempty (some []) = none
if_nonempty (some (x ∷ xs)) = some (x ∷ xs)

-- `xs and len(xs) != n`
abbrev pub other_length : {A : Type 0} → Option (List A) → ℕ → Bool
other_length none n = false
other_length (some xs) n = not (length xs == n)

-- `xs[i] if xs else d`: the list is as long as the texts
abbrev pub head_or : {A : Type 0} → A → Option (List A) → A
head_or d none = d
head_or d (some []) = d
head_or d (some (x ∷ xs)) = x

abbrev pub tail_of : {A : Type 0} → Option (List A) → Option (List A)
tail_of none = none
tail_of (some []) = some []
tail_of (some (x ∷ xs)) = some xs

-- the appending in one round of the loop of `add_texts`: after `ensure_collection` both dicts have the name
unfoldable pub add_document : String → Document → Store → Store
add_document name doc store = elim (get name store.collections) [
  | none ↦ store
  | some c ↦ elim (get name store.documents) [
    | none ↦ store
    | some docs ↦ record {
      collections = assign name (record c { count = c.count + 1 }) store.collections;
      documents = assign name (docs ++ (doc ∷ [])) store.documents;
    }
  ]
]

module _ (show : ℕ → String) where
  -- `f"{collection}_{i}_{len(self._documents[collection])}"`
  abbrev pub generated_id : String → ℕ → Store → String
  generated_id name i store =
      name
      and_then "_"
      and_then show i
      and_then "_"
      and_then show (length (or_default (get name store.documents) []))

  -- the loop, from index `i`: the identifiers and the store
  unfoldable pub add_loop :
      String
      → ℕ
      → List String
      → Option (List Fields)
      → Option (List String)
      → Store
      → List String × Store
  add_loop name i [] metadatas ids store = ([], store)
  add_loop name i (content ∷ texts) metadatas ids store =
      let id = head_or (generated_id name i store) ids in
      let doc : Document = record {
        id = id;
        content = content;
        metadata = head_or end metadatas;
        score = none;
      } in
      let (more, after) =
        add_loop name (suc i) texts (tail_of metadatas) (tail_of ids)
          (add_document name doc store) in
      (id ∷ more, after)

module _ (config : Config) where
  abbrev pub get_default_collection : String
  get_default_collection = or_default config.default_collection "default_documents"

  abbrev pub get_dimension : ℕ
  get_dimension = or_default config.dimension 384

  abbrev pub get_distance_metric : String
  get_distance_metric = or_default config.distance "cosine"

  -- `dimension or self.get_dimension()`
  abbrev pub dimension_or : Option ℕ → ℕ
  dimension_or none = get_dimension
  dimension_or (some zero) = get_dimension
  dimension_or (some (suc n)) = suc n

  -- `collection or self.get_default_collection()`
  abbrev pub collection_or : Option String → String
  collection_or none = get_default_collection
  collection_or (some name) = if str_eq name "" then get_default_collection else name

  unfoldable pub ensure_collection : String → Option ℕ → Store → Bool × Store
  ensure_collection name dimension store =
      if is_some (get name store.collections) then (false, store) else (
        true,
        record {
          collections =
              assign name
                (record {
                  dimension = dimension_or dimension;
                  distance = get_distance_metric;
                  count = 0;
                })
                store.collections;
          documents = assign name [] store.documents;
        },
      )

  unfoldable pub add_texts :
      (ℕ → String)
      → List String
      → Option (List Fields)
      → Option (List String)
      → Option String
      → Store
      → Reply (List String) × Store
  add_texts show texts metadatas ids collection store =
      let name = collection_or collection in
      let (created, ensured) = ensure_collection name none store in
      if other_length (if_nonempty metadatas) (length texts)
      then (value_error, ensured)
      else if other_length (if_nonempty ids) (length texts)
      then (value_error, ensured)
      else let (doc_ids, after) =
          add_loop show name 0 texts (if_nonempty metadatas) (if_nonempty ids) ensured in
        (done doc_ids, after)

unfoldable pub collection_stats : String → Store → Reply Stats
collection_stats name store = elim (get name store.collections) [
  | none ↦ value_error
  | some c ↦ done (record {
    name = name;
    count = c.count;
    dimension = c.dimension;
    distance_metric = c.distance;
  })
]

unfoldable pub delete_collection : String → Store → Bool × Store
delete_collection name store =
    if is_some (get name store.collections)
    then (
      true,
      record {
        collections = delete_key name store.collections;
        documents = delete_key name store.documents;
      },
    )
    else (false, store)

-- `sum(col["count"] for col in self._collections.values())`
unfoldable pub sum_counts : List (String × Collection) → ℕ
sum_counts [] = 0
sum_counts ((name, c) ∷ more) = c.count + sum_counts more

pub record Health : Type 0 where
  pub collections : List String
  pub total_documents : ℕ

abbrev pub keys : {V : Type 0} → List (String × V) → List String
keys [] = []
keys ((k, v) ∷ d) = k ∷ keys d

unfoldable pub health_check : Store → Health
health_check store = record {
  collections = keys store.collections;
  total_documents = sum_counts store.collections;
}
