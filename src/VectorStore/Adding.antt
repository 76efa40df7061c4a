-- ===== src/VectorStore/Adding.antt =====
-- `add_texts` of the in-memory provider (vectorstores/base.py).
use Prim.Native.String.{◌++◌ as ◌and_then◌}
use backend_template.Prelude.{
  String, ℕ, suc, ◌+◌, ◌≡◌, refl, ◌∙◌, ap, Option, none, some, List, [], ◌∷◌, ◌++◌, map, str_eq,
  eq_iff, arith, if◌then◌else◌, length, Bool-cases, inl, inr, append_assoc, append-nil,
  length-append,
}
use backend_template.Values.{Fields, end}
use backend_template.ParamPolicy.{get, assign}
use backend_template.ParamPolicy.Targets.{get-assign}
use backend_template.VectorStore.{
  Document, Collection, Store, head_or, tail_of, add_document, generated_id, add_loop,
}
use backend_template.VectorStore.Collections.{IsMatched, assign-Paired}

-- what is found under a name that was just assigned
pub get-assign_same :
    {V : Type 0} (k : String) (v : V) (d : List (String × V)) → get k (assign k v d) ≡ some v
get-assign_same k v d = get-assign k k v d ∙ ground (arith, eq_iff k k)

abbrev pub counted_up : Collection → Collection
counted_up c = record c { count = c.count + 1 }

length-snoc :
    (docs : List Document) (doc : Document) → length (docs ++ (doc ∷ [])) ≡ suc (length docs)
length-snoc docs doc = omega (arith, length-append docs (doc ∷ []))

add_document_lem :
    (name : String) (doc : Document) (c : Collection) (docs : List Document) (s : Store)
    → get name s.collections ≡ some c
    → get name s.documents ≡ some docs
    → add_document name doc s ≡ record {
      collections = assign name (counted_up c) s.collections;
      documents = assign name (docs ++ (doc ∷ [])) s.documents;
    }
unfolding add_document
add_document_lem name doc c docs s e f = rw (add_document, e, f) refl

module _ (show : ℕ → String) where
  -- The documents that `add_texts` makes, from index `i`, where `n` documents are there.
  unfoldable pub new_documents :
      String → ℕ → ℕ → List String → Option (List Fields) → Option (List String) → List Document
  new_documents name i n [] metadatas ids = []
  new_documents name i n (content ∷ texts) metadatas ids =
      record {
        id = head_or (name and_then "_" and_then show i and_then "_" and_then show n) ids;
        content = content;
        metadata = head_or end metadatas;
        score = none;
      }
      ∷ new_documents name (suc i) (suc n) texts (tail_of metadatas) (tail_of ids)

  -- the document of one round, and the state after it
  abbrev first_document :
      String → ℕ → String → Option (List Fields) → Option (List String) → ℕ → Document
  first_document name i content metadatas ids n = record {
    id = head_or (name and_then "_" and_then show i and_then "_" and_then show n) ids;
    content = content;
    metadata = head_or end metadatas;
    score = none;
  }

  abbrev after_add : String → Document → Collection → List Document → Store → Store
  after_add name doc c docs s = record {
    collections = assign name (counted_up c) s.collections;
    documents = assign name (docs ++ (doc ∷ [])) s.documents;
  }

  unfoldable pub Added :
      String
      → ℕ
      → List String
      → Option (List Fields)
      → Option (List String)
      → List Document
      → Store
      → List String × Store
      → Type 0
  Added name i texts metadatas ids docs s (doc_ids, after) =
      let new = new_documents name i (length docs) texts metadatas ids in
      (doc_ids ≡ map (λ doc. doc.id) new)
      × ((k : String)
          → get k after.documents
            ≡ (if str_eq name k then some (docs ++ new) else get k s.documents))
      × IsMatched after

  Added-cons :
      (name : String) (i : ℕ) (content : String) (texts : List String)
      (metadatas : Option (List Fields)) (ids : Option (List String)) (s : Store) (c : Collection)
      (docs : List Document) (r : List String × Store)
      → let doc = first_document name i content metadatas ids (length docs) in
        Added name
          (suc i)
          texts
          (tail_of metadatas)
          (tail_of ids)
          (docs ++ (doc ∷ []))
          (after_add name doc c docs s)
          r
        → Added name i (content ∷ texts) metadatas ids docs s (doc.id ∷ r.0, r.1)
  unfolding Added new_documents
  Added-cons name i content texts metadatas ids s c docs r h =
      let doc : Document = first_document name i content metadatas ids (length docs) in
      let (same_ids, found, matched) = rw (length-snoc docs doc) at h in
      (
        ap (◌∷◌ doc.id) same_ids,
        λ k. found k ∙ elim (Bool-cases (str_eq name k)) [
          | inl e ↦
              rw
                (
                  e,
                  append_assoc docs (doc ∷ []) (
                      new_documents name (suc i) (suc (length docs)) texts (tail_of metadatas)
                        (tail_of ids)),
                )
                refl
          | inr e ↦ rw (get-assign k name (docs ++ (doc ∷ [])) s.documents, e) refl
        ],
        matched,
      )

  pub add_loop-Added :
      (name : String) (i : ℕ) (texts : List String) (metadatas : Option (List Fields))
      (ids : Option (List String)) (s : Store) (c : Collection) (docs : List Document)
      → get name s.collections ≡ some c
      → get name s.documents ≡ some docs
      → c.count ≡ length docs
      → IsMatched s
      → Added name i texts metadatas ids docs s (add_loop show name i texts metadatas ids s)
  unfolding add_loop new_documents IsMatched Added
  add_loop-Added name i [] metadatas ids s c docs e f g p =
      (refl, (λ k. rw append-nil (ground (arith, eq_iff name k))), p)
  add_loop-Added name i (content ∷ texts) metadatas ids s c docs e f g p =
      let doc : Document = first_document name i content metadatas ids (length docs) in
      let counted : c.count + 1 ≡ length (docs ++ (doc ∷ [])) =
        omega (arith, g, length-snoc docs doc) in
      rw (generated_id, f, add_document_lem name doc c docs s e f)
        (Added-cons name i content texts metadatas ids s c docs _ (
          add_loop-Added name (suc i) texts (tail_of metadatas) (tail_of ids)
            (after_add name doc c docs s) (counted_up c) (docs ++ (doc ∷ []))
            (get-assign_same name _ s.collections) (get-assign_same name _ s.documents) counted
            (assign-Paired name _ _ s.collections s.documents p counted)))
