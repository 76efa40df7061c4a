-- ===== src/Tests/Searches.antt =====
-- A store with two documents in one collection.
use backend_template.Prelude.{
  String, ℕ, ◌+◌, ◌++◌, ◌-◌, length, subst, arith, ◌≡◌, refl, Option, Bool, false, none, some, List,
  [], ◌∷◌, str_eq, if◌then◌else◌,
}
use mathlib.Core.List.{Perm}
use mathlib.Core.List.Perm
use backend_template.Values.{Value, end}
use backend_template.VectorStore.{
  Document, Store, empty_store, Config, collection_stats, health_check,
}
use backend_template.VectorStore.Collections.{sum_lengths}
use backend_template.VectorStore.Histories.{
  Call, ensure, add, delete, calls, specs, view, stats_count, size, calls-specs,
}
use backend_template.VectorStore.Searching.{
  similarity_search, with_words, IsRanked, similarity_search-IsRanked,
}
use backend_template.VectorStore.Listing.{list_documents}
use backend_template.VectorStore.Paging.{wanted, list_documents-pages}

abbrev config : Config
config = record { default_collection = some "notes"; dimension = none; distance = none }

abbrev show : ℕ → String
show n = "n"

abbrev two_texts : Call
two_texts = add ("red apple" ∷ "apple" ∷ []) none (some ("a" ∷ "b" ∷ [])) none

abbrev history : List Call
history = ensure "mails" (some 3) ∷ two_texts ∷ delete "mails" ∷ []

calls-specs_example :
    (view (calls config show history empty_store) "notes"
      ≡ specs config show history (λ k. none) "notes")
    × (stats_count (collection_stats "notes" (calls config show history empty_store))
        ≡ size (specs config show history (λ k. none) "notes"))
    × ((health_check (calls config show history empty_store)).total_documents
        ≡ sum_lengths (calls config show history empty_store).documents)
calls-specs_example = calls-specs config show history "notes"

abbrev split : String → List String
split s = if str_eq s "red apple" then "red" ∷ "apple" ∷ [] else s ∷ []

abbrev contains : String → String → Bool
contains word content = str_eq word "apple"

abbrev apples : List Document
apples =
    record { id = "a"; content = "red apple"; metadata = end; score = none }
    ∷ record { id = "b"; content = "apple"; metadata = end; score = none }
    ∷ []

abbrev store : Store
store = record {
  collections = ("notes", record { dimension = 384; distance = "cosine"; count = 2 }) ∷ [];
  documents = ("notes", apples) ∷ [];
}

similarity_search-IsRanked_example :
    let found = similarity_search (λ s. s) split contains config "red apple" 1 none store in
    let matching = with_words contains (λ s. s) (split "red apple") apples in
    (rest : List Document) × Perm (found ++ rest) matching
    × IsRanked (found ++ rest)
    × (length rest ≡ length matching - 1)
unfolding backend_template.ParamPolicy.get
similarity_search-IsRanked_example =
    similarity_search-IsRanked (λ s. s) split contains config "red apple" 1 none store apples refl

-- a sort for which all keys are equal
abbrev sort : (Document → Value) → Bool → List Document → Option (List Document)
sort key down docs = some docs

sort_perm :
    (key : Document → Value) (down : Bool) (docs ds : List Document)
    → sort key down docs ≡ some ds
    → Perm ds docs
sort_perm key down docs ds e = subst (λ xs. Perm xs docs) (ground (arith, e)) Perm.rfl

abbrev page : ℕ → ℕ → List Document × ℕ
page limit start =
    list_documents (λ v w. false) sort "notes" none limit start (some "year") "desc" false store

abbrev listed : List Document
listed = wanted (λ v w. false) false end apples

list_documents-pages_example :
    ((page 1 0).1 ≡ length listed)
    × Perm (page (length listed) 0).0 listed
    × ((page 1 0).0 ++ (page 1 (0 + 1)).0 ≡ (page (1 + 1) 0).0)
unfolding backend_template.ParamPolicy.get
list_documents-pages_example =
    list_documents-pages (λ v w. false) sort sort_perm "notes" none 1 1 0 (some "year") "desc" false
      store
