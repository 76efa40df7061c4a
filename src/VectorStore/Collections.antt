-- ===== src/VectorStore/Collections.antt =====
-- The two dicts of the in-memory provider (vectorstores/base.py).
use backend_template.Prelude.{
  String, ℕ, ◌+◌, ◌≡◌, refl, sym, none, some, List, [], ◌∷◌, str_eq, eq_iff, arith, if◌then◌else◌,
  length, Bool-cases, inl, inr, ◌⊎◌,
}
use backend_template.ParamPolicy.{get, assign}
use backend_template.VectorStore.{Document, Collection, Store, delete_key, sum_counts}

-- The dicts have the same names in the same order, and every count is that of the documents.
unfoldable pub Paired : List (String × Collection) → List (String × List Document) → Type 0
Paired [] [] = Unit
Paired ((k, c) ∷ cs) ((j, docs) ∷ ds) = (k ≡ j) × (c.count ≡ length docs) × Paired cs ds
Paired _ _ = ⊥

unfoldable pub IsMatched : Store → Type 0
IsMatched store = Paired store.collections store.documents

pub get-Paired :
    (k : String) (cs : List (String × Collection)) (ds : List (String × List Document))
    → Paired cs ds
    → ((get k cs ≡ none) × (get k ds ≡ none))
      ⊎ ((c : Collection) × (docs : List Document) × (get k cs ≡ some c)
          × (get k ds ≡ some docs)
          × (c.count ≡ length docs))
unfolding Paired get
get-Paired k [] [] p = inl (refl, refl)
get-Paired k [] (x ∷ ds) p = absurd p
get-Paired k (x ∷ cs) [] p = absurd p
get-Paired k ((i, c) ∷ cs) ((j, docs) ∷ ds) p = elim (Bool-cases (str_eq i k)) [
  | inl e ↦ rw (sym p.0, e) (inr (c, docs, refl, refl, p.1))
  | inr e ↦ rw (sym p.0, e) (get-Paired k cs ds p.2)
]

pub assign-Paired :
    (k : String) (c : Collection) (docs : List Document) (cs : List (String × Collection))
    (ds : List (String × List Document))
    → Paired cs ds
    → c.count ≡ length docs
    → Paired (assign k c cs) (assign k docs ds)
unfolding Paired assign
assign-Paired k c docs [] [] p e = (refl, e, tt)
assign-Paired k c docs [] (x ∷ ds) p e = absurd p
assign-Paired k c docs (x ∷ cs) [] p e = absurd p
assign-Paired k c docs ((i, old) ∷ cs) ((j, olds) ∷ ds) p e = elim (Bool-cases (str_eq i k)) [
  | inl h ↦ rw (sym p.0, h) (refl, e, p.2)
  | inr h ↦ rw (sym p.0, h) (refl, p.1, assign-Paired k c docs cs ds p.2 e)
]

pub delete_key-Paired :
    (k : String) (cs : List (String × Collection)) (ds : List (String × List Document))
    → Paired cs ds
    → Paired (delete_key k cs) (delete_key k ds)
unfolding Paired delete_key
delete_key-Paired k [] [] p = tt
delete_key-Paired k [] (x ∷ ds) p = absurd p
delete_key-Paired k (x ∷ cs) [] p = absurd p
delete_key-Paired k ((i, c) ∷ cs) ((j, docs) ∷ ds) p = elim (Bool-cases (str_eq i k)) [
  | inl h ↦ rw (sym p.0, h) (delete_key-Paired k cs ds p.2)
  | inr h ↦ rw (sym p.0, h) (refl, p.1, delete_key-Paired k cs ds p.2)
]

pub get-delete_key :
    {V : Type 0} (k j : String) (d : List (String × V))
    → get k (delete_key j d) ≡ (if str_eq j k then none else get k d)
unfolding get delete_key
get-delete_key k j [] = ground arith
get-delete_key k j ((i, v) ∷ d) =
    ground (arith, get-delete_key k j d, eq_iff i j, eq_iff i k, eq_iff j k)

unfoldable pub sum_lengths : List (String × List Document) → ℕ
sum_lengths [] = 0
sum_lengths ((name, docs) ∷ ds) = length docs + sum_lengths ds

pub sum_counts-Paired :
    (cs : List (String × Collection)) (ds : List (String × List Document))
    → Paired cs ds
    → sum_counts cs ≡ sum_lengths ds
unfolding Paired sum_counts sum_lengths
sum_counts-Paired [] [] p = refl
sum_counts-Paired [] (x ∷ ds) p = absurd p
sum_counts-Paired (x ∷ cs) [] p = absurd p
sum_counts-Paired ((i, c) ∷ cs) ((j, docs) ∷ ds) p = omega (arith, p.1, sum_counts-Paired cs ds p.2)
