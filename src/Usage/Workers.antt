-- ===== src/Usage/Workers.antt =====
-- What the workers of llm/usage_logging.py come to, in any order of their steps.
use backend_template.Prelude.{
  ℕ, suc, ◌+◌, ◌≤◌, String, str_eq, eq_iff, ◌≡◌, refl, sym, subst, ap, ◌∙◌, true, ◌==◌, ◌&&◌,
  ==_iff, none, some, List, [], ◌∷◌, ◌++◌, arith, Bool-cases, inl, inr, if◌then◌else◌,
}
use backend_template.Usage.Snapshots.{
  Snapshot, Phase, start, missing, conflicted, failed, done, System, find_snapshot, move, finish,
  insert,
}

-- how many snapshots have a hash
unfoldable pub count_snapshots : String → List Snapshot → ℕ
count_snapshots h [] = 0
count_snapshots h (r ∷ rows) =
    let rest = count_snapshots h rows in if str_eq r.snapshot_hash h then suc rest else rest

find_snapshot-append :
    (h : String) (r : Snapshot) (rows : List Snapshot)
    → find_snapshot h (rows ++ r ∷ []) ≡ elim (find_snapshot h rows) [
      | none ↦ if str_eq r.snapshot_hash h then some r.id else none
      | some id ↦ some id
    ]
unfolding find_snapshot
find_snapshot-append h r [] = refl
find_snapshot-append h r (q ∷ rows) = ground (arith, find_snapshot-append h r rows)

count_snapshots-append :
    (h : String) (r : Snapshot) (rows : List Snapshot)
    → count_snapshots h (rows ++ r ∷ [])
      ≡ count_snapshots h rows + (if str_eq r.snapshot_hash h then 1 else 0)
unfolding count_snapshots
count_snapshots-append h r [] = ground arith
count_snapshots-append h r (q ∷ rows) = ground (arith, count_snapshots-append h r rows)

count_snapshots-none :
    (h : String) (rows : List Snapshot) → find_snapshot h rows ≡ none → count_snapshots h rows ≡ 0
unfolding find_snapshot count_snapshots
count_snapshots-none h [] e = refl
count_snapshots-none h (r ∷ rows) e = ground (arith, count_snapshots-none h rows)

-- what a phase says of the table
abbrev pub PhaseHolds : Phase → String → List Snapshot → Type 0
PhaseHolds start h rows = Unit
PhaseHolds missing h rows = Unit
PhaseHolds conflicted h rows = (id : ℕ) × (find_snapshot h rows ≡ some id)
PhaseHolds failed h rows = ⊥
PhaseHolds (done id) h rows = find_snapshot h rows ≡ some id

-- a table that has got more rows
abbrev Grows : List Snapshot → List Snapshot → Type 0
Grows rows rows' =
    (h : String) (id : ℕ) → find_snapshot h rows ≡ some id → find_snapshot h rows' ≡ some id

PhaseHolds-Grows :
    (p : Phase) (h : String) (rows rows' : List Snapshot)
    → Grows rows rows'
    → PhaseHolds p h rows
    → PhaseHolds p h rows'
PhaseHolds-Grows start h rows rows' g k = tt
PhaseHolds-Grows missing h rows rows' g k = tt
PhaseHolds-Grows conflicted h rows rows' g (id, k) = (id, g h id k)
PhaseHolds-Grows (done id) h rows rows' g k = g h id k
PhaseHolds-Grows failed h rows rows' g k = absurd k

module _ (process : ℕ → ℕ) (hash : ℕ → String) where
  pub record IsConsistent (s : System) : Type 0 where
    pub unique : (h : String) → count_snapshots h s.snapshots ≤ 1
    pub cached :
        (p : ℕ) (h : String) (id : ℕ)
        → s.caches p h ≡ some id
        → find_snapshot h s.snapshots ≡ some id
    pub phase : (w : ℕ) → PhaseHolds (s.phases w) (hash w) s.snapshots

  pub move-IsConsistent :
      (w : ℕ) (p : Phase) (s : System)
      → PhaseHolds p (hash w) s.snapshots
      → IsConsistent s
      → IsConsistent (move process hash w p s)
  move-IsConsistent w p s holds k = record {
    unique = k.unique;
    cached = k.cached;
    phase = λ v. elim (Bool-cases (v == w)) [
      | inl e ↦ rw e (subst (λ x. PhaseHolds p (hash x) s.snapshots) (sym ((==_iff v w).0 e)) holds)
      | inr e ↦ rw e (k.phase v)
    ];
  }

  pub finish-IsConsistent :
      (w id : ℕ) (s : System)
      → find_snapshot (hash w) s.snapshots ≡ some id
      → IsConsistent s
      → IsConsistent (finish process hash w id s)
  finish-IsConsistent w id s found k = record {
    unique = k.unique;
    cached = λ p h i e. elim (Bool-cases ((p == process w) && str_eq h (hash w))) [
      | inl f ↦
          let same : str_eq h (hash w) ≡ true = ground arith in
          subst (λ x. find_snapshot x s.snapshots ≡ some i) (sym ((eq_iff h (hash w)).0 same))
            (found ∙ rw f at e)
      | inr f ↦ k.cached p h i (rw f at e)
    ];
    phase = (move-IsConsistent w (done id) s found k).phase;
  }

  pub insert-IsConsistent :
      (w : ℕ) (s : System)
      → find_snapshot (hash w) s.snapshots ≡ none
      → IsConsistent s
      → IsConsistent (insert process hash w s none)
  insert-IsConsistent w s absent k =
      let row : Snapshot = record { id = s.drawn; snapshot_hash = hash w } in
      let grows : Grows s.snapshots (s.snapshots ++ row ∷ []) =
        λ h id e. find_snapshot-append h row s.snapshots ∙ rw e refl in
      finish-IsConsistent w s.drawn
        (record s { snapshots = s.snapshots ++ row ∷ []; drawn = suc s.drawn })
        (find_snapshot-append (hash w) row s.snapshots
          ∙ rw (absent, (eq_iff (hash w) (hash w)).1 refl) refl)
        (record {
          unique = λ h.
              let before = k.unique h in
              rw (count_snapshots-append h row s.snapshots) (elim (Bool-cases (str_eq (hash w) h)) [
                | inl e ↦
                    let none_yet = count_snapshots-none (hash w) s.snapshots absent in
                    let same = ap (λ x. count_snapshots x s.snapshots) ((eq_iff (hash w) h).0 e) in
                    rw e (omega (arith, none_yet, same))
                | inr e ↦ rw e (omega (arith, before))
              ]);
          cached = λ p h id e. grows h id (k.cached p h id e);
          phase = λ v. PhaseHolds-Grows (s.phases v) (hash v) s.snapshots _ grows (k.phase v);
        })
