-- ===== src/Usage/Schedules.antt =====
-- The steps of all workers of llm/usage_logging.py in any order: what holds of them, and that each gets its snapshot.
use mathlib.Core.Option.{some-injective, none-ne-some}
use backend_template.Prelude.{
  ◌∙◌, ap, ℕ, suc, ◌-◌, ◌≤◌, String, ◌≡◌, refl, subst, sym, false, ◌==◌, ==_iff, none, some, List,
  [], ◌∷◌, arith, Bool-cases, Option-cases, inl, inr, if◌then◌else◌,
}
use backend_template.Usage.Snapshots.{
  Snapshot, Phase, start, missing, conflicted, failed, done, System, find_snapshot, step_from, step,
  steps,
}
use backend_template.Usage.Workers.{
  count_snapshots, PhaseHolds, IsConsistent, move-IsConsistent, finish-IsConsistent,
  insert-IsConsistent,
}

-- how many steps a worker has left at most
abbrev left : Phase → ℕ
left start = 3
left missing = 2
left conflicted = 1
left failed = 0
left (done id) = 0

-- how often a worker is scheduled
unfoldable pub turns : ℕ → List ℕ → ℕ
turns w [] = 0
turns w (v ∷ vs) = let rest = turns w vs in if v == w then suc rest else rest

module _ (process : ℕ → ℕ) (hash : ℕ → String) where
  step_from-IsConsistent :
      (p : Phase) (w : ℕ) (s : System)
      → PhaseHolds p (hash w) s.snapshots
      → IsConsistent process hash s
      → IsConsistent process hash (step_from process hash p w s)
  step_from-IsConsistent start w s h k = elim (Option-cases (s.caches (process w) (hash w))) [
    | inr (id, e) ↦
        rw e (move-IsConsistent process hash w (done id) s (k.cached (process w) (hash w) id e) k)
    | inl e ↦ elim (Option-cases (find_snapshot (hash w) s.snapshots)) [
      | inl f ↦ rw (e, f) (move-IsConsistent process hash w missing s tt k)
      | inr (id, f) ↦ rw (e, f) (finish-IsConsistent process hash w id s f k)
    ]
  ]
  step_from-IsConsistent missing w s h k =
      elim (Option-cases (find_snapshot (hash w) s.snapshots)) [
        | inl f ↦ rw f (insert-IsConsistent process hash w s f k)
        | inr (id, f) ↦ rw f (move-IsConsistent process hash w conflicted s (id, f) k)
      ]
  step_from-IsConsistent conflicted w s (id, h) k =
      rw h (finish-IsConsistent process hash w id s h k)
  step_from-IsConsistent failed w s h k = k
  step_from-IsConsistent (done id) w s h k = k

  pub steps-IsConsistent :
      (ws : List ℕ) (s : System)
      → IsConsistent process hash s
      → IsConsistent process hash (steps process hash ws s)
  unfolding steps step
  steps-IsConsistent [] s k = k
  steps-IsConsistent (w ∷ ws) s k =
      steps-IsConsistent ws (step process hash w s)
        (step_from-IsConsistent (s.phases w) w s (k.phase w) k)

  -- a step of a worker leaves the phases of the others
  others :
      (p : Phase) (v w : ℕ) (s : System)
      → (v == w) ≡ false
      → (step_from process hash p w s).phases v ≡ s.phases v
  others start v w s e = elim (Option-cases (s.caches (process w) (hash w))) [
    | inr (id, f) ↦ rw (f, e) refl
    | inl f ↦ elim (Option-cases (find_snapshot (hash w) s.snapshots)) [
      | inl g ↦ rw (f, g, e) refl
      | inr (id, g) ↦ rw (f, g, e) refl
    ]
  ]
  others missing v w s e = elim (Option-cases (find_snapshot (hash w) s.snapshots)) [
    | inl g ↦ rw (g, e) refl
    | inr (id, g) ↦ rw (g, e) refl
  ]
  others conflicted v w s e = elim (Option-cases (find_snapshot (hash w) s.snapshots)) [
    | inl g ↦ rw (g, e) refl
    | inr (id, g) ↦ rw (g, e) refl
  ]
  others failed v w s e = refl
  others (done id) v w s e = refl

  own :
      (p : Phase) (w : ℕ) (s : System)
      → s.phases w ≡ p
      → left ((step_from process hash p w s).phases w) ≤ left p - 1
  own start w s e = elim (Option-cases (s.caches (process w) (hash w))) [
    | inr (id, f) ↦ rw (f, (==_iff w w).1 refl) (omega arith)
    | inl f ↦ elim (Option-cases (find_snapshot (hash w) s.snapshots)) [
      | inl g ↦ rw (f, g, (==_iff w w).1 refl) (omega arith)
      | inr (id, g) ↦ rw (f, g, (==_iff w w).1 refl) (omega arith)
    ]
  ]
  own missing w s e = elim (Option-cases (find_snapshot (hash w) s.snapshots)) [
    | inl g ↦ rw (g, (==_iff w w).1 refl) (omega arith)
    | inr (id, g) ↦ rw (g, (==_iff w w).1 refl) (omega arith)
  ]
  own conflicted w s e = elim (Option-cases (find_snapshot (hash w) s.snapshots)) [
    | inl g ↦ rw (g, (==_iff w w).1 refl) (omega arith)
    | inr (id, g) ↦ rw (g, (==_iff w w).1 refl) (omega arith)
  ]
  own failed w s e = rw e (omega arith)
  own (done id) w s e = rw e (omega arith)

  left-steps :
      (ws : List ℕ) (s : System) (w : ℕ)
      → left ((steps process hash ws s).phases w) ≤ left (s.phases w) - turns w ws
  unfolding steps step turns
  left-steps [] s w = omega arith
  left-steps (v ∷ ws) s w =
      let rest = left-steps ws (step process hash v s) w in
      elim (Bool-cases (v == w)) [
        | inl e ↦
            let same : v ≡ w = (==_iff v w).0 e in
            let mine : left ((step process hash v s).phases w) ≤ left (s.phases w) - 1 =
              subst (λ x. left ((step process hash x s).phases w) ≤ left (s.phases w) - 1)
                (sym same) (own (s.phases w) w s refl) in
            rw e (omega (arith, rest, mine))
        | inr e ↦
            let kept : (step process hash v s).phases w ≡ s.phases w =
              others (s.phases v) w v s (ground arith) in
            rw e (
              subst
                (λ p.
                  left ((steps process hash ws (step process hash v s)).phases w)
                  ≤ left p - turns w ws)
                kept rest)
      ]

  -- a worker with no step left
  finished :
      (p : Phase) (h : String) (rows : List Snapshot)
      → left p ≤ 0
      → PhaseHolds p h rows
      → (id : ℕ) × (p ≡ done id) × (find_snapshot h rows ≡ some id)
  finished (done id) h rows e k = (id, refl, k)
  finished start h rows e k = ground arith
  finished missing h rows e k = ground arith
  finished conflicted h rows e k = ground arith
  finished failed h rows e k = absurd k

  -- the workers have not begun, and the caches are empty
  abbrev pub begin : List Snapshot → ℕ → System
  begin rows drawn = record {
    snapshots = rows;
    drawn = drawn;
    caches = λ p h. none;
    phases = λ w. start;
  }

  begin-IsConsistent :
      (rows : List Snapshot) (drawn : ℕ)
      → ((h : String) → count_snapshots h rows ≤ 1)
      → IsConsistent process hash (begin rows drawn)
  begin-IsConsistent rows drawn unique = record {
    unique = unique;
    cached = λ p h id e. absurd (none-ne-some id e);
    phase = λ w. tt;
  }

  -- When the table has at most one snapshot of each hash, then any steps of any workers in any order keep it so, and
  -- two workers with the same prices that have a snapshot have the same one.
  pub steps-agree :
      (rows : List Snapshot) (drawn : ℕ) (ws : List ℕ) (v w i j : ℕ)
      → ((h : String) → count_snapshots h rows ≤ 1)
      → hash v ≡ hash w
      → (steps process hash ws (begin rows drawn)).phases v ≡ done i
      → (steps process hash ws (begin rows drawn)).phases w ≡ done j
      → (i ≡ j)
        × ((h : String)
            → count_snapshots h (steps process hash ws (begin rows drawn)).snapshots ≤ 1)
  steps-agree rows drawn ws v w i j unique same dv dw =
      let s = steps process hash ws (begin rows drawn) in
      let k = steps-IsConsistent ws (begin rows drawn) (begin-IsConsistent rows drawn unique) in
      let of_v = subst (λ p. PhaseHolds p (hash v) s.snapshots) dv (k.phase v) in
      let of_w = subst (λ p. PhaseHolds p (hash w) s.snapshots) dw (k.phase w) in
      (some-injective _ _ (sym of_v ∙ ap (λ h. find_snapshot h s.snapshots) same ∙ of_w), k.unique)

  -- A worker that takes three steps, in any order with those of the others, has the snapshot of its prices that the
  -- table has, and does not raise, when the table has at most one snapshot of each hash.
  pub steps-done :
      (rows : List Snapshot) (drawn : ℕ) (ws : List ℕ) (w : ℕ)
      → ((h : String) → count_snapshots h rows ≤ 1)
      → 3 ≤ turns w ws
      → let s = steps process hash ws (begin rows drawn) in
        (id : ℕ) × (s.phases w ≡ done id) × (find_snapshot (hash w) s.snapshots ≡ some id)
  steps-done rows drawn ws w unique often =
      let s = steps process hash ws (begin rows drawn) in
      let k = steps-IsConsistent ws (begin rows drawn) (begin-IsConsistent rows drawn unique) in
      let less = left-steps ws (begin rows drawn) w in
      finished (s.phases w) (hash w) s.snapshots (omega (arith, less, often)) (k.phase w)
