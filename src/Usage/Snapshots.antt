-- ===== src/Usage/Snapshots.antt =====
-- How UsageSession.finalize of llm/usage_logging.py finds or creates the snapshot of its prices, while others do the same.
-- A worker is a call of it: its steps are the lookup, the insertion, which commits, and the second lookup.
-- Workers of one process share its cache; the tables keep what they have.
use backend_template.Prelude.{
  ℕ, suc, String, str_eq, ◌==◌, ◌&&◌, Option, none, some, List, [], ◌∷◌, ◌++◌, if◌then◌else◌,
}

-- `LLMPricingSnapshot`; the prices are what its hash stands for
pub record Snapshot : Type 0 where
  pub id : ℕ
  pub snapshot_hash : String

-- where a call of `finalize` stands; `done` has its snapshot, and `failed` has raised
pub data Phase : Type 0 where
  start missing conflicted failed : Phase
  done : ℕ → Phase

-- the table, how many identifiers were drawn, the cache of each process, and each worker
pub record System : Type 0 where
  pub snapshots : List Snapshot
  pub drawn : ℕ
  pub caches : ℕ → String → Option ℕ
  pub phases : ℕ → Phase

-- `existing.scalars().first()`
unfoldable pub find_snapshot : String → List Snapshot → Option ℕ
find_snapshot h [] = none
find_snapshot h (r ∷ rows) = if str_eq r.snapshot_hash h then some r.id else find_snapshot h rows

-- each worker's process and the hash of its prices
module _ (process : ℕ → ℕ) (hash : ℕ → String) where
  abbrev pub move : ℕ → Phase → System → System
  move w phase s = record s { phases = λ v. if v == w then phase else s.phases v }

  -- the worker has its snapshot, which goes to the cache of its process
  abbrev pub finish : ℕ → ℕ → System → System
  finish w id s = record s {
    caches = λ p h. if (p == process w) && str_eq h (hash w) then some id else s.caches p h;
    phases = λ v. if v == w then done id else s.phases v;
  }

  abbrev pub insert : ℕ → System → Option ℕ → System
  insert w s none = finish w s.drawn (record s {
    snapshots = s.snapshots ++ record { id = s.drawn; snapshot_hash = hash w } ∷ [];
    drawn = suc s.drawn;
  })
  insert w s (some id) = move w conflicted s

  abbrev pub look_again : ℕ → System → Option ℕ → System
  look_again w s none = move w failed s
  look_again w s (some id) = finish w id s

  abbrev pub look : ℕ → System → Option ℕ → System
  look w s none = move w missing s
  look w s (some id) = finish w id s

  abbrev pub ask_cache : ℕ → System → Option ℕ → System
  ask_cache w s none = look w s (find_snapshot (hash w) s.snapshots)
  ask_cache w s (some id) = move w (done id) s

  abbrev pub step_from : Phase → ℕ → System → System
  step_from start w s = ask_cache w s (s.caches (process w) (hash w))
  step_from missing w s = insert w s (find_snapshot (hash w) s.snapshots)
  step_from conflicted w s = look_again w s (find_snapshot (hash w) s.snapshots)
  step_from failed w s = s
  step_from (done id) w s = s

  -- the next step of a worker
  unfoldable pub step : ℕ → System → System
  unfolding find_snapshot
  step w s = step_from (s.phases w) w s

  -- the workers take their steps in any order
  unfoldable pub steps : List ℕ → System → System
  unfolding step
  steps [] s = s
  steps (w ∷ ws) s = steps ws (step w s)
