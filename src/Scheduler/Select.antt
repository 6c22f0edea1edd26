-- ===== src/Scheduler/Select.antt =====
-- SelectLeastLoaded, internal/scheduler/algorithm.go. Floating point is the processor's: a parameter,
-- with the operations that the package uses.
use fleetforge.Base.{ℕ, Bool, Option, none, some, List, [], ◌∷◌, ◌==◌, if◌then◌else◌}
use fleetforge.WorkerStore.Assign.{Candidate}

-- float64: `of_ℕ` converts a count, `trunc` is the conversion `int(…)` of a value that is not negative.
pub record Floats : Type 1 where
  pub Float : Type 0
  pub of_ℕ : ℕ → Float
  pub div : Float → Float → Float
  pub mul : Float → Float → Float
  pub add : Float → Float → Float
  pub gt : Float → Float → Bool
  pub trunc : Float → ℕ

module _ (floats : Floats) where
  open floats use {Float, of_ℕ, div, gt}

  unfoldable pub fraction : Candidate → Float
  fraction c = div (of_ℕ c.available_capacity) (of_ℕ c.capacity_slots)

  -- `best == nil || fraction > bestFraction`.
  unfoldable pub better : Option (Candidate × Float) → Candidate → Option (Candidate × Float)
  better none c = some (c, fraction c)
  better (some (b, f)) c = if gt (fraction c) f then some (c, fraction c) else some (b, f)

  -- The loop, over `best` and `bestFraction`.
  unfoldable pub select_from :
      Option (Candidate × Float) → List Candidate → Option (Candidate × Float)
  select_from best [] = best
  select_from best (c ∷ cs) = select_from (if c.capacity_slots == 0 then best else better best c) cs

  unfoldable pub select_least_loaded : List Candidate → Option Candidate
  select_least_loaded cs = elim (select_from none cs) [ none ↦ none | some (c, f) ↦ some c ]
