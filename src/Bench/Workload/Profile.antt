-- ===== src/Bench/Workload/Profile.antt =====
-- `realized_burst_profile` of miniserve/bench/workload.py.
use miniserve.Base.{ℕ, zero, suc, ◌+◌, ◌/◌, none, some, List, [], ◌∷◌, ◌==◌, if◌then◌else◌}
use mathlib.Core.List.{get_last?}
use miniserve.Result.{index_error, zero_division_error, Result, ok, raise, ◌>>=◌}
use miniserve.Scheduler.Sequence.{Time}
use miniserve.Bench.Workload.Generate.{Arrival}

-- `int(at_s / burst_period_s)`
abbrev pub window : Time → Arrival → ℕ
window period a = a.at_s / period

-- `[0] * n`
unfoldable pub no_counts : ℕ → List ℕ
no_counts zero = []
no_counts (suc n) = 0 ∷ no_counts n

-- `counts[i] += 1`
unfoldable pub bump : ℕ → List ℕ → Result (List ℕ)
bump i [] = raise index_error
bump zero (c ∷ counts) = ok (suc c ∷ counts)
bump (suc i) (c ∷ counts) = do rest ← bump i counts; ok (c ∷ rest)

unfoldable pub count_all : Time → List Arrival → List ℕ → Result (List ℕ)
count_all period [] counts = ok counts
count_all period (a ∷ schedule) counts = do
  counts' ← bump (window period a) counts
  count_all period schedule counts'

unfoldable pub realized_burst_profile : List Arrival → Time → Result (List ℕ)
realized_burst_profile schedule period = elim (get_last? schedule) [
  | none ↦ ok []
  | some last ↦
      if period == 0
      then raise zero_division_error
      else count_all period schedule (no_counts (window period last + 1))
]
