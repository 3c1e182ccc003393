-- ===== src/Bench/Tests.antt =====
-- The cost model and the summary of miniserve/bench at concrete inputs.
use miniserve.Base.{
  float_limit, List, ◌+◌, ◌*◌, pos, negsuc, length, ◌++◌, ◌↔◌, ℕ, ◌≤◌, ◌<◌, ◌≡◌, ◌⊎◌, refl, Bool,
  true, false, none, some, [], ◌∷◌, String_discrete, leb, arith,
}
use miniserve.Result.{ok, raise, value_error, zero_division_error}
use miniserve.Dict.{lookup}
use miniserve.Scheduler.Sequence.{Time, Token}
use miniserve.Engine.State.{finish_item, aborted_summary}
use miniserve.Bench.Run.{
  RequestResult, collect, insert_sorted, sorted, round_div, percentile, Summary, summarize,
}
use miniserve.Bench.Run.Results.{tokens, collected, collect_lem, AllCounted, summarize_total}
use miniserve.Bench.Cost.Fraction.{Fraction, as_float, of_nat, add, mul, le, inverse_of}
use miniserve.Bench.Cost.Config.{
  ModelDims, PrefillFit, Tier, Hardware, Config, emit_config, require, require_cells, recompute_ms,
  recompute_at, ms_per_byte, cost_at, migrate_ms,
}
use miniserve.Bench.Cost.Crossover.{
  bisect_loop, bisect_first, migrate_wins, tier_crossover, crossover_tokens, Band, band_at,
  crossover_band,
}
use miniserve.Bench.Cost.Bisection.{bisect_first_least}
use miniserve.Bench.Cost.BandEdges.{LowerEdge, UpperEdge, band_at_bounds}
use miniserve.Bench.Cost.Emission.{IsComplete, emitted, emit_config_cases}

program : Unit {0}
unfolding lookup String_discrete emit_config require require_cells recompute_ms recompute_at
    float_limit as_float add mul le inverse_of ms_per_byte cost_at migrate_ms migrate_wins
    bisect_loop tier_crossover crossover_tokens band_at crossover_band
program = tt

abbrev dims : ModelDims
dims = record { num_layers = 2; num_kv_heads = 1; head_dim = 4; dtype_bytes = 2 }

-- The fit `a + b * tokens`, in milliseconds.
abbrev line : ℕ → ℕ → PrefillFit
line a b = record {
  fit_acceptable = some true;
  prefers_quadratic = false;
  linear_a = of_nat a;
  linear_b = of_nat b;
  quadratic_a = of_nat 0;
  quadratic_b = of_nat 0;
  quadratic_c = of_nat 0;
}

abbrev machine : Hardware
machine = record {
  fields = ("gpu", "") ∷ ("filesystem", "ext4") ∷ [];
  gpu = ("name", "x") ∷ ("form_factor", "pcie") ∷ ("driver", "1") ∷ ("vram_gb", "24") ∷ [];
}

-- A tier of 32 bytes, which is one token, to the millisecond.
abbrev slow : ℕ → Tier
slow latency = record {
  latency_ms = of_nat latency;
  bandwidth_gb_s = record { num = pos 32; den = 1000000 };
}

abbrev config : PrefillFit → Config
config fit = emitted "m" dims fit [] (("gpu_to_cpu", slow 10) ∷ []) machine []

abbrev priced : Fraction
priced = record { num = pos 1000000; den = 32 * 1000000 }

-- Recomputing costs two milliseconds to the token, migrating one and ten at the start.
price_run : ms_per_byte (slow 10) ≡ ok priced
unfolding program
price_run = refl

crossover_run : crossover_tokens (config (line 0 2)) "gpu_to_cpu" 1000 ≡ ok (some 10)
unfolding program
crossover_run = refl

-- Migrating one token is cheaper than recomputing it, but not in the long run: there is no crossover.
first_wins : migrate_wins (config (line 100 0)) "gpu_to_cpu" 1 ≡ ok true
unfolding program
first_wins = refl

no_crossover : crossover_tokens (config (line 100 0)) "gpu_to_cpu" 1000 ≡ ok none
unfolding program
no_crossover = refl

no_bandwidth :
    crossover_tokens
      (emitted "m" dims
        (line 0 2)
        []
        (("gpu_to_cpu", record { latency_ms = of_nat 10; bandwidth_gb_s = of_nat 0 }) ∷ [])
        machine
        [])
      "gpu_to_cpu"
      1000
    ≡ raise zero_division_error
unfolding program
no_bandwidth = refl

-- A fit whose slope is negative at first: 19 - tokens + tokens^2 / 10.
abbrev bent : PrefillFit
bent = record (line 0 0) {
  prefers_quadratic = true;
  quadratic_a = of_nat 19;
  quadratic_b = record { num = negsuc 0; den = 1 };
  quadratic_c = record { num = pos 1; den = 10 };
}

bent_run : crossover_tokens (config bent) "gpu_to_cpu" 1000 ≡ ok (some 1)
unfolding program
bent_run = refl

bent_loses : migrate_wins (config bent) "gpu_to_cpu" 10 ≡ ok false
unfolding program
bent_loses = refl

abbrev from_seven : ℕ → Bool
from_seven n = leb 7 n

from_seven_mono : (m m' : ℕ) → m ≤ m' → from_seven m ≡ true → from_seven m' ≡ true
from_seven_mono m m' h e = ground arith

bisect_first_least_example :
    (6 < bisect_first from_seven 1 20 → from_seven 6 ≡ false)
    × (bisect_first from_seven 1 20 ≤ 6 → from_seven 6 ≡ true)
bisect_first_least_example =
    bisect_first_least from_seven 1 20 6 (omega arith) refl refl from_seven_mono

abbrev five_quarters : Fraction
five_quarters = record { num = pos 5; den = 4 }

abbrev band : Band
band = band_at (config (line 0 2)) (slow 10) priced five_quarters 1000 10

band_run : crossover_band (config (line 0 2)) "gpu_to_cpu" five_quarters 1000 ≡ ok (some band)
unfolding program
band_run = refl

band_ends : (band.lo ≡ 7) × (band.hi ≡ 16)
unfolding program
band_ends = (refl, refl)

band_at_bounds_example :
    LowerEdge (config (line 0 2)) (slow 10) priced five_quarters 1000 10 band.lo
    × UpperEdge (config (line 0 2)) (slow 10) priced five_quarters 1000 10 band.hi band.hi_clamped
band_at_bounds_example =
    band_at_bounds (config (line 0 2)) (slow 10) priced five_quarters 1000 10 (omega arith)
      (omega arith)

emit_config_cases_example :
    (IsComplete "m" dims (line 0 2) [] [] machine []
      × (emit_config "m" dims (line 0 2) [] [] machine []
          ≡ ok (emitted "m" dims (line 0 2) [] [] machine [])))
    ⊎ ((IsComplete "m" dims (line 0 2) [] [] machine [] → ⊥)
        × (emit_config "m" dims (line 0 2) [] [] machine [] ≡ raise value_error))
emit_config_cases_example = emit_config_cases "m" dims (line 0 2) [] [] machine []

abbrev three_tokens : List (Time × Token)
three_tokens = (5, 1) ∷ (7, 1) ∷ (9, 2) ∷ []

collect_lem_example :
    collect "a" 2 0 none (tokens three_tokens ++ (10, finish_item (aborted_summary "a" 3)) ∷ [])
    ≡ some (collected "a" 2 0 10 (aborted_summary "a" 3) [] (some 5))
collect_lem_example = collect_lem "a" 2 0 10 (aborted_summary "a" 3) [] three_tokens

abbrev some_results : List RequestResult
some_results =
    collected "a" 2 0 10 (aborted_summary "a" 3) [] (some 5)
    ∷ record (collected "b" 3 1 12 (aborted_summary "b" 4) [] none) { aborted = false }
    ∷ []

percentile_run : percentile (9 ∷ 1 ∷ 4 ∷ 3 ∷ []) 50 ≡ ok 4
unfolding insert_sorted sorted round_div percentile
percentile_run = refl

summarize_total_example :
    (m : Summary) × (summarize some_results ≡ ok m)
    × ((m.run_valid_for_chart ≡ true) ↔ AllCounted some_results)
    × (m.n_finished + m.n_aborted ≤ length some_results)
summarize_total_example = summarize_total some_results
