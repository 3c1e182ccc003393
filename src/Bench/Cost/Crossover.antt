-- ===== src/Bench/Cost/Crossover.antt =====
-- The bisection, the crossover and its band in miniserve/bench/costmodel.py.
use miniserve.Base.{
  ℕ, zero, suc, ◌+◌, ◌-◌, ◌/◌, Bool, Option, none, some, not, ltb, String, if◌then◌else◌,
}
use mathlib.Core.Option
use miniserve.Result.{Result, ok, ◌>>=◌}
use miniserve.Scheduler.Step.{or_key_error}
use miniserve.Dict.{lookup}
use miniserve.Bench.Cost.Fraction.{Fraction, times, at_most, above}
use miniserve.Bench.Cost.Config.{
  Config, Tier, recompute_ms, recompute_at, ms_per_byte, cost_at, migrate_ms,
}

-- The loop, on fuel: the gap shrinks in each round, so `hi` rounds are enough.
unfoldable pub bisect_loop : (ℕ → Bool) → ℕ → ℕ → ℕ → ℕ
bisect_loop pred zero lo hi = hi
bisect_loop pred (suc fuel) lo hi =
    let mid = (lo + hi) / 2 in
    let lo' = if pred mid then lo else mid in
    let hi' = if pred mid then mid else hi in
    if ltb (lo + 1) hi then bisect_loop pred fuel lo' hi' else hi

abbrev pub bisect_first : (ℕ → Bool) → ℕ → ℕ → ℕ
bisect_first pred lo hi = bisect_loop pred hi lo hi

-- `migrate_wins`, with the tier and its price at hand.
abbrev pub wins_at : Config → Tier → Fraction → ℕ → Bool
wins_at config t price tokens = at_most (cost_at config t price tokens) (recompute_at config tokens)

unfoldable pub migrate_wins : Config → String → ℕ → Result Bool
migrate_wins config tier tokens = do
  ms ← migrate_ms config tokens tier
  recomputed ← recompute_ms config tokens
  ok (at_most ms recomputed)

-- The crossover with the tier and its price at hand.
unfoldable pub tier_crossover : Config → Tier → Fraction → ℕ → Option ℕ
tier_crossover config t price max_tokens =
    if not (wins_at config t price max_tokens)
    then none
    else if wins_at config t price 1
    then some 1
    else some (bisect_first (wins_at config t price) 1 max_tokens)

-- The first call of `migrate_wins` raises if the tier is not there or has no bandwidth, or if the number
-- of tokens is beyond the floats; if it returns, so does each later one, for fewer tokens.
unfoldable pub crossover_tokens : Config → String → ℕ → Result (Option ℕ)
crossover_tokens config tier max_tokens = do
  _ ← migrate_wins config tier max_tokens
  t ← or_key_error (lookup tier config.transfer)
  price ← ms_per_byte t
  ok (tier_crossover config t price max_tokens)

pub record Band : Type 0 where
  pub lo : ℕ
  pub hi : ℕ
  pub crossover : ℕ
  pub ratio : Fraction
  pub hi_clamped : Bool

abbrev pub near_lo : Config → Tier → Fraction → Fraction → ℕ → Bool
near_lo config t price ratio tokens =
    at_most (cost_at config t price tokens) (times ratio (recompute_at config tokens))

abbrev pub past_hi : Config → Tier → Fraction → Fraction → ℕ → Bool
past_hi config t price ratio tokens =
    above (recompute_at config tokens) (times ratio (cost_at config t price tokens))

unfoldable pub band_at : Config → Tier → Fraction → Fraction → ℕ → ℕ → Band
band_at config t price ratio max_tokens crossover =
    let clamped = not (past_hi config t price ratio max_tokens) in
    record {
      lo =
          if near_lo config t price ratio 1
          then 1
          else bisect_first (near_lo config t price ratio) 1 crossover;
      hi =
          if clamped
          then max_tokens
          else bisect_first (past_hi config t price ratio) crossover max_tokens - 1;
      crossover = crossover;
      ratio = ratio;
      hi_clamped = clamped;
    }

unfoldable pub crossover_band : Config → String → Fraction → ℕ → Result (Option Band)
crossover_band config tier ratio max_tokens = do
  crossover ← crossover_tokens config tier max_tokens
  t ← or_key_error (lookup tier config.transfer)
  price ← ms_per_byte t
  ok (Option.map (band_at config t price ratio max_tokens) crossover)
