-- ===== src/Bench/Workload/Generate.antt =====
-- `generate` of miniserve/bench/workload.py. Times are in ticks, and weights in thousandths.
use miniserve.Base.{
  ℕ, zero, suc, ◌+◌, ◌/◌, ◌%◌, not, none, some, List, [], ◌∷◌, map, ◌==◌, if◌then◌else◌,
}
use mathlib.Core.List.{get_last?}
use miniserve.Result.{value_error, index_error, zero_division_error, Result, ok, raise, ◌>>=◌}
use miniserve.KvCache.Storage.{ReqId}
use miniserve.Scheduler.Sequence.{Time, Token}
use miniserve.Scheduler.Step.{sum}
use miniserve.Bench.Workload.Ratio.{Ratio, of_nat, times, inverse, at_most, above}

pub record Arrival : Type 0 where
  pub at_s : Time
  pub req_id : ReqId
  pub prompt_ids : List Token
  pub max_tokens : ℕ

-- A weight and a range of lengths.
abbrev pub Choice : Type 0
Choice = ℕ × ℕ × ℕ

pub record WorkloadSpec : Type 0 where
  pub n_requests : ℕ
  pub rate_rps : Ratio
  pub prompt_len : ℕ × ℕ
  pub output_mix : List Choice
  pub burst_factor : Ratio
  pub burst_period_s : Time
  pub vocab : ℕ

-- The seeded generator: each function gives the n-th draw, `expovariate` that of a rate which is not zero. `format` writes the number of a request.
pub record Rng : Type 0 where
  pub expovariate : ℕ → Ratio → Time
  pub randint : ℕ → ℕ → ℕ → ℕ
  pub random : ℕ → Ratio
  pub randrange : ℕ → ℕ → ℕ → ℕ
  pub format : ℕ → ReqId

-- The rate in a hot or a cold window.
abbrev pub burst_rate : WorkloadSpec → Time → Ratio
burst_rate spec t =
    times spec.rate_rps
      (if (t / spec.burst_period_s) % 2 == 0 then spec.burst_factor else inverse spec.burst_factor)

-- Hot and cold windows alternate if the factor is above one.
unfoldable pub rate_at : WorkloadSpec → Time → Result Ratio
rate_at spec t =
    if above spec.burst_factor (of_nat 1)
    then if spec.burst_period_s == 0 then raise zero_division_error else ok (burst_rate spec t)
    else ok spec.rate_rps

-- `acc` thousandths, as a fraction.
abbrev pub thousandths : ℕ → Ratio
thousandths acc = record { num = acc; den = 1000 }

module _ (rng : Rng) where
  -- The first choice whose accumulated weight reaches the roll, with the number of draws after it.
  unfoldable pub choose : ℕ → Ratio → ℕ → ℕ → List Choice → ℕ × ℕ
  choose draws roll default acc [] = (default, draws)
  choose draws roll default acc ((weight, lo, hi) ∷ mix) =
      if at_most roll (thousandths (acc + weight))
      then (rng.randint draws lo hi, suc draws)
      else choose draws roll default (acc + weight) mix

  -- `n` tokens.
  unfoldable pub draw_prompt : ℕ → ℕ → ℕ → List Token
  draw_prompt vocab draws zero = []
  draw_prompt vocab draws (suc n) = rng.randrange draws 3 vocab ∷ draw_prompt vocab (suc draws) n

  -- The arrival number `i` at the time `t`, from the draws after `draws`, with the number of draws
  -- after it.
  unfoldable pub arrival : WorkloadSpec → ℕ → ℕ → Time → ℕ → Arrival × ℕ
  arrival spec default i t draws =
      let plen = rng.randint draws spec.prompt_len.0 spec.prompt_len.1 in
      let (max_tokens, drawn) =
        choose (draws + 2) (rng.random (draws + 1)) default 0 spec.output_mix in
      (
        record {
          at_s = t;
          req_id = rng.format i;
          prompt_ids = draw_prompt spec.vocab drawn plen;
          max_tokens = max_tokens;
        },
        drawn + plen,
      )

  -- `-log(1.0 - random()) / rate`
  unfoldable pub exponential : ℕ → Ratio → Result Time
  exponential draws rate =
      if rate.num == 0 then raise zero_division_error else ok (rng.expovariate draws rate)

  -- The requests from number `i`, of which `n` are left, after the time `t`.
  unfoldable pub generate_from : WorkloadSpec → ℕ → ℕ → ℕ → Time → ℕ → Result (List Arrival)
  generate_from spec default i zero t draws = ok []
  generate_from spec default i (suc n) t draws = do
    rate ← rate_at spec t
    gap ← exponential draws rate
    let t' = t + gap
    let (a, drawn) = arrival spec default i t' (suc draws)
    rest ← generate_from spec default (suc i) n t' drawn
    ok (a ∷ rest)

  -- `output_mix[-1][1][1]`
  unfoldable pub last_bound : List Choice → Result ℕ
  last_bound mix = elim (get_last? mix) [ none ↦ raise index_error | some (weight, lo, hi) ↦ ok hi ]

  unfoldable pub generate : WorkloadSpec → Result (List Arrival)
  generate spec =
      if not (sum (map (λ c. c.0) spec.output_mix) == 1000)
      then raise value_error
      else do default ← last_bound spec.output_mix; generate_from spec default 0 spec.n_requests 0 0
