-- ===== src/Bench/Workload/Schedule.antt =====
-- What `generate` of miniserve/bench/workload.py returns.
use miniserve.Base.{
  ℕ, zero, suc, ◌+◌, ◌*◌, ◌≤◌, ◌<◌, ◌≡◌, ◌⊎◌, inl, inr, refl, ap, sym, ◌∙◌, true, false, Bool-cases,
  List, [], ◌∷◌, false≢true, ◌/◌, ◌%◌, map, All, length, leb, ◌==◌, arith,
}
use miniserve.Result.{ok}
use miniserve.Scheduler.Sequence.{Time}
use miniserve.Scheduler.Step.{sum}
use miniserve.Bench.Workload.Ratio.{Ratio, at_most, above, of_nat}
use miniserve.Bench.Workload.Generate.{
  Arrival, Choice, WorkloadSpec, Rng, burst_rate, rate_at, thousandths, choose, draw_prompt,
  arrival, exponential, generate_from, last_bound, generate,
}

mul_pos : (a b : ℕ) → 0 < a → 0 < b → 0 < a * b
mul_pos a b x y = grind arith

-- What Python's module random promises.
pub record IsRandom (rng : Rng) : Type 0 where
  pub in_range : (n lo hi : ℕ) → lo ≤ hi → (lo ≤ rng.randint n lo hi) × (rng.randint n lo hi ≤ hi)
  pub below_one : (n : ℕ) → (rng.random n).num < (rng.random n).den
  pub from_to :
      (n lo hi : ℕ) → lo < hi → (lo ≤ rng.randrange n lo hi) × (rng.randrange n lo hi < hi)

-- The length lies in the range of one of the choices.
abbrev pub InMix : List Choice → ℕ → Type 0
InMix [] m = ⊥
InMix ((weight, lo, hi) ∷ mix) m = ((lo ≤ m) × (m ≤ hi)) ⊎ InMix mix m

-- Weights that sum to one, ranges that are not empty, a rate and a period that are not zero where
-- they count, and a factor whose denominator is not zero.
pub record IsSound (spec : WorkloadSpec) : Type 0 where
  pub weights : sum (map (λ c. c.0) spec.output_mix) ≡ 1000
  pub ranges : All (λ c. c.1 ≤ c.2) spec.output_mix
  pub prompts : spec.prompt_len.0 ≤ spec.prompt_len.1
  pub tokens : 3 < spec.vocab
  pub rate : 0 < spec.rate_rps.num
  pub factor : 0 < spec.burst_factor.den
  pub period : (above spec.burst_factor (of_nat 1) ≡ false) ⊎ (0 < spec.burst_period_s)

pub record IsArrival (spec : WorkloadSpec) (a : Arrival) : Type 0 where
  pub prompt_length :
      (spec.prompt_len.0 ≤ length a.prompt_ids) × (length a.prompt_ids ≤ spec.prompt_len.1)
  pub prompt_tokens : All (λ t. (3 ≤ t) × (t < spec.vocab)) a.prompt_ids
  pub output_length : InMix spec.output_mix a.max_tokens

abbrev pub IsOrdered : Time → List Arrival → Type 0
IsOrdered t [] = Unit
IsOrdered t (a ∷ schedule) = (t ≤ a.at_s) × IsOrdered a.at_s schedule

module _ (rng : Rng) (r : IsRandom rng) where
  choose-InMix :
      (draws default acc weight lo hi : ℕ) (roll : Ratio) (mix : List Choice)
      → roll.num < roll.den
      → acc + (weight + sum (map (λ c. c.0) mix)) ≡ 1000
      → lo ≤ hi
      → All (λ c. c.1 ≤ c.2) mix
      → InMix
          ((weight, lo, hi) ∷ mix)
          (choose rng draws roll default acc ((weight, lo, hi) ∷ mix)).0
  unfolding choose
  choose-InMix draws default acc weight lo hi roll [] one total range ranges =
      elim (Bool-cases (at_most roll (thousandths (acc + weight)))) [
        | inl t ↦ rw (t) (inl (r.in_range draws lo hi range))
        | inr f ↦
            let all : acc + weight ≡ 1000 = omega (arith, total) in
            let late : leb (roll.num * 1000) (1000 * roll.den) ≡ false =
              ap (λ n. leb (roll.num * 1000) (n * roll.den)) (sym all) ∙ f in
            absurd (ground (arith, one, late))
      ]
  choose-InMix draws default acc weight lo hi roll ((weight2, lo2, hi2) ∷ mix) one total range
        ranges =
      elim (Bool-cases (at_most roll (thousandths (acc + weight)))) [
        | inl t ↦ rw (t) (inl (r.in_range draws lo hi range))
        | inr f ↦ rw (f) (
            inr (
              choose-InMix draws default (acc + weight) weight2 lo2 hi2 roll mix one
                (omega (arith, total)) ranges.0 ranges.1))
      ]

  mix-InMix :
      (draws default : ℕ) (roll : Ratio) (mix : List Choice)
      → roll.num < roll.den
      → sum (map (λ c. c.0) mix) ≡ 1000
      → All (λ c. c.1 ≤ c.2) mix
      → InMix mix (choose rng draws roll default 0 mix).0
  mix-InMix draws default roll [] one total ranges = absurd (omega (arith, total))
  mix-InMix draws default roll ((weight, lo, hi) ∷ mix) one total ranges =
      choose-InMix draws default 0 weight lo hi roll mix one (omega (arith, total)) ranges.0
        ranges.1

  draw_prompt_lem :
      (vocab draws n : ℕ)
      → 3 < vocab
      → (length (draw_prompt rng vocab draws n) ≡ n)
        × All (λ t. (3 ≤ t) × (t < vocab)) (draw_prompt rng vocab draws n)
  unfolding draw_prompt
  draw_prompt_lem vocab draws zero h = (refl, tt)
  draw_prompt_lem vocab draws (suc n) h =
      let (l, a) = draw_prompt_lem vocab (suc draws) n h in
      (ap suc l, (r.from_to draws 3 vocab h, a))

  burst_rate_pos :
      (spec : WorkloadSpec) (t : Time)
      → IsSound spec
      → above spec.burst_factor (of_nat 1) ≡ true
      → 0 < (burst_rate spec t).num
  burst_rate_pos spec t v bursty = elim (Bool-cases ((t / spec.burst_period_s) % 2 == 0)) [
    | inl hot ↦
        let some : 0 < spec.burst_factor.num = ground (arith, bursty) in
        rw hot (mul_pos spec.rate_rps.num spec.burst_factor.num v.rate some)
    | inr cold ↦ rw cold (mul_pos spec.rate_rps.num spec.burst_factor.den v.rate v.factor)
  ]

  rate_at_total :
      (spec : WorkloadSpec) (t : Time)
      → IsSound spec
      → (rate : Ratio) × (rate_at spec t ≡ ok rate) × (0 < rate.num)
  unfolding rate_at
  rate_at_total spec t v = elim (Bool-cases (above spec.burst_factor (of_nat 1))) [
    | inr steady ↦ (spec.rate_rps, rw (rate_at, steady) refl, v.rate)
    | inl bursty ↦ elim v.period [
      | inl steady ↦ absurd (false≢true (sym steady ∙ bursty))
      | inr pos ↦
          let counts : spec.burst_period_s == 0 ≡ false = ground (arith, pos) in
          (burst_rate spec t, rw (rate_at, bursty, counts) refl, burst_rate_pos spec t v bursty)
    ]
  ]

  arrival-IsArrival :
      (spec : WorkloadSpec) (default i draws : ℕ) (t : Time)
      → IsSound spec
      → IsArrival spec (arrival rng spec default i t draws).0
  unfolding arrival
  arrival-IsArrival spec default i draws t v =
      let drawn = (choose rng (draws + 2) (rng.random (draws + 1)) default 0 spec.output_mix).1 in
      let plen = rng.randint draws spec.prompt_len.0 spec.prompt_len.1 in
      let range = r.in_range draws spec.prompt_len.0 spec.prompt_len.1 v.prompts in
      let (l, tokens) = draw_prompt_lem spec.vocab drawn plen v.tokens in
      record {
        prompt_length = (omega (arith, range.0, l), omega (arith, range.1, l));
        prompt_tokens = tokens;
        output_length =
            mix-InMix (draws + 2) default (rng.random (draws + 1)) spec.output_mix
              (r.below_one (draws + 1)) v.weights v.ranges;
      }

  generate_from_total :
      (spec : WorkloadSpec) (default i n : ℕ) (t : Time) (draws : ℕ)
      → IsSound spec
      → (schedule : List Arrival) × (generate_from rng spec default i n t draws ≡ ok schedule)
        × (length schedule ≡ n)
        × IsOrdered t schedule
        × All (IsArrival spec) schedule
  unfolding generate_from exponential arrival
  generate_from_total spec default i zero t draws v = ([], refl, refl, tt, tt)
  generate_from_total spec default i (suc n) t draws v =
      let (rate, e, pos) = rate_at_total spec t v in
      let counts : rate.num == 0 ≡ false = ground (arith, pos) in
      let t' = t + rng.expovariate draws rate in
      let (a, drawn) = arrival rng spec default i t' (suc draws) in
      let (rest, e1, l, ordered, arrivals) =
        generate_from_total spec default (suc i) n t' drawn v in
      (
        a ∷ rest,
        rw (e, exponential, counts, e1) refl,
        ap suc l,
        (omega arith, ordered),
        (arrival-IsArrival spec default i (suc draws) t' v, arrivals),
      )

  last_bound_total :
      (mix : List Choice) → sum (map (λ c. c.0) mix) ≡ 1000 → (n : ℕ) × (last_bound rng mix ≡ ok n)
  unfolding last_bound
  last_bound_total [] total = absurd (omega (arith, total))
  last_bound_total (c ∷ mix) total = (_, refl)

  -- For weights that sum to one, ranges that are not empty, a rate that is not zero, a burst
  -- factor whose denominator is not zero, and with bursts a period that is not zero,
  -- `generate` returns as many arrivals as were asked for, their times in order, each with a
  -- prompt length in its range, tokens from 3 to below the vocabulary, and an output length in
  -- the range of one of the choices of the mixture.
  pub generate_total :
      (spec : WorkloadSpec)
      → IsSound spec
      → (schedule : List Arrival) × (generate rng spec ≡ ok schedule)
        × (length schedule ≡ spec.n_requests)
        × IsOrdered 0 schedule
        × All (IsArrival spec) schedule
  unfolding generate
  generate_total spec v =
      let (n, e) = last_bound_total spec.output_mix v.weights in
      let (schedule, e1, l, ordered, arrivals) =
        generate_from_total spec n 0 spec.n_requests 0 0 v in
      let whole : (sum (map (λ c. c.0) spec.output_mix) == 1000) ≡ true =
        ground (arith, v.weights) in
      (schedule, rw (generate, whole, e) e1, l, ordered, arrivals)
