-- ===== src/Bench/Cost/BandEdges.antt =====
-- The two ends of the band of `crossover_band` in miniserve/bench/costmodel.py.
use miniserve.Base.{
  ℕ, zero, suc, ◌+◌, ◌-◌, ◌/◌, ◌≤◌, ◌<◌, ◌≡◌, ◌⊎◌, inl, inr, refl, Bool, true, false, false≢true,
  ltb, Bool-cases, arith, ap, sym, ◌∙◌, dec_lt,
}
use miniserve.Bench.Cost.Fraction.{Fraction}
use miniserve.Bench.Cost.Config.{Config, Tier}
use miniserve.Bench.Cost.Crossover.{bisect_loop, bisect_first, band_at, near_lo, past_hi}
use miniserve.Bench.Cost.Bisection.{half-between, bisect_first-IsEdge}

module _ (pred : ℕ → Bool) where
  -- Whatever the test, the result lies in the range.
  bisect_loop_bounds :
      (fuel lo hi : ℕ)
      → lo < hi
      → (lo < bisect_loop pred fuel lo hi) × (bisect_loop pred fuel lo hi ≤ hi)
  unfolding bisect_loop
  bisect_loop_bounds zero lo hi h = (h, omega arith)
  bisect_loop_bounds (suc fuel) lo hi h = elim (Bool-cases (ltb (lo + 1) hi)) [
    | inr done ↦ rw done (h, omega arith)
    | inl wide ↦
        let (above, below) = half-between lo hi (ground arith) in
        elim (Bool-cases (pred ((lo + hi) / 2))) [
          | inl e ↦
              let (x, y) = bisect_loop_bounds fuel lo ((lo + hi) / 2) above in
              rw (wide, e) (x, omega arith)
          | inr e ↦
              let (x, y) = bisect_loop_bounds fuel ((lo + hi) / 2) hi below in
              rw (wide, e) (omega arith, y)
        ]
  ]

  bisect_first_lone : (n : ℕ) → 1 ≡ n → (0 < bisect_first pred 1 n) × (bisect_first pred 1 n ≤ n)
  unfolding bisect_loop
  bisect_first_lone n e = rw (← e) (omega arith, omega arith)

module _ (config : Config) (t : Tier) (price ratio : Fraction) (max_tokens crossover : ℕ) where
  abbrev near : ℕ → Bool
  near = near_lo config t price ratio

  abbrev past : ℕ → Bool
  past = past_hi config t price ratio

  abbrev pub LowerEdge : ℕ → Type 0
  LowerEdge lo =
      (0 < lo)
      × (lo ≤ crossover)
      × (near_lo config t price ratio crossover ≡ true
          → (near_lo config t price ratio lo ≡ true)
            × ((lo ≡ 1) ⊎ (near_lo config t price ratio (lo - 1) ≡ false)))

  abbrev pub UpperEdge : ℕ → Bool → Type 0
  UpperEdge hi clamped =
      ((clamped ≡ true) × (past_hi config t price ratio max_tokens ≡ false) × (hi ≡ max_tokens))
      ⊎ ((clamped ≡ false)
          × (past_hi config t price ratio max_tokens ≡ true)
          × (crossover ≤ hi)
          × (hi < max_tokens)
          × (past_hi config t price ratio crossover ≡ false
              → (past_hi config t price ratio hi ≡ false)
                × (past_hi config t price ratio (hi + 1) ≡ true)))

  band_lower : 0 < crossover → LowerEdge (band_at config t price ratio max_tokens crossover).lo
  unfolding band_at
  band_lower some = elim (Bool-cases (near 1)) [
    | inl first ↦ rw first (omega arith, omega arith, λ e. (first, inl refl))
    | inr far ↦ elim (dec_lt 1 crossover) [
      | no n ↦
          let same : 1 ≡ crossover = omega arith in
          rw far (
            (bisect_first_lone near crossover same).0,
            (bisect_first_lone near crossover same).1,
            λ e. absurd (false≢true (sym far ∙ ap near same ∙ e)),
          )
      | yes wide ↦
          let (above, below) = bisect_loop_bounds near crossover 1 crossover wide in
          rw far (
            omega arith,
            below,
            λ e.
                let edge = bisect_first-IsEdge near 1 crossover wide far e in
                (edge.at, inr edge.before),
          )
    ]
  ]

  band_upper :
      crossover < max_tokens
      → UpperEdge
          (band_at config t price ratio max_tokens crossover).hi
          (band_at config t price ratio max_tokens crossover).hi_clamped
  unfolding band_at
  band_upper small = elim (Bool-cases (past max_tokens)) [
    | inr close ↦ inl (rw close refl, close, rw close refl)
    | inl far ↦
        let (above, below) = bisect_loop_bounds past max_tokens crossover max_tokens small in
        rw far (
          inr (
            refl,
            refl,
            omega arith,
            omega arith,
            λ e.
                let edge = bisect_first-IsEdge past crossover max_tokens small e far in
                let same : bisect_first past crossover max_tokens - 1 + 1
                    ≡ bisect_first past crossover max_tokens =
                  omega arith in
                (edge.before, ap past same ∙ edge.at),
          ))
  ]

  -- For a crossover that is at least one and below the end of the range, the band's lower end
  -- is at least one and at most the crossover, and if migrating is within the ratio at the
  -- crossover, it is so at the lower end and either this is one or it is not so at the length
  -- before. Its upper end is the end of the range, and marked as clamped, exactly if
  -- recomputing has not decisively lost there; otherwise it is at least the crossover and
  -- below the end of the range, and if recomputing has not decisively lost at the crossover,
  -- it has not at the upper end and has at the length after.
  pub band_at_bounds :
      0 < crossover
      → crossover < max_tokens
      → LowerEdge (band_at config t price ratio max_tokens crossover).lo
        × UpperEdge
            (band_at config t price ratio max_tokens crossover).hi
            (band_at config t price ratio max_tokens crossover).hi_clamped
  band_at_bounds some small = (band_lower some, band_upper small)
