-- ===== src/Bench/Cost/Bisection.antt =====
-- What the bisection of miniserve/bench/costmodel.py finds.
use miniserve.Base.{
  ℕ, zero, suc, ◌+◌, ◌-◌, ◌/◌, ◌≤◌, ◌<◌, ◌≡◌, inl, inr, Bool, true, false, false≢true, ltb,
  Bool-cases, arith, sym, ◌∙◌,
}
use miniserve.Bench.Cost.Crossover.{bisect_loop, bisect_first}

-- A length at which the test turns true.
pub record IsEdge (pred : ℕ → Bool) (lo hi r : ℕ) : Type 0 where
  pub above_lo : lo < r
  pub up_to_hi : r ≤ hi
  pub at : pred r ≡ true
  pub before : pred (r - 1) ≡ false

pub half-between : (lo hi : ℕ) → lo + 1 < hi → (lo < (lo + hi) / 2) × ((lo + hi) / 2 < hi)
half-between lo hi h = (grind arith, grind arith)

module _ (pred : ℕ → Bool) where
  bisect_loop-IsEdge :
      (fuel lo hi : ℕ)
      → lo < hi
      → hi ≤ lo + fuel + 1
      → pred lo ≡ false
      → pred hi ≡ true
      → IsEdge pred lo hi (bisect_loop pred fuel lo hi)
  unfolding bisect_loop
  bisect_loop-IsEdge zero lo hi h enough at_lo at_hi =
      let same : hi - 1 ≡ lo = omega arith in
      record { above_lo = h; up_to_hi = omega arith; at = at_hi; before = rw same at_lo }
  bisect_loop-IsEdge (suc fuel) lo hi h enough at_lo at_hi = elim (Bool-cases (ltb (lo + 1) hi)) [
    | inr done ↦
        let same : hi - 1 ≡ lo = ground arith in
        rw done
          (record { above_lo = h; up_to_hi = omega arith; at = at_hi; before = rw same at_lo })
    | inl wide ↦
        let (above, below) = half-between lo hi (ground arith) in
        elim (Bool-cases (pred ((lo + hi) / 2))) [
          | inl e ↦
              let edge = bisect_loop-IsEdge fuel lo ((lo + hi) / 2) above (omega arith) at_lo e in
              rw (wide, e)
                (record {
                  above_lo = edge.above_lo;
                  up_to_hi = omega (arith, edge.up_to_hi);
                  at = edge.at;
                  before = edge.before;
                })
          | inr e ↦
              let edge = bisect_loop-IsEdge fuel ((lo + hi) / 2) hi below (omega arith) e at_hi in
              rw (wide, e)
                (record {
                  above_lo = omega (arith, edge.above_lo);
                  up_to_hi = edge.up_to_hi;
                  at = edge.at;
                  before = edge.before;
                })
        ]
  ]

  pub bisect_first-IsEdge :
      (lo hi : ℕ)
      → lo < hi
      → pred lo ≡ false
      → pred hi ≡ true
      → IsEdge pred lo hi (bisect_first pred lo hi)
  bisect_first-IsEdge lo hi h at_lo at_hi = bisect_loop-IsEdge hi lo hi h (omega arith) at_lo at_hi

  -- For a test that fails at `lo`, passes at `hi` with `lo < hi`, and passes from some length
  -- on, a length passes exactly from the result of `_bisect_first` on.
  pub bisect_first_least :
      (lo hi n : ℕ)
      → lo < hi
      → pred lo ≡ false
      → pred hi ≡ true
      → ((m m' : ℕ) → m ≤ m' → pred m ≡ true → pred m' ≡ true)
      → (n < bisect_first pred lo hi → pred n ≡ false)
        × (bisect_first pred lo hi ≤ n → pred n ≡ true)
  bisect_first_least lo hi n h at_lo at_hi monotone =
      let edge = bisect_first-IsEdge lo hi h at_lo at_hi in
      (
        λ below. elim (Bool-cases (pred n)) [
          | inr e ↦ e
          | inl e ↦ absurd (
              false≢true
                (sym edge.before ∙ monotone n (bisect_first pred lo hi - 1) (omega arith) e))
        ],
        λ up. monotone (bisect_first pred lo hi) n up edge.at,
      )
