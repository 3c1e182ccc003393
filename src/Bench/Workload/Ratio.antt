-- ===== src/Bench/Workload/Ratio.antt =====
-- Numbers that are not negative, as fractions: miniserve/bench/workload.py computes with floats, which are
-- read as exact here. A denominator of zero stands for what Python does not return.
use miniserve.Base.{ℕ, ◌*◌, Bool, leb, not}

pub record Ratio : Type 0 where
  pub num : ℕ
  pub den : ℕ

abbrev pub of_nat : ℕ → Ratio
of_nat n = record { num = n; den = 1 }

abbrev pub times : Ratio → Ratio → Ratio
times a b = record { num = a.num * b.num; den = a.den * b.den }

-- `1.0 / a`
abbrev pub inverse : Ratio → Ratio
inverse a = record { num = a.den; den = a.num }

-- `a <= b`
abbrev pub at_most : Ratio → Ratio → Bool
at_most a b = leb (a.num * b.den) (b.num * a.den)

-- `a > b`
abbrev pub above : Ratio → Ratio → Bool
above a b = not (at_most a b)
