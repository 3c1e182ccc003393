-- ===== src/Base/Ceil.antt =====
-- Division that rounds up, the `ceil(n / d)` of the source, and its laws.
use Prim.Native.Nat.{ℕ, ◌+◌, ◌-◌, ◌*◌, ◌/◌, ◌≤◌, ◌<◌}
use native.Mathlib.Omega.{arith}

unfoldable pub ceil_div : ℕ → ℕ → ℕ
ceil_div n d = (n + (d - 1)) / d

module _ (d : ℕ) (pos : 0 < d) where
  pub ceil_div_mono : (m n : ℕ) → m ≤ n → ceil_div m d ≤ ceil_div n d
  unfolding ceil_div
  ceil_div_mono m n h = grind arith

  pub ceil_div-add_one : (n : ℕ) → ceil_div (n + 1) d ≤ ceil_div n d + 1
  unfolding ceil_div
  ceil_div-add_one n = grind arith

  pub ceil_div_pos : (n : ℕ) → 0 < n → 0 < ceil_div n d
  unfolding ceil_div
  ceil_div_pos n h = grind arith

  -- The least number of blocks of `d` that hold `n`.
  pub le-ceil_div-mul : (n : ℕ) → n ≤ ceil_div n d * d
  unfolding ceil_div
  le-ceil_div-mul n = grind arith

  -- Fewer blocks do not hold as many.
  pub ceil_div-least : (m n : ℕ) → m < ceil_div n d → m * d < n
  unfolding ceil_div
  ceil_div-least m n h = grind arith
