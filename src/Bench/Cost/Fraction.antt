-- ===== src/Bench/Cost/Fraction.antt =====
-- Numbers as fractions, with a sign: miniserve/bench/costmodel.py computes with floats, which are read as
-- exact here. A fitted coefficient may be negative.
use miniserve.Base.{
  float_limit, ℕ, zero, suc, ◌+◌, ◌*◌, ◌-◌, Bool, leb, not, ℤ, pos, negsuc, if◌then◌else◌,
}
use miniserve.Result.{zero_division_error, overflow_error, Result, ok, raise}

abbrev pub pos_part : ℤ → ℕ
pos_part (pos n) = n
pos_part (negsuc n) = 0

abbrev pub neg_part : ℤ → ℕ
neg_part (pos n) = 0
neg_part (negsuc n) = suc n

-- The difference of two numbers.
abbrev pub difference : ℕ → ℕ → ℤ
difference m n = if leb n m then pos (m - n) else negsuc (n - m - 1)

unfoldable pub add : ℤ → ℤ → ℤ
add i j = difference (pos_part i + pos_part j) (neg_part i + neg_part j)

unfoldable pub mul : ℤ → ℤ → ℤ
mul i j =
    difference (pos_part i * pos_part j + neg_part i * neg_part j)
      (pos_part i * neg_part j + neg_part i * pos_part j)

unfoldable pub le : ℤ → ℤ → Bool
le i j = leb (pos_part i + neg_part j) (pos_part j + neg_part i)

pub record Fraction : Type 0 where
  pub num : ℤ
  pub den : ℕ

abbrev pub of_nat : ℕ → Fraction
of_nat n = record { num = pos n; den = 1 }

-- A number as the operand of a float.
unfoldable pub as_float : ℕ → Result Fraction
as_float n = if leb float_limit n then raise overflow_error else ok (of_nat n)

abbrev pub plus : Fraction → Fraction → Fraction
plus a b = record { num = add (mul a.num (pos b.den)) (mul b.num (pos a.den)); den = a.den * b.den }

abbrev pub times : Fraction → Fraction → Fraction
times a b = record { num = mul a.num b.num; den = a.den * b.den }

-- `1.0 / a`, from the two parts of `a`.
unfoldable pub inverse_of : ℤ → ℕ → Result Fraction
inverse_of (pos zero) den = raise zero_division_error
inverse_of (pos (suc n)) den = ok (record { num = pos den; den = suc n })
inverse_of (negsuc n) den = ok (record { num = difference 0 den; den = suc n })

abbrev pub inverse : Fraction → Result Fraction
inverse a = inverse_of a.num a.den

-- `a <= b`
abbrev pub at_most : Fraction → Fraction → Bool
at_most a b = le (mul a.num (pos b.den)) (mul b.num (pos a.den))

-- `a > b`
abbrev pub above : Fraction → Fraction → Bool
above a b = not (at_most a b)
