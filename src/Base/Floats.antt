-- ===== src/Base/Floats.antt =====
-- The range of Python's floats, which bounds a division of ints and an int as the operand of a float.
use Prim.Native.Nat.{ℕ, ◌-◌, ◌^◌}

-- No float holds a quotient from here on: the largest is 2^1024 - 2^971, and what lies half-way to the
-- next power is rounded up.
unfoldable pub float_limit : ℕ
float_limit = 2 ^ 1024 - 2 ^ 970
