-- ===== src/Server/Json.antt =====
-- The values that `json.loads` returns, and the conversions that miniserve/server.py makes of them.
use miniserve.Base.{
  ℕ, zero, suc, ◌*◌, ◌/◌, Bool, true, false, Option, none, some, List, [], ◌∷◌, String,
  String_discrete, ite, ltb, ◌==◌, if◌then◌else◌, ℤ, pos, negsuc,
}
use miniserve.Result.{value_error, type_error, overflow_error, Result, ok, raise}

-- A float: a finite one is a fraction with a denominator that is one more than `den`.
pub data Float : Type 0 where
  nan : Float
  infinite : Bool → Float
  finite : ℤ → ℕ → Float

mutual
  pub data Json : Type 0 where
    null : Json
    boolean : Bool → Json
    integer : ℤ → Json
    real : Float → Json
    string : String → Json
    array : Elements → Json
    object : Members → Json

  pub data Elements : Type 0 where
    no_elements : Elements
    element : Json → Elements → Elements

  pub data Members : Type 0 where
    no_members : Members
    member : String → Json → Members → Members

-- `body.get(key)`
unfoldable pub get : String → Members → Option Json
get key no_members = none
get key (member k value members) = ite (String_discrete k key) (some value) (get key members)

-- True is the int 1, and False the int 0.
abbrev pub int_of_bool : Bool → ℤ
int_of_bool true = pos 1
int_of_bool false = pos 0

-- The ints of a list, none if an element is not an instance of int.
unfoldable pub ints_of : Elements → Option (List ℤ)
ints_of no_elements = some []
ints_of (element (integer n) rest) = elim (ints_of rest) [ none ↦ none | some ns ↦ some (n ∷ ns) ]
ints_of (element (boolean b) rest) = elim (ints_of rest) [
  | none ↦ none
  | some ns ↦ some (int_of_bool b ∷ ns)
]
ints_of (element _ rest) = none

-- The parsers of Python for the texts of numbers, and the least integer that no float holds.
pub record Parsers : Type 0 where
  pub parse_int : String → Option ℤ
  pub parse_float : String → Option Float
  pub float_bound : ℕ

abbrev pub or_value_error {ℓ} : {A : Type ℓ} → Option A → Result A
or_value_error none = raise value_error
or_value_error (some a) = ok a

abbrev pub negate : ℕ → ℤ
negate zero = pos 0
negate (suc n) = negsuc n

-- Towards zero.
abbrev pub truncate : ℤ → ℕ → ℤ
truncate (pos n) den = pos (n / suc den)
truncate (negsuc n) den = negate (suc n / suc den)

abbrev pub magnitude : ℤ → ℕ
magnitude (pos n) = n
magnitude (negsuc n) = suc n

module _ (parsers : Parsers) where
  -- `int(value)`
  unfoldable pub to_int : Json → Result ℤ
  to_int null = raise type_error
  to_int (boolean b) = ok (int_of_bool b)
  to_int (integer n) = ok n
  to_int (real nan) = raise value_error
  to_int (real (infinite b)) = raise overflow_error
  to_int (real (finite n den)) = ok (truncate n den)
  to_int (string s) = or_value_error (parsers.parse_int s)
  to_int (array es) = raise type_error
  to_int (object ms) = raise type_error

  -- `float(value)`. An integer is read as exact.
  unfoldable pub to_float : Json → Result Float
  to_float null = raise type_error
  to_float (boolean b) = ok (finite (int_of_bool b) 0)
  to_float (integer n) =
      if ltb (magnitude n) parsers.float_bound then ok (finite n 0) else raise overflow_error
  to_float (real x) = ok x
  to_float (string s) = or_value_error (parsers.parse_float s)
  to_float (array es) = raise type_error
  to_float (object ms) = raise type_error

-- `x == n`, for a float and a small integer.
abbrev pub is_number : Float → ℕ → Bool
is_number nan n = false
is_number (infinite b) n = false
is_number (finite (pos a) den) n = a == n * suc den
is_number (finite (negsuc a) den) n = false
