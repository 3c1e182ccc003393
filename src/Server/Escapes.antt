-- ===== src/Server/Escapes.antt =====
-- Which exceptions escape `do_POST` of miniserve/server.py before it has answered.
use miniserve.Base.{◌≤◌, ◌≡◌, ◌⊎◌, inl, inr, ap, Bool, Option, none, some, String, ℤ}
use mathlib.Core.Option
use miniserve.Result.{Error, value_error, overflow_error, recursion_error, Result, ok}
use miniserve.Server.Json.{infinite, Json, integer, real, object, Members, get, magnitude}
use miniserve.Server.Post.{
  Decoded, parsed, undecodable, too_many_digits, too_deep, Setting, Request, body_length, or_braces,
}

get_or-some : (o : Option Json) (d j : Json) → Option.get_or o d ≡ j → (o ≡ some j) ⊎ (d ≡ j)
get_or-some none d j e = inr e
get_or-some (some i) d j e = inl (ap some e)

module _ (setting : Setting) where
  abbrev pub IsHuge : Json → Type 0
  IsHuge j = (n : ℤ) × (j ≡ integer n) × (setting.parsers.float_bound ≤ magnitude n)

  -- A number of the body that `int` or `float` cannot take.
  abbrev pub Overflows : Members → Type 0
  Overflows body =
      ((b : Bool) × (get "max_tokens" body ≡ some (real (infinite b))))
      ⊎ ((n : ℤ) × (get "temperature" body ≡ some (integer n))
          × (setting.parsers.float_bound ≤ magnitude n))
      ⊎ ((n : ℤ) × (get "top_p" body ≡ some (integer n))
          × (setting.parsers.float_bound ≤ magnitude n))

  abbrev BodyEscapes : Decoded → Error → Type 0
  BodyEscapes l e =
      ((e ≡ value_error) × ((l ≡ undecodable) ⊎ (l ≡ too_many_digits)))
      ⊎ ((e ≡ recursion_error) × (l ≡ too_deep))
      ⊎ ((e ≡ overflow_error) × ((body : Members) × (l ≡ parsed (object body)) × Overflows body))

  -- A length that is no number, a body that `json.loads` cannot read, or a number that does not fit.
  abbrev pub Escapes : Request → Error → Type 0
  Escapes request e =
      ((e ≡ value_error)
        × ((text : String) × (request.content_length ≡ some text)
            × (setting.parsers.parse_int text ≡ none)))
      ⊎ ((length : ℤ) × (body_length setting request ≡ ok length)
          × BodyEscapes (setting.loads (or_braces (request.read length))) e)
