-- ===== src/Server/Post.antt =====
-- `do_POST` of miniserve/server.py up to the submission: what a request must say.
use miniserve.Base.{
  ℕ, Bool, true, false, ◌&&◌, ◌⊎◌, inl, inr, Option, none, some, List, [], ◌∷◌, String,
  String_discrete, ite, if◌then◌else◌, ℤ, pos,
}
use mathlib.Core.Option
use miniserve.Result.{Error, value_error, type_error, recursion_error, Result, ok, raise, ◌>>=◌}
use miniserve.Server.Json.{
  Float, finite, Json, string, integer, real, array, object, Members, get, ints_of, Parsers, to_int,
  to_float, is_number, or_value_error,
}

-- What a body of bytes is to `json.loads`.
pub data Decoded : Type 0 where
  parsed : Json → Decoded
  invalid_json : Decoded
  -- bytes that are no text
  undecodable : Decoded
  -- an integer of more digits than `int` reads, which is a plain ValueError
  too_many_digits : Decoded
  -- arrays or objects in each other, deeper than the stack
  too_deep : Decoded

-- What the handler is given: the parsers, the tokenizer, and `json.loads`.
pub record Setting : Type 0 where
  pub parsers : Parsers
  pub tokenizer : Option (String → List ℤ)
  pub loads : List ℕ → Decoded

-- `read` is what `rfile.read(length)` returns.
pub record Request : Type 0 where
  pub path : String
  pub content_length : Option String
  pub read : ℤ → List ℕ

-- The texts of the error answers of status 400 and 404.
pub data Complaint : Type 0 where
  not_found : Complaint
  bad_json : Complaint
  not_an_object : Complaint
  not_a_list_of_ints : Complaint
  prompt_not_a_string : Complaint
  no_prompt : Complaint
  not_numbers : Complaint
  greedy_only : Complaint

-- The arguments of `engine.submit`.
pub record Ask : Type 0 where
  pub prompt_ids : List ℤ
  pub max_tokens : ℤ
  pub temperature : Float
  pub top_p : Float

-- The request is answered at once, or submitted. An exception that escapes is the error of the result.
pub data Verdict : Type 0 where
  refuse : Complaint → Verdict
  submit : Ask → Verdict

abbrev pub default_max_tokens : ℕ
default_max_tokens = 128

-- `data or b"{}"`
abbrev pub or_braces : List ℕ → List ℕ
or_braces [] = 123 ∷ 125 ∷ []
or_braces (b ∷ bytes) = b ∷ bytes

-- The prompt of a list of ints, or what is wrong with it.
unfoldable pub prompt_of_list : Json → List ℤ ⊎ Complaint
prompt_of_list (array elements) = elim (ints_of elements) [
  | none ↦ inr not_a_list_of_ints
  | some ids ↦ inl ids
]
prompt_of_list _ = inr not_a_list_of_ints

unfoldable pub prompt_of_text : (String → List ℤ) → Json → List ℤ ⊎ Complaint
prompt_of_text tokenizer (string text) = inl (tokenizer text)
prompt_of_text tokenizer _ = inr prompt_not_a_string

-- `body.get("max_tokens", DEFAULT_MAX_TOKENS)`, and the other two, with their defaults.
abbrev pub max_tokens_of : Members → Json
max_tokens_of body = Option.get_or (get "max_tokens" body) (integer (pos default_max_tokens))

abbrev pub temperature_of : Members → Json
temperature_of body = Option.get_or (get "temperature" body) (real (finite (pos 0) 0))

abbrev pub top_p_of : Members → Json
top_p_of body = Option.get_or (get "top_p" body) (real (finite (pos 1) 0))

-- `except (TypeError, ValueError)`
abbrev pub is_number_error : Error → Bool
is_number_error type_error = true
is_number_error value_error = true
is_number_error _ = false

unfoldable pub verdict_of : List ℤ → Result (ℤ × Float × Float) → Result Verdict
verdict_of prompt_ids (ok (max_tokens, temperature, top_p)) = ok (
    if is_number temperature 0 && is_number top_p 1
    then submit (record {
      prompt_ids = prompt_ids;
      max_tokens = max_tokens;
      temperature = temperature;
      top_p = top_p;
    })
    else refuse greedy_only)
verdict_of prompt_ids (raise e) = if is_number_error e then ok (refuse not_numbers) else raise e

module _ (setting : Setting) where
  -- `int(headers.get("Content-Length", 0))`
  unfoldable pub body_length : Request → Result ℤ
  body_length request = elim request.content_length [
    | none ↦ ok (pos 0)
    | some text ↦ or_value_error (setting.parsers.parse_int text)
  ]

  -- Token ids, or a text where there is a tokenizer.
  unfoldable pub choose_prompt : Members → List ℤ ⊎ Complaint
  choose_prompt body = elim (get "prompt_ids" body) [
    | some value ↦ prompt_of_list value
    | none ↦ elim (get "prompt" body) [
      | none ↦ inr no_prompt
      | some value ↦ elim setting.tokenizer [
        | none ↦ inr no_prompt
        | some tokenizer ↦ prompt_of_text tokenizer value
      ]
    ]
  ]

  -- The three conversions, in their order.
  unfoldable pub numbers : Members → Result (ℤ × Float × Float)
  numbers body = do
    max_tokens ← to_int setting.parsers (max_tokens_of body)
    temperature ← to_float setting.parsers (temperature_of body)
    top_p ← to_float setting.parsers (top_p_of body)
    ok (max_tokens, temperature, top_p)

  unfoldable pub of_prompt : Members → List ℤ ⊎ Complaint → Result Verdict
  of_prompt body (inl prompt_ids) = verdict_of prompt_ids (numbers body)
  of_prompt body (inr complaint) = ok (refuse complaint)

  -- `except json.JSONDecodeError` catches none of the three other errors.
  unfoldable pub of_body : Decoded → Result Verdict
  of_body (parsed (object body)) = of_prompt body (choose_prompt body)
  of_body (parsed _) = ok (refuse not_an_object)
  of_body invalid_json = ok (refuse bad_json)
  of_body undecodable = raise value_error
  of_body too_many_digits = raise value_error
  of_body too_deep = raise recursion_error

  unfoldable pub do_post : Request → Result Verdict
  do_post request =
      ite (String_discrete request.path "/generate")
        (do length ← body_length request; of_body (setting.loads (or_braces (request.read length))))
        (ok (refuse not_found))
