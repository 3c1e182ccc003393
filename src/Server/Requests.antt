-- ===== src/Server/Requests.antt =====
-- Which requests `do_POST` of miniserve/server.py submits.
use miniserve.Base.{
  ◌≡◌, ◌⊎◌, ◌↔◌, inl, inr, refl, ap, sym, ◌∙◌, Bool, true, false, ◌&&◌, List, String_discrete,
  Bool-cases, if_pos, if_neg, ℤ,
}
use mathlib.Core.Path.{subst}
use miniserve.Result.{bind_ok, Result, ok, raise}
use miniserve.Server.Json.{
  Float, null, boolean, string, integer, real, array, object, Members, to_int, to_float, is_number,
}
use miniserve.Server.Prompts.{HasPrompt, prompt-HasPrompt, choose_prompt-HasPrompt}
use miniserve.Server.Post.{
  Decoded, parsed, invalid_json, undecodable, too_many_digits, too_deep, Setting, Request,
  Complaint, not_found, not_numbers, greedy_only, Ask, refuse, submit, max_tokens_of,
  temperature_of, top_p_of, body_length, or_braces, choose_prompt, numbers, verdict_of,
  is_number_error, of_prompt, of_body, do_post,
}

module _ (setting : Setting) where
  -- What a request says that asks for this.
  pub record IsProper (request : Request) (ask : Ask) : Type 0 where
    pub path : request.path ≡ "/generate"
    pub length : ℤ
    pub counted : body_length setting request ≡ ok length
    pub body : Members
    pub is_object : setting.loads (or_braces (request.read length)) ≡ parsed (object body)
    pub prompt : HasPrompt setting body ask.prompt_ids
    pub max_tokens : to_int setting.parsers (max_tokens_of body) ≡ ok ask.max_tokens
    pub temperature : to_float setting.parsers (temperature_of body) ≡ ok ask.temperature
    pub top_p : to_float setting.parsers (top_p_of body) ≡ ok ask.top_p
    pub greedy : (is_number ask.temperature 0 ≡ true) × (is_number ask.top_p 1 ≡ true)

  of_body-submit :
      (l : Decoded) (ask : Ask)
      → of_body setting l ≡ ok (submit ask)
      → (body : Members) × (l ≡ parsed (object body))
        × (of_prompt setting body (choose_prompt setting body) ≡ ok (submit ask))
  unfolding of_body
  of_body-submit (parsed (object body)) ask e = (body, refl, e)
  of_body-submit (parsed null) ask e = cc
  of_body-submit (parsed (boolean b)) ask e = cc
  of_body-submit (parsed (integer b)) ask e = cc
  of_body-submit (parsed (real b)) ask e = cc
  of_body-submit (parsed (string b)) ask e = cc
  of_body-submit (parsed (array b)) ask e = cc
  of_body-submit invalid_json ask e = cc
  of_body-submit undecodable ask e = cc
  of_body-submit too_many_digits ask e = cc
  of_body-submit too_deep ask e = cc

  of_prompt-submit :
      (body : Members) (p : List ℤ ⊎ Complaint) (ask : Ask)
      → of_prompt setting body p ≡ ok (submit ask)
      → (ids : List ℤ) × (p ≡ inl ids) × (verdict_of ids (numbers setting body) ≡ ok (submit ask))
  unfolding of_prompt
  of_prompt-submit body (inl ids) ask e = (ids, refl, e)
  of_prompt-submit body (inr complaint) ask e = cc

  abbrev asked : List ℤ → ℤ × Float × Float → Ask
  asked ids n = record { prompt_ids = ids; max_tokens = n.0; temperature = n.1; top_p = n.2 }

  both_true : (a b : Bool) → a && b ≡ true → (a ≡ true) × (b ≡ true)
  both_true true b e = (refl, e)
  both_true false b e = cc

  verdict_of-submit :
      (ids : List ℤ) (r : Result (ℤ × Float × Float)) (ask : Ask)
      → verdict_of ids r ≡ ok (submit ask)
      → (n : ℤ × Float × Float) × (r ≡ ok n)
        × (ask ≡ asked ids n)
        × ((is_number n.1 0 ≡ true) × (is_number n.2 1 ≡ true))
  unfolding verdict_of
  verdict_of-submit ids (ok n) ask e = elim (Bool-cases (is_number n.1 0 && is_number n.2 1)) [
    | inl t ↦
        let found : verdict_of ids (ok n) ≡ ok (submit (asked ids n)) = rw (verdict_of, t) refl in
        let one : ok (submit (asked ids n)) ≡ ok (submit ask) = sym found ∙ e in
        let same : asked ids n ≡ ask = cc in (n, refl, sym same, both_true _ _ t)
    | inr f ↦
        let other : verdict_of ids (ok n) ≡ ok (refuse greedy_only) = rw (verdict_of, f) refl in
        let clash : ok (refuse greedy_only) ≡ ok (submit ask) = sym other ∙ e in cc
  ]
  verdict_of-submit ids (raise x) ask e = elim (Bool-cases (is_number_error x)) [
    | inl t ↦
        let other : verdict_of ids (raise x) ≡ ok (refuse not_numbers) = rw (verdict_of, t) refl in
        let clash : ok (refuse not_numbers) ≡ ok (submit ask) = sym other ∙ e in cc
    | inr f ↦
        let other : verdict_of ids (raise x) ≡ raise x = rw (verdict_of, f) refl in
        let clash : raise x ≡ ok (submit ask) = sym other ∙ e in cc
  ]

  numbers_ok :
      (body : Members) (n : ℤ × Float × Float)
      → numbers setting body ≡ ok n
      → (to_int setting.parsers (max_tokens_of body) ≡ ok n.0)
        × (to_float setting.parsers (temperature_of body) ≡ ok n.1)
        × (to_float setting.parsers (top_p_of body) ≡ ok n.2)
  unfolding numbers
  numbers_ok body n e =
      let (m, em, e1) = bind_ok _ _ n e in
      let (t, et, e2) = bind_ok _ _ n e1 in
      let (p, ep, e3) = bind_ok _ _ n e2 in
      let same : (m, t, p) ≡ n = cc in
      (em ∙ ap (λ n. ok n.0) same, et ∙ ap (λ n. ok n.1) same, ep ∙ ap (λ n. ok n.2) same)

  -- `do_POST` submits a request to the engine exactly if its path is /generate, its length is
  -- a number, its body is a JSON object that has a list of ints as the token ids, or a text
  -- and there is a tokenizer, and its temperature and its top_p are numbers equal to zero and
  -- to one; and what it submits are those ids and `int` of the value of max_tokens.
  pub submit_iff :
      (request : Request) (ask : Ask)
      → (do_post setting request ≡ ok (submit ask)) ↔ IsProper request ask
  unfolding do_post of_body of_prompt numbers verdict_of
  submit_iff request ask = (
    λ e. elim (String_discrete request.path "/generate") [
      | no n ↦
          let other : do_post setting request ≡ ok (refuse not_found) =
            rw (do_post, if_neg _ n) refl in
          let clash : ok (refuse not_found) ≡ ok (submit ask) = sym other ∙ e in cc
      | yes p ↦
          let (length, counted, e1) = bind_ok _ _ (submit ask) (rw (do_post, if_pos _ p) at e) in
          let (body, is_object, e2) = of_body-submit _ ask e1 in
          let (ids, chosen, e3) = of_prompt-submit body _ ask e2 in
          let (n, read, is, greedy) = verdict_of-submit ids _ ask e3 in
          let (m, t, tp) = numbers_ok body n read in
          record {
            path = p;
            length = length;
            counted = counted;
            body = body;
            is_object = is_object;
            prompt =
                subst (λ a. HasPrompt setting body a.prompt_ids) (sym is)
                  (choose_prompt-HasPrompt setting body ids chosen);
            max_tokens = m ∙ ap (λ a. ok a.max_tokens) (sym is);
            temperature = t ∙ ap (λ a. ok a.temperature) (sym is);
            top_p = tp ∙ ap (λ a. ok a.top_p) (sym is);
            greedy =
                subst (λ a. (is_number a.temperature 0 ≡ true) × (is_number a.top_p 1 ≡ true))
                  (sym is) greedy;
          }
    ],
    λ v.
        rw
          (
            do_post,
            if_pos _ v.path,
            v.counted,
            v.is_object,
            of_body,
            prompt-HasPrompt setting v.body ask.prompt_ids v.prompt,
            of_prompt,
            numbers,
            v.max_tokens,
            v.temperature,
            v.top_p,
            verdict_of,
            v.greedy.0,
            v.greedy.1,
          )
          refl,
  )
