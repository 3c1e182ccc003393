-- ===== src/Server/Prompts.antt =====
-- The prompt that `do_POST` of miniserve/server.py reads off a body.
use miniserve.Base.{
  ◌≡◌, ◌⊎◌, inl, inr, refl, ap, sym, ◌∙◌, none, some, List, String, Option-cases, ℤ,
}
use miniserve.Server.Json.{
  Json, null, boolean, string, integer, real, array, object, Elements, Members, get, ints_of,
}
use miniserve.Server.Post.{
  Setting, not_a_list_of_ints, no_prompt, prompt_of_list, prompt_of_text, choose_prompt,
}

-- The token ids are in the body, or its text goes through the tokenizer.
abbrev pub HasPrompt : Setting → Members → List ℤ → Type 0
HasPrompt setting body ids =
    ((es : Elements) × (get "prompt_ids" body ≡ some (array es)) × (ints_of es ≡ some ids))
    ⊎ ((get "prompt_ids" body ≡ none)
        × ((text : String) × (get "prompt" body ≡ some (string text))
            × ((tokenizer : String → List ℤ) × (setting.tokenizer ≡ some tokenizer)
                × (ids ≡ tokenizer text))))

module _ (setting : Setting) where
  pub prompt-HasPrompt :
      (body : Members) (ids : List ℤ)
      → HasPrompt setting body ids
      → choose_prompt setting body ≡ inl ids
  unfolding choose_prompt prompt_of_list prompt_of_text
  prompt-HasPrompt body ids (inl (es, there, e)) = rw (choose_prompt, there, prompt_of_list, e) refl
  prompt-HasPrompt body ids (inr (gone, (text, there, (tokenizer, e, same)))) =
      rw (choose_prompt, gone, there, e, prompt_of_text, same) refl

  list-HasPrompt :
      (value : Json) (ids : List ℤ)
      → prompt_of_list value ≡ inl ids
      → (es : Elements) × (value ≡ array es) × (ints_of es ≡ some ids)
  unfolding prompt_of_list
  list-HasPrompt (array es) ids e = elim (Option-cases (ints_of es)) [
    | inl bad ↦
        let other : prompt_of_list (array es) ≡ inr not_a_list_of_ints =
          rw (prompt_of_list, bad) refl in
        let clash : inr not_a_list_of_ints ≡ inl ids = sym other ∙ e in cc
    | inr (ns, good) ↦
        let found : prompt_of_list (array es) ≡ inl ns = rw (prompt_of_list, good) refl in
        let one : inl ns ≡ inl ids = sym found ∙ e in
        let same : ns ≡ ids = cc in (es, refl, good ∙ ap some same)
  ]
  list-HasPrompt null ids e = cc
  list-HasPrompt (boolean b) ids e = cc
  list-HasPrompt (integer b) ids e = cc
  list-HasPrompt (real b) ids e = cc
  list-HasPrompt (string b) ids e = cc
  list-HasPrompt (object b) ids e = cc

  text-HasPrompt :
      (tokenizer : String → List ℤ) (value : Json) (ids : List ℤ)
      → prompt_of_text tokenizer value ≡ inl ids
      → (text : String) × (value ≡ string text) × (ids ≡ tokenizer text)
  unfolding prompt_of_text
  text-HasPrompt tokenizer (string text) ids e = (text, refl, cc)
  text-HasPrompt tokenizer null ids e = cc
  text-HasPrompt tokenizer (boolean b) ids e = cc
  text-HasPrompt tokenizer (integer b) ids e = cc
  text-HasPrompt tokenizer (real b) ids e = cc
  text-HasPrompt tokenizer (array b) ids e = cc
  text-HasPrompt tokenizer (object b) ids e = cc

  pub choose_prompt-HasPrompt :
      (body : Members) (ids : List ℤ)
      → choose_prompt setting body ≡ inl ids
      → HasPrompt setting body ids
  unfolding choose_prompt
  choose_prompt-HasPrompt body ids e = elim (Option-cases (get "prompt_ids" body)) [
    | inr (value, there) ↦
        let (es, array_is, ints) = list-HasPrompt value ids (rw (choose_prompt, there) at e) in
        inl (es, there ∙ ap some array_is, ints)
    | inl gone ↦ elim (Option-cases (get "prompt" body)) [
      | inl absent ↦
          let other : choose_prompt setting body ≡ inr no_prompt =
            rw (choose_prompt, gone, absent) refl in
          let clash : inr no_prompt ≡ inl ids = sym other ∙ e in cc
      | inr (value, there) ↦ elim (Option-cases setting.tokenizer) [
        | inl untokenized ↦
            let other : choose_prompt setting body ≡ inr no_prompt =
              rw (choose_prompt, gone, there, untokenized) refl in
            let clash : inr no_prompt ≡ inl ids = sym other ∙ e in cc
        | inr (tokenizer, given) ↦
            let (text, string_is, same) =
              text-HasPrompt tokenizer value ids (rw (choose_prompt, gone, there, given) at e) in
            inr (gone, (text, there ∙ ap some string_is, (tokenizer, given, same)))
      ]
    ]
  ]
