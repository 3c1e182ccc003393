-- ===== src/Scheduler/Sampling.antt =====
-- One token of miniserve/scheduler.py's loop, the object that gets it, and its stream.
use miniserve.Base.{
  ℕ, zero, suc, ◌-◌, ◌≡◌, ◌⊎◌, refl, inl, inr, some, List, [], ◌∷◌, ◌++◌, arith, ap, sym, ◌∙◌,
  length, get_elem?, length-append,
}
use miniserve.Scheduler.Sequence.{Sequence, Token, prefill, decode}
use miniserve.Scheduler.State.{Ref, Event, on_token, Env, Scheduler, update}
use miniserve.Scheduler.Step.{emit, start_decode, append_token, sampled}

get_elem?-append_length {ℓ} :
    {A : Type ℓ} (xs : List A) (x : A) → get_elem? (xs ++ x ∷ []) (length xs) ≡ some x
get_elem?-append_length [] x = refl
get_elem?-append_length (y ∷ xs) x = get_elem?-append_length xs x

emit_lem :
    (q : Sequence) (t : Token) (events : List Event)
    → q.emitted_count ≡ length q.output_ids
    → emit (length (q.output_ids ++ t ∷ []) - q.emitted_count) (append_token q t) events ≡ (
      record (append_token q t) { emitted_count = suc q.emitted_count },
      on_token q.req_id t ∷ events,
    )
unfolding emit
emit_lem q t events e =
    let one : length (q.output_ids ++ t ∷ []) - q.emitted_count ≡ suc zero =
      omega (arith, length-append q.output_ids (t ∷ [])) in
    let this : get_elem? (q.output_ids ++ t ∷ []) q.emitted_count ≡ some t =
      rw e (get_elem?-append_length q.output_ids t) in
    rw (one, this, emit)

-- The object after its next token.
pub record IsNext (q : Sequence) (t : Token) (q' : Sequence) : Type 0 where
  pub same_id : q'.req_id ≡ q.req_id
  pub same_prompt : q'.prompt_ids ≡ q.prompt_ids
  pub same_max : q'.max_tokens ≡ q.max_tokens
  pub same_number : q'.seq_no ≡ q.seq_no
  pub same_arrival : q'.arrival_time ≡ q.arrival_time
  pub output : q'.output_ids ≡ q.output_ids ++ t ∷ []
  pub decoding : q'.status ≡ decode
  pub streamed : q'.emitted_count ≡ length q'.output_ids

module _ {T L : Type 0} (env : Env T L) where
  start_decode_status :
      (reads : ℕ) (q : Sequence)
      → (q.status ≡ prefill) ⊎ (q.status ≡ decode)
      → (start_decode env reads q).0.status ≡ decode
  unfolding start_decode
  start_decode_status reads q (inl e) = ground arith
  start_decode_status reads q (inr e) = ground arith

  -- `start_decode` touches the status and the time of the first token alone.
  start_decode_same :
      (reads : ℕ) (q : Sequence)
      → ((start_decode env reads q).0.req_id ≡ q.req_id)
        × ((start_decode env reads q).0.prompt_ids ≡ q.prompt_ids)
        × ((start_decode env reads q).0.max_tokens ≡ q.max_tokens)
        × ((start_decode env reads q).0.seq_no ≡ q.seq_no)
        × ((start_decode env reads q).0.arrival_time ≡ q.arrival_time)
        × ((start_decode env reads q).0.output_ids ≡ q.output_ids)
        × ((start_decode env reads q).0.emitted_count ≡ q.emitted_count)
  unfolding start_decode
  start_decode_same reads q = ground arith

  pub sampled_lem :
      (s : Scheduler T) (r : Ref) (t : Token)
      → ((s.heap r).status ≡ prefill) ⊎ ((s.heap r).status ≡ decode)
      → (s.heap r).emitted_count ≡ length (s.heap r).output_ids
      → (q : Sequence) × (reads : ℕ) × (sampled env s r t ≡ record s {
        heap = update s.heap r q;
        clock_reads = reads;
        events = on_token (s.heap r).req_id t ∷ s.events;
      })
        × IsNext (s.heap r) t q
  unfolding sampled
  sampled_lem s r t active e =
      let q0 = (start_decode env s.clock_reads (s.heap r)).0 in
      let (id, prompt, max, number, arrival, out, emitted) =
        start_decode_same s.clock_reads (s.heap r) in
      (
        record (append_token q0 t) { emitted_count = suc q0.emitted_count },
        (start_decode env s.clock_reads (s.heap r)).1,
        rw (emit_lem q0 t s.events (emitted ∙ e ∙ ap length (sym out)), id) refl,
        record {
          same_id = id;
          same_prompt = prompt;
          same_max = max;
          same_number = number;
          same_arrival = arrival;
          output = rw out;
          decoding = start_decode_status s.clock_reads (s.heap r) active;
          streamed = omega (arith, emitted, e, ap length out, length-append q0.output_ids (t ∷ []));
        },
      )
