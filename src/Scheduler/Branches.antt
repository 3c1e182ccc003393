-- ===== src/Scheduler/Branches.antt =====
-- `submit` of miniserve/scheduler.py, branch by branch.
use miniserve.Base.{
  float_limit, ℕ, ◌+◌, ◌*◌, ceil_div-least, le-ceil_div-mul, ◌≤◌, ◌<◌, ◌≡◌, ◌≢◌, ◌⊎◌, refl, inl,
  inr, Option, List, [], ◌∷◌, ◌++◌, count, String_discrete, arith, length, ltb,
}
use mathlib.Core.Option
use miniserve.Result.{ok, raise, value_error, capacity_error, zero_division_error, overflow_error}
use miniserve.KvCache.Storage.{ReqId}
use miniserve.Scheduler.Sequence.{Sequence, SamplingParams, Token, waiting, default_sampling}
use miniserve.Scheduler.State.{Ref, Env, Scheduler, ids, n_blocks, blocks_for}
use miniserve.Scheduler.Submit.{has_id, new_sequence, submitted, submit}
use miniserve.Scheduler.Heap.{update_self, update_ne}

has_id-count :
    (k : ReqId) (heap : Ref → Sequence) (rs : List Ref)
    → has_id k heap rs ≡ ltb 0 (count String_discrete k (ids heap rs))
unfolding has_id
has_id-count k heap [] = refl
has_id-count k heap (r ∷ rs) = ground (arith, has_id-count k heap rs)

module _ {T L : Type 0} (env : Env T L) (s : Scheduler T) (req_id : ReqId) (prompt_ids : List Token)
    (max_tokens : ℕ) (sampling : Option SamplingParams) where
  abbrev pub total : ℕ
  total = length prompt_ids + max_tokens

  abbrev pub live_ids : ℕ
  live_ids =
      count String_discrete req_id (ids s.heap s.running)
      + count String_discrete req_id (ids s.heap s.waiting)

  -- The branches, in the order of the guards.
  pub submit_branches :
      (((length prompt_ids ≡ 0) ⊎ (max_tokens ≡ 0) ⊎ (0 < live_ids))
        × (submit env s req_id prompt_ids max_tokens sampling ≡ raise value_error))
      ⊎ ((0 < length prompt_ids)
          × (0 < max_tokens)
          × (live_ids ≡ 0)
          × (((s.kv.block_size ≡ 0)
                × (submit env s req_id prompt_ids max_tokens sampling ≡ raise zero_division_error))
              ⊎ ((0 < s.kv.block_size)
                  × (float_limit * s.kv.block_size ≤ total)
                  × (submit env s req_id prompt_ids max_tokens sampling ≡ raise overflow_error))
              ⊎ ((0 < s.kv.block_size)
                  × (total < float_limit * s.kv.block_size)
                  × (s.kv.num_blocks < n_blocks s total)
                  × (submit env s req_id prompt_ids max_tokens sampling ≡ raise capacity_error))
              ⊎ ((0 < s.kv.block_size)
                  × (total < float_limit * s.kv.block_size)
                  × (n_blocks s total ≤ s.kv.num_blocks)
                  × (submit env s req_id prompt_ids max_tokens sampling
                      ≡ ok
                          (submitted env s req_id prompt_ids max_tokens sampling, s.seq_counter)))))
  unfolding submit blocks_for
  submit_branches =
      ground (arith, has_id-count req_id s.heap s.waiting, has_id-count req_id s.heap s.running)

  -- The scheduler with the request at the end of its waiting queue, under the next number, and
  -- nothing else changed.
  pub record IsQueued (s' : Scheduler T) : Type 0 where
    pub queue : s'.waiting ≡ s.waiting ++ s.seq_counter ∷ []
    pub running : s'.running ≡ s.running
    pub counter : s'.seq_counter ≡ s.seq_counter + 1
    pub cache : s'.kv ≡ s.kv
    pub limits : (s'.max_batch ≡ s.max_batch) × (s'.eos_id ≡ s.eos_id)
    pub metrics : s'.metrics ≡ s.metrics
    pub preemptions :
        (s'.preemptions_total ≡ s.preemptions_total) × (s'.preemption_log ≡ s.preemption_log)
    pub events : s'.events ≡ s.events
    pub others : (r : Ref) → r ≢ s.seq_counter → s'.heap r ≡ s.heap r
    pub request :
        ((s'.heap s.seq_counter).req_id ≡ req_id)
        × ((s'.heap s.seq_counter).prompt_ids ≡ prompt_ids)
        × ((s'.heap s.seq_counter).max_tokens ≡ max_tokens)
        × ((s'.heap s.seq_counter).sampling ≡ Option.get_or sampling default_sampling)
    pub fresh :
        ((s'.heap s.seq_counter).seq_no ≡ s.seq_counter)
        × ((s'.heap s.seq_counter).status ≡ waiting)
        × ((s'.heap s.seq_counter).output_ids ≡ [])
        × ((s'.heap s.seq_counter).emitted_count ≡ 0)
        × ((s'.heap s.seq_counter).preempted_count ≡ 0)
        × ((s'.heap s.seq_counter).arrival_time ≡ env.clock s.clock_reads)

  submitted-IsQueued : IsQueued (submitted env s req_id prompt_ids max_tokens sampling)
  submitted-IsQueued = record {
    queue = refl;
    running = refl;
    counter = omega arith;
    cache = refl;
    limits = (refl, refl);
    metrics = refl;
    preemptions = (refl, refl);
    events = refl;
    others = λ r ne.
        update_ne s.heap s.seq_counter (new_sequence env s req_id prompt_ids max_tokens sampling) r
          ne;
    request =
        rw
          (update_self s.heap s.seq_counter
            (new_sequence env s req_id prompt_ids max_tokens sampling))
          (refl, refl, refl, refl);
    fresh =
        rw
          (update_self s.heap s.seq_counter
            (new_sequence env s req_id prompt_ids max_tokens sampling))
          (refl, refl, refl, refl, refl, refl);
  }

  -- `submit` raises ValueError exactly for an empty prompt, for less than one token or for the
  -- id of a live request, otherwise ZeroDivisionError exactly for a block size of zero,
  -- otherwise OverflowError exactly if the prompt length and max_tokens over the block size is
  -- a quotient that no float holds, otherwise CapacityError exactly if they are more than the
  -- slots of the whole cache, and otherwise returns the next number, with the request under it
  -- at the end of the waiting queue, waiting and without output, and with the other requests,
  -- the running queue, the cache, the metrics and the callbacks as they were.
  pub submit_cases :
      (((length prompt_ids ≡ 0)
          ⊎ (max_tokens ≡ 0)
          ⊎ (0
              < count String_discrete req_id (ids s.heap s.running)
                + count String_discrete req_id (ids s.heap s.waiting)))
        × (submit env s req_id prompt_ids max_tokens sampling ≡ raise value_error))
      ⊎ ((0 < length prompt_ids)
          × (0 < max_tokens)
          × (count String_discrete req_id (ids s.heap s.running)
                + count String_discrete req_id (ids s.heap s.waiting)
              ≡ 0)
          × (((s.kv.block_size ≡ 0)
                × (submit env s req_id prompt_ids max_tokens sampling ≡ raise zero_division_error))
              ⊎ ((0 < s.kv.block_size)
                  × (float_limit * s.kv.block_size ≤ length prompt_ids + max_tokens)
                  × (submit env s req_id prompt_ids max_tokens sampling ≡ raise overflow_error))
              ⊎ ((length prompt_ids + max_tokens < float_limit * s.kv.block_size)
                  × (s.kv.num_blocks * s.kv.block_size < length prompt_ids + max_tokens)
                  × (submit env s req_id prompt_ids max_tokens sampling ≡ raise capacity_error))
              ⊎ ((length prompt_ids + max_tokens < float_limit * s.kv.block_size)
                  × (length prompt_ids + max_tokens ≤ s.kv.num_blocks * s.kv.block_size)
                  × ((s' : Scheduler T) × (submit env s req_id prompt_ids max_tokens sampling
                        ≡ ok (s', s.seq_counter))
                      × IsQueued s'))))
  submit_cases = elim submit_branches [
    | inl refused ↦ inl refused
    | inr (prompt, some_token, fresh, inl no_size) ↦ inr (prompt, some_token, fresh, inl no_size)
    | inr (prompt, some_token, fresh, inr (inl over)) ↦
        inr (prompt, some_token, fresh, inr (inl over))
    | inr (prompt, some_token, fresh, inr (inr (inl (pos, fine, large, refused)))) ↦ inr (
      prompt,
      some_token,
      fresh,
      inr (
          inr
            (inl (fine, ceil_div-least s.kv.block_size pos s.kv.num_blocks total large, refused))),
    )
    | inr (prompt, some_token, fresh, inr (inr (inr (pos, fine, fits, accepted)))) ↦ inr (
      prompt,
      some_token,
      fresh,
      inr (
          inr (
            inr (
              fine,
              grind (arith, le-ceil_div-mul s.kv.block_size pos total),
              (submitted env s req_id prompt_ids max_tokens sampling, accepted, submitted-IsQueued),
            ))),
    )
  ]
