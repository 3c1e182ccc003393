-- ===== src/Scheduler/Accept.antt =====
-- An accepted call of `submit` of miniserve/scheduler.py, and the constructor, and the invariant.
use miniserve.Base.{
  float_limit, ℕ, suc, ◌+◌, ◌*◌, ◌≤◌, ◌<◌, ◌≡◌, ◌≢◌, refl, inl, inr, Option, List, [], ◌∷◌, ◌++◌,
  count, indicator, indicator_no, indicator_le, dec_lt, ℕ_discrete, String_discrete, arith, sym,
  length, length-append, count-append,
}
use miniserve.Result.{ok}
use miniserve.KvCache.Storage.{ReqId, PagedKvCache}
use miniserve.KvCache.Conservation.{IsConserved}
use miniserve.Scheduler.Sequence.{Sequence, SamplingParams, Token, waiting}
use miniserve.Scheduler.State.{Ref, Env, Scheduler, update, ids, n_blocks, init}
use miniserve.Scheduler.Submit.{new_sequence, submitted, submit}
use miniserve.Scheduler.Heap.{◌∈◌, update_self, update_ne, ids-update_absent, count-ids-append}
use miniserve.Scheduler.Invariant.{IsValid, IsLive, no_lag}
use miniserve.Scheduler.Branches.{submit_branches}

module _ {T L : Type 0} (env : Env T L) (s : Scheduler T) (req_id : ReqId) (prompt_ids : List Token)
    (max_tokens : ℕ) (sampling : Option SamplingParams) where
  module _ (v : IsValid no_lag s) where
    abbrev new : Sequence
    new = new_sequence env s req_id prompt_ids max_tokens sampling

    pub absent-running : count ℕ_discrete s.seq_counter s.running ≡ 0
    absent-running = elim (dec_lt 0 (count ℕ_discrete s.seq_counter s.running)) [
      | yes p ↦ absurd (omega (arith, (v.numbered s.seq_counter (omega arith)).1))
      | no p ↦ omega arith
    ]

    pub absent-waiting : count ℕ_discrete s.seq_counter s.waiting ≡ 0
    absent-waiting = elim (dec_lt 0 (count ℕ_discrete s.seq_counter s.waiting)) [
      | yes p ↦ absurd (omega (arith, (v.numbered s.seq_counter (omega arith)).1))
      | no p ↦ omega arith
    ]

    apart :
        (r : Ref)
        → 0 < count ℕ_discrete r s.running + count ℕ_discrete r s.waiting
        → r ≢ s.seq_counter
    apart r h e = absurd (omega (arith, (v.numbered r h).1))

    old :
        (r : Ref)
        → 0 < count ℕ_discrete r s.running + count ℕ_discrete r s.waiting
        → update s.heap s.seq_counter new r ≡ s.heap r
    old r h = update_ne s.heap s.seq_counter new r (apart r h)

    module _ (prompt : 0 < length prompt_ids) (some_token : 0 < max_tokens)
        (fresh : count String_discrete req_id (ids s.heap s.running)
            + count String_discrete req_id (ids s.heap s.waiting)
          ≡ 0)
        (fine : length prompt_ids + max_tokens < float_limit * s.kv.block_size)
        (fits : n_blocks s (length prompt_ids + max_tokens) ≤ s.kv.num_blocks) where
      submitted-IsLive :
          (r : Ref)
          → 0 < count ℕ_discrete r s.running + count ℕ_discrete r (s.waiting ++ s.seq_counter ∷ [])
          → IsLive s.kv.block_size s.kv.num_blocks 0 (update s.heap s.seq_counter new r)
            × ((update s.heap s.seq_counter new r).seq_no ≡ r)
            × (r < suc s.seq_counter)
      submitted-IsLive r h = elim (ℕ_discrete r s.seq_counter) [
        | yes p ↦
            rw (p, update_self s.heap s.seq_counter new)
              (
                record {
                  prompt = prompt;
                  worst = fits;
                  divides = fine;
                  unfinished = omega arith;
                  emitted = refl;
                },
                refl,
                omega arith,
              )
        | no p ↦
            let k : 0 < count ℕ_discrete r s.running + count ℕ_discrete r s.waiting = omega (
              arith,
              count-append ℕ_discrete r s.waiting (s.seq_counter ∷ []),
              indicator_no (ℕ_discrete s.seq_counter r) (λ e. p (sym e)),
            ) in
            rw (old r k) (v.live r k, (v.numbered r k).0, omega (arith, (v.numbered r k).1))
      ]

      submitted-idle :
          (r : Ref)
          → r ∈ s.waiting ++ s.seq_counter ∷ []
          → (update s.heap s.seq_counter new r).status ≡ waiting
      submitted-idle r h = elim (ℕ_discrete r s.seq_counter) [
        | yes p ↦ rw (p, update_self s.heap s.seq_counter new)
        | no p ↦
            let k : r ∈ s.waiting = omega (
              arith,
              count-append ℕ_discrete r s.waiting (s.seq_counter ∷ []),
              indicator_no (ℕ_discrete s.seq_counter r) (λ e. p (sym e)),
            ) in
            rw (old r (omega arith)) (v.idle r k)
      ]

      -- A request that is accepted keeps the scheduler valid.
      pub submitted-IsValid : IsValid no_lag (submitted env s req_id prompt_ids max_tokens sampling)
      submitted-IsValid = record {
        conserved = v.conserved;
        block_pos = v.block_pos;
        tables = λ k.
            rw (ids-update_absent s.heap s.seq_counter new s.running absent-running) (v.tables k);
        distinct = λ k.
            rw
              (
                ids-update_absent s.heap s.seq_counter new s.running absent-running,
                count-ids-append (update s.heap s.seq_counter new) k s.waiting (s.seq_counter ∷ []),
                ids-update_absent s.heap s.seq_counter new s.waiting absent-waiting,
                update_self s.heap s.seq_counter new,
              )
              (one_id k);
        live = λ r h. (submitted-IsLive r h).0;
        numbered = λ r h. ((submitted-IsLive r h).1, (submitted-IsLive r h).2);
        active = λ r h. rw (old r (omega arith)) (v.active r h);
        idle = submitted-idle;
        holds = λ r h. rw (old r (omega arith)) (v.holds r h);
        batched = v.batched;
        accounted = omega (arith, v.accounted, length-append s.waiting (s.seq_counter ∷ []));
      }
        where
          one_id :
              (k : ReqId)
              → count String_discrete k (ids s.heap s.running)
                  + (count String_discrete k (ids s.heap s.waiting)
                      + (indicator (String_discrete req_id k) + 0))
                ≤ 1
          one_id k = elim (String_discrete req_id k) [
            | yes p ↦ rw (← p) (omega (arith, indicator_le (String_discrete req_id req_id)))
            | no p ↦ omega (arith, indicator_no (String_discrete req_id k) p, v.distinct k)
          ]

-- A request that `submit` accepts on a valid scheduler leaves a valid scheduler.
pub submit-IsValid :
    {T L : Type 0} (env : Env T L) (s : Scheduler T) (req_id : ReqId) (prompt_ids : List Token)
    (max_tokens : ℕ) (sampling : Option SamplingParams) (s' : Scheduler T) (r : Ref)
    → IsValid no_lag s
    → submit env s req_id prompt_ids max_tokens sampling ≡ ok (s', r)
    → IsValid no_lag s'
submit-IsValid env s req_id prompt_ids max_tokens sampling s' r v e =
    elim (submit_branches env s req_id prompt_ids max_tokens sampling) [
      | inl (_, refused) ↦ cc
      | inr (prompt, some_token, fresh, inl (_, refused)) ↦ cc
      | inr (prompt, some_token, fresh, inr (inl (_, _, refused))) ↦ cc
      | inr (prompt, some_token, fresh, inr (inr (inl (_, _, _, refused)))) ↦ cc
      | inr (prompt, some_token, fresh, inr (inr (inr (_, fine, fits, accepted)))) ↦
          let same : s' ≡ submitted env s req_id prompt_ids max_tokens sampling = cc in
          rw same (
            submitted-IsValid env s req_id prompt_ids max_tokens sampling v prompt some_token fresh
              fine fits)
    ]

-- A scheduler without requests, over a new cache.
pub init-IsValid :
    {T : Type 0} (kv : PagedKvCache T) (max_batch : ℕ) (eos_id : Token)
    → IsConserved kv
    → 0 < kv.block_size
    → kv.block_tables ≡ []
    → IsValid no_lag (init kv max_batch eos_id)
unfolding init
init-IsValid kv max_batch eos_id c pos no_table = record {
  conserved = c;
  block_pos = pos;
  tables = λ k. rw no_table;
  distinct = λ k. omega arith;
  live = λ r h. absurd (omega arith);
  numbered = λ r h. absurd (omega arith);
  active = λ r h. absurd (omega arith);
  idle = λ r h. absurd (omega arith);
  holds = λ r h. absurd (omega arith);
  batched = omega arith;
  accounted = refl;
}
