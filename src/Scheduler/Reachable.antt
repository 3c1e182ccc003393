-- ===== src/Scheduler/Reachable.antt =====
-- The schedulers of miniserve/scheduler.py that calls of `submit` and `step` lead to.
use miniserve.Base.{
  ℕ, ◌+◌, ◌≤◌, ◌<◌, ◌≡◌, refl, Bool, Option, List, [], ◌∷◌, ◌++◌, All, arith, sym, ◌∙◌, inl, inr,
  length, count, indicator, dec_lt, ℕ_discrete,
}
use miniserve.Result.{ok}
use miniserve.KvCache.Storage
use miniserve.KvCache.Storage.{ReqId, check_invariants}
use miniserve.KvCache.Conservation.{init-IsConserved}
use miniserve.KvCache.Check.{IsConserved-check_invariants}
use miniserve.Scheduler.Sequence.{SamplingParams, Token, PreemptionEvent, youngest_decoded}
use miniserve.Scheduler.State.{Ref, Env, Scheduler, init}
use miniserve.Scheduler.Submit.{submit, submitted}
use miniserve.Scheduler.Step.{step}
use miniserve.Scheduler.Invariant.{IsValid, no_lag}
use miniserve.Scheduler.Safety.{IsAnswering, step_total}
use miniserve.Scheduler.Branches.{submit_branches}
use miniserve.Scheduler.Accept.{submit-IsValid, init-IsValid}
use miniserve.Scheduler.Preserved.{IsPreserved, Steps-P}
use miniserve.Scheduler.Streams.{streamed, n_live, IsStreamed}
use miniserve.Scheduler.NewStream.{submitted-IsStreamed}
use miniserve.Scheduler.Accounts.{
  n_finished, finish_records, IsAccounted, submitted-IsAccounted, IsAccounted-IsPreserved,
}
use miniserve.Scheduler.Streaming.{IsStreamed-IsPreserved}

-- Any order of submissions and steps, with any admission policy at each step.
pub data Reaches {T L : Type 0} (env : Env T L) (s0 : Scheduler T) : Scheduler T → Type 0 where
  start : Reaches env s0 s0
  submits :
      (s s' : Scheduler T) (req_id : ReqId) (prompt_ids : List Token) (max_tokens : ℕ)
      (sampling : Option SamplingParams) (r : Ref)
      → Reaches env s0 s
      → submit env s req_id prompt_ids max_tokens sampling ≡ ok (s', r)
      → Reaches env s0 s'
  steps :
      (s s' : Scheduler T) (admission_open : Scheduler T → Bool × ℕ)
      → Reaches env s0 s
      → step env admission_open s ≡ ok s'
      → Reaches env s0 s'

ok-injective : {A : Type 0} {a b : A} → ok a ≡ ok b → a ≡ b
ok-injective e = cc

module _ {T L : Type 0} (env : Env T L) where
  -- An accepted request had no live id, and is the only change.
  accepted :
      (s s' : Scheduler T) (req_id : ReqId) (prompt_ids : List Token) (max_tokens : ℕ)
      (sampling : Option SamplingParams) (r : Ref)
      → submit env s req_id prompt_ids max_tokens sampling ≡ ok (s', r)
      → (n_live s req_id ≡ 0) × (s' ≡ submitted env s req_id prompt_ids max_tokens sampling)
  accepted s s' req_id prompt_ids max_tokens sampling r e =
      elim (submit_branches env s req_id prompt_ids max_tokens sampling) [
        | inl (_, refused) ↦ absurd cc
        | inr (prompt, some_token, fresh, inl (_, refused)) ↦ absurd cc
        | inr (prompt, some_token, fresh, inr (inl (_, _, refused))) ↦ absurd cc
        | inr (prompt, some_token, fresh, inr (inr (inl (_, _, _, refused)))) ↦ absurd cc
        | inr (prompt, some_token, fresh, inr (inr (inr (_, _, fits, done)))) ↦ (fresh, cc)
      ]

  module _ (answering : IsAnswering env) (s0 : Scheduler T) (v0 : IsValid no_lag s0) where
    -- Every reachable scheduler is valid.
    pub Reaches-IsValid : (s : Scheduler T) → Reaches env s0 s → IsValid no_lag s
    Reaches-IsValid s start = v0
    Reaches-IsValid s (submits s1 s' req_id prompt_ids max_tokens sampling r h e) =
        submit-IsValid env s1 req_id prompt_ids max_tokens sampling s r (Reaches-IsValid s1 h) e
    Reaches-IsValid s (steps s1 s' admission_open h e) =
        let (s2, run, v, _) = step_total env admission_open s1 (Reaches-IsValid s1 h) answering in
        let same : s ≡ s2 = ok-injective (sym e ∙ run) in rw same v

    -- What a step preserves, and a submission too, holds of every reachable scheduler.
    module _ (P : Scheduler T → Type 0) (law : IsPreserved env P)
        (submission : (s : Scheduler T) (req_id : ReqId) (prompt_ids : List Token) (max_tokens : ℕ)
            (sampling : Option SamplingParams)
          → IsValid no_lag s
          → n_live s req_id ≡ 0
          → P s
          → P (submitted env s req_id prompt_ids max_tokens sampling))
        (p0 : P s0) where
      pub Reaches-P : (s : Scheduler T) → Reaches env s0 s → P s
      Reaches-P s start = p0
      Reaches-P s (submits s1 s' req_id prompt_ids max_tokens sampling r h e) =
          let (fresh, same) = accepted s1 s req_id prompt_ids max_tokens sampling r e in
          rw same (
            submission s1 req_id prompt_ids max_tokens sampling (Reaches-IsValid s1 h) fresh
              (Reaches-P s1 h))
      Reaches-P s (steps s1 s' admission_open h e) =
          let (s2, run, _, st) =
            step_total env admission_open s1 (Reaches-IsValid s1 h) answering in
          let same : s ≡ s2 = ok-injective (sym e ∙ run) in
          rw same (Steps-P env P law admission_open s1 s2 st (Reaches-P s1 h))

-- The only reason for which a step preempts.
abbrev pub IsByAge : {T : Type 0} → Scheduler T → Type 0
IsByAge s = All (λ (e : PreemptionEvent). e.reason ≡ youngest_decoded) s.preemption_log

All-append :
    {A : Type 0} (P : A → Type 0) (xs : List A) (x : A) → All P xs → P x → All P (xs ++ x ∷ [])
All-append P [] x a p = (p, tt)
All-append P (y ∷ xs) x a p = (a.0, All-append P xs x a.1 p)

IsByAge-IsPreserved : {T L : Type 0} (env : Env T L) → IsPreserved env IsByAge
IsByAge-IsPreserved env = record {
  admits = λ s s' a p. rw a.same_log p;
  takes = λ s r t q reads v m n p. p;
  retires = λ s r table v m p. p;
  displaces = λ s x b table m p. All-append _ s.preemption_log _ p refl;
  caches = λ s kv p. p;
  records = λ s m reads same p. p;
}

module _ {T L : Type 0} (env : Env T L) (zeros : T) (num_layers num_blocks block_size : ℕ)
    (poison_on_free : Bool) (max_batch : ℕ) (eos_id : Token) where
  -- A scheduler over a new cache.
  abbrev pub fresh_scheduler : Scheduler T
  fresh_scheduler =
      init (Storage.init zeros num_layers num_blocks block_size poison_on_free) max_batch eos_id

  module _ (answering : IsAnswering env) (pos : 0 < block_size) where
    fresh_scheduler-IsValid : IsValid no_lag fresh_scheduler
    unfolding Storage.init
    fresh_scheduler-IsValid =
        init-IsValid (Storage.init zeros num_layers num_blocks block_size poison_on_free) max_batch
          eos_id (init-IsConserved zeros num_layers num_blocks block_size poison_on_free) pos refl

    fresh_scheduler-IsStreamed : IsStreamed fresh_scheduler
    unfolding init streamed
    fresh_scheduler-IsStreamed = record {
      whole = λ r h. absurd (omega arith);
      fresh = λ k e. refl;
      done = tt;
    }

    -- After any order of submissions and steps on a new scheduler with blocks of at least
    -- one token and a model that answers, whatever the admission hook, the tokens that
    -- `on_token` was handed for the id of a request in the queues, since the last end of
    -- that id, are exactly its output, there are none for an id that is not live, and at
    -- each call of `on_finish` they were the whole output.
    pub Reaches-IsStreamed : (s : Scheduler T) → Reaches env fresh_scheduler s → IsStreamed s
    Reaches-IsStreamed =
        Reaches-P env answering fresh_scheduler fresh_scheduler-IsValid IsStreamed
          (IsStreamed-IsPreserved env)
          (λ s k ps m sp v f p. submitted-IsStreamed env s k ps m sp v f p)
          fresh_scheduler-IsStreamed

    -- After any order of submissions and steps on a new scheduler with blocks of at least
    -- one token and a model that answers, every preemption in the log has the reason
    -- YOUNGEST_DECODED, so the fallback tier was not reached.
    pub Reaches-IsByAge : (s : Scheduler T) → Reaches env fresh_scheduler s → IsByAge s
    unfolding init
    Reaches-IsByAge =
        Reaches-P env answering fresh_scheduler fresh_scheduler-IsValid IsByAge
          (IsByAge-IsPreserved env) (λ s k ps m sp v f p. p) tt

    fresh_scheduler-IsAccounted : IsAccounted fresh_scheduler
    unfolding init n_finished finish_records
    fresh_scheduler-IsAccounted = record { once = λ r. ground arith; recorded = refl }

    -- After any order of submissions and steps on a new scheduler with blocks of at least
    -- one token and a model that answers, `check_invariants` of the cache does not raise;
    -- each number that was given to a request stands in one of the two queues, once, or was
    -- handed to `on_finish`, once, and no other number does; the records are those of the
    -- requests that `on_finish` was handed, in that order, with their ids, times, lengths
    -- and numbers of preemptions; as many requests are recorded, running and waiting as were
    -- accepted; and no more requests run than the batch size.
    pub Reaches-check_invariants :
        (s : Scheduler T)
        → Reaches env fresh_scheduler s
        → (check_invariants s.kv ≡ ok tt)
          × ((r : Ref)
              → count ℕ_discrete r s.running + count ℕ_discrete r s.waiting + n_finished r s.events
                ≡ indicator (dec_lt r s.seq_counter))
          × (s.metrics.requests ≡ finish_records s.events)
          × (length s.metrics.requests + length s.running + length s.waiting ≡ s.seq_counter)
          × (length s.running ≤ s.max_batch)
    Reaches-check_invariants s h =
        let v = Reaches-IsValid env answering fresh_scheduler fresh_scheduler-IsValid s h in
        let a =
          Reaches-P env answering fresh_scheduler fresh_scheduler-IsValid IsAccounted
            (IsAccounted-IsPreserved env)
            (λ s k ps m sp v f p. submitted-IsAccounted s p env k ps m sp)
            fresh_scheduler-IsAccounted s h in
        (IsConserved-check_invariants s.kv v.conserved, a.once, a.recorded, v.accounted, v.batched)
