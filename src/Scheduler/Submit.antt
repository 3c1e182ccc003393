-- ===== src/Scheduler/Submit.antt =====
-- `submit` of miniserve/scheduler.py.
use miniserve.Base.{
  ℕ, suc, ◌+◌, Bool, true, false, Option, none, List, [], ◌∷◌, ◌++◌, ite, ltb, ◌||◌, if◌then◌else◌,
  length, String_discrete,
}
use mathlib.Core.Option
use miniserve.Result.{value_error, capacity_error, Result, ok, raise, ◌>>=◌}
use miniserve.KvCache.Storage.{ReqId}
use miniserve.Scheduler.Sequence.{Token, Sequence, SamplingParams, default_sampling, waiting}
use miniserve.Scheduler.State.{Ref, Env, Scheduler, update, blocks_for}

-- `any(s.req_id == req_id for s in queue)`
unfoldable pub has_id : ReqId → (Ref → Sequence) → List Ref → Bool
has_id req_id heap [] = false
has_id req_id heap (r ∷ rs) =
    ite (String_discrete (heap r).req_id req_id) true (has_id req_id heap rs)

module _ {T L : Type 0} (env : Env T L) where
  abbrev pub new_sequence : Scheduler T → ReqId → List Token → ℕ → Option SamplingParams → Sequence
  new_sequence s req_id prompt_ids max_tokens sampling = record {
    req_id = req_id;
    prompt_ids = prompt_ids;
    max_tokens = max_tokens;
    sampling = Option.get_or sampling default_sampling;
    arrival_time = env.clock s.clock_reads;
    seq_no = s.seq_counter;
    output_ids = [];
    status = waiting;
    first_token_time = none;
    completion_time = none;
    emitted_count = 0;
    preempted_count = 0;
  }

  -- The scheduler after a request has been accepted.
  abbrev pub submitted : Scheduler T → ReqId → List Token → ℕ → Option SamplingParams → Scheduler T
  submitted s req_id prompt_ids max_tokens sampling = record s {
    heap = update s.heap s.seq_counter (new_sequence s req_id prompt_ids max_tokens sampling);
    waiting = s.waiting ++ s.seq_counter ∷ [];
    seq_counter = suc s.seq_counter;
    clock_reads = suc s.clock_reads;
  }

  -- The guards are in the order of the source.
  unfoldable pub submit :
      Scheduler T → ReqId → List Token → ℕ → Option SamplingParams → Result (Scheduler T × Ref)
  submit s req_id prompt_ids max_tokens sampling =
      if ltb (length prompt_ids) 1
      then raise value_error
      else if ltb max_tokens 1
      then raise value_error
      else if has_id req_id s.heap s.waiting || has_id req_id s.heap s.running
      then raise value_error
      else (do
        worst ← blocks_for s (length prompt_ids + max_tokens)
        if ltb s.kv.num_blocks worst
            then raise capacity_error
            else ok (submitted s req_id prompt_ids max_tokens sampling, s.seq_counter))
