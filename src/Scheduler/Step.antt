-- ===== src/Scheduler/Step.antt =====
-- `step` and `_finish` of miniserve/scheduler.py. The admission hook is an argument: it says whether
-- admission is open, and how many readings of the clock there have been after it.
use miniserve.Base.{
  ℕ, zero, suc, ◌+◌, ◌-◌, Bool, Option, none, some, List, [], ◌∷◌, ◌++◌, map, filter, erase, ltb,
  if◌then◌else◌, length, get_elem?, dec_true, dec_lt, ℕ_discrete,
}
use miniserve.Result.{key_error, runtime_error, Result, ok, raise, ◌>>=◌}
use miniserve.Dict.{lookup}
use miniserve.KvCache.Storage.{
  ReqId, PagedKvCache, free_count, used_count, allocate, append_block, free,
}
use miniserve.Metrics.{record_step, record_request}
use miniserve.Scheduler.Sequence.{
  Status, prefill, decode, finished, Time, Token, Sequence, total_len, is_finished, is_waiting,
  is_prefill, is_decode,
}
use miniserve.Scheduler.State.{
  Ref, Event, on_token, on_finish, Env, Scheduler, update, blocks_for, read_clock,
}
use miniserve.Scheduler.Preemption.{make_room}

abbrev pub or_key_error {ℓ} : {A : Type ℓ} → Option A → Result A
or_key_error none = raise key_error
or_key_error (some a) = ok a

abbrev pub sum : List ℕ → ℕ
sum [] = 0
sum (n ∷ ns) = n + sum ns

-- The token loop: `n` rounds, each of which hands one token to `on_token`.
unfoldable pub emit : ℕ → Sequence → List Event → Sequence × List Event
emit zero q events = (q, events)
emit (suc n) q events = elim (get_elem? q.output_ids q.emitted_count) [
  | none ↦ (q, events)
  | some token ↦
      emit n (record q { emitted_count = suc q.emitted_count }) (on_token q.req_id token ∷ events)
]

-- The scheduler after the head `r` of the queue, with `rest` behind it, has been admitted.
abbrev pub admitted : {T : Type 0} → Scheduler T → Ref → List Ref → PagedKvCache T → Scheduler T
admitted s r rest kv = record s {
  kv = kv;
  waiting = rest;
  heap = update s.heap r (record (s.heap r) { status = prefill });
  running = s.running ++ r ∷ [];
}

abbrev pub append_token : Sequence → Token → Sequence
append_token q token = record q { output_ids = q.output_ids ++ token ∷ [] }

abbrev pub with_status : {T : Type 0} → (Status → Bool) → Scheduler T → List Ref
with_status test s = filter (λ r. dec_true (test (s.heap r).status)) s.running

abbrev pub fresh_tokens : {T : Type 0} → Scheduler T → ℕ
fresh_tokens s = sum (
    map (λ r. total_len (s.heap r))
      (filter (λ r. ℕ_discrete (s.heap r).preempted_count 0) (with_status is_prefill s)))

abbrev pub recompute_tokens : {T : Type 0} → Scheduler T → ℕ
recompute_tokens s = sum (
    map (λ r. total_len (s.heap r))
      (filter (λ r. dec_lt 0 (s.heap r).preempted_count) (with_status is_prefill s)))

abbrev pub batch : {T : Type 0} → Scheduler T → List Ref
batch s = with_status is_prefill s ++ with_status is_decode s

module _ {T L : Type 0} (env : Env T L) where
  -- The admission loop, over the waiting queue.
  unfoldable pub admit : List Ref → Scheduler T → Result (Scheduler T)
  admit [] s = ok s
  admit (r ∷ rest) s =
      if ltb (length s.running) s.max_batch
      then (do
        wanted ← blocks_for s (total_len (s.heap r) + 1)
        if ltb (free_count s.kv) wanted then ok s else (do
          n ← blocks_for s (total_len (s.heap r))
          (kv, _) ← allocate s.kv (s.heap r).req_id n
          admit rest (admitted s r rest kv)))
      else ok s

  -- The first token ever sets the time of the first token; a resumed prefill keeps it. The object
  -- comes back with the number of readings of the clock after it.
  unfoldable pub start_decode : ℕ → Sequence → Sequence × ℕ
  start_decode reads q =
      if is_prefill q.status
      then elim q.first_token_time [
        | none ↦
            (record q { first_token_time = some (env.clock reads); status = decode }, suc reads)
        | some t ↦ (record q { status = decode }, reads)
      ]
      else (q, reads)

  -- The scheduler after the object `r` has got its next token and has streamed it.
  unfoldable pub sampled : Scheduler T → Ref → Token → Scheduler T
  sampled s r token =
      let (started, reads) = start_decode s.clock_reads (s.heap r) in
      let grown = append_token started token in
      let (q, events) = emit (length grown.output_ids - grown.emitted_count) grown s.events in
      record s { heap = update s.heap r q; clock_reads = reads; events = events }

  abbrev pub completed : Scheduler T → Ref → Sequence
  completed s r = record (s.heap r) {
    completion_time = some (env.clock s.clock_reads);
    status = finished;
  }

  -- The scheduler after `_finish`, whose call of `kv.free` has left the cache `kv`.
  abbrev pub retired : Scheduler T → Ref → PagedKvCache T → Scheduler T
  retired s r kv = record s {
    kv = kv;
    heap = update s.heap r (completed s r);
    running = erase ℕ_discrete s.running r;
    metrics = record_request s.metrics (completed s r);
    clock_reads = suc s.clock_reads;
    events = on_finish (completed s r) ∷ s.events;
  }

  unfoldable pub finish : Scheduler T → Ref → Result (Scheduler T)
  finish s r = do kv ← free env.nan s.kv (s.heap r).req_id; ok (retired s r kv)

  -- After `make_room`: the requester may have been the victim; else its block must be there.
  unfoldable pub retry_grow : Scheduler T → Ref → Result (Scheduler T)
  retry_grow s r = if is_waiting (s.heap r).status then ok s else do
    (kv, got) ← append_block s.kv (s.heap r).req_id
    if got then ok (record s { kv = kv }) else raise runtime_error

  unfoldable pub grow : Scheduler T → Ref → Result (Scheduler T)
  grow s r = do
    n ← blocks_for s (total_len (s.heap r))
    table ← or_key_error (lookup (s.heap r).req_id s.kv.block_tables)
    if ltb (length table) n
        then (do
          (kv, got) ← append_block s.kv (s.heap r).req_id
          if got
              then ok (record s { kv = kv })
              else (do s' ← make_room env (record s { kv = kv }) r; retry_grow s' r))
        else ok s

  -- Retire or grow, once the token is there.
  unfoldable pub settle : Scheduler T → Ref → Result (Scheduler T)
  settle s r = if is_finished (s.heap r) s.eos_id then finish s r else grow s r

  -- The body of the loop over `prefill + decode`.
  unfoldable pub advance : (ReqId → Option L) → Scheduler T → Ref → Result (Scheduler T)
  advance logits s r =
      if is_waiting (s.heap r).status
      then ok s
      else do l ← or_key_error (logits (s.heap r).req_id); settle (sampled s r (env.argmax l)) r

  unfoldable pub advance_all : (ReqId → Option L) → List Ref → Scheduler T → Result (Scheduler T)
  advance_all logits [] s = ok s
  advance_all logits (r ∷ rs) s = do s' ← advance logits s r; advance_all logits rs s'

  -- The record of a step that began at `t_start` with the batch of `before`, and ended in `s`.
  abbrev pub measured : Time → Scheduler T → Scheduler T → Scheduler T
  measured t_start before s = record s {
    metrics = record_step s.metrics (record {
      t_start = t_start;
      n_prefill = length (with_status is_prefill before);
      n_decode = length (with_status is_decode before);
      n_prefill_tokens_fresh = fresh_tokens before;
      n_prefill_tokens_recompute = recompute_tokens before;
      n_decode_tokens = length (with_status is_decode before);
      kv_used = used_count s.kv;
      kv_free = free_count s.kv;
      step_latency_s = env.clock s.clock_reads - t_start;
    });
    clock_reads = suc s.clock_reads;
  }

  -- Phases 2 to 4 of `step`, and its record.
  unfoldable pub run_batch : Time → Scheduler T → Result (Scheduler T)
  run_batch t_start s =
      let (logits, layers) = env.forward (map s.heap (batch s)) s.kv in
      do
        s' ← advance_all logits (batch s) (record s { kv = record s.kv { layers = layers } })
        ok (measured t_start s s')

  unfoldable pub step : (Scheduler T → Bool × ℕ) → Scheduler T → Result (Scheduler T)
  step admission_open s =
      let (open_now, reads) = admission_open (read_clock s) in
      do
        s' ←
            (if open_now
              then admit s.waiting (record s { clock_reads = reads })
              else ok (record s { clock_reads = reads }))
        if ltb 0 (length s'.running) then run_batch (env.clock s.clock_reads) s' else ok s'
