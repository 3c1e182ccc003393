-- ===== src/Scheduler/Admit.antt =====
-- The admission loop of miniserve/scheduler.py, its order and why it stops.
use miniserve.Base.{
  ◌+◌, ◌≤◌, ◌<◌, ◌≡◌, refl, inl, inr, List, [], ◌∷◌, ◌++◌, arith, ℕ_discrete, ap, sym, ◌∙◌, length,
  ltb, Bool-cases, ceil_div_mono,
}
use mathlib.Core.List.{append-nil, append_assoc}
use miniserve.Result.{ok}
use miniserve.KvCache.Storage.{PagedKvCache, free_count}
use miniserve.KvCache.Allocation.{allocate_ok}
use miniserve.Scheduler.Sequence.{Sequence, total_len, prefill}
use miniserve.Scheduler.State.{Ref, Env, Scheduler, update, n_blocks, blocks_for}
use miniserve.Scheduler.Step.{admit, admitted}
use miniserve.Scheduler.Heap.{update_self, update_ne}
use miniserve.Scheduler.Invariant.{IsValid, IsLive-blocks_for, no_lag}
use miniserve.Scheduler.Admission.{
  head-mem, need, after_admission, fresh, need_pos, admitted-IsValid,
}

-- An object but for its status.
pub record IsSameButStatus (q q' : Sequence) : Type 0 where
  pub same_id : q'.req_id ≡ q.req_id
  pub same_prompt : q'.prompt_ids ≡ q.prompt_ids
  pub same_max : q'.max_tokens ≡ q.max_tokens
  pub same_output : q'.output_ids ≡ q.output_ids

-- Why the loop stops: the queue is empty, the batch is full, or the head does not fit.
pub data Stops {T : Type 0} (s : Scheduler T) : Type 0 where
  no_more : s.waiting ≡ [] → Stops s
  full_batch : s.max_batch ≤ length s.running → Stops s
  no_room :
      (r : Ref) (rest : List Ref)
      → s.waiting ≡ r ∷ rest
      → length s.kv.free_blocks < n_blocks s (total_len (s.heap r) + 1)
      → Stops s

-- What an admission loop does: the admitted requests are a front of the queue, and go to the end of the
-- batch in the same order.
pub record Admits {T : Type 0} (s s' : Scheduler T) : Type 0 where
  pub front : List Ref
  pub queue : s.waiting ≡ front ++ s'.waiting
  pub batch : s'.running ≡ s.running ++ front
  pub objects : (r : Ref) → IsSameButStatus (s.heap r) (s'.heap r)
  pub same_events : s'.events ≡ s.events
  pub same_eos : s'.eos_id ≡ s.eos_id
  pub same_max : s'.max_batch ≡ s.max_batch
  pub same_log : s'.preemption_log ≡ s.preemption_log
  pub same_requests : s'.metrics.requests ≡ s.metrics.requests
  pub same_counter : s'.seq_counter ≡ s.seq_counter

IsSameButStatus-trans :
    (q q1 q2 : Sequence) → IsSameButStatus q q1 → IsSameButStatus q1 q2 → IsSameButStatus q q2
IsSameButStatus-trans q q1 q2 a b = record {
  same_id = b.same_id ∙ a.same_id;
  same_prompt = b.same_prompt ∙ a.same_prompt;
  same_max = b.same_max ∙ a.same_max;
  same_output = b.same_output ∙ a.same_output;
}

update-IsSameButStatus :
    (heap : Ref → Sequence) (r r' : Ref)
    → IsSameButStatus (heap r') (update heap r (record (heap r) { status = prefill }) r')
update-IsSameButStatus heap r r' = elim (ℕ_discrete r' r) [
  | yes p ↦
      rw (p, update_self heap r (record (heap r) { status = prefill }))
        (record { same_id = refl; same_prompt = refl; same_max = refl; same_output = refl })
  | no p ↦
      rw (update_ne heap r (record (heap r) { status = prefill }) r' p)
        (record { same_id = refl; same_prompt = refl; same_max = refl; same_output = refl })
]

module _ {T : Type 0} (s : Scheduler T) where
  pub Admits-refl : Admits s s
  Admits-refl = record {
    front = [];
    queue = refl;
    batch = sym (append-nil s.running);
    objects =
        λ r. record { same_id = refl; same_prompt = refl; same_max = refl; same_output = refl };
    same_events = refl;
    same_eos = refl;
    same_max = refl;
    same_log = refl;
    same_requests = refl;
    same_counter = refl;
  }

  Admits-cons :
      (r : Ref) (rest : List Ref) (kv : PagedKvCache T) (s' : Scheduler T)
      → s.waiting ≡ r ∷ rest
      → Admits (admitted s r rest kv) s'
      → Admits s s'
  Admits-cons r rest kv s' e a = record {
    front = r ∷ a.front;
    queue = e ∙ ap (◌∷◌ r) a.queue;
    batch = a.batch ∙ append_assoc s.running (r ∷ []) a.front;
    objects = λ r'.
        IsSameButStatus-trans (s.heap r') _ (s'.heap r') (update-IsSameButStatus s.heap r r')
          (a.objects r');
    same_events = a.same_events;
    same_eos = a.same_eos;
    same_max = a.same_max;
    same_log = a.same_log;
    same_requests = a.same_requests;
    same_counter = a.same_counter;
  }

module _ {T L : Type 0} (env : Env T L) where
  abbrev pub AdmitsWell : List Ref → Scheduler T → Type 0
  AdmitsWell w s =
      (s' : Scheduler T) × (admit env w s ≡ ok s') × IsValid no_lag s' × Admits s s' × Stops s'

  -- The loop stops before the head.
  stop_at :
      (r : Ref) (rest : List Ref) (s : Scheduler T)
      → IsValid no_lag s
      → admit env (r ∷ rest) s ≡ ok s
      → Stops s
      → AdmitsWell (r ∷ rest) s
  stop_at r rest s v run stop = (s, run, v, Admits-refl s, stop)

  -- On a valid scheduler the admission loop returns and leaves a valid scheduler; what it
  -- admits is a front of the waiting queue, which goes to the end of the running list in the
  -- same order; and it stops because the queue is empty, the batch is full, or the head does
  -- not fit with one more token.
  pub admit_total :
      (w : List Ref) (s : Scheduler T) → IsValid no_lag s → s.waiting ≡ w → AdmitsWell w s
  unfolding admit free_count
  admit_total [] s v e = (s, refl, v, Admits-refl s, no_more e)
  admit_total (r ∷ rest) s v e = elim (Bool-cases (ltb (length s.running) s.max_batch)) [
    | inr full ↦ stop_at r rest s v (rw full) (full_batch (ground arith))
    | inl room ↦
        let live = v.live r (omega (arith, head-mem s v r rest e)) in
        let wanted : blocks_for s (total_len (s.heap r) + 1)
            ≡ ok (n_blocks s (total_len (s.heap r) + 1)) =
          IsLive-blocks_for s 0 _ (s.heap r) v.block_pos live (omega (arith, live.unfinished)) in
        let needed : blocks_for s (total_len (s.heap r)) ≡ ok (n_blocks s (total_len (s.heap r))) =
          IsLive-blocks_for s 0 _ (s.heap r) v.block_pos live (omega (arith, live.unfinished)) in
        elim (Bool-cases (ltb (length s.kv.free_blocks) (n_blocks s (total_len (s.heap r) + 1)))) [
          | inl tight ↦
              stop_at r rest s v (rw (room, wanted, tight)) (no_room r rest e (ground arith))
          | inr fits ↦
              let enough : need s v r rest e ≤ length s.kv.free_blocks = ground (
                arith,
                ceil_div_mono s.kv.block_size v.block_pos (total_len (s.heap r))
                    (total_len (s.heap r) + 1),
              ) in
              let v1 : IsValid no_lag (after_admission s v r rest e) =
                admitted-IsValid s v r rest e enough (ground arith) in
              let (s', run, v', a, stop) =
                admit_total rest (after_admission s v r rest e) v1 refl in
              (
                s',
                rw
                    (
                      room,
                      wanted,
                      fits,
                      needed,
                      allocate_ok s.kv (s.heap r).req_id (need s v r rest e) (fresh s v r rest e)
                          (need_pos s v r rest e) enough,
                    )
                    run,
                v',
                Admits-cons s r rest _ s' e a,
                stop,
              )
        ]
  ]
