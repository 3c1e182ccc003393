-- ===== src/Scheduler/Preemption.antt =====
-- `_make_room` and `_preempt` of miniserve/scheduler.py.
use miniserve.Base.{
  suc, Bool, List, [], ◌∷◌, ◌++◌, filter, erase, ltb, ◌==◌, if◌then◌else◌, length, dec_true,
  ℕ_discrete,
}
use miniserve.Result.{value_error, Result, ok, raise, ◌>>=◌}
use miniserve.KvCache.Storage.{PagedKvCache, free}
use miniserve.Scheduler.Sequence.{
  Sequence, PreemptionReason, youngest_decoded, all_fresh_fallback, waiting,
}
use miniserve.Scheduler.State.{Ref, Env, Scheduler, update}

-- `max(queue, key=lambda s: s.seq_no)`: the first of the greatest; none for an empty queue, where
-- Python raises ValueError.
unfoldable pub youngest_from : (Ref → Sequence) → Ref → List Ref → Ref
youngest_from heap best [] = best
youngest_from heap best (r ∷ rs) =
    youngest_from heap (if ltb (heap best).seq_no (heap r).seq_no then r else best) rs

unfoldable pub youngest : (Ref → Sequence) → List Ref → Result Ref
youngest heap [] = raise value_error
youngest heap (r ∷ rs) = ok (youngest_from heap r rs)

-- `bool(s.output_ids)`
abbrev pub has_output : Sequence → Bool
has_output q = ltb 0 (length q.output_ids)

abbrev pub decoded : (Ref → Sequence) → List Ref → List Ref
decoded heap = filter (λ r. dec_true (has_output (heap r)))

-- The two tiers: the youngest that has produced a token, else the youngest.
unfoldable pub choose_victim : (Ref → Sequence) → List Ref → Result (Ref × PreemptionReason)
choose_victim heap running = elim (decoded heap running) [
  | [] ↦ do r ← youngest heap running; ok (r, all_fresh_fallback)
  | d ∷ ds ↦ ok (youngest_from heap d ds, youngest_decoded)
]

abbrev pub requeued : Sequence → Sequence
requeued q = record q { status = waiting; preempted_count = suc q.preempted_count }

-- The scheduler after `_preempt`, whose call of `kv.free` has left the cache `kv`.
abbrev pub preempted :
    {T : Type 0} → Scheduler T → Ref → PreemptionReason → Bool → PagedKvCache T → Scheduler T
preempted s victim reason self_preempted kv = record s {
  kv = kv;
  heap = update s.heap victim (requeued (s.heap victim));
  running = erase ℕ_discrete s.running victim;
  waiting = victim ∷ s.waiting;
  preemptions_total = suc s.preemptions_total;
  preemption_log =
      s.preemption_log
      ++ record {
        req_id = (s.heap victim).req_id;
        reason = reason;
        self_preempted = self_preempted;
      }
        ∷ [];
}

module _ {T L : Type 0} (env : Env T L) where
  unfoldable pub preempt : Scheduler T → Ref → PreemptionReason → Bool → Result (Scheduler T)
  preempt s victim reason self_preempted = do
    kv ← free env.nan s.kv (s.heap victim).req_id
    ok (preempted s victim reason self_preempted kv)

  unfoldable pub make_room : Scheduler T → Ref → Result (Scheduler T)
  make_room s requester = do
    (victim, reason) ← choose_victim s.heap s.running
    preempt s victim reason (victim == requester)
