-- ===== src/Scheduler/Requeue.antt =====
-- `_preempt` of miniserve/scheduler.py and the invariant.
use miniserve.Base.{
  ℕ, ◌+◌, ◌-◌, ◌<◌, ◌≡◌, ◌≢◌, refl, Bool, some, List, ◌∷◌, erase, count, indicator_no, ℕ_discrete,
  arith, sym, count-erase-le, length-erase,
}
use miniserve.Dict.{lookup, count-keys-delete}
use miniserve.KvCache.Storage.{BlockId}
use miniserve.KvCache.Allocation.{freed}
use miniserve.KvCache.Conservation.{freed-IsConserved}
use miniserve.Scheduler.Sequence.{Sequence, total_len, waiting, PreemptionReason}
use miniserve.Scheduler.State.{Ref, Env, Scheduler, update}
use miniserve.Scheduler.Preemption.{requeued, preempted}
use miniserve.Scheduler.Heap.{◌∈◌, update_self, update_ne, ids-update, count-ids-erase}
use miniserve.Scheduler.Invariant.{IsValid, IsLive}
use miniserve.Scheduler.Queues.{ids_ne, ne_of_mem-erase}
use miniserve.Scheduler.Retire.{freed-Holds}

module _ {T L : Type 0} (env : Env T L) (s : Scheduler T) {lag : Ref → ℕ} (v : IsValid lag s)
    (x : Ref) (m : x ∈ s.running) (table : List BlockId)
    (found : lookup (s.heap x).req_id s.kv.block_tables ≡ some table) (reason : PreemptionReason)
    (self_preempted : Bool) where
  abbrev after_preempt : Scheduler T
  after_preempt = preempted s x reason self_preempted (freed s.kv (s.heap x).req_id env.nan table)

  abbrev victim : Sequence
  victim = requeued (s.heap x)

  -- An object that is still running, or was waiting, is another one and as it was.
  kept :
      (r : Ref)
      → 0 < count ℕ_discrete r (erase ℕ_discrete s.running x) + count ℕ_discrete r s.waiting
      → (r ≢ x) × (update s.heap x victim r ≡ s.heap r)
  kept r h = let ne = ne_of_mem-erase v x m r h in (ne, update_ne s.heap x victim r ne)

  preempted-IsLive :
      (r : Ref)
      → 0 < count ℕ_discrete r (erase ℕ_discrete s.running x) + count ℕ_discrete r (x ∷ s.waiting)
      → IsLive s.kv.block_size s.kv.num_blocks (lag r) (update s.heap x victim r)
        × ((update s.heap x victim r).seq_no ≡ r)
        × (r < s.seq_counter)
  preempted-IsLive r h = elim (ℕ_discrete r x) [
    | yes p ↦
        let l = v.live x (omega arith) in
        let n = v.numbered x (omega arith) in
        rw (p, update_self s.heap x victim)
          (
            record {
              prompt = l.prompt;
              worst = l.worst;
              divides = l.divides;
              unfinished = l.unfinished;
              emitted = l.emitted;
            },
            n.0,
            n.1,
          )
    | no p ↦
        let k : 0 < count ℕ_discrete r s.running + count ℕ_discrete r s.waiting = omega (
          arith,
          indicator_no (ℕ_discrete x r) (λ e. p (sym e)),
          count-erase-le ℕ_discrete r x s.running,
        ) in
        rw (update_ne s.heap x victim r p) (v.live r k, (v.numbered r k).0, (v.numbered r k).1)
  ]

  preempted-idle : (r : Ref) → r ∈ x ∷ s.waiting → (update s.heap x victim r).status ≡ waiting
  preempted-idle r h = elim (ℕ_discrete r x) [
    | yes p ↦ rw (p, update_self s.heap x victim)
    | no p ↦
        rw (update_ne s.heap x victim r p)
          (v.idle r (omega (arith, indicator_no (ℕ_discrete x r) (λ e. p (sym e)))))
  ]

  pub preempted-IsValid : IsValid lag after_preempt
  preempted-IsValid = record {
    conserved = freed-IsConserved s.kv v.conserved (s.heap x).req_id env.nan table found;
    block_pos = v.block_pos;
    tables = λ k. rw (ids-update s.heap x victim (erase ℕ_discrete s.running x) refl) (
        omega (
          arith,
          v.tables k,
          count-ids-erase s.heap k x s.running m,
          count-keys-delete k (s.heap x).req_id s.kv.block_tables table found,
        ));
    distinct = λ k.
        rw
          (
            ids-update s.heap x victim (erase ℕ_discrete s.running x) refl,
            ids-update s.heap x victim s.waiting refl,
            update_self s.heap x victim,
          )
          (omega (arith, v.distinct k, count-ids-erase s.heap k x s.running m));
    live = λ r h. (preempted-IsLive r h).0;
    numbered = λ r h. ((preempted-IsLive r h).1, (preempted-IsLive r h).2);
    active = λ r h.
        rw ((kept r (omega arith)).1)
          (v.active r (omega (arith, count-erase-le ℕ_discrete r x s.running)));
    idle = preempted-idle;
    holds = λ r h.
        let (ne, same) = kept r (omega arith) in
        let m' : r ∈ s.running = omega (arith, count-erase-le ℕ_discrete r x s.running) in
        rw same (
          freed-Holds s.kv env.nan (s.heap x) (s.heap r) table (total_len (s.heap r) - lag r)
            (ids_ne v r x (omega arith) (omega arith) ne) (v.holds r m'));
    batched = omega (arith, v.batched, length-erase ℕ_discrete x s.running m);
    accounted = omega (arith, v.accounted, length-erase ℕ_discrete x s.running m);
  }
