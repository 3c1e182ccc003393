-- ===== src/Scheduler/Retire.antt =====
-- `_finish` of miniserve/scheduler.py and the invariant.
use miniserve.Base.{
  ℕ, ◌-◌, ◌≡◌, ◌≢◌, refl, some, List, [], ◌∷◌, erase, indicator_no, ℕ_discrete, arith, ◌∙◌,
  count-erase-le, length-erase, length-append,
}
use miniserve.Dict.{lookup, lookup-delete_ne, count-keys-delete}
use miniserve.KvCache.Storage.{BlockId, PagedKvCache}
use miniserve.KvCache.Allocation.{freed}
use miniserve.KvCache.Conservation.{freed-IsConserved}
use miniserve.Metrics.{record_request, request_record}
use miniserve.Scheduler.Sequence.{Sequence, total_len}
use miniserve.Scheduler.State.{Ref, Env, Scheduler}
use miniserve.Scheduler.Step.{completed, retired}
use miniserve.Scheduler.Heap.{◌∈◌, update_ne, ids-update, count-ids-erase}
use miniserve.Scheduler.Invariant.{IsValid, Holds, lag_at, no_lag}
use miniserve.Scheduler.Queues.{ids_ne, ne_of_mem-erase, mem_of_mem-erase}

-- Another request's blocks stay where they are.
pub freed-Holds :
    {T : Type 0} (kv : PagedKvCache T) (nan : T) (q q' : Sequence) (table : List BlockId) (n : ℕ)
    → q'.req_id ≢ q.req_id
    → Holds kv q' n
    → Holds (freed kv q.req_id nan table) q' n
freed-Holds kv nan q q' table n ne (t, found, len) =
    (t, lookup-delete_ne q.req_id q'.req_id kv.block_tables ne ∙ found, len)

module _ {T L : Type 0} (env : Env T L) (s : Scheduler T) (r : Ref) (v : IsValid (lag_at r) s)
    (m : r ∈ s.running) (table : List BlockId)
    (found : lookup (s.heap r).req_id s.kv.block_tables ≡ some table) where
  pub retired-IsValid :
      IsValid no_lag (retired env s r (freed s.kv (s.heap r).req_id env.nan table))
  unfolding record_request
  retired-IsValid = record {
    conserved = freed-IsConserved s.kv v.conserved (s.heap r).req_id env.nan table found;
    block_pos = v.block_pos;
    tables = λ k. rw (ids-update s.heap r (completed env s r) (erase ℕ_discrete s.running r) refl) (
        omega (
          arith,
          v.tables k,
          count-ids-erase s.heap k r s.running m,
          count-keys-delete k (s.heap r).req_id s.kv.block_tables table found,
        ));
    distinct = λ k.
        rw
          (
            ids-update s.heap r (completed env s r) (erase ℕ_discrete s.running r) refl,
            ids-update s.heap r (completed env s r) s.waiting refl,
          )
          (omega (arith, v.distinct k, count-ids-erase s.heap k r s.running m));
    live = λ r' h.
        rw
          (
            update_ne s.heap r (completed env s r) r' (ne_of_mem-erase v r m r' h),
            ← indicator_no (ℕ_discrete r' r) (ne_of_mem-erase v r m r' h),
          )
          (v.live r' (mem_of_mem-erase v r m r' h));
    numbered = λ r' h.
        rw (update_ne s.heap r (completed env s r) r' (ne_of_mem-erase v r m r' h))
          (v.numbered r' (mem_of_mem-erase v r m r' h));
    active = λ r' h.
        rw (update_ne s.heap r (completed env s r) r' (ne_of_mem-erase v r m r' (omega arith)))
          (v.active r' (omega (arith, count-erase-le ℕ_discrete r' r s.running)));
    idle = λ r' h.
        rw (update_ne s.heap r (completed env s r) r' (ne_of_mem-erase v r m r' (omega arith)))
          (v.idle r' h);
    holds = λ r' h.
        let ne = ne_of_mem-erase v r m r' (omega arith) in
        let m' : r' ∈ s.running = omega (arith, count-erase-le ℕ_discrete r' r s.running) in
        rw (update_ne s.heap r (completed env s r) r' ne) (
          freed-Holds s.kv env.nan (s.heap r) (s.heap r') table (total_len (s.heap r') - 0)
            (ids_ne v r' r (omega arith) (omega arith) ne)
            (rw (indicator_no (ℕ_discrete r' r) ne) at (v.holds r' m')));
    batched = omega (arith, v.batched, length-erase ℕ_discrete r s.running m);
    accounted = omega (
      arith,
      v.accounted,
      length-erase ℕ_discrete r s.running m,
      length-append s.metrics.requests (request_record (completed env s r) ∷ []),
    );
  }
