-- ===== src/Scheduler/Streaming.antt =====
-- The streams of miniserve/scheduler.py through a step.
use miniserve.Base.{
  ℕ, ◌+◌, ◌<◌, ◌≡◌, ◌≢◌, refl, Bool, List, [], ◌∷◌, ◌++◌, erase, if_pos, if_neg, count,
  indicator_no, ℕ_discrete, String_discrete, arith, ap, sym, ◌∙◌, count-append, count-erase-le,
}
use miniserve.KvCache.Storage.{ReqId, BlockId}
use miniserve.KvCache.Allocation.{freed}
use miniserve.Scheduler.Sequence.{Sequence, Token}
use miniserve.Scheduler.State.{Ref, on_token, Env, Scheduler, update, ids}
use miniserve.Scheduler.Preemption.{requeued}
use miniserve.Scheduler.Step.{retired, completed}
use miniserve.Scheduler.Heap.{
  ◌∈◌, update_self, update_ne, ids-update, count-ids-append, count-ids-erase, count-le-count-ids,
}
use miniserve.Scheduler.Invariant.{IsValid, no_lag, lag_at}
use miniserve.Scheduler.Queues.{ids_ne, ne_of_mem-erase, mem_of_mem-erase}
use miniserve.Scheduler.Sampling.{IsNext}
use miniserve.Scheduler.Outcome.{displaced}
use miniserve.Scheduler.Admit.{Admits}
use miniserve.Scheduler.Preserved.{IsPreserved}
use miniserve.Scheduler.Streams.{
  streamed, Queued, n_live, IsStreamed, own_token, other_token, other_finish, ids-congr,
}

module _ {T : Type 0} (s : Scheduler T) (p : IsStreamed s) where
  -- A live id is that of no request that is not there.
  Queued-n_live : (r : Ref) → Queued s r → 0 < n_live s (s.heap r).req_id
  Queued-n_live r h =
      omega (arith, count-le-count-ids s.heap r s.running, count-le-count-ids s.heap r s.waiting)

  Admits-IsStreamed : (s' : Scheduler T) → Admits s s' → IsStreamed s'
  Admits-IsStreamed s' a = record {
    whole = λ r h.
        rw (a.same_events, (a.objects r).same_id, (a.objects r).same_output)
          (p.whole r (
            omega (
              arith,
              ap (count ℕ_discrete r) a.queue,
              ap (count ℕ_discrete r) a.batch,
              count-append ℕ_discrete r s.running a.front,
              count-append ℕ_discrete r a.front s'.waiting,
            )));
    fresh = λ k e. rw a.same_events (p.fresh k (same_live k ∙ e));
    done = rw a.same_events p.done;
  }
    where
      same_live : (k : ReqId) → n_live s k ≡ n_live s' k
      same_live k =
          rw
            (
              ids-congr s.heap s'.heap (λ r. (a.objects r).same_id) s'.running,
              ids-congr s.heap s'.heap (λ r. (a.objects r).same_id) s'.waiting,
            )
            (omega (
              arith,
              ap (λ rs. count String_discrete k (ids s.heap rs)) a.queue,
              ap (λ rs. count String_discrete k (ids s.heap rs)) a.batch,
              count-ids-append s.heap k s.running a.front,
              count-ids-append s.heap k a.front s'.waiting,
            ))

  module _ (v : IsValid no_lag s) (r : Ref) (m : r ∈ s.running) (t : Token) (q : Sequence)
      (n : IsNext (s.heap r) t q) (reads : ℕ) where
    abbrev taken : Scheduler T
    taken = record s {
      heap = update s.heap r q;
      clock_reads = reads;
      events = on_token (s.heap r).req_id t ∷ s.events;
    }

    taken-whole :
        (r' : Ref)
        → Queued s r'
        → streamed (update s.heap r q r').req_id taken.events ≡ (update s.heap r q r').output_ids
    taken-whole r' h = elim (ℕ_discrete r' r) [
      | yes e ↦
          rw (e, update_self s.heap r q, n.same_id, n.output)
            (own_token (s.heap r).req_id t s.events
              ∙ ap (λ ts. ts ++ t ∷ []) (p.whole r (omega arith)))
      | no ne ↦ rw (update_ne s.heap r q r' ne) (
          other_token (s.heap r').req_id (s.heap r).req_id t s.events
            (ids_ne v r r' (omega arith) h (λ e. ne (sym e)))
          ∙ p.whole r' h)
    ]

    taken-fresh : (k : ReqId) → n_live taken k ≡ 0 → streamed k taken.events ≡ []
    taken-fresh k e =
        let none_live : n_live s k ≡ 0 =
          rw (ids-update s.heap r q s.running n.same_id, ids-update s.heap r q s.waiting n.same_id)
            at e in
        other_token k (s.heap r).req_id t s.events (ne none_live) ∙ p.fresh k none_live
      where
        ne : n_live s k ≡ 0 → (s.heap r).req_id ≢ k
        ne none_live same =
            absurd (omega (arith, Queued-n_live r (omega arith), ap (n_live s) same))

    takes-IsStreamed : IsStreamed taken
    takes-IsStreamed = record { whole = taken-whole; fresh = taken-fresh; done = p.done }

  module _ {L : Type 0} (env : Env T L) where
    module _ (r : Ref) (table : List BlockId) (v : IsValid (lag_at r) s) (m : r ∈ s.running) where
      abbrev left_out : Scheduler T
      left_out = retired env s r (freed s.kv (s.heap r).req_id env.nan table)

      left_out-fresh : (k : ReqId) → n_live left_out k ≡ 0 → streamed k left_out.events ≡ []
      unfolding streamed
      left_out-fresh k e = elim (String_discrete (s.heap r).req_id k) [
        | yes same ↦ if_pos (String_discrete (s.heap r).req_id k) same _ _
        | no other ↦
            let e' : count String_discrete k (ids s.heap (erase ℕ_discrete s.running r))
                  + count String_discrete k (ids s.heap s.waiting)
                ≡ 0 =
              rw
                (
                  ids-update s.heap r (completed env s r) (erase ℕ_discrete s.running r) refl,
                  ids-update s.heap r (completed env s r) s.waiting refl,
                )
                at e in
            if_neg (String_discrete (s.heap r).req_id k) other _ _
            ∙ p.fresh k (
                omega (
                  arith,
                  count-ids-erase s.heap k r s.running m,
                  indicator_no (String_discrete (s.heap r).req_id k) other,
                ))
      ]

      left_out-whole :
          (r' : Ref)
          → Queued left_out r'
          → streamed (update s.heap r (completed env s r) r').req_id left_out.events
            ≡ (update s.heap r (completed env s r) r').output_ids
      left_out-whole r' h =
          let ne : r' ≢ r = ne_of_mem-erase v r m r' h in
          rw (update_ne s.heap r (completed env s r) r' ne) (
            other_finish (s.heap r').req_id (completed env s r) s.events
              (ids_ne v r r' (omega arith) (mem_of_mem-erase v r m r' h) (λ e. ne (sym e)))
            ∙ p.whole r' (mem_of_mem-erase v r m r' h))

      retires-IsStreamed : IsStreamed left_out
      retires-IsStreamed = record {
        whole = left_out-whole;
        fresh = left_out-fresh;
        done = (p.whole r (omega arith), p.done);
      }

    module _ (x : Ref) (self_preempted : Bool) (table : List BlockId) (m : x ∈ s.running) where
      abbrev moved : Ref → Sequence
      moved = update s.heap x (requeued (s.heap x))

      moved_same :
          (r : Ref)
          → ((moved r).req_id ≡ (s.heap r).req_id) × ((moved r).output_ids ≡ (s.heap r).output_ids)
      moved_same r = elim (ℕ_discrete r x) [
        | yes e ↦ rw (e, update_self s.heap x (requeued (s.heap x))) (refl, refl)
        | no ne ↦ rw (update_ne s.heap x (requeued (s.heap x)) r ne) (refl, refl)
      ]

      moved-Queued : (r : Ref) → Queued (displaced env s x self_preempted table) r → Queued s r
      moved-Queued r h = elim (ℕ_discrete x r) [
        | yes e ↦ rw (← e) (omega arith)
        | no ne ↦
            omega (arith, indicator_no (ℕ_discrete x r) ne, count-erase-le ℕ_discrete r x s.running)
      ]

      displaces-IsStreamed : IsStreamed (displaced env s x self_preempted table)
      displaces-IsStreamed = record {
        whole = λ r h. rw ((moved_same r).0, (moved_same r).1) (p.whole r (moved-Queued r h));
        fresh = λ k e. p.fresh k (
            omega (
              arith,
              e,
              ap (count String_discrete k)
                  (ids-congr s.heap moved (λ r. (moved_same r).0) (erase ℕ_discrete s.running x)),
              ap (count String_discrete k)
                  (ids-congr s.heap moved (λ r. (moved_same r).0) (x ∷ s.waiting)),
              count-ids-erase s.heap k x s.running m,
            ));
        done = p.done;
      }

-- A step keeps the streams whole.
pub IsStreamed-IsPreserved : {T L : Type 0} (env : Env T L) → IsPreserved env IsStreamed
IsStreamed-IsPreserved env = record {
  admits = λ s s' a p. Admits-IsStreamed s p s' a;
  takes = λ s r t q reads v m n p. takes-IsStreamed s p v r m t q n reads;
  retires = λ s r table v m p. retires-IsStreamed s p env r table v m;
  displaces = λ s x b table m p. displaces-IsStreamed s p env x b table m;
  caches = λ s kv p. record { whole = p.whole; fresh = p.fresh; done = p.done };
  records = λ s m reads same p. record { whole = p.whole; fresh = p.fresh; done = p.done };
}
