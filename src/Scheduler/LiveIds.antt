-- ===== src/Scheduler/LiveIds.antt =====
-- How many queued requests of miniserve/scheduler.py have an id, through each change of a step.
use miniserve.Base.{
  ℕ, ◌+◌, ◌<◌, ◌≡◌, refl, Bool, Option, List, [], ◌∷◌, erase, count, indicator, ℕ_discrete,
  String_discrete, arith, ap,
}
use miniserve.KvCache.Storage.{ReqId, BlockId}
use miniserve.Scheduler.Sequence.{Sequence, Token, SamplingParams}
use miniserve.Scheduler.State.{Ref, Env, Scheduler, update, ids}
use miniserve.Scheduler.Preemption.{requeued}
use miniserve.Scheduler.Submit.{new_sequence, submitted}
use miniserve.Scheduler.Heap.{
  ◌∈◌, update_self, ids-update, ids-update_absent, count-ids-append, count-ids-erase,
  count-le-count-ids,
}
use miniserve.Scheduler.Invariant.{IsValid, no_lag}
use miniserve.Scheduler.Outcome.{displaced}
use miniserve.Scheduler.Admit.{Admits}
use miniserve.Scheduler.Accept.{absent-running, absent-waiting}
use miniserve.Scheduler.Streams.{n_live, ids-congr}

module _ {T : Type 0} (s : Scheduler T) where
  pub Admits-n_live : (s' : Scheduler T) → Admits s s' → (k : ReqId) → n_live s k ≡ n_live s' k
  Admits-n_live s' a k =
      rw
        (
          ids-congr s.heap s'.heap (λ r. (a.objects r).same_id) s'.running,
          ids-congr s.heap s'.heap (λ r. (a.objects r).same_id) s'.waiting,
        )
        (omega (
          arith,
          ap (λ rs. count String_discrete k (ids s.heap rs)) a.queue,
          ap (λ rs. count String_discrete k (ids s.heap rs)) a.batch,
          count-ids-append s.heap k s.running a.front,
          count-ids-append s.heap k a.front s'.waiting,
        ))

  -- An object that is written keeps its id.
  pub update-n_live :
      (r : Ref) (q : Sequence) (k : ReqId)
      → q.req_id ≡ (s.heap r).req_id
      → n_live (record s { heap = update s.heap r q }) k ≡ n_live s k
  update-n_live r q k e = rw (ids-update s.heap r q s.running e, ids-update s.heap r q s.waiting e)

  -- The id of a running object is live.
  pub running-n_live : (r : Ref) → r ∈ s.running → 0 < n_live s (s.heap r).req_id
  running-n_live r m = omega (arith, count-le-count-ids s.heap r s.running)

  pub erase-n_live :
      (r : Ref) (q : Sequence) (k : ReqId)
      → q.req_id ≡ (s.heap r).req_id
      → r ∈ s.running
      → n_live (record s { heap = update s.heap r q; running = erase ℕ_discrete s.running r }) k
          + indicator (String_discrete (s.heap r).req_id k)
        ≡ n_live s k
  erase-n_live r q k e m =
      rw (ids-update s.heap r q (erase ℕ_discrete s.running r) e, ids-update s.heap r q s.waiting e)
        (omega (arith, count-ids-erase s.heap k r s.running m))

  -- A preemption moves an id from one queue to the other.
  pub displaced-n_live :
      {L : Type 0} (env : Env T L) (x : Ref) (self_preempted : Bool) (table : List BlockId)
      (k : ReqId)
      → x ∈ s.running
      → n_live (displaced env s x self_preempted table) k ≡ n_live s k
  displaced-n_live env x self_preempted table k m = omega (
    arith,
    erase-n_live x (requeued (s.heap x)) k refl m,
    ap (λ (q : Sequence). indicator (String_discrete q.req_id k))
        (update_self s.heap x (requeued (s.heap x))),
  )

  pub submitted-n_live :
      {L : Type 0} (env : Env T L) (req_id : ReqId) (prompt_ids : List Token) (max_tokens : ℕ)
      (sampling : Option SamplingParams) (k : ReqId)
      → IsValid no_lag s
      → n_live (submitted env s req_id prompt_ids max_tokens sampling) k
        ≡ n_live s k + indicator (String_discrete req_id k)
  submitted-n_live env req_id prompt_ids max_tokens sampling k v =
      let new = new_sequence env s req_id prompt_ids max_tokens sampling in
      rw
        (
          ids-update_absent s.heap s.seq_counter new s.running
              (absent-running env s req_id prompt_ids max_tokens sampling v),
          count-ids-append (update s.heap s.seq_counter new) k s.waiting (s.seq_counter ∷ []),
          ids-update_absent s.heap s.seq_counter new s.waiting
              (absent-waiting env s req_id prompt_ids max_tokens sampling v),
          update_self s.heap s.seq_counter new,
        )
        (omega arith)
