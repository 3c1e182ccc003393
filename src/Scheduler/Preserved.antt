-- ===== src/Scheduler/Preserved.antt =====
-- What a predicate on the scheduler of miniserve/scheduler.py needs in order to survive `step`: one law
-- for each change that a step is made of.
use miniserve.Base.{ℕ, ◌≡◌, refl, inl, inr, Bool, true, false, Option, List, [], ◌∷◌}
use miniserve.KvCache.Storage.{ReqId, BlockId, PagedKvCache}
use miniserve.KvCache.Allocation.{freed}
use miniserve.Metrics.{Metrics, record_step}
use miniserve.Scheduler.Sequence.{Sequence, Token}
use miniserve.Scheduler.State.{Ref, on_token, Env, Scheduler, update}
use miniserve.Scheduler.Step.{retired, batch}
use miniserve.Scheduler.Heap.{◌∈◌}
use miniserve.Scheduler.Invariant.{IsValid, no_lag, lag_at}
use miniserve.Scheduler.Sampling.{IsNext}
use miniserve.Scheduler.Sampled.{token-IsValid}
use miniserve.Scheduler.Outcome.{Grows, keep, extend, give_up, displace, displaced}
use miniserve.Scheduler.Advance.{Settles, retire, go_on, Advances, skip, take_token}
use miniserve.Scheduler.Admit.{Admits}
use miniserve.Scheduler.Batch.{Rounds}
use miniserve.Scheduler.Safety.{Steps, batch_logits, forwarded, with_layers-IsValid}

module _ {T L : Type 0} (env : Env T L) where
  pub record IsPreserved (P : Scheduler T → Type 0) : Type 0 where
    pub admits : (s s' : Scheduler T) → Admits s s' → P s → P s'
    pub takes :
        (s : Scheduler T) (r : Ref) (t : Token) (q : Sequence) (reads : ℕ)
        → IsValid no_lag s
        → r ∈ s.running
        → IsNext (s.heap r) t q
        → P s
        → P (record s {
          heap = update s.heap r q;
          clock_reads = reads;
          events = on_token (s.heap r).req_id t ∷ s.events;
        })
    pub retires :
        (s : Scheduler T) (r : Ref) (table : List BlockId)
        → IsValid (lag_at r) s
        → r ∈ s.running
        → P s
        → P (retired env s r (freed s.kv (s.heap r).req_id env.nan table))
    pub displaces :
        (s : Scheduler T) (x : Ref) (self_preempted : Bool) (table : List BlockId)
        → x ∈ s.running
        → P s
        → P (displaced env s x self_preempted table)
    pub caches : (s : Scheduler T) (kv : PagedKvCache T) → P s → P (record s { kv = kv })
    pub records :
        (s : Scheduler T) (m : Metrics) (reads : ℕ)
        → m.requests ≡ s.metrics.requests
        → P s
        → P (record s { metrics = m; clock_reads = reads })

  module _ (P : Scheduler T → Type 0) (law : IsPreserved P) where
    Grows-P :
        (s : Scheduler T) (r : Ref) (s' : Scheduler T)
        → r ∈ s.running
        → Grows env s r s'
        → P s
        → P s'
    Grows-P s r s' m (keep e) p = rw e p
    Grows-P s r s' m (extend table b rest e) p = rw e (law.caches s _ p)
    Grows-P s r s' m (give_up table found e) p = rw e (law.displaces s r true table m p)
    Grows-P s r s' m (displace x table freed_table b rest ne xm e) p =
        rw e (law.caches _ _ (law.displaces s x false freed_table xm p))

    Settles-P :
        (s : Scheduler T) (r : Ref) (s' : Scheduler T)
        → IsValid (lag_at r) s
        → r ∈ s.running
        → Settles env s r s'
        → P s
        → P s'
    Settles-P s r s' v m (retire table f e) p = rw e (law.retires s r table v m p)
    Settles-P s r s' v m (go_on f g) p = Grows-P s r s' m g p

    Advances-P :
        {logits : ReqId → Option L} (s : Scheduler T) (r : Ref) (s' : Scheduler T)
        → IsValid no_lag s
        → Advances env logits s r s'
        → P s
        → P s'
    Advances-P s r s' v (skip w e) p = rw e p
    Advances-P s r s' v (take_token l q reads found n settles m) p =
        Settles-P _ r s' (token-IsValid s v r m (env.argmax l) q n reads _) m settles
          (law.takes s r (env.argmax l) q reads v m n p)

    Rounds-P :
        (logits : ReqId → Option L) (rs : List Ref) (s s' : Scheduler T)
        → IsValid no_lag s
        → Rounds env logits rs s s'
        → P s
        → P s'
    Rounds-P logits [] s s' v e p = rw e p
    Rounds-P logits (r ∷ rs) s s' v (s1, a, v1, rounds) p =
        Rounds-P logits rs s1 s' v1 rounds (Advances-P s r s1 v a p)

    pub Steps-P :
        (admission_open : Scheduler T → Bool × ℕ) (s s' : Scheduler T)
        → Steps env admission_open s s'
        → P s
        → P s'
    unfolding record_step
    Steps-P admission_open s s' st p = elim st.outcome [
      | inl (_, e) ↦ rw e (law.admits s st.mid st.admission p)
      | inr (_, last, rounds, e) ↦ rw e (
          law.records last _ _ refl (
            Rounds-P (batch_logits env st.mid) (batch st.mid) (forwarded env st.mid) last
              (with_layers-IsValid st.mid st.valid _) rounds
              (law.caches st.mid _ (law.admits s st.mid st.admission p))))
    ]
