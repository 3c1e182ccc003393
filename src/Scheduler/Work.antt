-- ===== src/Scheduler/Work.antt =====
-- The tokens that the requests of miniserve/scheduler.py may still ask for.
use miniserve.Base.{
  ℕ, ◌+◌, ◌-◌, ◌≤◌, ◌<◌, ◌≡◌, ◌≢◌, refl, Bool, true, false, Option, List, [], ◌∷◌, ◌++◌, erase,
  if_pos, if_neg, count, indicator_yes, indicator_no, ℕ_discrete, arith, ap, length, length-append,
}
use miniserve.KvCache.Storage.{ReqId, BlockId}
use miniserve.KvCache.Allocation.{freed}
use miniserve.Scheduler.Sequence.{Sequence, waiting}
use miniserve.Scheduler.State.{Ref, Env, Scheduler, update}
use miniserve.Scheduler.Preemption.{requeued}
use miniserve.Scheduler.Step.{retired, completed}
use miniserve.Scheduler.Heap.{◌∈◌, update_self, update_ne}
use miniserve.Scheduler.Invariant.{IsValid, no_lag}
use miniserve.Scheduler.Outcome.{keep, extend, give_up, displace, displaced}
use miniserve.Scheduler.Advance.{Settles, retire, go_on, Advances, skip, take_token}
use miniserve.Scheduler.Admit.{Admits}

abbrev pub left : Sequence → ℕ
left q = q.max_tokens - length q.output_ids

abbrev pub budget : (Ref → Sequence) → List Ref → ℕ
budget heap [] = 0
budget heap (r ∷ rs) = left (heap r) + budget heap rs

-- What may still be generated for the requests in the queues.
abbrev pub work : {T : Type 0} → Scheduler T → ℕ
work s = budget s.heap s.running + budget s.heap s.waiting

budget-append :
    (heap : Ref → Sequence) (xs ys : List Ref)
    → budget heap (xs ++ ys) ≡ budget heap xs + budget heap ys
budget-append heap [] ys = omega arith
budget-append heap (x ∷ xs) ys = omega (arith, budget-append heap xs ys)

budget-congr :
    (heap heap' : Ref → Sequence)
    → ((r : Ref) → left (heap' r) ≡ left (heap r))
    → (rs : List Ref) → budget heap' rs ≡ budget heap rs
budget-congr heap heap' h [] = refl
budget-congr heap heap' h (r ∷ rs) = omega (arith, h r, budget-congr heap heap' h rs)

budget-erase :
    (heap : Ref → Sequence) (r : Ref) (rs : List Ref)
    → r ∈ rs
    → budget heap (erase ℕ_discrete rs r) + left (heap r) ≡ budget heap rs
budget-erase heap r [] m = absurd (omega arith)
budget-erase heap r (x ∷ rs) m = elim (ℕ_discrete x r) [
  | yes p ↦ rw (if_pos _ p, p) (omega arith)
  | no p ↦
      rw (if_neg _ p)
        (omega (arith, budget-erase heap r rs (omega (arith, indicator_no (ℕ_discrete x r) p))))
]

update-left :
    (heap : Ref → Sequence) (r : Ref) (q : Sequence)
    → left q ≡ left (heap r)
    → (r' : Ref) → left (update heap r q r') ≡ left (heap r')
update-left heap r q e r' = elim (ℕ_discrete r' r) [
  | yes p ↦ rw (p, update_self heap r q) e
  | no p ↦ rw (update_ne heap r q r' p)
]

-- One token fewer at every place of the object.
budget-update :
    (heap : Ref → Sequence) (r : Ref) (q : Sequence)
    → left q + 1 ≡ left (heap r)
    → (rs : List Ref) → budget (update heap r q) rs + count ℕ_discrete r rs ≡ budget heap rs
budget-update heap r q e [] = omega arith
budget-update heap r q e (x ∷ rs) = elim (ℕ_discrete x r) [
  | yes p ↦
      rw (p, update_self heap r q)
        (omega (arith, budget-update heap r q e rs, indicator_yes (ℕ_discrete r r) refl))
  | no p ↦
      rw (update_ne heap r q x p)
        (omega (arith, budget-update heap r q e rs, indicator_no (ℕ_discrete x r) p))
]

module _ {T L : Type 0} (env : Env T L) where
  work-displaced :
      (s : Scheduler T) (x : Ref) (b : Bool) (table : List BlockId)
      → x ∈ s.running
      → work (displaced env s x b table) ≡ work s
  work-displaced s x b table m =
      let same =
        budget-congr s.heap (update s.heap x (requeued (s.heap x)))
          (update-left s.heap x (requeued (s.heap x)) refl) in
      omega (
        arith,
        same (erase ℕ_discrete s.running x),
        same s.waiting,
        same (x ∷ []),
        budget-erase s.heap x s.running m,
      )

  work-retired-le :
      (s : Scheduler T) (r : Ref) (table : List BlockId)
      → r ∈ s.running
      → work (retired env s r (freed s.kv (s.heap r).req_id env.nan table)) ≤ work s
  work-retired-le s r table m =
      let same =
        budget-congr s.heap (update s.heap r (completed env s r))
          (update-left s.heap r (completed env s r) refl) in
      omega (
        arith,
        same (erase ℕ_discrete s.running r),
        same s.waiting,
        budget-erase s.heap r s.running m,
      )

  Settles-work :
      (s : Scheduler T) (r : Ref) (s' : Scheduler T)
      → r ∈ s.running
      → Settles env s r s'
      → work s' ≤ work s
  Settles-work s r s' m (retire table f e) = rw e (work-retired-le s r table m)
  Settles-work s r s' m (go_on f (keep e)) = rw e (omega arith)
  Settles-work s r s' m (go_on f (extend table b rest e)) = rw e (omega arith)
  Settles-work s r s' m (go_on f (give_up table found e)) =
      rw e (omega (arith, work-displaced s r true table m))
  Settles-work s r s' m (go_on f (displace x table freed_table b rest ne xm e)) =
      rw e (omega (arith, work-displaced s x false freed_table xm))

  -- A round at an object that runs takes one token off the work; any other takes none.
  pub Advances-work :
      {logits : ReqId → Option L} (s : Scheduler T) (r : Ref) (s' : Scheduler T)
      → IsValid no_lag s
      → Advances env logits s r s'
      → (work s' ≤ work s) × ((s.heap r).status ≢ waiting → work s' < work s)
  Advances-work s r s' v (skip w e) = (rw e (omega arith), λ ne. absurd (ne w))
  Advances-work s r s' v (take_token l q reads found n settles m) =
      let fewer : work s' < work s = omega (
        arith,
        Settles-work _ r s' m settles,
        budget-update s.heap r q one s.running,
        budget-update s.heap r q one s.waiting,
      ) in
      (omega (arith, fewer), λ ne. fewer)
    where
      one : left q + 1 ≡ left (s.heap r)
      one = omega (
        arith,
        n.same_max,
        ap length n.output,
        length-append (s.heap r).output_ids (env.argmax l ∷ []),
        (v.live r (omega arith)).unfinished,
      )

module _ {T : Type 0} (s s' : Scheduler T) where
  -- Admission does no work.
  pub Admits-work : Admits s s' → work s' ≡ work s
  Admits-work a =
      let same : (rs : List Ref) → budget s'.heap rs ≡ budget s.heap rs =
        budget-congr s.heap s'.heap same_left in
      omega (
        arith,
        same s'.running,
        same s'.waiting,
        ap (budget s.heap) a.queue,
        ap (budget s.heap) a.batch,
        budget-append s.heap a.front s'.waiting,
        budget-append s.heap s.running a.front,
      )
    where
      same_left : (r : Ref) → left (s'.heap r) ≡ left (s.heap r)
      same_left r = omega (arith, (a.objects r).same_max, ap length (a.objects r).same_output)

-- Every request in the queues may still ask for a token.
length-le-budget :
    (heap : Ref → Sequence) (rs : List Ref)
    → ((r : Ref) → r ∈ rs → 0 < left (heap r))
    → length rs ≤ budget heap rs
length-le-budget heap [] h = omega arith
length-le-budget heap (r ∷ rs) h = omega (
  arith,
  h r (omega (arith, indicator_yes (ℕ_discrete r r) refl)),
  length-le-budget heap rs (λ r' m. h r' (omega arith)),
)

pub length-le-work :
    {T : Type 0} (s : Scheduler T) → IsValid no_lag s → length s.running + length s.waiting ≤ work s
length-le-work s v = omega (
  arith,
  length-le-budget s.heap s.running (λ r m. omega (arith, (v.live r (omega arith)).unfinished)),
  length-le-budget s.heap s.waiting (λ r m. omega (arith, (v.live r (omega arith)).unfinished)),
)
