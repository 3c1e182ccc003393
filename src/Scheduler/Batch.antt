-- ===== src/Scheduler/Batch.antt =====
-- The loop over the batch of miniserve/scheduler.py, and the batch that it runs over.
use miniserve.Base.{
  ◌+◌, ◌≤◌, ◌≡◌, ◌≢◌, refl, Option, some, List, [], ◌∷◌, ite, count, indicator_yes, ℕ_discrete,
  arith, count-append, count-filter, dec_true,
}
use miniserve.Result.{ok}
use miniserve.KvCache.Storage.{ReqId}
use miniserve.Scheduler.Sequence.{is_prefill, is_decode}
use miniserve.Scheduler.State.{Ref, Env, Scheduler}
use miniserve.Scheduler.Step.{advance_all, with_status, batch}
use miniserve.Scheduler.Heap.{◌∈◌}
use miniserve.Scheduler.Invariant.{IsValid, no_lag}
use miniserve.Scheduler.Advance.{Advances, advance_total}
use miniserve.Scheduler.Frame.{InPlay, Frame, Advances-Frame}

module _ {T L : Type 0} (env : Env T L) (logits : ReqId → Option L) where
  -- A chain of rounds, one for each object of the list.
  abbrev pub Rounds : List Ref → Scheduler T → Scheduler T → Type 0
  Rounds [] s s' = s' ≡ s
  Rounds (r ∷ rs) s s' =
      (s1 : Scheduler T) × Advances env logits s r s1 × IsValid no_lag s1 × Rounds rs s1 s'

  -- What the loop needs of the objects that are left.
  pub record IsReady (rs : List Ref) (s : Scheduler T) : Type 0 where
    pub once : (r : Ref) → count ℕ_discrete r rs ≤ 1
    pub in_play : (r : Ref) → r ∈ rs → InPlay s r
    pub answered : (r : Ref) → r ∈ rs → (l : L) × (logits (s.heap r).req_id ≡ some l)

  IsReady-next :
      (r : Ref) (rs : List Ref) (s s1 : Scheduler T)
      → IsReady (r ∷ rs) s
      → Frame r s s1
      → IsReady rs s1
  IsReady-next r rs s s1 ready f = record {
    once = λ r'. omega (arith, ready.once r');
    in_play = λ r' m. f.in_play r' (apart r' m) (ready.in_play r' (omega arith));
    answered = λ r' m. rw (f.same_ids r') (ready.answered r' (omega arith));
  }
    where
      apart : (r' : Ref) → r' ∈ rs → r' ≢ r
      apart r' m e =
          let m' : r ∈ rs = rw e at m in
          absurd (omega (arith, ready.once r, indicator_yes (ℕ_discrete r r) refl))

  pub advance_all_total :
      (rs : List Ref) (s : Scheduler T)
      → IsValid no_lag s
      → IsReady rs s
      → (s' : Scheduler T) × (advance_all env logits rs s ≡ ok s')
        × IsValid no_lag s'
        × Rounds rs s s'
  unfolding advance_all
  advance_all_total [] s v ready = (s, refl, v, refl)
  advance_all_total (r ∷ rs) s v ready =
      let here : r ∈ r ∷ rs = omega (arith, indicator_yes (ℕ_discrete r r) refl) in
      let (s1, run, v1, a) =
        advance_total env logits s r v (ready.in_play r here) (ready.answered r here) in
      let (s', runs, v', rounds) =
        advance_all_total rs s1 v1 (IsReady-next r rs s s1 ready (Advances-Frame env s r s1 a)) in
      (s', rw run runs, v', (s1, a, v1, rounds))

module _ {T : Type 0} (s : Scheduler T) where
  count-parts :
      (r : Ref)
      → count ℕ_discrete r (batch s)
        ≡ ite (dec_true (is_prefill (s.heap r).status)) (count ℕ_discrete r s.running) 0
          + ite (dec_true (is_decode (s.heap r).status)) (count ℕ_discrete r s.running) 0
  count-parts r = omega (
    arith,
    count-append ℕ_discrete r (with_status is_prefill s) (with_status is_decode s),
    count-filter ℕ_discrete (λ x. dec_true (is_prefill (s.heap x).status)) r s.running,
    count-filter ℕ_discrete (λ x. dec_true (is_decode (s.heap x).status)) r s.running,
  )

  pub count-batch-le : (r : Ref) → count ℕ_discrete r (batch s) ≤ count ℕ_discrete r s.running
  count-batch-le r = ground (arith, count-parts r)

  -- Every running object of a valid scheduler is in the batch.
  pub count-batch :
      IsValid no_lag s → (r : Ref) → count ℕ_discrete r (batch s) ≡ count ℕ_discrete r s.running
  count-batch v r = ground (arith, count-parts r, v.active r)
