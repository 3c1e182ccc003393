-- ===== src/Scheduler/Frame.antt =====
-- What a round of miniserve/scheduler.py's loop leaves alone.
use miniserve.Base.{
  ℕ, ◌≡◌, ◌≢◌, ◌⊎◌, refl, inr, Bool, true, false, Option, List, ℕ_discrete, arith, ◌∙◌,
  count-erase_ne,
}
use miniserve.KvCache.Storage.{ReqId, BlockId}
use miniserve.KvCache.Allocation.{freed}
use miniserve.Scheduler.Sequence.{Sequence, waiting}
use miniserve.Scheduler.State.{Ref, Event, Env, Scheduler, update}
use miniserve.Scheduler.Preemption.{requeued}
use miniserve.Scheduler.Step.{retired, completed}
use miniserve.Scheduler.Heap.{◌∈◌, update_self, update_ne}
use miniserve.Scheduler.Outcome.{Grows, keep, extend, give_up, displace, displaced, extended}
use miniserve.Scheduler.Advance.{Settles, retire, go_on, Advances, skip, take_token}

abbrev pub InPlay : {T : Type 0} → Scheduler T → Ref → Type 0
InPlay s r = (r ∈ s.running) ⊎ ((s.heap r).status ≡ waiting)

pub record Frame {T : Type 0} (r : Ref) (s s' : Scheduler T) : Type 0 where
  pub same_ids : (r' : Ref) → (s'.heap r').req_id ≡ (s.heap r').req_id
  pub in_play : (r' : Ref) → r' ≢ r → InPlay s r' → InPlay s' r'
  pub same_blocks : s'.kv.num_blocks ≡ s.kv.num_blocks
  pub same_size : s'.kv.block_size ≡ s.kv.block_size
  pub same_batch : s'.max_batch ≡ s.max_batch
  pub same_eos : s'.eos_id ≡ s.eos_id
  pub same_counter : s'.seq_counter ≡ s.seq_counter

Frame-refl : {T : Type 0} (r : Ref) (s : Scheduler T) → Frame r s s
Frame-refl r s = record {
  same_ids = λ r'. refl;
  in_play = λ r' ne p. p;
  same_blocks = refl;
  same_size = refl;
  same_batch = refl;
  same_eos = refl;
  same_counter = refl;
}

Frame-trans :
    {T : Type 0} (r : Ref) (s s1 s2 : Scheduler T) → Frame r s s1 → Frame r s1 s2 → Frame r s s2
Frame-trans r s s1 s2 f g = record {
  same_ids = λ r'. g.same_ids r' ∙ f.same_ids r';
  in_play = λ r' ne p. g.in_play r' ne (f.in_play r' ne p);
  same_blocks = g.same_blocks ∙ f.same_blocks;
  same_size = g.same_size ∙ f.same_size;
  same_batch = g.same_batch ∙ f.same_batch;
  same_eos = g.same_eos ∙ f.same_eos;
  same_counter = g.same_counter ∙ f.same_counter;
}

update-req_id :
    (heap : Ref → Sequence) (r : Ref) (q : Sequence) (r' : Ref)
    → q.req_id ≡ (heap r).req_id
    → (update heap r q r').req_id ≡ (heap r').req_id
unfolding update
update-req_id heap r q r' e = ground arith

module _ {T : Type 0} (s : Scheduler T) where
  -- An object gets a token.
  Frame-token :
      (r : Ref) (q : Sequence) (reads : ℕ) (events : List Event)
      → q.req_id ≡ (s.heap r).req_id
      → Frame r s (record s { heap = update s.heap r q; clock_reads = reads; events = events })
  Frame-token r q reads events e = record {
    same_ids = λ r'. update-req_id s.heap r q r' e;
    in_play = λ r' ne p. rw (update_ne s.heap r q r' ne) p;
    same_blocks = refl;
    same_size = refl;
    same_batch = refl;
    same_eos = refl;
    same_counter = refl;
  }

  module _ {L : Type 0} (env : Env T L) where
    Frame-retired :
        (r : Ref) (table : List BlockId)
        → Frame r s (retired env s r (freed s.kv (s.heap r).req_id env.nan table))
    Frame-retired r table = record {
      same_ids = λ r'. update-req_id s.heap r (completed env s r) r' refl;
      in_play = λ r' ne p.
          rw
            (
              update_ne s.heap r (completed env s r) r' ne,
              count-erase_ne ℕ_discrete r' r s.running ne,
            )
            p;
      same_blocks = refl;
      same_size = refl;
      same_batch = refl;
      same_eos = refl;
      same_counter = refl;
    }

    displaced-InPlay :
        (x : Ref) (self_preempted : Bool) (table : List BlockId) (r' : Ref)
        → InPlay s r'
        → InPlay (displaced env s x self_preempted table) r'
    displaced-InPlay x self_preempted table r' p = elim (ℕ_discrete r' x) [
      | yes e ↦ inr (rw (e, update_self s.heap x (requeued (s.heap x))) refl)
      | no ne ↦
          rw
            (
              update_ne s.heap x (requeued (s.heap x)) r' ne,
              count-erase_ne ℕ_discrete r' x s.running ne,
            )
            p
    ]

    Frame-displaced :
        (r x : Ref) (self_preempted : Bool) (table : List BlockId)
        → Frame r s (displaced env s x self_preempted table)
    Frame-displaced r x self_preempted table = record {
      same_ids = λ r'. update-req_id s.heap x (requeued (s.heap x)) r' refl;
      in_play = λ r' ne p. displaced-InPlay x self_preempted table r' p;
      same_blocks = refl;
      same_size = refl;
      same_batch = refl;
      same_eos = refl;
      same_counter = refl;
    }

    Frame-extended :
        (r : Ref) (table : List BlockId) (b : BlockId) (rest : List BlockId)
        → Frame r s (extended env s r table b rest)
    Frame-extended r table b rest = record {
      same_ids = λ r'. refl;
      in_play = λ r' ne p. p;
      same_blocks = refl;
      same_size = refl;
      same_batch = refl;
      same_eos = refl;
      same_counter = refl;
    }

module _ {T L : Type 0} (env : Env T L) where
  Grows-Frame : (s : Scheduler T) (r : Ref) (s' : Scheduler T) → Grows env s r s' → Frame r s s'
  Grows-Frame s r s' (keep e) = rw e (Frame-refl r s)
  Grows-Frame s r s' (extend table b rest e) = rw e (Frame-extended s env r table b rest)
  Grows-Frame s r s' (give_up table found e) = rw e (Frame-displaced s env r r true table)
  Grows-Frame s r s' (displace x table freed_table b rest ne xm e) = rw e (
      Frame-trans r s (displaced env s x false freed_table) _
        (Frame-displaced s env r x false freed_table)
        (Frame-extended (displaced env s x false freed_table) env r table b rest))

  Settles-Frame : (s : Scheduler T) (r : Ref) (s' : Scheduler T) → Settles env s r s' → Frame r s s'
  Settles-Frame s r s' (retire table f e) = rw e (Frame-retired s env r table)
  Settles-Frame s r s' (go_on f g) = Grows-Frame s r s' g

  pub Advances-Frame :
      {logits : ReqId → Option L} (s : Scheduler T) (r : Ref) (s' : Scheduler T)
      → Advances env logits s r s'
      → Frame r s s'
  Advances-Frame s r s' (skip w e) = rw e (Frame-refl r s)
  Advances-Frame s r s' (take_token l q reads found n settles m) =
      Frame-trans r s _ s' (Frame-token s r q reads _ n.same_id) (Settles-Frame _ r s' settles)
