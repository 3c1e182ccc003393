-- ===== src/Scheduler/Sampled.antt =====
-- A sampled token of miniserve/scheduler.py and the invariant.
use miniserve.Base.{
  ℕ, ◌+◌, ◌-◌, ◌<◌, ◌≡◌, ◌≢◌, ◌⊎◌, refl, inr, List, [], ◌∷◌, count, indicator_yes, indicator_no,
  ℕ_discrete, arith, ap, ◌∙◌, length, length-append,
}
use miniserve.Scheduler.Sequence.{Sequence, Token, total_len, prefill, decode}
use miniserve.Scheduler.State.{Ref, Event, Scheduler, update}
use miniserve.Scheduler.Heap.{◌∈◌, update_self, update_ne, ids-update}
use miniserve.Scheduler.Invariant.{IsValid, IsLive, Holds, lag_at, no_lag}
use miniserve.Scheduler.Queues.{count-refs-le}
use miniserve.Scheduler.Sampling.{IsNext}

module _ {T : Type 0} (s : Scheduler T) (v : IsValid no_lag s) (r : Ref) (m : r ∈ s.running)
    (t : Token) (q : Sequence) (n : IsNext (s.heap r) t q) (reads : ℕ) (events : List Event) where
  abbrev after_token : Scheduler T
  after_token = record s { heap = update s.heap r q; clock_reads = reads; events = events }

  longer : length q.output_ids ≡ length (s.heap r).output_ids + 1
  longer = omega (arith, ap length n.output, length-append (s.heap r).output_ids (t ∷ []))

  token-IsLive :
      (r' : Ref)
      → 0 < count ℕ_discrete r' s.running + count ℕ_discrete r' s.waiting
      → IsLive s.kv.block_size s.kv.num_blocks (lag_at r r') (update s.heap r q r')
        × ((update s.heap r q r').seq_no ≡ r')
        × (r' < s.seq_counter)
  token-IsLive r' h = elim (ℕ_discrete r' r) [
    | yes p ↦
        let l = v.live r (omega arith) in
        let k = v.numbered r (omega arith) in
        rw (p, update_self s.heap r q)
          (
            record {
              prompt = rw n.same_prompt l.prompt;
              worst = rw (n.same_prompt, n.same_max) l.worst;
              divides = rw (n.same_prompt, n.same_max) l.divides;
              unfinished =
                  omega
                    (arith, l.unfinished, longer, n.same_max, indicator_yes (ℕ_discrete r r) refl);
              emitted = n.streamed;
            },
            n.same_number ∙ k.0,
            k.1,
          )
    | no p ↦
        rw (update_ne s.heap r q r' p, indicator_no (ℕ_discrete r' r) p)
          (v.live r' h, (v.numbered r' h).0, (v.numbered r' h).1)
  ]

  token-running :
      (r' : Ref)
      → r' ∈ s.running
      → (((update s.heap r q r').status ≡ prefill) ⊎ ((update s.heap r q r').status ≡ decode))
        × Holds s.kv (update s.heap r q r') (total_len (update s.heap r q r') - lag_at r r')
  token-running r' h = elim (ℕ_discrete r' r) [
    | yes p ↦
        let (table, found, size) = v.holds r m in
        let same : total_len q - lag_at r r ≡ total_len (s.heap r) - 0 =
          omega (arith, longer, ap length n.same_prompt, indicator_yes (ℕ_discrete r r) refl) in
        rw (p, update_self s.heap r q) (inr n.decoding, (table, rw n.same_id found, rw same size))
    | no p ↦
        rw (update_ne s.heap r q r' p, indicator_no (ℕ_discrete r' r) p)
          (v.active r' h, v.holds r' h)
  ]

  apart : (r' : Ref) → r' ∈ s.waiting → r' ≢ r
  apart r' h e = let h' : r ∈ s.waiting = rw e at h in absurd (omega (arith, count-refs-le v r))

  pub token-IsValid : IsValid (lag_at r) after_token
  token-IsValid = record {
    conserved = v.conserved;
    block_pos = v.block_pos;
    tables = λ k. rw (ids-update s.heap r q s.running n.same_id) (v.tables k);
    distinct = λ k.
        rw (ids-update s.heap r q s.running n.same_id, ids-update s.heap r q s.waiting n.same_id)
          (v.distinct k);
    live = λ r' h. (token-IsLive r' h).0;
    numbered = λ r' h. ((token-IsLive r' h).1, (token-IsLive r' h).2);
    active = λ r' h. (token-running r' h).0;
    idle = λ r' h. rw (update_ne s.heap r q r' (apart r' h)) (v.idle r' h);
    holds = λ r' h. (token-running r' h).1;
    batched = v.batched;
    accounted = v.accounted;
  }
