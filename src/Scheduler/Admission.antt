-- ===== src/Scheduler/Admission.antt =====
-- The admission of one request in miniserve/scheduler.py and the invariant.
use miniserve.Base.{
  ℕ, ◌+◌, ◌-◌, ◌≤◌, ◌<◌, ◌≡◌, ◌≢◌, ◌⊎◌, refl, inl, none, List, [], ◌∷◌, ◌++◌, take, length-take,
  count, indicator, indicator_yes, indicator_no, ℕ_discrete, String_discrete, arith, ap, sym, ◌∙◌,
  length, length-append, count-append, ceil_div, ceil_div_pos,
}
use miniserve.Dict.{lookup, lookup-insert_self, lookup-insert_ne, count-keys-insert_new}
use miniserve.KvCache.Allocation.{allocated}
use miniserve.KvCache.Conservation.{allocated-IsConserved}
use miniserve.Scheduler.Sequence.{Sequence, total_len, prefill, decode}
use miniserve.Scheduler.State.{Ref, Scheduler, update, ids, n_blocks}
use miniserve.Scheduler.Step.{admitted}
use miniserve.Scheduler.Heap.{◌∈◌, update_self, update_ne, ids-update, count-ids-append}
use miniserve.Scheduler.Invariant.{IsValid, IsLive, Holds, no_lag}
use miniserve.Scheduler.Queues.{ids_ne, lookup_waiting, count-refs-le}

module _ {T : Type 0} (s : Scheduler T) (v : IsValid no_lag s) (r : Ref) (rest : List Ref)
    (head : s.waiting ≡ r ∷ rest) where
  abbrev pub need : ℕ
  need = n_blocks s (total_len (s.heap r))

  abbrev pub after_admission : Scheduler T
  after_admission = admitted s r rest (allocated s.kv (s.heap r).req_id need)

  abbrev begun : Sequence
  begun = record (s.heap r) { status = prefill }

  counted :
      (r' : Ref)
      → count ℕ_discrete r' s.waiting ≡ indicator (ℕ_discrete r r') + count ℕ_discrete r' rest
  counted r' = ap (count ℕ_discrete r') head

  pub head-mem : r ∈ s.waiting
  head-mem = omega (arith, counted r, indicator_yes (ℕ_discrete r r) refl)

  pub fresh : lookup (s.heap r).req_id s.kv.block_tables ≡ none
  fresh = lookup_waiting v r head-mem

  pub need_pos : 0 < need
  need_pos =
      ceil_div_pos s.kv.block_size v.block_pos (total_len (s.heap r))
        (omega (arith, (v.live r (omega (arith, head-mem))).prompt))

  known :
      (r' : Ref)
      → 0 < count ℕ_discrete r' (s.running ++ r ∷ []) + count ℕ_discrete r' rest
      → 0 < count ℕ_discrete r' s.running + count ℕ_discrete r' s.waiting
  known r' h = omega (arith, counted r', count-append ℕ_discrete r' s.running (r ∷ []))

  apart : (r' : Ref) → r' ∈ rest → r' ≢ r
  apart r' h e =
      let h' : r ∈ rest = rw e at h in
      absurd (omega (arith, counted r, indicator_yes (ℕ_discrete r r) refl, count-refs-le v r))

  admitted-IsLive :
      (r' : Ref)
      → 0 < count ℕ_discrete r' (s.running ++ r ∷ []) + count ℕ_discrete r' rest
      → IsLive s.kv.block_size s.kv.num_blocks 0 (update s.heap r begun r')
        × ((update s.heap r begun r').seq_no ≡ r')
        × (r' < s.seq_counter)
  admitted-IsLive r' h = elim (ℕ_discrete r' r) [
    | yes p ↦
        let l = v.live r (omega (arith, head-mem)) in
        let n = v.numbered r (omega (arith, head-mem)) in
        rw (p, update_self s.heap r begun)
          (
            record {
              prompt = l.prompt;
              worst = l.worst;
              divides = l.divides;
              unfinished = l.unfinished;
              emitted = l.emitted;
            },
            n.0,
            n.1,
          )
    | no p ↦
        rw (update_ne s.heap r begun r' p)
          (v.live r' (known r' h), (v.numbered r' (known r' h)).0, (v.numbered r' (known r' h)).1)
  ]

  module _ (fits : need ≤ length s.kv.free_blocks) where
    admitted-running :
        (r' : Ref)
        → r' ∈ s.running ++ r ∷ []
        → (((update s.heap r begun r').status ≡ prefill)
            ⊎ ((update s.heap r begun r').status ≡ decode))
          × Holds
              (allocated s.kv (s.heap r).req_id need)
              (update s.heap r begun r')
              (total_len (update s.heap r begun r') - 0)
    admitted-running r' h = elim (ℕ_discrete r' r) [
      | yes p ↦
          rw (p, update_self s.heap r begun)
            (
              inl refl,
              (
                take need s.kv.free_blocks,
                lookup-insert_self (s.heap r).req_id (take need s.kv.free_blocks) s.kv.block_tables,
                omega (arith, length-take need s.kv.free_blocks, no_lag_size),
              ),
            )
      | no p ↦
          let m : r' ∈ s.running = omega (
            arith,
            count-append ℕ_discrete r' s.running (r ∷ []),
            indicator_no (ℕ_discrete r r') (λ e. p (sym e)),
          ) in
          let (t, found, size) = v.holds r' m in
          rw (update_ne s.heap r begun r' p) (
            v.active r' m,
            (
              t,
              lookup-insert_ne (s.heap r).req_id (s.heap r').req_id (take need s.kv.free_blocks)
                    s.kv.block_tables (ids_ne v r' r (omega arith) (omega (arith, head-mem)) p)
                  ∙ found,
              size,
            ),
          )
    ]
      where
        no_lag_size : ceil_div (total_len (s.heap r) - 0) s.kv.block_size ≡ need
        no_lag_size = ap (λ (n : ℕ). ceil_div n s.kv.block_size) (omega arith)

    pub admitted-IsValid : length s.running < s.max_batch → IsValid no_lag after_admission
    admitted-IsValid room = record {
      conserved = allocated-IsConserved s.kv v.conserved (s.heap r).req_id need fresh;
      block_pos = v.block_pos;
      tables = λ k. rw (ids-update s.heap r begun (s.running ++ r ∷ []) refl) (
          omega (
            arith,
            v.tables k,
            count-ids-append s.heap k s.running (r ∷ []),
            count-keys-insert_new k (s.heap r).req_id (take need s.kv.free_blocks) s.kv.block_tables
                fresh,
          ));
      distinct = λ k.
          rw
            (
              ids-update s.heap r begun (s.running ++ r ∷ []) refl,
              ids-update s.heap r begun rest refl,
            )
            (omega (
              arith,
              v.distinct k,
              count-ids-append s.heap k s.running (r ∷ []),
              ap (λ rs. count String_discrete k (ids s.heap rs)) head,
            ));
      live = λ r' h. (admitted-IsLive r' h).0;
      numbered = λ r' h. ((admitted-IsLive r' h).1, (admitted-IsLive r' h).2);
      active = λ r' h. (admitted-running r' h).0;
      idle = λ r' h.
          rw (update_ne s.heap r begun r' (apart r' h)) (v.idle r' (omega (arith, counted r')));
      holds = λ r' h. (admitted-running r' h).1;
      batched = omega (arith, length-append s.running (r ∷ []));
      accounted = omega (arith, v.accounted, length-append s.running (r ∷ []), ap length head);
    }
