-- ===== src/Scheduler/Progress.antt =====
-- The progress of a step of miniserve/scheduler.py.
use miniserve.Base.{
  ◌⊎◌, inl, inr, ℕ, ◌+◌, ◌≤◌, ◌<◌, ◌≡◌, ◌≢◌, refl, inl, inr, Bool, true, Option, List, [], ◌∷◌,
  count, indicator_yes, ℕ_discrete, String_discrete, arith, ap, ◌∙◌, length, length-append,
  ceil_div_mono, List-cases, count-le-length, length-map, dec_lt,
}
use miniserve.Result.{ok}
use miniserve.Dict.{keys}
use miniserve.KvCache.Storage.{ReqId, BlockId, held}
use miniserve.Scheduler.Sequence.{waiting, total_len}
use miniserve.Scheduler.State.{Ref, Env, Scheduler, ids, read_clock, n_blocks}
use miniserve.Scheduler.Step.{batch, step}
use miniserve.Scheduler.Heap.{◌∈◌}
use miniserve.Scheduler.Invariant.{IsValid, IsLive, no_lag}
use miniserve.Scheduler.Admit.{Stops, no_more, full_batch, no_room}
use miniserve.Scheduler.Batch.{Rounds, count-batch}
use miniserve.Scheduler.Safety.{
  IsAnswering, Steps, step_total, forwarded, batch_logits, with_layers-IsValid,
}
use miniserve.Scheduler.Frame.{Advances-Frame}
use miniserve.Scheduler.Work.{work, Advances-work, Admits-work}

held-nil : (tables : List (ReqId × List BlockId)) → length (keys tables) ≡ 0 → held tables ≡ []
unfolding held
held-nil [] e = refl
held-nil (t ∷ ts) e = absurd (omega arith)

keys-empty : (ks : List ReqId) → ((k : ReqId) → count String_discrete k ks ≡ 0) → length ks ≡ 0
keys-empty [] h = refl
keys-empty (k ∷ ks) h = absurd (omega (arith, h k, indicator_yes (String_discrete k k) refl))

module _ {T : Type 0} (s : Scheduler T) (v : IsValid no_lag s) where
  -- With no request running, every block is free.
  all_free : length s.running ≡ 0 → length s.kv.free_blocks ≡ s.kv.num_blocks
  all_free e = omega (
    arith,
    v.conserved.total,
    ap length (held-nil s.kv.block_tables (keys-empty (keys s.kv.block_tables) no_key)),
  )
    where
      no_key : (k : ReqId) → count String_discrete k (keys s.kv.block_tables) ≡ 0
      no_key k = omega (
        arith,
        v.tables k,
        count-le-length String_discrete k (ids s.heap s.running),
        length-map (λ r. (s.heap r).req_id) s.running,
      )

  -- So the head of the queue fits.
  head_fits :
      (r : Ref) (rest : List Ref)
      → length s.running ≡ 0
      → s.waiting ≡ r ∷ rest
      → n_blocks s (total_len (s.heap r) + 1) ≤ length s.kv.free_blocks
  head_fits r rest e head = omega (
    arith,
    all_free e,
    live.worst,
    ceil_div_mono s.kv.block_size v.block_pos (total_len (s.heap r) + 1)
        (length (s.heap r).prompt_ids + (s.heap r).max_tokens) (omega (arith, live.unfinished)),
  )
    where
      live : IsLive s.kv.block_size s.kv.num_blocks 0 (s.heap r)
      live =
          v.live r
            (omega (arith, ap (count ℕ_discrete r) head, indicator_yes (ℕ_discrete r r) refl))

  Stops-runs :
      0 < s.max_batch → 0 < length s.running + length s.waiting → Stops s → 0 < length s.running
  Stops-runs pos some_request (no_more e) = omega (arith, ap length e)
  Stops-runs pos some_request (full_batch full) = omega arith
  Stops-runs pos some_request (no_room r rest head tight) = elim (dec_lt 0 (length s.running)) [
    | yes p ↦ p
    | no none_runs ↦ absurd (omega (arith, head_fits r rest (omega arith) head))
  ]

module _ {T L : Type 0} (env : Env T L) where
  Rounds-work :
      (logits : ReqId → Option L) (rs : List Ref) (s s' : Scheduler T)
      → IsValid no_lag s
      → Rounds env logits rs s s'
      → work s' ≤ work s
  Rounds-work logits [] s s' v e = rw e (omega arith)
  Rounds-work logits (r ∷ rs) s s' v (s1, a, v1, rounds) =
      omega (arith, (Advances-work env s r s1 v a).0, Rounds-work logits rs s1 s' v1 rounds)

  -- The first round takes a token.
  Rounds-work-lt :
      (logits : ReqId → Option L) (rs : List Ref) (s s' : Scheduler T)
      → IsValid no_lag s
      → ((r : Ref) → r ∈ rs → (s.heap r).status ≢ waiting)
      → 0 < length rs
      → Rounds env logits rs s s'
      → work s' < work s
  Rounds-work-lt logits [] s s' v runs h e = absurd (omega arith)
  Rounds-work-lt logits (r ∷ rs) s s' v runs h (s1, a, v1, rounds) = omega (
    arith,
    (Advances-work env s r s1 v a).1 (runs r (omega (arith, indicator_yes (ℕ_discrete r r) refl))),
    Rounds-work logits rs s1 s' v1 rounds,
  )

  Rounds-max_batch :
      (logits : ReqId → Option L) (rs : List Ref) (s s' : Scheduler T)
      → Rounds env logits rs s s'
      → s'.max_batch ≡ s.max_batch
  Rounds-max_batch logits [] s s' e = ap (λ (z : Scheduler T). z.max_batch) e
  Rounds-max_batch logits (r ∷ rs) s s' (s1, a, v1, rounds) =
      Rounds-max_batch logits rs s1 s' rounds ∙ (Advances-Frame env s r s1 a).same_batch

  batch-status :
      (s : Scheduler T) → IsValid no_lag s → (r : Ref) → r ∈ batch s → (s.heap r).status ≢ waiting
  batch-status s v r m w = ground (arith, v.active r, count-batch s v r)

  batch_nonempty :
      (s : Scheduler T) → IsValid no_lag s → 0 < length s.running → 0 < length (batch s)
  batch_nonempty s v h = elim (List-cases s.running) [
    | inl e ↦ absurd (omega (arith, ap length e))
    | inr (r, rs, e) ↦ omega (
      arith,
      count-batch s v r,
      count-le-length ℕ_discrete r (batch s),
      ap (count ℕ_discrete r) e,
      indicator_yes (ℕ_discrete r r) refl,
    )
  ]

  module _ (admission_open : Scheduler T → Bool × ℕ) (s s' : Scheduler T)
      (st : Steps env admission_open s s') where
    run-work : 0 < length st.mid.running → work s' < work s
    run-work h = elim st.outcome [
      | inl (e, _) ↦ absurd (omega arith)
      | inr (_, last, rounds, e) ↦ rw e (
          omega (
            arith,
            Rounds-work-lt (batch_logits env st.mid) (batch st.mid) (forwarded env st.mid) last
                (with_layers-IsValid st.mid st.valid _) (batch-status st.mid st.valid)
                (batch_nonempty st.mid st.valid h) rounds,
            Admits-work s st.mid st.admission,
          ))
    ]

    pub Steps-max_batch : s'.max_batch ≡ s.max_batch
    Steps-max_batch = elim st.outcome [
      | inl (_, e) ↦ ap (λ (z : Scheduler T). z.max_batch) e ∙ st.admission.same_max
      | inr (_, last, rounds, e) ↦
          ap (λ (z : Scheduler T). z.max_batch) e
          ∙ Rounds-max_batch (batch_logits env st.mid) (batch st.mid) (forwarded env st.mid) last
              rounds
          ∙ st.admission.same_max
    ]

    -- A request in the queues is in the batch or behind it after the admission.
    same_requests :
        length s.running + length s.waiting ≡ length st.mid.running + length st.mid.waiting
    same_requests = omega (
      arith,
      ap length st.admission.queue,
      ap length st.admission.batch,
      length-append s.running st.admission.front,
      length-append st.admission.front st.mid.waiting,
    )

    pub Steps-progress :
        0 < s.max_batch
        → 0 < length s.running + length s.waiting
        → (0 < length s.running) ⊎ ((admission_open (read_clock s)).0 ≡ true)
        → work s' < work s
    Steps-progress pos some_request (inl some_run) =
        run-work
          (omega (arith, ap length st.admission.batch, length-append s.running st.admission.front))
    Steps-progress pos some_request (inr is_open) = run-work (
        Stops-runs st.mid st.valid (omega (arith, st.admission.same_max))
          (omega (arith, same_requests)) (st.opened is_open))

  -- From a valid scheduler that has a request and a batch size of at least one, with a model
  -- that answers, and with a sequence that runs or admission open, `step` returns, leaves a
  -- valid scheduler and the batch size, and the number of tokens still to ask for is smaller.
  pub step_progress :
      (admission_open : Scheduler T → Bool × ℕ) (s : Scheduler T)
      → IsValid no_lag s
      → IsAnswering env
      → 0 < s.max_batch
      → 0 < length s.running + length s.waiting
      → (0 < length s.running) ⊎ ((admission_open (read_clock s)).0 ≡ true)
      → (s' : Scheduler T) × (step env admission_open s ≡ ok s')
        × IsValid no_lag s'
        × (work s' < work s)
        × (s'.max_batch ≡ s.max_batch)
  step_progress admission_open s v answering pos some_request goes =
      let (s', run, v', st) = step_total env admission_open s v answering in
      (
        s',
        run,
        v',
        Steps-progress admission_open s s' st pos some_request goes,
        Steps-max_batch admission_open s s' st,
      )
