-- ===== src/Scheduler/Drain.antt =====
-- A drain of miniserve/scheduler.py, as in the repository's tests: step until no request is left.
use miniserve.Base.{
  ℕ, zero, suc, ◌+◌, ◌≤◌, ◌<◌, ◌≡◌, refl, inl, inr, dec_lt, ◌⊎◌, Bool, true, false, [], arith,
  length, length-eq-zero, ltb, Bool-cases,
}
use miniserve.Result.{Result, ok, ◌>>=◌}
use miniserve.Scheduler.State.{Env, Scheduler, read_clock}
use miniserve.Scheduler.Step.{step}
use miniserve.Scheduler.Invariant.{IsValid, no_lag}
use miniserve.Scheduler.Safety.{IsAnswering}
use miniserve.Scheduler.Work.{work, length-le-work}
use miniserve.Scheduler.Progress.{step_progress}

-- Admission that is always open: `Scheduler._admission_open`. It reads no clock.
abbrev pub continuous : {T : Type 0} → Scheduler T → Bool × ℕ
continuous s = (true, s.clock_reads)

-- The hook opens whenever nothing runs and something waits.
pub record IsEager {T : Type 0} (admission_open : Scheduler T → Bool × ℕ) : Type 0 where
  pub opens :
      (s : Scheduler T) → s.running ≡ [] → 0 < length s.waiting → (admission_open s).0 ≡ true

pub continuous-IsEager : {T : Type 0} → IsEager {T = T} continuous
continuous-IsEager = record { opens = λ s e h. refl }

module _ {T L : Type 0} (env : Env T L) (admission_open : Scheduler T → Bool × ℕ) where
  -- At most `n` steps, and fewer if both queues run empty.
  unfoldable pub drain : ℕ → Scheduler T → Result (Scheduler T)
  drain zero s = ok s
  drain (suc n) s = elim (ltb 0 (length s.running + length s.waiting)) [
    | true ↦ do s' ← step env admission_open s; drain n s'
    | false ↦ ok s
  ]

  abbrev pub Drained : ℕ → Scheduler T → Type 0
  Drained n s =
      (s' : Scheduler T) × (drain n s ≡ ok s')
      × IsValid no_lag s'
      × (s'.running ≡ [])
      × (s'.waiting ≡ [])
      × (length s'.metrics.requests ≡ s'.seq_counter)

  at_end :
      (n : ℕ) (s : Scheduler T)
      → IsValid no_lag s
      → length s.running + length s.waiting ≡ 0
      → drain n s ≡ ok s
      → Drained n s
  at_end n s v e run = (
    s,
    run,
    v,
    length-eq-zero s.running (omega arith),
    length-eq-zero s.waiting (omega arith),
    omega (arith, v.accounted),
  )

  -- Something runs, or the hook opens.
  goes_on :
      (s : Scheduler T)
      → IsEager admission_open
      → 0 < length s.running + length s.waiting
      → (0 < length s.running) ⊎ ((admission_open (read_clock s)).0 ≡ true)
  goes_on s eager h = elim (dec_lt 0 (length s.running)) [
    | yes p ↦ inl p
    | no p ↦ inr (eager.opens (read_clock s) (length-eq-zero s.running (omega arith)) (omega arith))
  ]

  -- From a valid scheduler with a batch size of at least one, with a model that answers and an
  -- admission hook that opens whenever nothing runs and something waits, a number of steps
  -- that is at least the number of tokens still to ask for empties both queues without an
  -- exception, and then there are as many request records as there were submissions.
  pub drain_total :
      (n : ℕ) (s : Scheduler T)
      → IsValid no_lag s
      → IsAnswering env
      → IsEager admission_open
      → 0 < s.max_batch
      → work s ≤ n
      → Drained n s
  unfolding drain
  drain_total zero s v answering eager pos enough =
      at_end zero s v (omega (arith, length-le-work s v)) refl
  drain_total (suc n) s v answering eager pos enough =
      elim (Bool-cases (ltb 0 (length s.running + length s.waiting))) [
        | inr idle ↦ at_end (suc n) s v (ground arith) (rw (idle, drain))
        | inl busy ↦
            let (s1, run, v1, less, same) =
              step_progress env admission_open s v answering pos (ground arith)
                (goes_on s eager (ground arith)) in
            let (s', runs, v', r, w, m) =
              drain_total n s1 v1 answering eager (omega arith) (omega arith) in
            (s', rw (busy, drain, run) runs, v', r, w, m)
      ]
