-- ===== src/Bench/Static.antt =====
-- miniserve/bench/static.py: the admission hook of static batching.
use miniserve.Base.{
  ℕ, suc, ◌+◌, ◌≤◌, ◌<◌, ◌≡◌, ◌↔◌, inl, inr, refl, Bool, true, false, ◌||◌, Option, none, some,
  List, [], ◌∷◌, arith, length, ltb, leb, if◌then◌else◌, List-cases, Bool-cases, ap, false≢true,
}
use miniserve.Scheduler.Sequence.{Time}
use miniserve.Scheduler.State.{Ref, Env, Scheduler}
use miniserve.Scheduler.Drain.{IsEager, Drained, drain_total}
use miniserve.Scheduler.Invariant.{IsValid, no_lag}
use miniserve.Scheduler.Safety.{IsAnswering}
use miniserve.Scheduler.Work.{work}

-- What the subclass adds to the fields of Scheduler.
pub record StaticPolicy : Type 0 where
  pub flush : Bool
  pub max_wait : Option Time

abbrev pub new_policy : Option Time → StaticPolicy
new_policy max_wait = record { flush = false; max_wait = max_wait }

module _ {T L : Type 0} (env : Env T L) (policy : StaticPolicy) where
  -- Whether the head of the queue has waited long enough, by one reading of the clock.
  unfoldable pub waited : Scheduler T → Ref → Option Time → Bool × ℕ
  waited s r none = (false, s.clock_reads)
  waited s r (some max_wait) =
      (leb (max_wait + (s.heap r).arrival_time) (env.clock s.clock_reads), suc s.clock_reads)

  unfoldable pub static_open : Scheduler T → Bool × ℕ
  static_open s = if ltb 0 (length s.running) then (false, s.clock_reads) else elim s.waiting [
    | [] ↦ (false, s.clock_reads)
    | r ∷ rest ↦
        if leb s.max_batch (length s.waiting) || policy.flush
        then (true, s.clock_reads)
        else waited s r policy.max_wait
  ]

  -- What the batch waits for.
  pub data Ready (s : Scheduler T) : Type 0 where
    full : s.max_batch ≤ length s.waiting → Ready s
    flushed : policy.flush ≡ true → Ready s
    overdue :
        (r : Ref) (rest : List Ref) (max_wait : Time)
        → s.waiting ≡ r ∷ rest
        → policy.max_wait ≡ some max_wait
        → max_wait + (s.heap r).arrival_time ≤ env.clock s.clock_reads
        → Ready s

  abbrev OpensWhen : Scheduler T → Type 0
  OpensWhen s = (length s.running ≡ 0) × (0 < length s.waiting) × Ready s

  waited-Ready :
      (s : Scheduler T) (r : Ref) (rest : List Ref) (max_wait : Option Time)
      → policy.max_wait ≡ max_wait
      → s.waiting ≡ r ∷ rest
      → (waited s r max_wait).0 ≡ true
      → Ready s
  unfolding waited
  waited-Ready s r rest none same w e = absurd (ground arith)
  waited-Ready s r rest (some t) same w e = overdue r rest t w same (ground arith)

  Ready-waited :
      (s : Scheduler T) (r : Ref) (rest : List Ref)
      → s.waiting ≡ r ∷ rest
      → (leb s.max_batch (length s.waiting) || policy.flush) ≡ false
      → Ready s
      → (waited s r policy.max_wait).0 ≡ true
  unfolding waited
  Ready-waited s r rest w shut (full e) = absurd (ground arith)
  Ready-waited s r rest w shut (flushed e) = absurd (ground arith)
  Ready-waited s r rest w shut (overdue r' rest' t w' same late) =
      let same_head : r ≡ r' = cc in rw (same, same_head) (ground arith)

  -- With nothing running and the head `r` in the queue.
  static_open_at :
      (s : Scheduler T) (r : Ref) (rest : List Ref)
      → length s.running ≡ 0
      → s.waiting ≡ r ∷ rest
      → static_open s ≡ (
          if leb s.max_batch (length s.waiting) || policy.flush
          then (true, s.clock_reads)
          else waited s r policy.max_wait)
  unfolding static_open
  static_open_at s r rest idle w =
      let no_run : ltb 0 (length s.running) ≡ false = ground arith in
      rw no_run (
        ap
          (λ (ws : List Ref). elim ws [
            | [] ↦ (false, s.clock_reads)
            | x ∷ xs ↦
                if leb s.max_batch (length s.waiting) || policy.flush
                then (true, s.clock_reads)
                else waited s x policy.max_wait
          ])
          w)

  open-Ready : (s : Scheduler T) → (static_open s).0 ≡ true → OpensWhen s
  unfolding static_open
  open-Ready s e = elim (Bool-cases (ltb 0 (length s.running))) [
    | inl busy ↦ absurd (false≢true (rw busy at e))
    | inr idle ↦ elim (List-cases s.waiting) [
      | inl w ↦ absurd (false≢true (rw (idle, w) at e))
      | inr (r, rest, w) ↦
          let e' = rw (static_open_at s r rest (ground arith) w) at e in
          (ground arith, omega (arith, ap length w), ready r rest w e')
    ]
  ]
    where
      ready :
          (r : Ref) (rest : List Ref)
          → s.waiting ≡ r ∷ rest
          → (if leb s.max_batch (length s.waiting) || policy.flush
              then (true, s.clock_reads)
              else waited s r policy.max_wait).0
            ≡ true
          → Ready s
      ready r rest w e = elim (Bool-cases (leb s.max_batch (length s.waiting) || policy.flush)) [
        | inr shut ↦ waited-Ready s r rest policy.max_wait refl w (rw shut at e)
        | inl opens ↦ elim (Bool-cases policy.flush) [
          | inl f ↦ flushed f
          | inr f ↦ full (ground arith)
        ]
      ]

  Ready-open : (s : Scheduler T) → OpensWhen s → (static_open s).0 ≡ true
  Ready-open s (idle, some_wait, ready) = elim (List-cases s.waiting) [
    | inl w ↦ absurd (omega (arith, ap length w))
    | inr (r, rest, w) ↦
        rw (static_open_at s r rest idle w)
          (elim (Bool-cases (leb s.max_batch (length s.waiting) || policy.flush)) [
            | inl opens ↦ rw opens refl
            | inr shut ↦ rw shut (Ready-waited s r rest w shut ready)
          ])
  ]

  -- The hook of static batching opens exactly when nothing runs, something waits, and either
  -- as many requests wait as the batch has room for, or the flush is on, or there is a timer
  -- and the head of the queue has waited at least that long.
  pub static_open_iff : (s : Scheduler T) → ((static_open s).0 ≡ true) ↔ OpensWhen s
  static_open_iff s = (open-Ready s, Ready-open s)

  -- With the flush on the hook is eager.
  pub static-IsEager : policy.flush ≡ true → IsEager static_open
  static-IsEager on = record { opens = λ s e h. Ready-open s (ap length e, h, flushed on) }

  -- With the flush on, static batching drains too: from a valid scheduler with a batch size of
  -- at least one and a model that answers, a number of steps that is at least the number of
  -- tokens still to ask for empties both queues without an exception, with one record to a
  -- submission.
  pub static_drain_total :
      (n : ℕ) (s : Scheduler T)
      → IsValid no_lag s
      → IsAnswering env
      → policy.flush ≡ true
      → 0 < s.max_batch
      → work s ≤ n
      → Drained env static_open n s
  static_drain_total n s v answering on pos enough =
      drain_total env static_open n s v answering (static-IsEager on) pos enough
