-- ===== src/Scheduler/Safety.antt =====
-- `step` of miniserve/scheduler.py on a valid scheduler.
use miniserve.Base.{
  ℕ, ◌<◌, ◌≡◌, ◌⊎◌, refl, inl, inr, Bool, true, Option, some, List, [], ◌∷◌, map, All, indicator_no,
  ℕ_discrete, arith, sym, ◌∙◌, length, ltb, if◌then◌else◌, Bool-cases, false≢true,
}
use miniserve.Result.{ok}
use miniserve.KvCache.Storage.{ReqId, Layer, PagedKvCache}
use miniserve.Metrics.{Metrics, record_step}
use miniserve.Scheduler.Sequence.{Sequence, Time}
use miniserve.Scheduler.State.{Ref, Env, Scheduler, read_clock}
use miniserve.Scheduler.Step.{admit, batch, measured, run_batch, step}
use miniserve.Scheduler.Heap.{◌∈◌}
use miniserve.Scheduler.Invariant.{IsValid, no_lag}
use miniserve.Scheduler.Queues.{count-refs-le}
use miniserve.Scheduler.Admit.{Admits, Admits-refl, Stops, admit_total}
use miniserve.Scheduler.Batch.{Rounds, IsReady, advance_all_total, count-batch-le}

-- The model returns logits for every sequence of the batch that it is given.
pub record IsAnswering {T L : Type 0} (env : Env T L) : Type 0 where
  pub answers :
      (qs : List Sequence) (kv : PagedKvCache T)
      → All (λ q. (l : L) × ((env.forward qs kv).0 q.req_id ≡ some l)) qs

All-map :
    (P : Sequence → Type 0) (heap : Ref → Sequence) (rs : List Ref) (r : Ref)
    → All P (map heap rs)
    → r ∈ rs
    → P (heap r)
All-map P heap [] r a m = absurd (omega arith)
All-map P heap (x ∷ rs) r a m = elim (ℕ_discrete x r) [
  | yes p ↦ rw (← p) a.0
  | no p ↦ All-map P heap rs r a.1 (omega (arith, indicator_no (ℕ_discrete x r) p))
]

module _ {T : Type 0} (s : Scheduler T) (v : IsValid no_lag s) where
  -- Neither the tensors, nor the clock, nor the step records matter.
  pub with_layers-IsValid :
      (layers : List (Layer T)) → IsValid no_lag (record s { kv = record s.kv { layers = layers } })
  with_layers-IsValid layers = record {
    conserved = record { total = v.conserved.total; once = v.conserved.once };
    block_pos = v.block_pos;
    tables = v.tables;
    distinct = v.distinct;
    live = v.live;
    numbered = v.numbered;
    active = v.active;
    idle = v.idle;
    holds = v.holds;
    batched = v.batched;
    accounted = v.accounted;
  }

  with_metrics-IsValid :
      (m : Metrics) (reads : ℕ)
      → m.requests ≡ s.metrics.requests
      → IsValid no_lag (record s { metrics = m; clock_reads = reads })
  with_metrics-IsValid m reads e = record {
    conserved = v.conserved;
    block_pos = v.block_pos;
    tables = v.tables;
    distinct = v.distinct;
    live = v.live;
    numbered = v.numbered;
    active = v.active;
    idle = v.idle;
    holds = v.holds;
    batched = v.batched;
    accounted = rw e v.accounted;
  }

module _ {T L : Type 0} (env : Env T L) where
  -- The scheduler with the tensors that the forward pass of its batch has written.
  abbrev pub forwarded : Scheduler T → Scheduler T
  forwarded s = record s {
    kv = record s.kv { layers = (env.forward (map s.heap (batch s)) s.kv).1 };
  }

  abbrev pub batch_logits : Scheduler T → ReqId → Option L
  batch_logits s = (env.forward (map s.heap (batch s)) s.kv).0

  abbrev pub RunsWell : Time → Scheduler T → Type 0
  RunsWell t s =
      (s1 : Scheduler T) × (run_batch env t s ≡ ok (measured env t s s1))
      × IsValid no_lag s1
      × Rounds env (batch_logits s) (batch s) (forwarded s) s1

  run_batch_total : IsAnswering env → (t : Time) (s : Scheduler T) → IsValid no_lag s → RunsWell t s
  unfolding run_batch
  run_batch_total answering t s v =
      let (s1, run, v1, rounds) =
        advance_all_total env (batch_logits s) (batch s) (forwarded s) (with_layers-IsValid s v _)
          ready in
      (s1, rw run, v1, rounds)
    where
      ready : IsReady env (batch_logits s) (batch s) (forwarded s)
      ready = record {
        once = λ r. omega (arith, count-batch-le s r, count-refs-le v r);
        in_play = λ r m. inl (omega (arith, count-batch-le s r));
        answered = λ r m.
            All-map (λ q. (l : L) × (batch_logits s q.req_id ≡ some l)) s.heap (batch s) r
              (answering.answers (map s.heap (batch s)) s.kv) m;
      }

  -- A step: an admission, and a run of the batch if there is one.
  pub record Steps (admission_open : Scheduler T → Bool × ℕ) (s s' : Scheduler T) : Type 0 where
    pub mid : Scheduler T
    pub valid : IsValid no_lag mid
    pub admission : Admits s mid
    pub opened : (admission_open (read_clock s)).0 ≡ true → Stops mid
    pub outcome :
        ((length mid.running ≡ 0) × (s' ≡ mid))
        ⊎ ((0 < length mid.running)
            × (last : Scheduler T) × Rounds env (batch_logits mid) (batch mid) (forwarded mid) last
            × (s' ≡ measured env (env.clock s.clock_reads) mid last))

  Admits-clock :
      (s : Scheduler T) (reads : ℕ) (s' : Scheduler T)
      → Admits (record s { clock_reads = reads }) s'
      → Admits s s'
  Admits-clock s reads s' a = record {
    front = a.front;
    queue = a.queue;
    batch = a.batch;
    objects = a.objects;
    same_events = a.same_events;
    same_eos = a.same_eos;
    same_max = a.same_max;
    same_log = a.same_log;
    same_requests = a.same_requests;
    same_counter = a.same_counter;
  }

  module _ (admission_open : Scheduler T → Bool × ℕ) (s : Scheduler T) where
    abbrev pub StepsWell : Type 0
    StepsWell =
        (s' : Scheduler T) × (step env admission_open s ≡ ok s')
        × IsValid no_lag s'
        × Steps admission_open s s'

    -- What follows the admission.
    after_admission_total :
        (mid : Scheduler T)
        → (if (admission_open (read_clock s)).0
            then admit env s.waiting (record s { clock_reads = (admission_open (read_clock s)).1 })
            else ok (record s { clock_reads = (admission_open (read_clock s)).1 }))
          ≡ ok mid
        → IsValid no_lag mid
        → Admits s mid
        → ((admission_open (read_clock s)).0 ≡ true → Stops mid)
        → IsAnswering env
        → StepsWell
    unfolding step record_step
    after_admission_total mid run v a stops answering =
        elim (Bool-cases (ltb 0 (length mid.running))) [
          | inr none_runs ↦ (
            mid,
            rw (run, none_runs),
            v,
            record {
              mid = mid;
              valid = v;
              admission = a;
              opened = stops;
              outcome = inl (ground arith, refl);
            },
          )
          | inl some_run ↦
              let (last, ran, v', rounds) =
                run_batch_total answering (env.clock s.clock_reads) mid v in
              (
                measured env (env.clock s.clock_reads) mid last,
                rw (run, some_run) ran,
                with_metrics-IsValid last v' _ _ refl,
                record {
                  mid = mid;
                  valid = v;
                  admission = a;
                  opened = stops;
                  outcome = inr (ground arith, last, rounds, refl);
                },
              )
        ]

    -- On a valid scheduler, with a model that answers for every sequence of its batch and
    -- any admission policy, `step` returns without an exception, leaves a valid scheduler,
    -- and consists of a first come first served admission and, if a sequence runs, of one
    -- round for each sequence of the batch and the step's record.
    pub step_total : IsValid no_lag s → IsAnswering env → StepsWell
    step_total v answering = elim (Bool-cases (admission_open (read_clock s)).0) [
      | inl is_open ↦
          let (mid, run, v', a, stop) =
            admit_total env s.waiting (record s { clock_reads = (admission_open (read_clock s)).1 })
              (with_metrics-IsValid s v s.metrics _ refl) refl in
          after_admission_total mid (rw is_open run) v' (Admits-clock s _ mid a) (λ e. stop)
            answering
      | inr is_shut ↦
          after_admission_total (record s { clock_reads = (admission_open (read_clock s)).1 })
            (rw is_shut) (with_metrics-IsValid s v s.metrics _ refl)
            (Admits-clock s _ _ (Admits-refl _)) (λ e. absurd (false≢true (sym is_shut ∙ e)))
            answering
    ]
