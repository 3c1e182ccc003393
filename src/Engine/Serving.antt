-- ===== src/Engine/Serving.antt =====
-- `submit` and `step_once` of miniserve/engine.py and the engine's promise.
use miniserve.Base.{
  ℕ, suc, ◌+◌, ◌≡◌, inl, inr, refl, Bool, Option, some, List, [], ◌∷◌, ◌++◌, indicator,
  indicator_yes, indicator_no, dec_lt, ℕ_discrete, arith, ap, sym, ◌∙◌, Bool-cases, All, All-append,
}
use miniserve.Result.{ok, engine_stopped}
use miniserve.KvCache.Storage.{ReqId}
use miniserve.Scheduler.Sequence.{Token, SamplingParams}
use miniserve.Scheduler.State.{Env, Scheduler}
use miniserve.Scheduler.Invariant.{IsValid, no_lag}
use miniserve.Scheduler.Safety.{IsAnswering, step_total}
use miniserve.Scheduler.Preserved.{Steps-P}
use miniserve.Engine.State.{
  Ticket, finish_item, refused, Outcome, Submission, Engine, resolve, set_at, submit,
  refusal_sentinel, aborted_summary,
}
use miniserve.Engine.Loop.{handle_all, step_once}
use miniserve.Engine.Tickets.{
  n_finish, n_queued, n_queued-append, n_streams, set_at_self, set_at_ne, n_finish-put,
}
use miniserve.Engine.Callbacks.{Serves, Serves-IsPreserved}
use miniserve.Engine.Contract.{IsOpen, IsServing, IsDivisible, admit_all_total}

-- The events that were handled may be forgotten.
without_events-IsValid :
    {T : Type 0} (s : Scheduler T) → IsValid no_lag s → IsValid no_lag (record s { events = [] })
without_events-IsValid s v = record {
  conserved = v.conserved;
  block_pos = v.block_pos;
  tables = v.tables;
  distinct = v.distinct;
  live = v.live;
  numbered = v.numbered;
  active = v.active;
  idle = v.idle;
  holds = v.holds;
  batched = v.batched;
  accounted = v.accounted;
}

module _ {T L : Type 0} (env : Env T L) (admission_open : Scheduler T → Bool × ℕ) where
  -- Nothing has been handled yet.
  begin-Serves :
      (g : Engine T) (s : Scheduler T)
      → IsServing g
      → Serves (record g { scheduler = s }) (record g.scheduler { events = [] })
  unfolding handle_all
  begin-Serves g s p = record {
    engine = record g { scheduler = s };
    run = refl;
    synced = p.synced;
    once = λ t. refl;
    same_scheduler = refl;
    same_submissions = refl;
    same_futures = refl;
    same_issued = refl;
  }

  Serves-IsServing :
      (g : Engine T) (s : Scheduler T)
      → IsServing g
      → IsValid no_lag s
      → (h : Serves (record g { scheduler = s }) s) → IsServing h.engine
  Serves-IsServing g s p v h = record {
    valid = rw h.same_scheduler v;
    synced = λ k. rw h.same_scheduler (h.synced k);
    once = λ t. rw (h.same_submissions, h.same_issued) (omega (arith, p.once t, h.once t));
    opens = rw (h.same_submissions, h.same_issued, h.same_futures) p.opens;
  }

  -- On an engine that keeps its promise, with a model that answers and any admission hook,
  -- where the prompt length and max_tokens of each queued submission sum to less than the
  -- least quotient that no float holds, `step_once` raises nothing, each callback of its
  -- scheduler step finding its stream, empties the submission queue, and keeps the promise.
  pub step_once_total :
      (g : Engine T)
      → IsServing g
      → IsAnswering env
      → All IsDivisible g.submissions
      → (g' : Engine T) × (step_once env admission_open g ≡ ok g')
        × IsServing g'
        × (g'.submissions ≡ [])
  unfolding step_once
  step_once_total g p answering divisible =
      let (g1, run1, p1, e1) = admit_all_total env g.submissions g p refl divisible in
      let (s, run, v, st) =
        step_total env admission_open (record g1.scheduler { events = [] })
          (without_events-IsValid g1.scheduler p1.valid) answering in
      let h =
        Steps-P env (Serves (record g1 { scheduler = s }))
          (Serves-IsPreserved (record g1 { scheduler = s }) env) admission_open _ s st
          (begin-Serves g1 s p1) in
      (h.engine, rw (run1, run) h.run, Serves-IsServing g1 s p1 v h, h.same_submissions ∙ e1)

module _ {T : Type 0} (g : Engine T) (p : IsServing g) (req_id : ReqId) (prompt_ids : List Token)
    (max_tokens : ℕ) (sampling : Option SamplingParams) where
  -- The ticket that is issued next is in no place yet.
  unused :
      (n_queued g.issued g.submissions ≡ 0)
      × (n_streams g.issued g.streams ≡ 0)
      × (n_finish (g.items g.issued) ≡ 0)
  unused =
      let none_yet : n_queued g.issued g.submissions
            + n_streams g.issued g.streams
            + n_finish (g.items g.issued)
          ≡ 0 =
        omega (
          arith,
          p.once g.issued,
          indicator_no (dec_lt g.issued g.issued) (λ h. absurd (omega arith)),
        ) in
      (omega arith, omega arith, omega arith)

  abbrev entry : Submission
  entry = record {
    req_id = req_id;
    prompt_ids = prompt_ids;
    max_tokens = max_tokens;
    sampling = sampling;
    ticket = g.issued;
  }

  queued-IsOpen : IsOpen (g.submissions ++ entry ∷ []) (suc g.issued) g.futures
  queued-IsOpen = record {
    pending = λ t h. elim (ℕ_discrete g.issued t) [
      | yes e ↦ p.opens.unissued t (omega (arith, e))
      | no ne ↦ p.opens.pending t (
          omega (
            arith,
            n_queued-append t g.submissions (entry ∷ []),
            indicator_no (ℕ_discrete g.issued t) ne,
          ))
    ];
    unissued = λ t h. p.opens.unissued t (omega arith);
    answered = λ t h e. elim (ℕ_discrete g.issued t) [
      | yes same ↦ absurd (
          omega (
            arith,
            n_queued-append t g.submissions (entry ∷ []),
            indicator_yes (ℕ_discrete g.issued t) same,
          ))
      | no ne ↦
          p.opens.answered t (omega (arith, λ (e : t ≡ g.issued). ne (sym e)))
            (omega (arith, n_queued-append t g.submissions (entry ∷ [])))
    ];
  }

  refused-IsOpen :
      (o : Outcome) → IsOpen g.submissions (suc g.issued) (set_at g.futures g.issued (some o))
  refused-IsOpen o = record {
    pending = λ t h.
        set_at_ne g.futures g.issued (some o) t
          (λ e. absurd (omega (arith, unused, ap (λ z. n_queued z g.submissions) e)))
        ∙ p.opens.pending t h;
    unissued = λ t h.
        set_at_ne g.futures g.issued (some o) t (λ e. absurd (omega (arith, e)))
        ∙ p.opens.unissued t (omega arith);
    answered = λ t h e. elim (ℕ_discrete t g.issued) [
      | yes same ↦ (o, rw same (set_at_self g.futures g.issued (some o)))
      | no ne ↦
          rw (set_at_ne g.futures g.issued (some o) t ne) (p.opens.answered t (omega (arith, ne)) e)
    ];
  }

  issue_indicator :
      (t : Ticket)
      → indicator (dec_lt t (suc g.issued))
        ≡ indicator (dec_lt t g.issued) + indicator (ℕ_discrete g.issued t)
  issue_indicator t = ground arith

  pub submit_total :
      (g' : Engine T) × (submit g req_id prompt_ids max_tokens sampling ≡ ok (g', g.issued))
      × IsServing g'
      × (All IsDivisible g.submissions → IsDivisible entry → All IsDivisible g'.submissions)
  unfolding submit resolve
  submit_total = elim (Bool-cases g.stopped) [
    | inl stopped ↦ (
      refusal_sentinel
          (record g {
            issued = suc g.issued;
            futures = set_at g.futures g.issued (some (refused engine_stopped));
          })
          req_id g.issued,
      simp (stopped, p.opens.unissued g.issued (omega arith), resolve),
      record {
        valid = p.valid;
        synced = p.synced;
        once = λ t. ground (
          arith,
          p.once t,
          issue_indicator t,
          n_finish-put g g.issued t (finish_item (aborted_summary req_id 0)),
        );
        opens = refused-IsOpen (refused engine_stopped);
      },
      λ a d. a,
    )
    | inr serving ↦ (
      record g { issued = suc g.issued; submissions = g.submissions ++ entry ∷ [] },
      rw serving,
      record {
        valid = p.valid;
        synced = p.synced;
        once = λ t.
            omega
              (arith, p.once t, issue_indicator t, n_queued-append t g.submissions (entry ∷ []));
        opens = queued-IsOpen;
      },
      λ a d. All-append IsDivisible g.submissions (entry ∷ []) a (d, tt),
    )
  ]
