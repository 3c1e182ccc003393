-- ===== src/Engine/Life.antt =====
-- Any order of submissions, turns of the loop and a stop of miniserve/engine.py.
use miniserve.Base.{
  float_limit, inl, inr, ℕ, ◌+◌, ◌≡◌, refl, Bool, Option, List, [], ◌∷◌, arith, indicator_no,
  dec_lt, length, ltb, Bool-cases, All, ◌<◌,
}
use miniserve.Result.{Result, ok, ◌>>=◌}
use miniserve.KvCache.Storage.{ReqId}
use miniserve.Scheduler.Sequence.{Token, SamplingParams}
use miniserve.Scheduler.State.{Env, Scheduler}
use miniserve.Scheduler.Invariant.{IsValid, no_lag}
use miniserve.Scheduler.Safety.{IsAnswering}
use miniserve.Engine.State.{Engine, new_engine, submit, stop}
use miniserve.Engine.Loop.{run_once}
use miniserve.Engine.Contract.{IsServing, IsDivisible}
use miniserve.Engine.Serving.{step_once_total, submit_total}

-- What the threads do, in the order in which they do it.
pub data Act : Type 0 where
  submits : ReqId → List Token → ℕ → Option SamplingParams → Act
  turns stops : Act

-- What is submitted lies in the range of the floats.
abbrev pub AsksDivisible : Act → Type 0
AsksDivisible (submits req_id prompt_ids max_tokens sampling) =
    length prompt_ids + max_tokens < float_limit
AsksDivisible turns = Unit
AsksDivisible stops = Unit

module _ {T L : Type 0} (env : Env T L) (admission_open : Scheduler T → Bool × ℕ) where
  unfoldable pub act : Engine T → Act → Result (Engine T)
  act g (submits req_id prompt_ids max_tokens sampling) = do
    (g', ticket) ← submit g req_id prompt_ids max_tokens sampling
    ok g'
  act g turns = run_once env admission_open g
  act g stops = ok (stop g)

  unfoldable pub serve : Engine T → List Act → Result (Engine T)
  serve g [] = ok g
  serve g (a ∷ acts) = do g' ← act g a; serve g' acts

  module _ (answering : IsAnswering env) where
    -- It returns, and keeps the promise and the range.
    abbrev pub Goes : Result (Engine T) → Type 0
    Goes result = (g' : Engine T) × (result ≡ ok g') × IsServing g' × All IsDivisible g'.submissions

    run_once_total :
        (g : Engine T)
        → IsServing g
        → All IsDivisible g.submissions
        → Goes (run_once env admission_open g)
    unfolding run_once
    run_once_total g p d =
        elim (Bool-cases (
          ltb 0 (length g.scheduler.waiting + length g.scheduler.running + length g.submissions))) [
            | inl busy ↦
                let (g', run, p', e) = step_once_total env admission_open g p answering d in
                (g', rw busy run, p', rw e tt)
            | inr idle ↦ (g, rw idle, p, d)
          ]

    act_total :
        (g : Engine T) (a : Act)
        → IsServing g
        → All IsDivisible g.submissions
        → AsksDivisible a
        → Goes (act g a)
    unfolding act
    act_total g (submits req_id prompt_ids max_tokens sampling) p d small =
        let (g', run, p', kept) = submit_total g p req_id prompt_ids max_tokens sampling in
        (g', rw run, p', kept d small)
    act_total g turns p d small = run_once_total g p d
    act_total g stops p d small = (
      stop g,
      refl,
      record { valid = p.valid; synced = p.synced; once = p.once; opens = p.opens },
      d,
    )

    pub serve_from :
        (g : Engine T) (acts : List Act)
        → IsServing g
        → All IsDivisible g.submissions
        → All AsksDivisible acts
        → Goes (serve g acts)
    unfolding serve
    serve_from g [] p d small = (g, refl, p, d)
    serve_from g (a ∷ acts) p d small =
        let (g1, run, p1, d1) = act_total g a p d small.0 in
        let (g', runs, p', d') = serve_from g1 acts p1 d1 small.1 in (g', rw run runs, p', d')

    -- An engine over a scheduler without requests.
    pub new_engine-IsServing :
        (s : Scheduler T)
        → IsValid no_lag s
        → s.running ≡ []
        → s.waiting ≡ []
        → IsServing (new_engine s)
    unfolding new_engine
    new_engine-IsServing s v r w = record {
      valid = v;
      synced = λ k. rw (r, w) (omega arith);
      once = λ t. omega (arith, indicator_no (dec_lt t 0) (λ h. absurd (omega arith)));
      opens = record {
        pending = λ t h. refl;
        unissued = λ t h. refl;
        answered = λ t h e. absurd (omega arith);
      };
    }

    -- An engine over a valid scheduler without requests, with a model that answers, raises
    -- nothing under any order of submissions, turns of the loop and stops in which the
    -- prompt length and max_tokens of each submission sum to less than the least quotient
    -- that no float holds, and afterwards: the scheduler is valid, the streams that are
    -- registered are those of the live ids, each ticket that was issued is in the submission
    -- queue, or has a registered stream, or its stream has had one end, and only one of
    -- these, once; and a future is unresolved exactly while its ticket is in the queue.
    pub serve_total :
        (s : Scheduler T) (acts : List Act)
        → IsValid no_lag s
        → s.running ≡ []
        → s.waiting ≡ []
        → All AsksDivisible acts
        → (g : Engine T) × (serve (new_engine s) acts ≡ ok g) × IsServing g
    unfolding new_engine
    serve_total s acts v r w small =
        let (g, run, p, _) =
          serve_from (new_engine s) acts (new_engine-IsServing s v r w) tt small in
        (g, run, p)
