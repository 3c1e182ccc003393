-- ===== src/Engine/Loop.antt =====
-- The engine thread of miniserve/engine.py: `step_once`, its callbacks, and the shutdown.
use miniserve.Base.{
  ℕ, zero, suc, ◌+◌, ◌*◌, ◌-◌, Bool, true, false, Option, none, some, List, [], ◌∷◌, ite, ltb,
  String_discrete, if◌then◌else◌, length,
}
use mathlib.Core.Option
use miniserve.Result.{Error, value_error, capacity_error, engine_stopped, Result, ok, raise, ◌>>=◌}
use miniserve.Dict.{lookup, insert, delete}
use miniserve.KvCache.Storage.{ReqId}
use miniserve.Scheduler.Sequence.{Time, Sequence}
use miniserve.Scheduler.State.{Ref, Event, on_token, on_finish, Env, Scheduler}
use miniserve.Scheduler.Submit
use miniserve.Scheduler.Step.{or_key_error, step}
use miniserve.Engine.State.{
  Ticket, FinishSummary, token_item, finish_item, accepted, refused, Submission, Engine, put,
  resolve, refusal_sentinel, aborted_summary,
}

-- The time from the arrival, if the other end is there.
abbrev pub since_arrival : Sequence → Option Time → Option Time
since_arrival q = Option.map (λ t. t - q.arrival_time)

-- `n / total_s if total_s else None`
abbrev pub throughput : ℕ → Option Time → Option (ℕ × ℕ)
throughput n none = none
throughput n (some zero) = none
throughput n (some (suc total)) = some (n, suc total)

abbrev pub finish_summary : Sequence → FinishSummary
finish_summary q = record {
  req_id = q.req_id;
  output_tokens = length q.output_ids;
  ttft_ms = Option.map (λ t. t * 1000) (since_arrival q q.first_token_time);
  total_ms = Option.map (λ t. t * 1000) (since_arrival q q.completion_time);
  throughput_tok_s = throughput (length q.output_ids) (since_arrival q q.completion_time);
  aborted = false;
}

-- CapacityError is a subclass of ValueError.
abbrev pub is_value_error : Error → Bool
is_value_error value_error = true
is_value_error capacity_error = true
is_value_error _ = false

-- `next((s for s in queue if s.req_id == req_id), None)`
unfoldable pub find_id : ReqId → (Ref → Sequence) → List Ref → Option Sequence
find_id req_id heap [] = none
find_id req_id heap (r ∷ rs) =
    ite (String_discrete (heap r).req_id req_id) (some (heap r)) (find_id req_id heap rs)

-- `len(seq.output_ids) if seq else 0`, where the running sequences come first.
unfoldable pub n_output : {T : Type 0} → Scheduler T → ReqId → ℕ
n_output s req_id = elim (find_id req_id s.heap s.running) [
  | some q ↦ length q.output_ids
  | none ↦ elim (find_id req_id s.heap s.waiting) [ some q ↦ length q.output_ids | none ↦ 0 ]
]

module _ {T : Type 0} where
  -- `_on_token` and `_on_finish`
  unfoldable pub handle : Engine T → Event → Result (Engine T)
  handle g (on_token req_id t) = do
    ticket ← or_key_error (lookup req_id g.streams)
    ok (put g ticket (token_item t))
  handle g (on_finish q) = do
    ticket ← or_key_error (lookup q.req_id g.streams)
    ok (
        put (record g { streams = delete q.req_id g.streams }) ticket
          (finish_item (finish_summary q)))

  -- The callbacks of a step, of which the latest comes first.
  unfoldable pub handle_all : List Event → Engine T → Result (Engine T)
  handle_all [] g = ok g
  handle_all (e ∷ events) g = do g' ← handle_all events g; handle g' e

  module _ {L : Type 0} (env : Env T L) where
    unfoldable pub admit : Engine T → Submission → Result (Engine T)
    admit g item =
        elim (Submit.submit env g.scheduler item.req_id item.prompt_ids item.max_tokens
          item.sampling) [
            | raise e ↦
                if is_value_error e
                then (do
                  g' ← resolve g item.ticket (refused e)
                  ok (refusal_sentinel g' item.req_id item.ticket))
                else raise e
            | ok (s, r) ↦
                resolve
                  (record g { scheduler = s; streams = insert item.req_id item.ticket g.streams })
                  item.ticket (accepted item.req_id)
          ]

    -- `get_nowait` until the queue is empty.
    unfoldable pub admit_all : List Submission → Engine T → Result (Engine T)
    admit_all [] g = ok g
    admit_all (item ∷ rest) g = do
      g' ← admit (record g { submissions = rest }) item
      admit_all rest g'

    -- The callbacks only touch the streams, which the scheduler does not read: they may follow its step.
    unfoldable pub step_once : (Scheduler T → Bool × ℕ) → Engine T → Result (Engine T)
    step_once admission_open g = do
      g' ← admit_all g.submissions g
      s ← step env admission_open (record g'.scheduler { events = [] })
      handle_all s.events (record g' { scheduler = s })

    -- One turn of `run` while the engine is not stopped. An engine without work waits for a submission, and
    -- admits the one that it gets before those behind it: that is `step_once` after the submission.
    unfoldable pub run_once : (Scheduler T → Bool × ℕ) → Engine T → Result (Engine T)
    run_once admission_open g =
        if ltb 0 (length g.scheduler.waiting + length g.scheduler.running + length g.submissions)
        then step_once admission_open g
        else ok g

  -- The futures of what was still in the queue.
  unfoldable pub refuse_all : List Submission → Engine T → Result (Engine T)
  refuse_all [] g = ok g
  refuse_all (item ∷ rest) g = do
    g' ← resolve (record g { submissions = rest }) item.ticket (refused engine_stopped)
    refuse_all rest g'

  -- The streams that were still live.
  unfoldable pub abort_all : List (ReqId × Ticket) → Engine T → Engine T
  abort_all [] g = g
  abort_all ((req_id, ticket) ∷ rest) g =
      abort_all rest
        (put g ticket (finish_item (aborted_summary req_id (n_output g.scheduler req_id))))

  unfoldable pub finalize_shutdown : Engine T → Result (Engine T)
  finalize_shutdown g = do
    g' ← refuse_all g.submissions g
    ok (record (abort_all g'.streams g') { streams = [] })
