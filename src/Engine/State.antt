-- ===== src/Engine/State.antt =====
-- The state of the class Engine in miniserve/engine.py, and the surface that server threads touch.
-- A call of `submit` makes one future and one stream. The n-th pair has the ticket n: `futures` maps it to
-- what the future was resolved with, and `items` to what the stream was handed, the oldest first.
use miniserve.Base.{
  ℕ, suc, Bool, true, false, Option, none, some, List, [], ◌∷◌, ◌++◌, ite, ℕ_discrete,
  if◌then◌else◌,
}
use miniserve.Result.{Error, Result, ok, raise, ◌>>=◌, engine_stopped, invalid_state}
use miniserve.KvCache.Storage.{ReqId}
use miniserve.Scheduler.Sequence.{Token, SamplingParams}
use miniserve.Scheduler.State.{Scheduler}

abbrev pub Ticket : Type 0
Ticket = ℕ

-- Times in thousandths of a tick, and the throughput as a fraction of tokens over ticks.
pub record FinishSummary : Type 0 where
  pub req_id : ReqId
  pub output_tokens : ℕ
  pub ttft_ms : Option ℕ
  pub total_ms : Option ℕ
  pub throughput_tok_s : Option (ℕ × ℕ)
  pub aborted : Bool

-- What is put on a stream.
pub data Item : Type 0 where
  token_item : Token → Item
  finish_item : FinishSummary → Item

-- How a future was resolved.
pub data Outcome : Type 0 where
  accepted : ReqId → Outcome
  refused : Error → Outcome

pub record Submission : Type 0 where
  pub req_id : ReqId
  pub prompt_ids : List Token
  pub max_tokens : ℕ
  pub sampling : Option SamplingParams
  pub ticket : Ticket

pub record Engine (T : Type 0) : Type 0 where
  pub scheduler : Scheduler T
  pub submissions : List Submission
  pub streams : List (ReqId × Ticket)
  pub stopped : Bool
  pub futures : Ticket → Option Outcome
  pub items : Ticket → List Item
  pub issued : ℕ

unfoldable pub set_at {ℓ} : {A : Type ℓ} → (Ticket → A) → Ticket → A → Ticket → A
set_at f t a t' = ite (ℕ_discrete t' t) a (f t')

-- The summary of a request without tokens, or of one that was cut off.
abbrev pub aborted_summary : ReqId → ℕ → FinishSummary
aborted_summary req_id output_tokens = record {
  req_id = req_id;
  output_tokens = output_tokens;
  ttft_ms = none;
  total_ms = none;
  throughput_tok_s = none;
  aborted = true;
}

module _ {T : Type 0} where
  unfoldable pub new_engine : Scheduler T → Engine T
  new_engine scheduler = record {
    scheduler = scheduler;
    submissions = [];
    streams = [];
    stopped = false;
    futures = λ t. none;
    items = λ t. [];
    issued = 0;
  }

  -- `stream.put(item)`
  abbrev pub put : Engine T → Ticket → Item → Engine T
  put g t item = record g { items = set_at g.items t (g.items t ++ item ∷ []) }

  -- A future is resolved once.
  unfoldable pub resolve : Engine T → Ticket → Outcome → Result (Engine T)
  resolve g t outcome = elim (g.futures t) [
    | none ↦ ok (record g { futures = set_at g.futures t (some outcome) })
    | some before ↦ raise invalid_state
  ]

  abbrev pub refusal_sentinel : Engine T → ReqId → Ticket → Engine T
  refusal_sentinel g req_id t = put g t (finish_item (aborted_summary req_id 0))

  -- The next ticket, with an empty stream and a future that is not resolved.
  abbrev pub issue : Engine T → Engine T
  issue g = record g { issued = suc g.issued }

  -- Under the doorway lock a submission is one step of the engine. The future is new, so `resolve` of
  -- it does not raise.
  unfoldable pub submit :
      Engine T → ReqId → List Token → ℕ → Option SamplingParams → Result (Engine T × Ticket)
  submit g req_id prompt_ids max_tokens sampling =
      if g.stopped
      then (do
        g' ← resolve (issue g) g.issued (refused engine_stopped)
        ok (refusal_sentinel g' req_id g.issued, g.issued))
      else ok (
        record (issue g) {
          submissions =
              g.submissions
              ++ record {
                req_id = req_id;
                prompt_ids = prompt_ids;
                max_tokens = max_tokens;
                sampling = sampling;
                ticket = g.issued;
              }
                ∷ [];
        },
        g.issued,
      )

  -- What `stop` does before it waits for the thread.
  abbrev pub stop : Engine T → Engine T
  stop g = record g { stopped = true }
