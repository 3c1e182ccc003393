-- ===== src/Server/Respond.antt =====
-- `do_POST` of miniserve/server.py after the submission: the outcome of the future, and the stream.
use miniserve.Base.{ℕ, zero, suc, Option, none, some, List, [], ◌∷◌}
use miniserve.Result.{
  Error, value_error, capacity_error, engine_stopped, timeout_error, Result, ok, raise,
}
use miniserve.Scheduler.Sequence.{Token}
use miniserve.Engine.State.{
  FinishSummary, Item, token_item, finish_item, Outcome, accepted, refused,
}

-- What is written to the client after the headers of the event stream.
pub data StreamEvent : Type 0 where
  token_event : Token → StreamEvent
  done_event : FinishSummary → StreamEvent

-- An answer with a status and the text of an error, or the headers of an event stream.
pub data Answer : Type 0 where
  error_answer : ℕ → Error → Answer
  event_stream : Answer

-- `fut.result(timeout)`, none where the time is up first.
unfoldable pub result_of : Option Outcome → Result (Unit {0})
result_of none = raise timeout_error
result_of (some (accepted req_id)) = ok tt
result_of (some (refused e)) = raise e

-- The three clauses that catch; another exception escapes.
unfoldable pub answer_error : Error → Result Answer
answer_error capacity_error = ok (error_answer 400 capacity_error)
answer_error value_error = ok (error_answer 400 value_error)
answer_error engine_stopped = ok (error_answer 503 engine_stopped)
answer_error timeout_error = ok (error_answer 503 timeout_error)
answer_error e = raise e

unfoldable pub respond : Option Outcome → Result Answer
respond outcome = elim (result_of outcome) [ ok _ ↦ ok event_stream | raise e ↦ answer_error e ]

-- How the relay leaves off: it ended, the client was gone, or it waits for another item.
pub data Relayed : Type 0 where
  ended disconnected blocked : Relayed

-- A client that takes `n` more writes, or all of them.
abbrev pub Patience : Type 0
Patience = Option ℕ

-- The loop over the items that the stream is handed. A write to a client that is gone raises
-- BrokenPipeError, which ends the loop.
unfoldable pub relay : Patience → List Item → List StreamEvent × Relayed
relay patience [] = ([], blocked)
relay (some zero) (item ∷ items) = ([], disconnected)
relay none (finish_item summary ∷ items) = (done_event summary ∷ [], ended)
relay none (token_item token ∷ items) =
    let (events, how) = relay none items in (token_event token ∷ events, how)
relay (some (suc n)) (finish_item summary ∷ items) = (done_event summary ∷ [], ended)
relay (some (suc n)) (token_item token ∷ items) =
    let (events, how) = relay (some n) items in (token_event token ∷ events, how)
