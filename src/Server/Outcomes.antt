-- ===== src/Server/Outcomes.antt =====
-- The answers of the handler of miniserve/server.py to the outcomes of a future.
use miniserve.Base.{◌≡◌, ◌↔◌, refl, true, Option, none, some, ℕ_discrete, if_pos, if_neg}
use miniserve.Result.{
  Error, value_error, capacity_error, key_error, index_error, runtime_error, invariant_violation,
  engine_stopped, invalid_state, queue_empty, zero_division_error, attribute_error, type_error,
  overflow_error, timeout_error, recursion_error, ok,
}
use miniserve.KvCache.Storage.{ReqId}
use miniserve.Engine.State.{Ticket, Outcome, accepted, refused, set_at}
use miniserve.Engine.Loop.{is_value_error}
use miniserve.Server.Respond.{Answer, error_answer, event_stream, result_of, answer_error, respond}

-- The handler has an answer, and opens a stream exactly for a request that was accepted.
abbrev pub IsAnswered : Option Outcome → Type 0
IsAnswered outcome =
    (answer : Answer) × (respond outcome ≡ ok answer)
    × ((answer ≡ event_stream) ↔ ((r : ReqId) × (outcome ≡ some (accepted r))))

pub waiting-IsAnswered : IsAnswered none
unfolding respond result_of answer_error
waiting-IsAnswered = (error_answer 503 timeout_error, refl, (λ e. cc, λ (r, e). cc))

pub accepted-IsAnswered : (r : ReqId) → IsAnswered (some (accepted r))
unfolding respond result_of
accepted-IsAnswered r = (event_stream, refl, (λ e. (r, refl), λ e. refl))

pub stopped-IsAnswered : IsAnswered (some (refused engine_stopped))
unfolding respond result_of answer_error
stopped-IsAnswered = (error_answer 503 engine_stopped, refl, (λ e. cc, λ (r, e). cc))

pub refused-IsAnswered : (e : Error) → is_value_error e ≡ true → IsAnswered (some (refused e))
unfolding respond result_of answer_error
refused-IsAnswered value_error h = (error_answer 400 value_error, refl, (λ e. cc, λ (r, e). cc))
refused-IsAnswered capacity_error h =
    (error_answer 400 capacity_error, refl, (λ e. cc, λ (r, e). cc))
refused-IsAnswered key_error h = cc
refused-IsAnswered index_error h = cc
refused-IsAnswered runtime_error h = cc
refused-IsAnswered invariant_violation h = cc
refused-IsAnswered engine_stopped h = cc
refused-IsAnswered invalid_state h = cc
refused-IsAnswered queue_empty h = cc
refused-IsAnswered zero_division_error h = cc
refused-IsAnswered attribute_error h = cc
refused-IsAnswered type_error h = cc
refused-IsAnswered overflow_error h = cc
refused-IsAnswered timeout_error h = cc
refused-IsAnswered recursion_error h = cc

pub set-IsAnswered :
    (futures : Ticket → Option Outcome) (t : Ticket) (o : Outcome) (t' : Ticket)
    → IsAnswered (futures t')
    → IsAnswered (some o)
    → IsAnswered (set_at futures t (some o) t')
unfolding set_at
set-IsAnswered futures t o t' before fine = elim (ℕ_discrete t' t) [
  | yes p ↦ rw (if_pos _ p) fine
  | no n ↦ rw (if_neg _ n) before
]
