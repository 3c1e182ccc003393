-- ===== src/Tests/Engines.antt =====
-- The engine at concrete inputs, as in tests/test_engine.py.
use miniserve.Server.Outcomes.{IsAnswered}
use miniserve.Server.Answered.{respond_total}
use miniserve.Base.{
  float_limit, indicator, ℕ, ◌+◌, ◌<◌, ◌≡◌, refl, none, some, List, [], ◌∷◌, dec_lt, All, arith,
}
use miniserve.Result.{ok, raise, ◌>>=◌}
use miniserve.Engine.State.{Engine, Outcome, Ticket, new_engine}
use miniserve.Engine.Loop.{step_once, finalize_shutdown}
use miniserve.Engine.Tickets.{n_finish, n_queued}
use miniserve.Engine.Contract.{IsServing}
use miniserve.Engine.Serving.{step_once_total}
use miniserve.Engine.Shutdown.{finalize_shutdown_lem}
use miniserve.Engine.Life.{
  Act, turns, stops, act, AsksDivisible, Goes, serve_from, new_engine-IsServing, serve, serve_total,
}
use miniserve.Engine.Life
use miniserve.Scheduler.Drain.{continuous}
use miniserve.Tests.Fixture.{fake_env, fake_env-IsAnswering, program, empty, empty-IsValid}

-- Two requests are queued, the engine turns twice, a third request comes, and the engine stops.
abbrev some_acts : List Act
some_acts =
    Life.submits "a" (7 ∷ 7 ∷ 7 ∷ []) 6 none
    ∷ Life.submits "b" (7 ∷ 7 ∷ 7 ∷ 7 ∷ []) 5 none
    ∷ turns
    ∷ turns
    ∷ Life.submits "c" (7 ∷ []) 1 none
    ∷ stops
    ∷ []

some_acts_divisible : All AsksDivisible some_acts
unfolding float_limit
some_acts_divisible = (omega arith, (omega arith, (tt, (tt, (omega arith, (tt, tt))))))

serve_total_example :
    (g : Engine ℕ) × (serve fake_env continuous (new_engine empty) some_acts ≡ ok g) × IsServing g
unfolding program
serve_total_example =
    serve_total fake_env continuous fake_env-IsAnswering empty some_acts empty-IsValid refl refl
      some_acts_divisible

served :
    Goes fake_env continuous fake_env-IsAnswering
      (serve fake_env continuous (new_engine empty) some_acts)
unfolding program
served =
    serve_from fake_env continuous fake_env-IsAnswering (new_engine empty) some_acts
      (new_engine-IsServing fake_env continuous fake_env-IsAnswering empty empty-IsValid refl refl)
      tt some_acts_divisible

abbrev serving : Engine ℕ
serving = served.0

step_once_total_example :
    (g : Engine ℕ) × (step_once fake_env continuous serving ≡ ok g)
    × IsServing g
    × (g.submissions ≡ [])
step_once_total_example =
    step_once_total fake_env continuous serving served.2 fake_env-IsAnswering served.3

finalize_shutdown_lem_example :
    (g : Engine ℕ) × (finalize_shutdown serving ≡ ok g)
    × (g.submissions ≡ [])
    × (g.streams ≡ [])
    × ((t : Ticket) → t < serving.issued → (o : Outcome) × (g.futures t ≡ some o))
    × ((t : Ticket)
        → n_finish (g.items t) + n_queued t serving.submissions
          ≡ indicator (dec_lt t serving.issued))
finalize_shutdown_lem_example = finalize_shutdown_lem serving served.2

-- The third request was still queued at the stop: after the shutdown its future is resolved, and its
-- stream is empty, while those of the other two have their ends.
abbrev ended : List ℕ
ended = elim (do g ← serve fake_env continuous (new_engine empty) some_acts; finalize_shutdown g) [
  | ok g ↦ n_finish (g.items 0) ∷ n_finish (g.items 1) ∷ n_finish (g.items 2) ∷ []
  | raise e ↦ []
]

queued_has_no_end : ended ≡ 1 ∷ 1 ∷ 0 ∷ []
unfolding program
queued_has_no_end = refl

respond_total_example :
    (g g' : Engine ℕ) × (serve fake_env continuous (new_engine empty) some_acts ≡ ok g)
    × (finalize_shutdown g ≡ ok g')
    × ((t : Ticket) → IsAnswered (g.futures t) × IsAnswered (g'.futures t))
unfolding program
respond_total_example =
    respond_total fake_env continuous fake_env-IsAnswering empty some_acts empty-IsValid refl refl
      some_acts_divisible
