-- ===== src/Server/Answered.antt =====
-- The handler of miniserve/server.py over the engine of miniserve/engine.py: how a future can come out.
use miniserve.Base.{
  ℕ, ◌+◌, ◌≡◌, inl, inr, refl, sym, Bool, Option, some, List, [], ◌∷◌, Option-cases, Bool-cases,
  ltb, length, All,
}
use mathlib.Core.Path.{subst}
use miniserve.Result.{
  Ensures, Ensures-bind, Ensures-any, Ensures-if, Result-cases, engine_stopped, ok, ◌>>=◌,
}
use miniserve.Dict.{lookup, insert}
use miniserve.KvCache.Storage.{ReqId}
use miniserve.Scheduler.Sequence.{Token, SamplingParams}
use miniserve.Scheduler.State.{Event, on_token, on_finish, Env, Scheduler}
use miniserve.Scheduler.Submit
use miniserve.Scheduler.Step.{step}
use miniserve.Engine.State.{
  Ticket, Outcome, accepted, refused, Submission, Engine, new_engine, resolve, submit, issue,
  refusal_sentinel,
}
use miniserve.Engine.Loop.{
  is_value_error, handle, handle_all, admit, admit_all, step_once, run_once, refuse_all, abort_all,
  finalize_shutdown,
}
use miniserve.Engine.Life.{AsksDivisible, Act, submits, turns, stops, act, serve, serve_total}
use miniserve.Engine.Shutdown.{finalize_shutdown_lem}
use miniserve.Scheduler.Invariant.{IsValid, no_lag}
use miniserve.Scheduler.Safety.{IsAnswering}
use miniserve.Server.Outcomes.{
  IsAnswered, waiting-IsAnswered, accepted-IsAnswered, stopped-IsAnswered, refused-IsAnswered,
  set-IsAnswered,
}

module _ {T : Type 0} where
  -- Each future has come out in a way that the handler answers.
  abbrev AllAnswered : Engine T → Type 0
  AllAnswered g = (t : Ticket) → IsAnswered (g.futures t)

  resolve-AllAnswered :
      (g : Engine T) (t : Ticket) (o : Outcome)
      → AllAnswered g
      → IsAnswered (some o)
      → Ensures AllAnswered (resolve g t o)
  unfolding resolve
  resolve-AllAnswered g t o all fine = elim (Option-cases (g.futures t)) [
    | inl unresolved ↦
        rw (resolve, unresolved) (λ t'. set-IsAnswered g.futures t o t' (all t') fine)
    | inr (before, e) ↦ rw (resolve, e) tt
  ]

  handle-AllAnswered : (g : Engine T) (e : Event) → AllAnswered g → Ensures AllAnswered (handle g e)
  unfolding handle
  handle-AllAnswered g (on_token req_id t) all = elim (Option-cases (lookup req_id g.streams)) [
    | inl gone ↦ rw (handle, gone) tt
    | inr (ticket, there) ↦ rw (handle, there) all
  ]
  handle-AllAnswered g (on_finish q) all = elim (Option-cases (lookup q.req_id g.streams)) [
    | inl gone ↦ rw (handle, gone) tt
    | inr (ticket, there) ↦ rw (handle, there) all
  ]

  handle_all-AllAnswered :
      (events : List Event) (g : Engine T)
      → AllAnswered g
      → Ensures AllAnswered (handle_all events g)
  unfolding handle_all
  handle_all-AllAnswered [] g all = all
  handle_all-AllAnswered (e ∷ events) g all =
      Ensures-bind AllAnswered AllAnswered (handle_all events g) (λ g'. handle g' e)
        (handle_all-AllAnswered events g all) (λ g' all'. handle-AllAnswered g' e all')

  refuse_all-AllAnswered :
      (items : List Submission) (g : Engine T)
      → AllAnswered g
      → Ensures AllAnswered (refuse_all items g)
  unfolding refuse_all
  refuse_all-AllAnswered [] g all = all
  refuse_all-AllAnswered (item ∷ rest) g all =
      Ensures-bind AllAnswered AllAnswered
        (resolve (record g { submissions = rest }) item.ticket (refused engine_stopped))
        (refuse_all rest)
        (resolve-AllAnswered (record g { submissions = rest }) item.ticket (refused engine_stopped)
          all stopped-IsAnswered)
        (λ g' all'. refuse_all-AllAnswered rest g' all')

  submit-AllAnswered :
      (g : Engine T) (r : ReqId) (prompt_ids : List Token) (max_tokens : ℕ)
      (sampling : Option SamplingParams)
      → AllAnswered g
      → Ensures (λ a. AllAnswered a.0) (submit g r prompt_ids max_tokens sampling)
  unfolding submit
  submit-AllAnswered g r prompt_ids max_tokens sampling all =
      Ensures-if (λ (a : Engine T × Ticket). AllAnswered a.0) g.stopped
        (do
          g' ← resolve (issue g) g.issued (refused engine_stopped)
          ok (refusal_sentinel g' r g.issued, g.issued))
        _
        (Ensures-bind AllAnswered (λ a. AllAnswered a.0)
          (resolve (issue g) g.issued (refused engine_stopped))
          (λ g'. ok (refusal_sentinel g' r g.issued, g.issued))
          (resolve-AllAnswered (issue g) g.issued (refused engine_stopped) all stopped-IsAnswered)
          (λ g' all'. all'))
        all

  abort_all-futures :
      (streams : List (ReqId × Ticket)) (g : Engine T) → (abort_all streams g).futures ≡ g.futures
  unfolding abort_all
  abort_all-futures [] g = refl
  abort_all-futures ((r, t) ∷ streams) g = abort_all-futures streams _

  finalize_shutdown-AllAnswered :
      (g : Engine T) → AllAnswered g → Ensures AllAnswered (finalize_shutdown g)
  unfolding finalize_shutdown
  finalize_shutdown-AllAnswered g all =
      Ensures-bind AllAnswered AllAnswered (refuse_all g.submissions g)
        (λ g'. ok (record (abort_all g'.streams g') { streams = [] }))
        (refuse_all-AllAnswered g.submissions g all)
        (λ g' all' t.
          subst (λ f. IsAnswered (f t)) (sym (abort_all-futures g'.streams g')) (all' t))

  module _ {L : Type 0} (env : Env T L) where
    admit-AllAnswered :
        (g : Engine T) (item : Submission) → AllAnswered g → Ensures AllAnswered (admit env g item)
    unfolding admit
    admit-AllAnswered g item all =
        elim (Result-cases (
          Submit.submit env g.scheduler item.req_id item.prompt_ids item.max_tokens
            item.sampling)) [
              | inl ((s, r), e) ↦
                  rw (admit, e)
                    (resolve-AllAnswered
                      (record g {
                        scheduler = s;
                        streams = insert item.req_id item.ticket g.streams;
                      })
                      item.ticket (accepted item.req_id) all (accepted-IsAnswered item.req_id))
              | inr (x, e) ↦ elim (Bool-cases (is_value_error x)) [
                | inl t ↦
                    rw (admit, e, t)
                      (Ensures-bind AllAnswered AllAnswered (resolve g item.ticket (refused x))
                        (λ g'. ok (refusal_sentinel g' item.req_id item.ticket))
                        (resolve-AllAnswered g item.ticket (refused x) all (refused-IsAnswered x t))
                        (λ g' all'. all'))
                | inr f ↦ rw (admit, e, f) tt
              ]
            ]

    admit_all-AllAnswered :
        (items : List Submission) (g : Engine T)
        → AllAnswered g
        → Ensures AllAnswered (admit_all env items g)
    unfolding admit_all
    admit_all-AllAnswered [] g all = all
    admit_all-AllAnswered (item ∷ rest) g all =
        Ensures-bind AllAnswered AllAnswered (admit env (record g { submissions = rest }) item)
          (admit_all env rest) (admit-AllAnswered (record g { submissions = rest }) item all)
          (λ g' all'. admit_all-AllAnswered rest g' all')

    module _ (hook : Scheduler T → Bool × ℕ) where
      step_once-AllAnswered :
          (g : Engine T) → AllAnswered g → Ensures AllAnswered (step_once env hook g)
      unfolding step_once
      step_once-AllAnswered g all =
          Ensures-bind AllAnswered AllAnswered (admit_all env g.submissions g)
            (λ g'. do
              s ← step env hook (record g'.scheduler { events = [] })
              handle_all s.events (record g' { scheduler = s }))
            (admit_all-AllAnswered g.submissions g all)
            (λ g' all'.
              Ensures-bind (λ s. Unit {0}) AllAnswered
                (step env hook (record g'.scheduler { events = [] }))
                (λ s. handle_all s.events (record g' { scheduler = s }))
                (Ensures-any (step env hook (record g'.scheduler { events = [] })))
                (λ s u. handle_all-AllAnswered s.events (record g' { scheduler = s }) all'))

      act-AllAnswered :
          (g : Engine T) (a : Act) → AllAnswered g → Ensures AllAnswered (act env hook g a)
      unfolding act run_once
      act-AllAnswered g (submits r prompt_ids max_tokens sampling) all =
          Ensures-bind (λ a. AllAnswered a.0) AllAnswered
            (submit g r prompt_ids max_tokens sampling) (λ a. ok a.0)
            (submit-AllAnswered g r prompt_ids max_tokens sampling all) (λ a all'. all')
      act-AllAnswered g turns all =
          Ensures-if AllAnswered
            (ltb 0 (length g.scheduler.waiting + length g.scheduler.running + length g.submissions))
            (step_once env hook g) (ok g) (step_once-AllAnswered g all) all
      act-AllAnswered g stops all = all

      serve-AllAnswered :
          (g : Engine T) (acts : List Act)
          → AllAnswered g
          → Ensures AllAnswered (serve env hook g acts)
      unfolding serve
      serve-AllAnswered g [] all = all
      serve-AllAnswered g (a ∷ acts) all =
          Ensures-bind AllAnswered AllAnswered (act env hook g a) (λ g'. serve env hook g' acts)
            (act-AllAnswered g a all) (λ g' all'. serve-AllAnswered g' acts all')

      -- For an engine over a valid scheduler without requests, with a model that answers,
      -- after any order of submissions, turns of the loop and stops in which the prompt
      -- length and max_tokens of each submission sum to less than the least quotient that
      -- no float holds, and also after the shutdown that follows, nothing has been raised,
      -- and the handler has an answer to every future, resolved or not, and opens an event
      -- stream exactly for one that was accepted.
      pub respond_total :
          IsAnswering env
          → (s : Scheduler T) (acts : List Act) → IsValid no_lag s
          → s.running ≡ []
          → s.waiting ≡ []
          → All AsksDivisible acts
          → (g g' : Engine T) × (serve env hook (new_engine s) acts ≡ ok g)
            × (finalize_shutdown g ≡ ok g')
            × ((t : Ticket) → IsAnswered (g.futures t) × IsAnswered (g'.futures t))
      unfolding new_engine
      respond_total answering s acts v r w small =
          let (g, run, p) = serve_total env hook answering s acts v r w small in
          let (g', close, _, _, _, _) = finalize_shutdown_lem g p in
          let all : AllAnswered g =
            subst (Ensures AllAnswered) run
              (serve-AllAnswered (new_engine s) acts (λ t. waiting-IsAnswered)) in
          let all' : AllAnswered g' =
            subst (Ensures AllAnswered) close (finalize_shutdown-AllAnswered g all) in
          (g, g', run, close, λ t. (all t, all' t))
