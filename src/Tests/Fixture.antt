-- ===== src/Tests/Fixture.antt =====
-- A fake model like that of tests/test_scheduler.py, and a scheduler with two requests.
use miniserve.Base.{
  float_limit, ℕ, zero, suc, ◌+◌, ◌<◌, ◌≡◌, refl, true, none, some, List, [], ◌∷◌, String_discrete,
  ite, get_elem?, dec_lt, dec_le, ℕ_discrete, ceil_div, length, All, arith,
}
use mathlib.Core.Option
use miniserve.Result.{Result, ok, raise, ◌>>=◌}
use miniserve.Dict.{lookup, insert, delete}
use miniserve.KvCache.Storage
use miniserve.KvCache.Storage.{
  ReqId, BlockId, PagedKvCache, Layer, free, allocate, append_block, check_invariants, all_ids,
}
use miniserve.KvCache.Conservation.{init-IsConserved}
use miniserve.KvCache.Check.{call, run}
use miniserve.Metrics.{record_step, record_request}
use miniserve.Scheduler.Sequence.{Sequence, is_finished}
use miniserve.Scheduler.State.{Env, Scheduler, update, init, blocks_for}
use miniserve.Scheduler.Submit.{has_id, submit, submitted}
use miniserve.Scheduler.Preemption.{youngest_from, youngest, choose_victim, preempt, make_room}
use miniserve.Scheduler.Step.{
  start_decode, emit, admit, sampled, finish, retry_grow, grow, settle, advance, advance_all,
  run_batch, step,
}
use miniserve.Scheduler.Invariant.{IsValid, no_lag}
use miniserve.Scheduler.Safety.{IsAnswering}
use miniserve.Scheduler.Work.{work}
use miniserve.Scheduler.Accept.{submit-IsValid, init-IsValid}
use miniserve.Engine.State
use miniserve.Engine.State.{Engine, Item, Outcome, Ticket, new_engine, set_at}
use miniserve.Engine.Loop
use miniserve.Engine.Loop.{
  handle, handle_all, admit_all, step_once, run_once, refuse_all, abort_all, finalize_shutdown,
  find_id, n_output,
}
use miniserve.Engine.Life.{act, serve}
use miniserve.Scheduler.Drain.{continuous, drain}

-- A model that answers with a script to each request, and then with the end of the text.
abbrev pub script : ReqId → List ℕ
script r = ite (String_discrete r "a") (1 ∷ 1 ∷ 1 ∷ 1 ∷ 1 ∷ 0 ∷ []) (2 ∷ 2 ∷ 2 ∷ 2 ∷ 0 ∷ [])

abbrev pub fake_token : List Sequence → ReqId → ℕ
fake_token [] r = 0
fake_token (q ∷ qs) r =
    ite (String_discrete q.req_id r) (Option.get_or (get_elem? (script r) (length q.output_ids)) 0)
      (fake_token qs r)

abbrev pub fake_env : Env ℕ ℕ
fake_env = record {
  nan = 1;
  clock = λ n. suc n;
  forward = λ qs kv. (λ r. some (fake_token qs r), kv.layers);
  argmax = λ t. t;
}

pub fake_answers :
    (tokens : ReqId → ℕ) (qs : List Sequence)
    → All (λ (q : Sequence). (l : ℕ) × (some (tokens q.req_id) ≡ some l)) qs
fake_answers tokens [] = tt
fake_answers tokens (q ∷ qs) = ((tokens q.req_id, refl), fake_answers tokens qs)

pub fake_env-IsAnswering : IsAnswering fake_env
fake_env-IsAnswering = record { answers = λ qs kv. fake_answers (fake_token qs) qs }

unfoldable pub program : Unit {0}
unfolding lookup insert delete new_engine State.submit State.resolve set_at Loop.admit admit_all
    step_once run_once handle handle_all refuse_all abort_all finalize_shutdown find_id n_output act
    serve String_discrete dec_lt dec_le ℕ_discrete ceil_div Storage.range_from
    Storage.replicate_layers Storage.init Storage.held Storage.popleft_n Storage.free_count
    Storage.used_count Storage.allocate Storage.append_to Storage.append_block Storage.poison
    Storage.fill Storage.free Storage.check_invariants Storage.set_size call run drain record_step
    record_request is_finished update init has_id submit blocks_for float_limit youngest_from
    youngest choose_victim preempt make_room start_decode emit admit sampled finish retry_grow grow
    settle advance advance_all run_batch step
program = tt

abbrev pub cache : ℕ → PagedKvCache ℕ
cache num_blocks = Storage.init 0 1 num_blocks 4 true

abbrev pub empty : Scheduler ℕ
empty = init (cache 3) 4 0

abbrev pub one : Scheduler ℕ
one = submitted fake_env empty "a" (7 ∷ 7 ∷ 7 ∷ []) 6 none

abbrev pub two : Scheduler ℕ
two = submitted fake_env one "b" (7 ∷ 7 ∷ 7 ∷ 7 ∷ []) 5 none

abbrev pub run_steps : ℕ → Scheduler ℕ → Result (Scheduler ℕ)
run_steps zero s = ok s
run_steps (suc n) s = do s' ← step fake_env continuous s; run_steps n s'

abbrev pub or_empty : Result (Scheduler ℕ) → Scheduler ℕ
or_empty (ok s) = s
or_empty (raise e) = empty

-- What a run leaves: the queues, the number of free blocks, both outputs, and how many preemptions.
abbrev pub View : Type 0
View = List ℕ × List ℕ × ℕ × List ℕ × List ℕ × ℕ

abbrev pub view : Scheduler ℕ → View
view s = (
  s.waiting,
  s.running,
  length s.kv.free_blocks,
  (s.heap 0).output_ids,
  (s.heap 1).output_ids,
  s.preemptions_total,
)

-- The two requests are accepted, one after the other.
pub empty-IsValid : IsValid no_lag empty
unfolding program
empty-IsValid = init-IsValid (cache 3) 4 0 (init-IsConserved 0 1 3 4 true) (omega arith) refl

pub accept_a : submit fake_env empty "a" (7 ∷ 7 ∷ 7 ∷ []) 6 none ≡ ok (one, 0)
unfolding program
accept_a = refl

pub accept_b : submit fake_env one "b" (7 ∷ 7 ∷ 7 ∷ 7 ∷ []) 5 none ≡ ok (two, 1)
unfolding program
accept_b = refl

pub one-IsValid : IsValid no_lag one
one-IsValid = submit-IsValid fake_env empty "a" (7 ∷ 7 ∷ 7 ∷ []) 6 none one 0 empty-IsValid accept_a

pub two-IsValid : IsValid no_lag two
two-IsValid = submit-IsValid fake_env one "b" (7 ∷ 7 ∷ 7 ∷ 7 ∷ []) 5 none two 1 one-IsValid accept_b

-- There are eleven tokens to ask for.
pub work-two : work two ≡ 11
unfolding program
work-two = refl

pub some_request : 0 < length two.running + length two.waiting
unfolding program
some_request = omega arith
