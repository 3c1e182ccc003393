-- ===== src/Tests/Scheduling.antt =====
-- The scheduler at concrete inputs, as in tests/test_scheduler.py.
use miniserve.Base.{
  float_limit, suc, zero, indicator, dec_lt, ℕ_discrete, Option, get_elem?, inr, ℕ, ◌+◌, ◌≤◌, ◌<◌,
  ◌≡◌, ◌*◌, ◌^◌, ◌↔◌, ◌⊎◌, refl, true, false, none, some, List, [], ◌∷◌, String_discrete, length,
  All, arith, count,
}
use miniserve.Result.{ok, raise, value_error, capacity_error, zero_division_error, overflow_error}
use miniserve.KvCache.Storage.{ReqId, check_invariants}
use miniserve.Scheduler.Sequence.{Sequence, Token, youngest_decoded, PreemptionEvent}
use miniserve.Scheduler.State.{Scheduler, Ref, ids}
use miniserve.Scheduler.Submit.{submit}
use miniserve.Scheduler.Preemption.{choose_victim, has_output}
use miniserve.Scheduler.Step.{step}
use miniserve.Scheduler.Heap.{◌∈◌}
use miniserve.Scheduler.Invariant.{IsValid, no_lag}
use miniserve.Scheduler.Safety.{StepsWell, step_total}
use miniserve.Scheduler.Work.{work}
use miniserve.Scheduler.Progress.{step_progress}
use miniserve.Scheduler.Branches.{IsQueued, submit_cases}
use miniserve.Scheduler.Accept.{submit-IsValid}
use miniserve.Scheduler.Accounts.{n_finished, finish_records}
use miniserve.Scheduler.Streams.{IsStreamed}
use miniserve.Scheduler.Reachable.{
  Reaches, submits, steps, fresh_scheduler, Reaches-IsStreamed, Reaches-IsByAge,
  Reaches-check_invariants,
}
use miniserve.Bench.Fake.{
  flat_forward, flat_env, flat_token, one_hot, flat_drain_total, flat_token-get,
}
use miniserve.Bench.Static.{StaticPolicy, static_open, Ready, static_open_iff, static_drain_total}
use miniserve.Scheduler.Drain.{continuous, continuous-IsEager, Drained, drain_total}
use miniserve.Scheduler.Victim.{choose_victim-youngest}
use miniserve.Scheduler.Admit.{AdmitsWell, admit_total}
use miniserve.Tests.Fixture.{
  fake_env, fake_env-IsAnswering, program, empty, one, two, run_steps, or_empty, view, accept_a,
  accept_b, one-IsValid, two-IsValid, work-two, some_request,
}

-- Two requests share three blocks: the younger is preempted, resumes, and both finish.
run_three : view (or_empty (run_steps 3 two)) ≡ (1 ∷ [], 0 ∷ [], 1, 1 ∷ 1 ∷ 1 ∷ [], 2 ∷ [], 1)
unfolding program
run_three = refl

run_eleven :
    view (or_empty (run_steps 11 two))
    ≡ ([], [], 3, 1 ∷ 1 ∷ 1 ∷ 1 ∷ 1 ∷ 0 ∷ [], 2 ∷ 2 ∷ 2 ∷ 2 ∷ 0 ∷ [], 1)
unfolding program
run_eleven = refl

submit-IsValid_example : IsValid no_lag two
submit-IsValid_example =
    submit-IsValid fake_env one "b" (7 ∷ 7 ∷ 7 ∷ 7 ∷ []) 5 none two 1 one-IsValid accept_b

step_total_example : StepsWell fake_env continuous two
step_total_example = step_total fake_env continuous two two-IsValid fake_env-IsAnswering

step_progress_example :
    (s' : Scheduler ℕ) × (step fake_env continuous two ≡ ok s')
    × IsValid no_lag s'
    × (work s' < work two)
    × (s'.max_batch ≡ 4)
unfolding program
step_progress_example =
    step_progress fake_env continuous two two-IsValid fake_env-IsAnswering (omega arith)
      some_request (inr refl)

drain_total_example : Drained fake_env continuous 11 two
unfolding program
drain_total_example =
    drain_total fake_env continuous 11 two two-IsValid fake_env-IsAnswering continuous-IsEager
      (omega arith) (omega (arith, work-two))

admit_total_example : AdmitsWell fake_env (0 ∷ 1 ∷ []) two
unfolding program
admit_total_example = admit_total fake_env (0 ∷ 1 ∷ []) two two-IsValid refl

-- Request "c" asks for more blocks than the cache has.
abbrev prompt_c : List Token
prompt_c = 7 ∷ []

abbrev many : ℕ
many = 12

submit_cases_example :
    (((length prompt_c ≡ 0)
        ⊎ (many ≡ 0)
        ⊎ (0
            < count String_discrete "c" (ids two.heap two.running)
              + count String_discrete "c" (ids two.heap two.waiting)))
      × (submit fake_env two "c" prompt_c many none ≡ raise value_error))
    ⊎ ((0 < length prompt_c)
        × (0 < many)
        × (count String_discrete "c" (ids two.heap two.running)
              + count String_discrete "c" (ids two.heap two.waiting)
            ≡ 0)
        × (((two.kv.block_size ≡ 0)
              × (submit fake_env two "c" prompt_c many none ≡ raise zero_division_error))
            ⊎ ((0 < two.kv.block_size)
                × (float_limit * two.kv.block_size ≤ length prompt_c + many)
                × (submit fake_env two "c" prompt_c many none ≡ raise overflow_error))
            ⊎ ((length prompt_c + many < float_limit * two.kv.block_size)
                × (two.kv.num_blocks * two.kv.block_size < length prompt_c + many)
                × (submit fake_env two "c" prompt_c many none ≡ raise capacity_error))
            ⊎ ((length prompt_c + many < float_limit * two.kv.block_size)
                × (length prompt_c + many ≤ two.kv.num_blocks * two.kv.block_size)
                × ((s' : Scheduler ℕ) × (submit fake_env two "c" prompt_c many none
                      ≡ ok (s', two.seq_counter))
                    × IsQueued fake_env two "c" prompt_c many none s'))))
submit_cases_example = submit_cases fake_env two "c" prompt_c many none

-- One more token than a float can count is no CapacityError.
submit_overflows : submit fake_env two "c" prompt_c (2 ^ 1030) none ≡ raise overflow_error
unfolding program
submit_overflows = refl

submit_too_large : submit fake_env two "c" prompt_c (2 ^ 1000) none ≡ raise capacity_error
unfolding program
submit_too_large = refl

-- Objects that have one token each.
abbrev one_token : Ref → Sequence
one_token r = record (one.heap 0) { seq_no = r; output_ids = 1 ∷ [] }

choose_victim-youngest_example :
    (x : Ref) × (choose_victim one_token (0 ∷ 1 ∷ 2 ∷ []) ≡ ok (x, youngest_decoded))
    × (x ∈ 0 ∷ 1 ∷ 2 ∷ [])
    × (has_output (one_token x) ≡ true)
    × (1 ≤ x)
unfolding program
choose_victim-youngest_example =
    choose_victim-youngest one_token (0 ∷ 1 ∷ 2 ∷ []) 1 (omega arith) refl

abbrev after_one : Scheduler ℕ
after_one = or_empty (run_steps 1 two)

abbrev after_two : Scheduler ℕ
after_two = or_empty (run_steps 2 two)

step_one : step fake_env continuous two ≡ ok after_one
unfolding program
step_one = refl

step_two : step fake_env continuous after_one ≡ ok after_two
unfolding program
step_two = refl

abbrev begin : Scheduler ℕ
begin = fresh_scheduler fake_env 0 1 3 4 true 4 0

-- Two submissions and two steps, the second of which preempts.
after_two-Reaches : Reaches fake_env begin after_two
after_two-Reaches =
    steps after_one after_two continuous
      (steps two after_one continuous
        (submits one two "b" (7 ∷ 7 ∷ 7 ∷ 7 ∷ []) 5 none 1
          (submits empty one "a" (7 ∷ 7 ∷ 7 ∷ []) 6 none 0 Reaches.start accept_a) accept_b)
        step_one)
      step_two

Reaches-IsStreamed_example : IsStreamed after_two
Reaches-IsStreamed_example =
    Reaches-IsStreamed fake_env 0 1 3 4 true 4 0 fake_env-IsAnswering (omega arith) after_two
      after_two-Reaches

Reaches-IsByAge_example :
    All (λ (e : PreemptionEvent). e.reason ≡ youngest_decoded) after_two.preemption_log
Reaches-IsByAge_example =
    Reaches-IsByAge fake_env 0 1 3 4 true 4 0 fake_env-IsAnswering (omega arith) after_two
      after_two-Reaches

Reaches-check_invariants_example :
    (check_invariants after_two.kv ≡ ok tt)
    × ((r : Ref)
        → count ℕ_discrete r after_two.running
            + count ℕ_discrete r after_two.waiting
            + n_finished r after_two.events
          ≡ indicator (dec_lt r after_two.seq_counter))
    × (after_two.metrics.requests ≡ finish_records after_two.events)
    × (length after_two.metrics.requests + length after_two.running + length after_two.waiting
        ≡ after_two.seq_counter)
    × (length after_two.running ≤ after_two.max_batch)
Reaches-check_invariants_example =
    Reaches-check_invariants fake_env 0 1 3 4 true 4 0 fake_env-IsAnswering (omega arith) after_two
      after_two-Reaches

abbrev timer : StaticPolicy
timer = record { flush = false; max_wait = some 2 }

static_open_iff_example :
    ((static_open fake_env timer two).0 ≡ true)
    ↔ ((length two.running ≡ 0) × (0 < length two.waiting) × Ready fake_env timer two)
static_open_iff_example = static_open_iff fake_env timer two

abbrev flushing : StaticPolicy
flushing = record { flush = true; max_wait = none }

static_drain_total_example : Drained fake_env (static_open fake_env flushing) 11 two
unfolding program
static_drain_total_example =
    static_drain_total fake_env flushing 11 two two-IsValid fake_env-IsAnswering refl (omega arith)
      (omega (arith, work-two))

-- The index of the first entry that is not zero.
abbrev first_one : List ℕ → Token
first_one [] = 0
first_one (zero ∷ xs) = suc (first_one xs)
first_one (suc n ∷ xs) = 0

flat_drain_total_example :
    ((qs : List Sequence) → (out : ReqId → Option (List ℕ)) × (flat_forward 16 qs ≡ ok out))
    × Drained (flat_env 16 1 suc first_one) continuous 11 two
unfolding program
flat_drain_total_example =
    flat_drain_total 16 1 suc first_one continuous 11 two two-IsValid continuous-IsEager
      (omega arith) (omega (arith, work-two)) (omega arith)

flat_token-get_example :
    (get_elem? (one_hot 16 (flat_token (two.heap 0))) (flat_token (two.heap 0)) ≡ some 1)
    × (get_elem? (one_hot 16 (flat_token (two.heap 0))) 0 ≡ some 0)
flat_token-get_example = flat_token-get 16 (two.heap 0) (omega arith)
