-- ===== src/Tests/Workloads.antt =====
-- The workload generator and the check of a fit at concrete inputs, as in tests/test_bench.py and tests/test_calibrate.py.
use miniserve.Base.{
  ℕ, ◌<◌, ◌≡◌, refl, inr, Bool, true, ◌↔◌, pos, some, List, [], ◌∷◌, map, All, length, get_elem?,
  count, ℕ_discrete, arith,
}
use miniserve.Result.{ok}
use miniserve.Model.Torch.{zip_with}
use miniserve.Bench.Calibrate.{
  sign_of, residual_loop, residual_structure, HasRun, residual_structure_iff,
}
use miniserve.Bench.Workload.Generate.{Arrival, WorkloadSpec, Rng, generate}
use miniserve.Bench.Workload.Profile.{window, realized_burst_profile}
use miniserve.Bench.Workload.Schedule.{IsRandom, IsSound, IsArrival, IsOrdered, generate_total}
use miniserve.Bench.Workload.Windows.{realized_burst_profile_total}

abbrev rng : Rng
rng = record {
  expovariate = λ n rate. 2;
  randint = λ n lo hi. lo;
  random = λ n. record { num = 3; den = 4 };
  randrange = λ n lo hi. lo;
  format = λ n. "req";
}

rng-IsRandom : IsRandom rng
rng-IsRandom = record {
  in_range = λ n lo hi h. (omega arith, h);
  below_one = λ n. omega arith;
  from_to = λ n lo hi h. (omega arith, h);
}

abbrev spec : WorkloadSpec
spec = record {
  n_requests = 3;
  rate_rps = record { num = 4; den = 1 };
  prompt_len = (8, 64);
  output_mix = (700, 4, 32) ∷ (300, 48, 128) ∷ [];
  burst_factor = record { num = 3; den = 1 };
  burst_period_s = 4;
  vocab = 1000;
}

spec-IsSound : IsSound spec
spec-IsSound = record {
  weights = refl;
  ranges = (omega arith, (omega arith, tt));
  prompts = omega arith;
  tokens = omega arith;
  rate = omega arith;
  factor = omega arith;
  period = inr (omega arith);
}

generate_total_example :
    (schedule : List Arrival) × (generate rng spec ≡ ok schedule)
    × (length schedule ≡ 3)
    × IsOrdered 0 schedule
    × All (IsArrival spec) schedule
generate_total_example = generate_total rng rng-IsRandom spec spec-IsSound

abbrev at : ℕ → Arrival
at t = record { at_s = t; req_id = "req"; prompt_ids = []; max_tokens = 1 }

abbrev schedule : List Arrival
schedule = at 2 ∷ at 4 ∷ at 13 ∷ []

realized_burst_profile_total_example :
    (counts : List ℕ) × (realized_burst_profile schedule 4 ≡ ok counts)
    × ((j : ℕ)
        → j < length counts
        → get_elem? counts j ≡ some (count ℕ_discrete j (map (window 4) schedule)))
    × All (λ a. window 4 a < length counts) schedule
realized_burst_profile_total_example =
    realized_burst_profile_total schedule 4 (omega arith, (omega arith, (omega arith, tt)))
      (omega arith)

-- A knee: four fitted times in a row are too high.
residual_structure_iff_example :
    (b : Bool) × (residual_structure
        (100 ∷ 100 ∷ 200 ∷ 300 ∷ 400 ∷ [])
        (pos 90 ∷ pos 110 ∷ pos 220 ∷ pos 330 ∷ pos 440 ∷ [])
      ≡ ok b)
    × ((b ≡ true)
        ↔ HasRun (
            zip_with sign_of
              (100 ∷ 100 ∷ 200 ∷ 300 ∷ 400 ∷ [])
              (pos 90 ∷ pos 110 ∷ pos 220 ∷ pos 330 ∷ pos 440 ∷ [])))
residual_structure_iff_example =
    residual_structure_iff (100 ∷ 100 ∷ 200 ∷ 300 ∷ 400 ∷ [])
      (pos 90 ∷ pos 110 ∷ pos 220 ∷ pos 330 ∷ pos 440 ∷ []) refl

knee :
    residual_structure
      (100 ∷ 100 ∷ 200 ∷ 300 ∷ 400 ∷ [])
      (pos 90 ∷ pos 110 ∷ pos 220 ∷ pos 330 ∷ pos 440 ∷ [])
    ≡ ok true
unfolding residual_loop sign_of
knee = refl
