-- ===== src/Bench/Run.antt =====
-- miniserve/bench/run.py: what a collector reads off its stream, and the summary of a run. The driver's
-- threads, its sleeps and its clock are not modelled: a stream is the list of its items with the times at
-- which they were read. Times are ticks from the start of the run.
pub mod Results
use miniserve.Base.{
  ℕ, zero, suc, ◌+◌, ◌-◌, ◌*◌, ◌/◌, ◌%◌, ◌≤◌, ◌<◌, ◌≡◌, ◌↔◌, ◌⊎◌, inl, inr, refl, Bool, true, false,
  not, ◌&&◌, Option, none, some, List, [], ◌∷◌, map, ite, ltb, leb, ◌==◌, if◌then◌else◌, length,
  get_elem?, arith, ap, sym, ◌∙◌, All, Bool-cases,
}
use mathlib.Core.Option
use miniserve.Result.{index_error, Result, ok, raise, ◌>>=◌}
use miniserve.KvCache.Storage.{ReqId}
use miniserve.Scheduler.Sequence.{Time}
use miniserve.Scheduler.Step.{sum}
use miniserve.Engine.State.{Item, token_item, finish_item, FinishSummary}

pub record RequestResult : Type 0 where
  pub req_id : ReqId
  pub submitted_s : Time
  pub sched_lag_s : Time
  pub first_token_s : Option Time
  pub done_s : Option Time
  pub output_tokens : ℕ
  pub aborted : Bool

abbrev pub result_ttft_s : RequestResult → Option Time
result_ttft_s r = Option.map (λ t. t - r.submitted_s) r.first_token_s

abbrev pub latency_s : RequestResult → Option Time
latency_s r = Option.map (λ t. t - r.submitted_s) r.done_s

-- `if first is None: first = now`
abbrev pub or_now : Option Time → Time → Option Time
or_now none now = some now
or_now (some t) now = some t

-- The loop of `collect`. It waits for ever on a stream that has no end.
unfoldable pub collect :
    ReqId → Time → Time → Option Time → List (Time × Item) → Option RequestResult
collect req_id submitted lag first [] = none
collect req_id submitted lag first ((now, token_item t) ∷ rest) =
    collect req_id submitted lag (or_now first now) rest
collect req_id submitted lag first ((now, finish_item payload) ∷ rest) = some (record {
  req_id = req_id;
  submitted_s = submitted;
  sched_lag_s = lag;
  first_token_s = first;
  done_s = some now;
  output_tokens = payload.output_tokens;
  aborted = payload.aborted;
})

-- `sorted(values)`
unfoldable pub insert_sorted : ℕ → List ℕ → List ℕ
insert_sorted x [] = x ∷ []
insert_sorted x (y ∷ ys) = let rest = insert_sorted x ys in if leb x y then x ∷ y ∷ ys else y ∷ rest

unfoldable pub sorted : List ℕ → List ℕ
sorted [] = []
sorted (x ∷ xs) = insert_sorted x (sorted xs)

-- `round(a / d)`: to the nearest, and to the even one of two.
unfoldable pub round_div : ℕ → ℕ → ℕ
round_div a d =
    let q = a / d in
    let r = a % d * 2 in
    if ltb r d then q else if ltb d r then suc q else if q % 2 == 0 then q else suc q

abbrev pub min_of : ℕ → ℕ → ℕ
min_of a b = if leb a b then a else b

-- `p` is a number of hundredths; Python's index error for an empty list is the `none` of the look-up.
unfoldable pub percentile : List ℕ → ℕ → Result ℕ
percentile values p =
    elim (get_elem? (sorted values)
      (min_of (length values - 1) (round_div (p * (length values - 1)) 100))) [
        | none ↦ raise index_error
        | some v ↦ ok v
      ]

-- `r.done_s is not None`
abbrev pub has_time : Option Time → Bool
has_time none = false
has_time (some t) = true

abbrev pub is_counted : RequestResult → Bool
is_counted r = not r.aborted && has_time r.done_s

abbrev pub finished_results : List RequestResult → List RequestResult
finished_results [] = []
finished_results (r ∷ rs) =
    let rest = finished_results rs in if is_counted r then r ∷ rest else rest

abbrev pub n_aborted : List RequestResult → ℕ
n_aborted [] = 0
n_aborted (r ∷ rs) = let rest = n_aborted rs in if r.aborted then suc rest else rest

-- The entries that are there.
abbrev pub present : List (Option ℕ) → List ℕ
present [] = []
present (none ∷ xs) = present xs
present (some x ∷ xs) = x ∷ present xs

-- `max(values, default=0.0)`
abbrev pub max_or_zero : List ℕ → ℕ
max_or_zero [] = 0
max_or_zero (x ∷ xs) = let rest = max_or_zero xs in if leb x rest then rest else x

-- `percentile(values, p) if values else None`
unfoldable pub percentile_of : List ℕ → ℕ → Result (Option ℕ)
percentile_of [] p = ok none
percentile_of (x ∷ xs) p = do v ← percentile (x ∷ xs) p; ok (some v)

-- The quotients are fractions: the numerator and the denominator.
pub record Summary : Type 0 where
  pub n_finished : ℕ
  pub n_aborted : ℕ
  pub run_valid_for_chart : Bool
  pub total_output_tokens : ℕ
  pub makespan_s : Time
  pub throughput_tok_s : ℕ × ℕ
  pub ttft_p50_s : Option Time
  pub ttft_p95_s : Option Time
  pub latency_p95_s : Option Time
  pub sched_lag_p95_s : Option Time
  pub sched_lag_max_s : Option Time
  pub output_tokens_mean : ℕ × ℕ

-- `n / d if d > 0 else 0.0`
abbrev pub quotient : ℕ → ℕ → ℕ × ℕ
quotient n zero = (0, 1)
quotient n (suc d) = (n, suc d)

abbrev pub max_of : List ℕ → Option ℕ
max_of [] = none
max_of (x ∷ xs) = some (max_or_zero (x ∷ xs))

-- The dict that is returned, from the four percentiles.
abbrev pub summary : List RequestResult → Option ℕ → Option ℕ → Option ℕ → Option ℕ → Summary
summary results ttft_p50 ttft_p95 latency_p95 lag_p95 =
    let finished = finished_results results in
    let total_tokens = sum (map (λ r. r.output_tokens) finished) in
    let makespan = max_or_zero (present (map (λ r. r.done_s) results)) in
    record {
      n_finished = length finished;
      n_aborted = n_aborted results;
      run_valid_for_chart = n_aborted results == 0 && length finished == length results;
      total_output_tokens = total_tokens;
      makespan_s = makespan;
      throughput_tok_s = quotient total_tokens makespan;
      ttft_p50_s = ttft_p50;
      ttft_p95_s = ttft_p95;
      latency_p95_s = latency_p95;
      sched_lag_p95_s = lag_p95;
      sched_lag_max_s = max_of (map (λ r. r.sched_lag_s) results);
      output_tokens_mean = quotient total_tokens (length finished);
    }

unfoldable pub summarize : List RequestResult → Result Summary
summarize results = do
  let finished = finished_results results
  ttft_p50 ← percentile_of (present (map result_ttft_s finished)) 50
  ttft_p95 ← percentile_of (present (map result_ttft_s finished)) 95
  latency_p95 ← percentile_of (present (map latency_s finished)) 95
  lag_p95 ← percentile_of (map (λ r. r.sched_lag_s) results) 95
  ok (summary results ttft_p50 ttft_p95 latency_p95 lag_p95)
