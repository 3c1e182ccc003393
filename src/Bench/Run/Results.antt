-- ===== src/Bench/Run/Results.antt =====
-- What a collector and the summary of miniserve/bench/run.py report.
use miniserve.Base.{
  ℕ, zero, suc, ◌+◌, ◌-◌, ◌*◌, ◌≤◌, ◌<◌, ◌≡◌, ◌↔◌, inl, inr, refl, true, ◌&&◌, Option, none, some,
  List, [], ◌∷◌, ◌++◌, map, ◌==◌, length, get_elem?, arith, ap, ◌∙◌, All, Bool-cases,
}
use miniserve.Result.{ok}
use miniserve.KvCache.Storage.{ReqId}
use miniserve.Scheduler.Sequence.{Time, Token}
use miniserve.Engine.State.{Item, token_item, finish_item, FinishSummary}
use miniserve.Bench.Run.{
  RequestResult, result_ttft_s, latency_s, collect, insert_sorted, sorted, round_div, min_of,
  percentile, percentile_of, is_counted, finished_results, n_aborted, present, Summary, summary,
  summarize,
}

-- A stream of tokens alone.
abbrev pub tokens : List (Time × Token) → List (Time × Item)
tokens [] = []
tokens ((now, t) ∷ ts) = (now, token_item t) ∷ tokens ts

-- The time of the first token.
abbrev pub earliest : List (Time × Token) → Option Time
earliest [] = none
earliest ((now, t) ∷ ts) = some now

module _ (req_id : ReqId) (submitted lag now : Time) (payload : FinishSummary)
    (rest : List (Time × Item)) where
  abbrev pub collected : Option Time → RequestResult
  collected first = record {
    req_id = req_id;
    submitted_s = submitted;
    sched_lag_s = lag;
    first_token_s = first;
    done_s = some now;
    output_tokens = payload.output_tokens;
    aborted = payload.aborted;
  }

  collect_after :
      (t : Time) (ts : List (Time × Token))
      → collect req_id submitted lag (some t) (tokens ts ++ (now, finish_item payload) ∷ rest)
        ≡ some (collected (some t))
  unfolding collect
  collect_after t [] = refl
  collect_after t ((u, x) ∷ ts) = collect_after t ts

  -- Of a stream of tokens with an end, whatever follows, a collector reports the time of the
  -- first token, or none without tokens, and the time, the count and the abort mark of the
  -- end.
  pub collect_lem :
      (ts : List (Time × Token))
      → collect req_id submitted lag none (tokens ts ++ (now, finish_item payload) ∷ rest)
        ≡ some (collected (earliest ts))
  unfolding collect
  collect_lem [] = refl
  collect_lem ((u, x) ∷ ts) = collect_after u ts

length-insert_sorted : (x : ℕ) (ys : List ℕ) → length (insert_sorted x ys) ≡ suc (length ys)
unfolding insert_sorted
length-insert_sorted x [] = refl
length-insert_sorted x (y ∷ ys) = ground (arith, length-insert_sorted x ys)

length-sorted : (xs : List ℕ) → length (sorted xs) ≡ length xs
unfolding sorted
length-sorted [] = refl
length-sorted (x ∷ xs) = length-insert_sorted x (sorted xs) ∙ ap suc (length-sorted xs)

get_elem?-lt {ℓ} :
    {A : Type ℓ} (xs : List A) (i : ℕ) → i < length xs → (x : A) × (get_elem? xs i ≡ some x)
get_elem?-lt [] i h = absurd (omega arith)
get_elem?-lt (x ∷ xs) zero h = (x, refl)
get_elem?-lt (x ∷ xs) (suc i) h = get_elem?-lt xs i (omega arith)

-- The index is below the length.
percentile_total :
    (values : List ℕ) (p : ℕ) → 0 < length values → (v : ℕ) × (percentile values p ≡ ok v)
unfolding percentile
percentile_total values p h =
    let index = min_of (length values - 1) (round_div (p * (length values - 1)) 100) in
    let (v, e) = get_elem?-lt (sorted values) index (ground (arith, length-sorted values)) in
    (v, rw (e, percentile))

percentile_of_total : (values : List ℕ) (p : ℕ) → (v : Option ℕ) × (percentile_of values p ≡ ok v)
unfolding percentile_of
percentile_of_total [] p = (none, refl)
percentile_of_total (x ∷ xs) p =
    let (v, e) = percentile_total (x ∷ xs) p (omega arith) in (some v, rw e)

finished-aborted-le :
    (rs : List RequestResult) → length (finished_results rs) + n_aborted rs ≤ length rs
finished-aborted-le [] = omega arith
finished-aborted-le (r ∷ rs) = ground (arith, finished-aborted-le rs)

-- Not aborted, and with its end.
abbrev pub AllCounted : List RequestResult → Type 0
AllCounted = All (λ r. is_counted r ≡ true)

length-finished_results :
    (rs : List RequestResult) → length (finished_results rs) ≡ length rs → AllCounted rs
length-finished_results [] e = tt
length-finished_results (r ∷ rs) e = elim (Bool-cases (is_counted r)) [
  | inl c ↦ (c, length-finished_results rs (ground (arith, finished-aborted-le rs)))
  | inr c ↦ absurd (ground (arith, finished-aborted-le rs))
]

AllCounted-length :
    (rs : List RequestResult)
    → AllCounted rs
    → (n_aborted rs ≡ 0) × (length (finished_results rs) ≡ length rs)
AllCounted-length [] a = (refl, refl)
AllCounted-length (r ∷ rs) a =
    let (x, y) = AllCounted-length rs a.1 in let c = a.0 in (ground arith, ground arith)

AllCounted-valid :
    (rs : List RequestResult)
    → ((n_aborted rs == 0 && length (finished_results rs) == length rs) ≡ true) ↔ AllCounted rs
AllCounted-valid rs = (
  λ e. length-finished_results rs (ground arith),
  λ a. let (x, y) = AllCounted-length rs a in ground arith,
)

-- `summarize` raises for no list of results, a run is marked valid for the chart exactly if
-- every result is not aborted and has its end, and the finished and the aborted results together
-- are no more than all.
pub summarize_total :
    (results : List RequestResult)
    → (m : Summary) × (summarize results ≡ ok m)
      × ((m.run_valid_for_chart ≡ true) ↔ AllCounted results)
      × (m.n_finished + m.n_aborted ≤ length results)
unfolding summarize
summarize_total results =
    let finished = finished_results results in
    let (a, e_a) = percentile_of_total (present (map result_ttft_s finished)) 50 in
    let (b, e_b) = percentile_of_total (present (map result_ttft_s finished)) 95 in
    let (c, e_c) = percentile_of_total (present (map latency_s finished)) 95 in
    let (d, e_d) = percentile_of_total (map (λ (r : RequestResult). r.sched_lag_s) results) 95 in
    (
      summary results a b c d,
      rw (e_a, e_b, e_c, e_d),
      AllCounted-valid results,
      finished-aborted-le results,
    )
