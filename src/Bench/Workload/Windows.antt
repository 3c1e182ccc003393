-- ===== src/Bench/Workload/Windows.antt =====
-- What `realized_burst_profile` of miniserve/bench/workload.py counts.
use miniserve.Base.{
  ℕ, zero, suc, ◌+◌, ◌≤◌, ◌<◌, ◌≡◌, refl, ap, sym, ◌∙◌, some, List, [], ◌∷◌, map, All, length,
  get_elem?, count, indicator_yes, indicator_no, ℕ_discrete, ◌==◌, false, arith,
}
use mathlib.Core.List.{get_last?, get_last, cons-ne-nil}
use mathlib.Core.Path.{subst}
use miniserve.Result.{ok}
use miniserve.Scheduler.Sequence.{Time}
use miniserve.Bench.Workload.Generate.{Arrival}
use miniserve.Bench.Workload.Profile.{window, no_counts, bump, count_all, realized_burst_profile}
use miniserve.Bench.Workload.Schedule.{IsOrdered}

-- The counts are those of a list of windows, on top of what was there.
abbrev Adds : List ℕ → List ℕ → List ℕ → Type 0
Adds ws before after =
    (length after ≡ length before)
    × ((j n : ℕ)
        → get_elem? before j ≡ some n
        → get_elem? after j ≡ some (count ℕ_discrete j ws + n))

Adds_here :
    (c : ℕ) (counts : List ℕ) (j n : ℕ)
    → get_elem? (c ∷ counts) j ≡ some n
    → get_elem? (suc c ∷ counts) j ≡ some (count ℕ_discrete j (0 ∷ []) + n)
Adds_here c counts zero n e =
    let same : c ≡ n = cc in
    let sum : suc c ≡ count ℕ_discrete zero (0 ∷ []) + n =
      omega (arith, same, indicator_yes (ℕ_discrete 0 zero) refl) in
    ap some sum
Adds_here c counts (suc j) n e =
    let sum : n ≡ count ℕ_discrete (suc j) (0 ∷ []) + n =
      omega (arith, indicator_no (ℕ_discrete 0 (suc j)) (λ p. omega (arith, p))) in
    e ∙ ap some sum

count-suc : (i j : ℕ) → count ℕ_discrete j (i ∷ []) ≡ count ℕ_discrete (suc j) (suc i ∷ [])
count-suc i j = ground arith

Adds_there :
    (i c : ℕ) (counts after : List ℕ)
    → ((j n : ℕ)
        → get_elem? counts j ≡ some n
        → get_elem? after j ≡ some (count ℕ_discrete j (i ∷ []) + n))
    → (j n : ℕ) → get_elem? (c ∷ counts) j ≡ some n
    → get_elem? (c ∷ after) j ≡ some (count ℕ_discrete j (suc i ∷ []) + n)
Adds_there i c counts after adds zero n e =
    let sum : n ≡ count ℕ_discrete zero (suc i ∷ []) + n =
      omega (arith, indicator_no (ℕ_discrete (suc i) zero) (λ p. omega (arith, p))) in
    e ∙ ap some sum
Adds_there i c counts after adds (suc j) n e = adds j n e ∙ ap (λ k. some (k + n)) (count-suc i j)

bump_total :
    (i : ℕ) (counts : List ℕ)
    → i < length counts
    → (after : List ℕ) × (bump i counts ≡ ok after) × Adds (i ∷ []) counts after
unfolding bump
bump_total i [] h = absurd (omega (arith, h))
bump_total zero (c ∷ counts) h = (suc c ∷ counts, refl, (refl, Adds_here c counts))
bump_total (suc i) (c ∷ counts) h =
    let (after, e, (l, adds)) = bump_total i counts (omega (arith, h)) in
    (c ∷ after, rw (e) refl, (ap suc l, Adds_there i c counts after adds))

length-no_counts : (n : ℕ) → length (no_counts n) ≡ n
unfolding no_counts
length-no_counts zero = refl
length-no_counts (suc n) = ap suc (length-no_counts n)

get_elem?-no_counts : (n j : ℕ) → j < n → get_elem? (no_counts n) j ≡ some 0
unfolding no_counts
get_elem?-no_counts zero j h = absurd (omega (arith, h))
get_elem?-no_counts (suc n) zero h = refl
get_elem?-no_counts (suc n) (suc j) h = get_elem?-no_counts n j (omega (arith, h))

-- Times that stay below the end of the windows.
abbrev Below : Time → List Arrival → ℕ → Type 0
Below period schedule n = All (λ a. window period a < n) schedule

count_all_total :
    (period : Time) (schedule : List Arrival) (counts : List ℕ)
    → Below period schedule (length counts)
    → (after : List ℕ) × (count_all period schedule counts ≡ ok after)
      × Adds (map (window period) schedule) counts after
unfolding count_all
count_all_total period [] counts below =
    (counts, refl, (refl, λ j n e. let sum : n ≡ 0 + n = omega arith in e ∙ ap some sum))
count_all_total period (a ∷ schedule) counts (first, below) =
    let (once, e, (l, adds)) = bump_total (window period a) counts first in
    let (after, e1, (l1, adds1)) =
      count_all_total period schedule once (subst (Below period schedule) (sym l) below) in
    (
      after,
      rw (e) e1,
      (
        l1 ∙ l,
        λ j n here.
            let more = count ℕ_discrete j (map (window period) schedule) in
            let sum : more + (count ℕ_discrete j (window period a ∷ []) + n)
                ≡ count ℕ_discrete j (map (window period) (a ∷ schedule)) + n =
              omega arith in
            adds1 j (count ℕ_discrete j (window period a ∷ []) + n) (adds j n here) ∙ ap some sum,
      ),
    )

window_le :
    (period : Time) (a b : Arrival)
    → 0 < period
    → a.at_s ≤ b.at_s
    → window period a < window period b + 1
window_le period a b pos h = grind arith

-- In an ordered schedule no window is beyond the last arrival's.
ordered-Below :
    (period t : Time) (a last : Arrival) (schedule : List Arrival)
    → 0 < period
    → IsOrdered t (a ∷ schedule)
    → get_last? (a ∷ schedule) ≡ some last
    → (t ≤ last.at_s) × Below period (a ∷ schedule) (window period last + 1)
ordered-Below period t a last [] pos ordered e =
    let same : a ≡ last = cc in
    let upto : a.at_s ≡ last.at_s = ap (λ b. b.at_s) same in
    (omega (arith, ordered.0, upto), (window_le period a last pos (omega (arith, upto)), tt))
ordered-Below period t a last (b ∷ schedule) pos ordered e =
    let (le, below) = ordered-Below period a.at_s b last schedule pos ordered.1 e in
    (omega (arith, le, ordered.0), (window_le period a last pos le, below))

-- For a schedule in order of time and a period that is not zero, `realized_burst_profile`
-- returns, each arrival's window has a count, and each count is the number of arrivals in its
-- window.
pub realized_burst_profile_total :
    (schedule : List Arrival) (period : Time)
    → IsOrdered 0 schedule
    → 0 < period
    → (counts : List ℕ) × (realized_burst_profile schedule period ≡ ok counts)
      × ((j : ℕ)
          → j < length counts
          → get_elem? counts j ≡ some (count ℕ_discrete j (map (window period) schedule)))
      × All (λ a. window period a < length counts) schedule
unfolding realized_burst_profile
realized_burst_profile_total [] period ordered pos =
    ([], refl, λ j h. absurd (omega (arith, h)), tt)
realized_burst_profile_total (a ∷ schedule) period ordered pos =
    let last = get_last (a ∷ schedule) (cons-ne-nil a schedule) in
    let n = window period last + 1 in
    let (le, below) = ordered-Below period 0 a last schedule pos ordered refl in
    let size = length-no_counts n in
    let (counts, e, (l, adds)) =
      count_all_total period (a ∷ schedule) (no_counts n)
        (subst (Below period (a ∷ schedule)) (sym size) below) in
    let nonzero : period == 0 ≡ false = ground (arith, pos) in
    let whole : n ≡ length counts = sym (l ∙ size) in
    (
      counts,
      rw (nonzero) e,
      λ j h.
          let sum : count ℕ_discrete j (map (window period) (a ∷ schedule)) + 0
              ≡ count ℕ_discrete j (map (window period) (a ∷ schedule)) =
            omega arith in
          adds j 0 (get_elem?-no_counts n j (omega (arith, h, whole))) ∙ ap some sum,
      subst (Below period (a ∷ schedule)) whole below,
    )
