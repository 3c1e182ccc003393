-- ===== src/Scheduler/Victim.antt =====
-- Which sequence `_make_room` of miniserve/scheduler.py preempts.
use miniserve.Base.{
  ◌≤◌, ◌<◌, ◌≡◌, refl, inl, inr, true, List, [], ◌∷◌, ite, count, indicator_yes, indicator_no,
  ℕ_discrete, arith, dec_true, Bool-cases, List-cases, ap, count-filter,
}
use miniserve.Result.{ok}
use miniserve.Scheduler.Sequence.{Sequence, youngest_decoded}
use miniserve.Scheduler.State.{Ref}
use miniserve.Scheduler.Preemption.{youngest_from, has_output, decoded, choose_victim}
use miniserve.Scheduler.Heap.{◌∈◌}

module _ (heap : Ref → Sequence) where
  youngest_from-mem : (best : Ref) (rs : List Ref) → youngest_from heap best rs ∈ best ∷ rs
  unfolding youngest_from
  youngest_from-mem best [] = omega (arith, indicator_yes (ℕ_discrete best best) refl)
  youngest_from-mem best (r ∷ rs) =
      ground (arith, youngest_from-mem r rs, youngest_from-mem best rs)

  youngest_from-le_self :
      (best : Ref) (rs : List Ref) → (heap best).seq_no ≤ (heap (youngest_from heap best rs)).seq_no
  unfolding youngest_from
  youngest_from-le_self best [] = omega arith
  youngest_from-le_self best (r ∷ rs) =
      ground (arith, youngest_from-le_self r rs, youngest_from-le_self best rs)

  youngest_from-max :
      (best : Ref) (rs : List Ref) (r : Ref)
      → r ∈ best ∷ rs
      → (heap r).seq_no ≤ (heap (youngest_from heap best rs)).seq_no
  unfolding youngest_from
  youngest_from-max best [] r m = elim (ℕ_discrete best r) [
    | yes p ↦ rw p (omega arith)
    | no p ↦ absurd (omega (arith, indicator_no (ℕ_discrete best r) p))
  ]
  youngest_from-max best (x ∷ rs) r m = elim (ℕ_discrete best r) [
    | yes p ↦ rw (← p) (ground (arith, youngest_from-le_self x rs, youngest_from-le_self best rs))
    | no p ↦ elim (ℕ_discrete x r) [
      | yes p' ↦
          rw (← p') (ground (arith, youngest_from-le_self x rs, youngest_from-le_self best rs))
      | no p' ↦ ground (
        arith,
        indicator_no (ℕ_discrete best r) p,
        indicator_no (ℕ_discrete x r) p',
        youngest_from-max x rs r,
        youngest_from-max best rs r,
      )
    ]
  ]

  mem-decoded :
      (r : Ref) (rs : List Ref)
      → count ℕ_discrete r (decoded heap rs)
        ≡ ite (dec_true (has_output (heap r))) (count ℕ_discrete r rs) 0
  mem-decoded r rs = count-filter ℕ_discrete (λ x. dec_true (has_output (heap x))) r rs

  decoded-mem :
      (r : Ref) (rs : List Ref) → r ∈ decoded heap rs → (r ∈ rs) × (has_output (heap r) ≡ true)
  decoded-mem r rs m = elim (Bool-cases (has_output (heap r))) [
    | inl e ↦ (ground (arith, mem-decoded r rs), e)
    | inr e ↦ absurd (ground (arith, mem-decoded r rs))
  ]

  -- As soon as one running sequence has a token, the victim is chosen with the reason
  -- YOUNGEST_DECODED, it is a running sequence that has a token, and its number is at least
  -- that of each running sequence that has one.
  pub choose_victim-youngest :
      (running : List Ref) (r : Ref)
      → r ∈ running
      → has_output (heap r) ≡ true
      → (x : Ref) × (choose_victim heap running ≡ ok (x, youngest_decoded))
        × (x ∈ running)
        × (has_output (heap x) ≡ true)
        × ((heap r).seq_no ≤ (heap x).seq_no)
  unfolding choose_victim
  choose_victim-youngest running r m some_output = elim (List-cases (decoded heap running)) [
    | inl e ↦ absurd (omega (arith, counted, ap (count ℕ_discrete r) e))
    | inr (d, ds, e) ↦
        let x = youngest_from heap d ds in
        let x-mem : 0 < count ℕ_discrete x (decoded heap running) = rw e (youngest_from-mem d ds) in
        (
          x,
          rw (e, choose_victim),
          (decoded-mem x running x-mem).0,
          (decoded-mem x running x-mem).1,
          youngest_from-max d ds r (omega (arith, counted, ap (count ℕ_discrete r) e)),
        )
  ]
    where
      counted : count ℕ_discrete r (decoded heap running) ≡ count ℕ_discrete r running
      counted = ground (arith, mem-decoded r running)
