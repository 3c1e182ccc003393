-- ===== src/Scheduler/Heap.antt =====
-- Writes to the heap of miniserve/scheduler.py's objects, and the request ids of a queue.
use miniserve.Base.{
  ◌+◌, ◌≤◌, ◌<◌, ◌≡◌, ◌≢◌, refl, List, [], ◌∷◌, ◌++◌, erase, if_pos, if_neg, ℕ_discrete,
  String_discrete, count, count-append, indicator, indicator_yes, indicator_no, indicator_le, arith,
  ap, sym, ◌∙◌,
}
use mathlib.Core.List.{map-append}
use mathlib.Core.Path.{ap₂}
use miniserve.KvCache.Storage.{ReqId}
use miniserve.Scheduler.Sequence.{Sequence}
use miniserve.Scheduler.State.{Ref, update, ids}

-- The reference stands in the queue.
infix 50 ◌∈◌
abbrev pub ◌∈◌ : Ref → List Ref → Type 0
r ∈ rs = 0 < count ℕ_discrete r rs

module _ (heap : Ref → Sequence) (r : Ref) (q : Sequence) where
  pub update_self : update heap r q r ≡ q
  unfolding update
  update_self = if_pos (ℕ_discrete r r) refl _ _

  pub update_ne : (r' : Ref) → r' ≢ r → update heap r q r' ≡ heap r'
  unfolding update
  update_ne r' h = if_neg (ℕ_discrete r' r) h _ _

  pub ids-update :
      (rs : List Ref) → q.req_id ≡ (heap r).req_id → ids (update heap r q) rs ≡ ids heap rs
  unfolding update
  ids-update [] e = refl
  ids-update (x ∷ rs) e = elim (ℕ_discrete x r) [
    | yes p ↦
        ap₂ ◌∷◌
          (ap (λ (z : Sequence). z.req_id) (if_pos (ℕ_discrete x r) p q (heap x))
            ∙ e
            ∙ ap (λ z. (heap z).req_id) (sym p))
          (ids-update rs e)
    | no p ↦
        ap₂ ◌∷◌ (ap (λ (z : Sequence). z.req_id) (if_neg (ℕ_discrete x r) p q (heap x)))
          (ids-update rs e)
  ]

  -- A write to an object that is in no queue.
  pub ids-update_absent :
      (rs : List Ref) → count ℕ_discrete r rs ≡ 0 → ids (update heap r q) rs ≡ ids heap rs
  ids-update_absent [] e = refl
  ids-update_absent (x ∷ rs) e = elim (ℕ_discrete x r) [
    | yes p ↦ absurd (omega (arith, indicator_yes (ℕ_discrete x r) p))
    | no p ↦
        ap₂ ◌∷◌ (ap (λ (z : Sequence). z.req_id) (update_ne x p))
          (ids-update_absent rs (omega (arith, indicator_no (ℕ_discrete x r) p)))
  ]

module _ (heap : Ref → Sequence) where
  pub count-ids-append :
      (k : ReqId) (xs ys : List Ref)
      → count String_discrete k (ids heap (xs ++ ys))
        ≡ count String_discrete k (ids heap xs) + count String_discrete k (ids heap ys)
  count-ids-append k xs ys = rw (map-append, count-append)

  pub count-le-count-ids :
      (r : Ref) (rs : List Ref)
      → count ℕ_discrete r rs ≤ count String_discrete (heap r).req_id (ids heap rs)
  count-le-count-ids r [] = omega arith
  count-le-count-ids r (x ∷ rs) = elim (ℕ_discrete x r) [
    | yes p ↦ rw p (
        omega (
          arith,
          indicator_yes (String_discrete (heap r).req_id (heap r).req_id) refl,
          indicator_le (ℕ_discrete r r),
          count-le-count-ids r rs,
        ))
    | no p ↦ omega (arith, indicator_no (ℕ_discrete x r) p, count-le-count-ids r rs)
  ]

  -- Two objects with one request id count twice.
  pub count-add-le-count-ids :
      (r r' : Ref) (rs : List Ref)
      → r ≢ r'
      → (heap r).req_id ≡ (heap r').req_id
      → count ℕ_discrete r rs + count ℕ_discrete r' rs
        ≤ count String_discrete (heap r).req_id (ids heap rs)
  count-add-le-count-ids r r' [] ne e = omega arith
  count-add-le-count-ids r r' (x ∷ rs) ne e =
      omega (arith, one-le-ids, count-add-le-count-ids r r' rs ne e)
    where
      one-le-ids :
          indicator (ℕ_discrete x r) + indicator (ℕ_discrete x r')
          ≤ indicator (String_discrete (heap x).req_id (heap r).req_id)
      one-le-ids = elim (ℕ_discrete x r) [
        | yes p ↦ rw p (
            omega (
              arith,
              indicator_yes (String_discrete (heap r).req_id (heap r).req_id) refl,
              indicator_le (ℕ_discrete r r),
              indicator_no (ℕ_discrete r r') ne,
            ))
        | no p ↦ elim (ℕ_discrete x r') [
          | yes p' ↦ omega (
            arith,
            indicator_no (ℕ_discrete x r) p,
            indicator_yes (String_discrete (heap x).req_id (heap r).req_id)
                (ap (λ z. (heap z).req_id) p' ∙ sym e),
            indicator_le (ℕ_discrete x r'),
          )
          | no p' ↦
              omega (arith, indicator_no (ℕ_discrete x r) p, indicator_no (ℕ_discrete x r') p')
        ]
      ]

  pub count-ids-erase :
      (k : ReqId) (r : Ref) (rs : List Ref)
      → r ∈ rs
      → count String_discrete k (ids heap (erase ℕ_discrete rs r))
          + indicator (String_discrete (heap r).req_id k)
        ≡ count String_discrete k (ids heap rs)
  count-ids-erase k r [] m = absurd (omega arith)
  count-ids-erase k r (x ∷ rs) m = elim (ℕ_discrete x r) [
    | yes p ↦ rw (if_pos _ p, p) (omega arith)
    | no p ↦ rw (if_neg _ p) (
        omega (
          arith,
          indicator_no (ℕ_discrete x r) p,
          count-ids-erase k r rs (omega (arith, indicator_no (ℕ_discrete x r) p)),
        ))
  ]
