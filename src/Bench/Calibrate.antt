-- ===== src/Bench/Calibrate.antt =====
-- `_residual_structure` of miniserve/bench/calibrate.py. A measured time is a number of ticks that is not
-- zero, and a fitted one an integer in the same unit.
use miniserve.Base.{
  ℕ, zero, suc, ◌+◌, ◌-◌, ◌*◌, ◌≤◌, ◌≡◌, ◌≢◌, ◌⊎◌, ◌↔◌, inl, inr, refl, sym, Bool, true, false,
  List, [], ◌∷◌, ltb, leb, if◌then◌else◌, length, arith, ℤ, pos, negsuc,
}
use miniserve.Model.Torch.{zip_with}
use miniserve.Result.{value_error, Result, ok, raise}

-- The sign of a residual, level within one percent.
pub data Sign : Type 0 where
  level over under : Sign

unfoldable pub sign_of : ℕ → ℤ → Sign
sign_of actual (pos fitted) =
    if ltb (100 * ((fitted - actual) + (actual - fitted))) actual
    then level
    else if ltb actual fitted
    then over
    else under
sign_of actual (negsuc fitted) = under

abbrev pub same : Sign → Sign → Bool
same level level = true
same over over = true
same under under = true
same _ _ = false

-- The sign and the length of the run, after one more residual.
abbrev pub extend_run : Sign → ℕ → Sign → Sign × ℕ
extend_run run_sign run_len level = (level, 0)
extend_run run_sign run_len over = if same over run_sign then (run_sign, suc run_len) else (over, 1)
extend_run run_sign run_len under =
    if same under run_sign then (run_sign, suc run_len) else (under, 1)

unfoldable pub residual_loop : Sign → ℕ → List ℕ → List ℤ → Result Bool
residual_loop run_sign run_len [] [] = ok false
residual_loop run_sign run_len [] (p ∷ ps) = raise value_error
residual_loop run_sign run_len (y ∷ ys) [] = raise value_error
residual_loop run_sign run_len (y ∷ ys) (p ∷ ps) =
    let (s, n) = extend_run run_sign run_len (sign_of y p) in
    let rest = residual_loop s n ys ps in if leb 4 n then ok true else rest

abbrev pub residual_structure : List ℕ → List ℤ → Result Bool
residual_structure = residual_loop level 0

-- The first `k` residuals have the sign `s`.
abbrev pub Starts : ℕ → Sign → List Sign → Type 0
Starts zero s xs = Unit
Starts (suc k) s [] = ⊥
Starts (suc k) s (x ∷ xs) = (x ≡ s) × Starts k s xs

-- Somewhere four residuals in a row are beyond one percent on the same side.
abbrev pub HasRun : List Sign → Type 0
HasRun [] = ⊥
HasRun (x ∷ xs) = ((x ≢ level) × Starts 4 x (x ∷ xs)) ⊎ HasRun xs

prefix-Starts : (j k : ℕ) (s : Sign) (xs : List Sign) → j ≤ k → Starts k s xs → Starts j s xs
prefix-Starts zero k s xs h a = tt
prefix-Starts (suc j) zero s xs h a = absurd (omega (arith, h))
prefix-Starts (suc j) (suc k) s [] h a = a
prefix-Starts (suc j) (suc k) s (x ∷ xs) h a = (a.0, prefix-Starts j k s xs (omega (arith, h)) a.1)

-- What decides the answer in a run of `run_len`, of which `k` more would be four.
abbrev Decides : Sign → ℕ → List Sign → Type 0
Decides s k xs = ((s ≢ level) × Starts k s xs) ⊎ HasRun xs

same_step :
    (s : Sign) (k : ℕ) (xs : List Sign)
    → s ≢ level
    → k ≤ 3
    → Decides s k xs ↔ Decides s (suc k) (s ∷ xs)
same_step s k xs ne h = (
  λ d. elim d [ inl (n, a) ↦ inl (n, (refl, a)) | inr r ↦ inr (inr r) ],
  λ d. elim d [
    | inl (n, a) ↦ inl (n, a.1)
    | inr (inl (n, a)) ↦ inl (n, prefix-Starts k 3 s xs h a.1)
    | inr (inr r) ↦ inr r
  ],
)

new_step :
    (s x : Sign) (k : ℕ) (xs : List Sign)
    → x ≢ level
    → x ≢ s
    → Decides x 3 xs ↔ Decides s (suc k) (x ∷ xs)
new_step s x k xs ne other = (
  λ d. elim d [ inl (n, a) ↦ inr (inl (n, (refl, a))) | inr r ↦ inr (inr r) ],
  λ d. elim d [
    | inl (n, a) ↦ absurd (other a.0)
    | inr (inl (n, a)) ↦ inl (n, a.1)
    | inr (inr r) ↦ inr r
  ],
)

level_step :
    (s : Sign) (k j : ℕ) (xs : List Sign) → Decides level j xs ↔ Decides s (suc k) (level ∷ xs)
level_step s k j xs = (
  λ d. elim d [ inl (n, a) ↦ absurd (n refl) | inr r ↦ inr (inr r) ],
  λ d. elim d [
    | inl (n, a) ↦ absurd (n (sym a.0))
    | inr (inl (n, a)) ↦ absurd (n refl)
    | inr (inr r) ↦ inr r
  ],
)

abbrev Answers : Result Bool → Type 0 → Type 0
Answers r P = (b : Bool) × (r ≡ ok b) × ((b ≡ true) ↔ P)

Answers-iff : (r : Result Bool) (P Q : Type 0) → P ↔ Q → Answers r P → Answers r Q
Answers-iff r P Q step (b, e, i) = (b, e, (λ t. step.0 (i.0 t), λ q. i.1 (step.1 q)))

over-ne : over ≢ level
over-ne e = cc

under-ne : under ≢ level
under-ne e = cc

module _ (ys : List ℕ) (ps : List ℤ) (xs : List Sign)
    (rest : (s : Sign) (n k : ℕ)
      → n + suc k ≡ 4
      → Answers (residual_loop s n ys ps) (Decides s (suc k) xs)) where
  stay :
      (s : Sign) (n k : ℕ)
      → s ≢ level
      → n + suc k ≡ 4
      → Answers
          (if leb 4 (suc n) then ok true else residual_loop s (suc n) ys ps)
          (Decides s (suc k) (s ∷ xs))
  stay s n zero ne h =
      let full : leb 4 (suc n) ≡ true = ground (arith, h) in
      rw (full) (true, refl, (λ e. inl (ne, (refl, tt)), λ d. refl))
  stay s n (suc k) ne h =
      let short : leb 4 (suc n) ≡ false = ground (arith, h) in
      rw (short) (
        Answers-iff (residual_loop s (suc n) ys ps) (Decides s (suc k) xs)
          (Decides s (suc (suc k)) (s ∷ xs)) (same_step s (suc k) xs ne (omega (arith, h)))
          (rest s (suc n) k (omega (arith, h))))

  fresh :
      (s x : Sign) (k : ℕ)
      → x ≢ level
      → x ≢ s
      → Answers (residual_loop x 1 ys ps) (Decides s (suc k) (x ∷ xs))
  fresh s x k ne other =
      Answers-iff (residual_loop x 1 ys ps) (Decides x 3 xs) (Decides s (suc k) (x ∷ xs))
        (new_step s x k xs ne other) (rest x 1 2 refl)

  one_more :
      (s x : Sign) (n k : ℕ)
      → n + suc k ≡ 4
      → Answers
          (if leb 4 (extend_run s n x).1
            then ok true
            else residual_loop (extend_run s n x).0 (extend_run s n x).1 ys ps)
          (Decides s (suc k) (x ∷ xs))
  one_more s level n k h =
      Answers-iff (residual_loop level 0 ys ps) (Decides level 4 xs)
        (Decides s (suc k) (level ∷ xs)) (level_step s k 4 xs) (rest level 0 3 refl)
  one_more over over n k h = stay over n k over-ne h
  one_more under over n k h = fresh under over k over-ne (λ e. cc)
  one_more level over n k h = fresh level over k over-ne (λ e. cc)
  one_more under under n k h = stay under n k under-ne h
  one_more over under n k h = fresh over under k under-ne (λ e. cc)
  one_more level under n k h = fresh level under k under-ne (λ e. cc)

residual_loop_lem :
    (s : Sign) (n k : ℕ) (ys : List ℕ) (ps : List ℤ)
    → length ys ≡ length ps
    → n + suc k ≡ 4
    → Answers (residual_loop s n ys ps) (Decides s (suc k) (zip_with sign_of ys ps))
unfolding residual_loop
residual_loop_lem s n k [] [] e h =
    (false, refl, (λ t. cc, λ d. elim d [ inl (_, a) ↦ absurd a | inr r ↦ absurd r ]))
residual_loop_lem s n k [] (p ∷ ps) e h = absurd (omega (arith, e))
residual_loop_lem s n k (y ∷ ys) [] e h = absurd (omega (arith, e))
residual_loop_lem s n k (y ∷ ys) (p ∷ ps) e h =
    one_more ys ps (zip_with sign_of ys ps)
      (λ s' n' k' h'. residual_loop_lem s' n' k' ys ps (omega (arith, e)) h') s (sign_of y p) n k h

-- For as many fitted times as measured ones `_residual_structure` returns, and returns True
-- exactly if somewhere four residuals in a row are beyond one percent on the same side.
pub residual_structure_iff :
    (ys : List ℕ) (ps : List ℤ)
    → length ys ≡ length ps
    → (b : Bool) × (residual_structure ys ps ≡ ok b)
      × ((b ≡ true) ↔ HasRun (zip_with sign_of ys ps))
residual_structure_iff ys ps e =
    Answers-iff (residual_structure ys ps) (Decides level 4 (zip_with sign_of ys ps))
      (HasRun (zip_with sign_of ys ps))
      (λ d. elim d [ inl (n, a) ↦ absurd (n refl) | inr r ↦ r ], λ r. inr r)
      (residual_loop_lem level 0 3 ys ps e refl)
