-- ===== src/Base/Counts.antt =====
-- How often an element stands in a list. Conservation laws are stated by counting.
use Prim.Native.Nat.{ℕ, ◌+◌, ◌≤◌, ◌<◌}
use mathlib.Core.Path.{◌≡◌, refl}
use mathlib.Core.Logic.{◌≢◌, ite}
use mathlib.Core.List.{List, [], ◌∷◌, ◌++◌, erase, filter}
use native.Mathlib.Omega.{arith}
use miniserve.Base.Lists.{length}

-- 1 where the proposition holds, and 0 elsewhere.
abbrev pub indicator {ℓ} : {P : Type ℓ} → Dec P → ℕ
indicator (yes p) = 1
indicator (no n) = 0

module _ {ℓ} {P : Type ℓ} (d : Dec P) where
  pub indicator_le : indicator d ≤ 1
  indicator_le = ground arith

module _ {ℓ} {P : Type ℓ} where
  pub indicator_yes : (d : Dec P) → P → indicator d ≡ 1
  indicator_yes (yes p) h = refl
  indicator_yes (no n) h = absurd (n h)

  pub indicator_no : (d : Dec P) → ¬ P → indicator d ≡ 0
  indicator_no (yes p) h = absurd (h p)
  indicator_no (no n) h = refl

module _ {ℓ} {A : Type ℓ} (dec : Discrete A) where
  abbrev pub count : A → List A → ℕ
  count a [] = 0
  count a (x ∷ xs) = indicator (dec x a) + count a xs

  pub count-append : (a : A) (xs ys : List A) → count a (xs ++ ys) ≡ count a xs + count a ys
  count-append a [] ys = omega arith
  count-append a (x ∷ xs) ys = omega (arith, count-append a xs ys)

  pub count-le-length : (a : A) (xs : List A) → count a xs ≤ length xs
  count-le-length a [] = omega arith
  count-le-length a (x ∷ xs) = ground (arith, count-le-length a xs)

  pub count-erase_self :
      (a : A) (xs : List A) → 0 < count a xs → count a (erase dec xs a) + 1 ≡ count a xs
  count-erase_self a [] h = absurd (omega arith)
  count-erase_self a (x ∷ xs) h = ground (arith, count-erase_self a xs)

  pub count-erase_ne : (a b : A) (xs : List A) → a ≢ b → count a (erase dec xs b) ≡ count a xs
  count-erase_ne a b [] h = refl
  count-erase_ne a b (x ∷ xs) h = ground (arith, count-erase_ne a b xs h)

  pub count-erase-le : (a b : A) (xs : List A) → count a (erase dec xs b) ≤ count a xs
  count-erase-le a b [] = omega arith
  count-erase-le a b (x ∷ xs) = ground (arith, count-erase-le a b xs)

  pub length-erase :
      (a : A) (xs : List A) → 0 < count a xs → length (erase dec xs a) + 1 ≡ length xs
  length-erase a [] h = absurd (omega arith)
  length-erase a (x ∷ xs) h = ground (arith, length-erase a xs)

  pub count-filter {κ} :
      {P : A → Type κ} (d : (a : A) → Dec (P a)) (a : A) (xs : List A)
      → count a (filter d xs) ≡ ite (d a) (count a xs) 0
  count-filter d a [] = ground arith
  count-filter d a (x ∷ xs) = elim (dec x a) [
    | yes p ↦ rw p (ground (arith, count-filter d a xs))
    | no p ↦ ground (arith, count-filter d a xs)
  ]
