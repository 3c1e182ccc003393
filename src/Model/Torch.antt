-- ===== src/Model/Torch.antt =====
-- The tensor library that miniserve/model.py computes with, over a type `F` of floats that is not
-- described further. The position axis of a tensor is a list; each other axis is an index.
use miniserve.Base.{ℕ, ◌≡◌, Bool, Option, List, [], ◌∷◌, ◌++◌, if◌then◌else◌, length, All}

abbrev pub Vector : Type 0 → Type 0
Vector F = ℕ → F

-- Attention heads: a vector for each.
abbrev pub Heads : Type 0 → Type 0
Heads F = ℕ → Vector F

pub record Matrix (F : Type 0) : Type 0 where
  pub rows : ℕ
  pub cols : ℕ
  pub at : ℕ → ℕ → F

-- The functions of torch: on single floats, and along an axis of a given length. `cast` is the
-- conversion to the type of the weights, `lowest` the least finite float, `dot` the sum of products
-- that `einsum` takes for a score, and `weighted` the one that it takes for a context.
pub record Torch (F : Type 0) : Type 0 where
  pub of_nat : ℕ → F
  pub add : F → F → F
  pub mul : F → F → F
  pub div : F → F → F
  pub neg : F → F
  pub pow : F → F → F
  pub sqrt : F → F
  pub rsqrt : F → F
  pub cos : F → F
  pub sin : F → F
  pub silu : F → F
  pub cast : F → F
  pub lowest : F
  pub mean : ℕ → Vector F → F
  pub linear : Matrix F → Option (Vector F) → Vector F → Vector F
  pub dot : ℕ → Vector F → Vector F → F
  pub softmax : List F → List F
  pub weighted : List F → List F → F

abbrev pub zip_with : {A B C : Type 0} → (A → B → C) → List A → List B → List C
zip_with f [] ys = []
zip_with f (x ∷ xs) [] = []
zip_with f (x ∷ xs) (y ∷ ys) = f x y ∷ zip_with f xs ys

-- `masked_fill` of a row of scores: where the mask is False stands `fill`.
abbrev pub masked_fill : {F : Type 0} → F → List F → List Bool → List F
masked_fill fill = zip_with (λ s visible. if visible then s else fill)

abbrev pub add_rows : {F : Type 0} → Torch F → Vector F → Vector F → Vector F
add_rows torch x y i = torch.add (x i) (y i)

-- What the theorems use of torch. `IsOrdinary` holds of floats that are neither NaN nor infinite, nor
-- within the range of the exponential function from the least finite float.
pub record IsMasking {F : Type 0} (torch : Torch F) (IsOrdinary : F → Type 0) : Type 0 where
  -- A score that was filled with the least float gets the weight zero.
  pub softmax_masked :
      (s : F) (scores : List F) (fills : List F)
      → All IsOrdinary (s ∷ scores)
      → All (λ f. f ≡ torch.lowest) fills
      → (zeros : List F) × All (λ z. z ≡ torch.of_nat 0) zeros
        × (length zeros ≡ length fills)
        × (torch.softmax ((s ∷ scores) ++ fills) ≡ torch.softmax (s ∷ scores) ++ zeros)
  pub softmax_length : (scores : List F) → length (torch.softmax scores) ≡ length scores
  pub cast_zero : torch.cast (torch.of_nat 0) ≡ torch.of_nat 0
  -- Terms with the weight zero do not change a sum.
  pub weighted_zeros :
      (weights values zeros rest : List F)
      → length weights ≡ length values
      → All (λ z. z ≡ torch.of_nat 0) zeros
      → length zeros ≡ length rest
      → All IsOrdinary rest
      → torch.weighted (weights ++ zeros) (values ++ rest) ≡ torch.weighted weights values
