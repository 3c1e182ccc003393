-- ===== src/Model/Reference.antt =====
-- The forward pass that miniserve/model.py is to agree with: the same layers over a whole text, with
-- no cache, no blocks and no mask. Each position sees the positions up to its own.
use miniserve.Base.{ℕ, suc, ◌-◌, ◌/◌, ◌%◌, ◌<◌, List, [], ◌∷◌, map, length, get_elem?, All}
use mathlib.Core.Option
use miniserve.KvCache.Storage.{range_from}
use miniserve.Scheduler.Sequence.{Token}
use miniserve.Model.Torch.{Torch, Vector, Heads}
use miniserve.Model.Weights.{PagedModel, LayerWeights, query, key, value, finish_layer, logits}
use miniserve.Model.Forward.{scores, mix}

-- The rows of a text, by position.
abbrev pub Rows : Type 0 → Type 0
Rows F = ℕ → Vector F

module _ {F : Type 0} (torch : Torch F) (model : PagedModel F) where
  abbrev pub keys_to : LayerWeights F → Rows F → ℕ → List (Heads F)
  keys_to w rows n = map (λ j. key torch model w j (rows j)) (range_from 0 n)

  abbrev pub values_to : LayerWeights F → Rows F → ℕ → List (Heads F)
  values_to w rows n = map (λ j. value torch model w (rows j)) (range_from 0 n)

  unfoldable pub attend_all : Heads F → List (Heads F) → List (Heads F) → Vector F
  attend_all q ks vs i =
      let h = i / model.head_dim in
      mix torch model (scores torch model q ks h) vs h (i % model.head_dim)

  unfoldable pub layer_of : LayerWeights F → Rows F → Rows F
  layer_of w rows p = finish_layer torch model w (rows p) (
      attend_all (query torch model w p (rows p)) (keys_to w rows (suc p))
        (values_to w rows (suc p)))

  unfoldable pub layers_of : List (LayerWeights F) → Rows F → Rows F
  layers_of [] rows = rows
  layers_of (w ∷ ws) rows = layers_of ws (layer_of w rows)

  abbrev pub embedded : List Token → Rows F
  embedded text p = model.embed.at (Option.get_or (get_elem? text p) 0)

  -- The logits after a text.
  unfoldable pub reference : List Token → Vector F
  reference text = logits torch model (layers_of model.layers (embedded text) (length text - 1))

  module _ (IsOrdinary : F → Type 0) where
    -- In a layer, the scores and the values at the first `n` positions are ordinary floats.
    pub record IsOrdinaryLayer (w : LayerWeights F) (rows : Rows F) (n : ℕ) : Type 0 where
      pub of_scores :
          (p h : ℕ)
          → p < n
          → All IsOrdinary
              (scores torch model (query torch model w p (rows p)) (keys_to w rows (suc p)) h)
      pub of_values : (j h d : ℕ) → j < n → IsOrdinary (value torch model w (rows j) h d)

    -- The same in all layers of a run.
    abbrev pub IsOrdinaryRun : List (LayerWeights F) → Rows F → ℕ → Type 0
    IsOrdinaryRun [] rows n = Unit
    IsOrdinaryRun (w ∷ ws) rows n = IsOrdinaryLayer w rows n × IsOrdinaryRun ws (layer_of w rows) n
