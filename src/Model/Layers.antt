-- ===== src/Model/Layers.antt =====
-- The loop over the layers in `_forward_one` of miniserve/model.py, and the blocks that it leaves alone.
use miniserve.Base.{
  ℕ, ◌+◌, ◌*◌, ◌/◌, ◌%◌, ◌≤◌, ◌<◌, ◌≡◌, ◌≢◌, refl, ap, ◌∙◌, List, [], ◌∷◌, map, length, arith,
}
use miniserve.Result.{ok}
use miniserve.KvCache.Storage.{BlockId, Layer, range_from}
use miniserve.Model.Torch.{Torch, IsMasking}
use miniserve.Model.Weights.{PagedModel, LayerWeights}
use miniserve.Model.Forward.{Block, layers_pass}
use miniserve.Model.Reference.{Rows, layer_of, layers_of, IsOrdinaryRun}
use miniserve.Model.Slots.{block_at, slot, IsInjective, div_lt}
use miniserve.Model.Pass.{IsCached, layer_pass_lem}

abbrev pub IsOutside : List BlockId → BlockId → Type 0
IsOutside table b = (k : ℕ) → k < length table → b ≢ block_at table k

-- The layers differ in the blocks of the table alone.
abbrev pub Agree : {T : Type 0} → List BlockId → List (Layer T) → List (Layer T) → Type 0
Agree table [] [] = Unit
Agree table [] (l' ∷ ls') = ⊥
Agree table (l ∷ ls) [] = ⊥
Agree table (l ∷ ls) (l' ∷ ls') =
    ((b : BlockId) → IsOutside table b → (l'.k b ≡ l.k b) × (l'.v b ≡ l.v b)) × Agree table ls ls'

Agree-refl : {T : Type 0} (table : List BlockId) (ls : List (Layer T)) → Agree table ls ls
Agree-refl table [] = tt
Agree-refl table (l ∷ ls) = (λ b h. (refl, refl), Agree-refl table ls)

module _ {F : Type 0} (torch : Torch F) (model : PagedModel F) (bs : ℕ) where
  -- A table that shares no block with the written one has what it had.
  pub Agree-IsCached :
      (table table' : List BlockId)
      → ((k : ℕ) → k < length table' → IsOutside table (block_at table' k))
      → (ws : List (LayerWeights F)) (rows : Rows F) (n : ℕ) (ls ls' : List (Layer (Block F)))
      → n ≤ length table' * bs
      → Agree table ls ls'
      → IsCached torch model bs table' ws rows n ls
      → IsCached torch model bs table' ws rows n ls'
  Agree-IsCached table table' apart [] rows n ls ls' fits a c = tt
  Agree-IsCached table table' apart (w ∷ ws) rows n [] ls' fits a c = absurd c
  Agree-IsCached table table' apart (w ∷ ws) rows n (l ∷ ls) [] fits a c = absurd a
  Agree-IsCached table table' apart (w ∷ ws) rows n (l ∷ ls) (l' ∷ ls') fits a c =
      let same = λ (j : ℕ) (h : j < n).
        a.0 (block_at table' (j / bs))
          (apart (j / bs) (div_lt j (length table') bs (omega arith))) in
      (
        record {
          keys = λ j h. ap (λ f. f (j % bs)) (same j h).0 ∙ c.0.keys j h;
          values = λ j h. ap (λ f. f (j % bs)) (same j h).1 ∙ c.0.values j h;
        },
        Agree-IsCached table table' apart ws (layer_of torch model w rows) n ls ls' fits a.1 c.1,
      )

  module _ (table : List BlockId) (IsOrdinary : F → Type 0) (law : IsMasking torch IsOrdinary)
      (pos : 0 < bs) (inj : IsInjective table) (i n seen : ℕ) (e : seen ≡ i + n)
      (fits : seen ≤ length table * bs) where
    -- All layers compute the reference's rows, and cache them.
    pub layers_pass_lem :
        (ws : List (LayerWeights F)) (rows : Rows F) (layers : List (Layer (Block F)))
        → IsOrdinaryRun torch model IsOrdinary ws rows seen
        → IsCached torch model bs table ws rows i layers
        → (layers' : List (Layer (Block F))) × IsCached torch model bs table ws rows seen layers'
          × Agree table layers layers'
          × (layers_pass torch model ws
                (range_from i n)
                (map (slot bs table) (range_from i n))
                table
                bs
                seen
                (map rows (range_from i n))
                layers
              ≡ ok (map (layers_of torch model ws rows) (range_from i n), layers'))
    unfolding layers_pass layers_of
    layers_pass_lem [] rows layers ord cached = (layers, tt, Agree-refl table layers, refl)
    layers_pass_lem (w ∷ ws) rows [] ord cached = absurd cached
    layers_pass_lem (w ∷ ws) rows (layer ∷ layers) ord cached =
        let (layer', c, a, e1) =
          layer_pass_lem torch model bs table IsOrdinary law pos inj i n seen e fits w rows layer
            ord.0 cached.0 in
        let (layers', cs, as', e2) =
          layers_pass_lem ws (layer_of torch model w rows) layers ord.1 cached.1 in
        (layer' ∷ layers', (c, cs), (a, as'), rw (e1, e2) refl)
