-- ===== src/Model/Pass.antt =====
-- A pass of `_forward_one` of miniserve/model.py through a cache that has the earlier positions.
use miniserve.Base.{
  ℕ, suc, ◌+◌, ◌-◌, ◌*◌, ◌≤◌, ◌<◌, ◌≡◌, ◌≢◌, ap, ◌∙◌, fun_ext, List, [], ◌∷◌, map, length, take,
  arith, dec_lt,
}
use miniserve.KvCache.Storage.{BlockId, Layer, range_from}
use miniserve.Model.Torch.{Torch, IsMasking, Heads, Vector, zip_with}
use miniserve.Model.Weights.{PagedModel, LayerWeights, query, key, value, finish_layer}
use miniserve.Model.Forward.{Block, gather, layer_pass, attend}
use miniserve.Model.Reference.{Rows, keys_to, values_to, layer_of, IsOrdinaryLayer}
use miniserve.Model.Slots.{block_at, slot, cell, IsInjective, take-gather, map-range_from_ext}
use miniserve.Model.Scatter.{written, written_before, written_at, written_elsewhere}
use miniserve.Model.Masking.{attend-causal, map-map, zip_with-map, zip_with_self}

module _ {F : Type 0} (torch : Torch F) (model : PagedModel F) (bs : ℕ) (table : List BlockId) where
  -- The slots of the first `n` positions hold the keys and the values of the rows.
  pub record IsCachedLayer (w : LayerWeights F) (rows : Rows F) (n : ℕ) (layer : Layer (Block F))
      : Type 0 where
    pub keys : (j : ℕ) → j < n → cell bs table layer.k j ≡ key torch model w j (rows j)
    pub values : (j : ℕ) → j < n → cell bs table layer.v j ≡ value torch model w (rows j)

  -- The same in each layer, for the rows that the reference computes there.
  abbrev pub IsCached : List (LayerWeights F) → Rows F → ℕ → List (Layer (Block F)) → Type 0
  IsCached [] rows n layers = Unit
  IsCached (w ∷ ws) rows n [] = ⊥
  IsCached (w ∷ ws) rows n (layer ∷ layers) =
      IsCachedLayer w rows n layer × IsCached ws (layer_of torch model w rows) n layers

  module _ (IsOrdinary : F → Type 0) (law : IsMasking torch IsOrdinary) (pos : 0 < bs)
      (inj : IsInjective table) (i n seen : ℕ) (e : seen ≡ i + n)
      (fits : seen ≤ length table * bs) where
    abbrev positions : List ℕ
    positions = range_from i n

    module _ (f : ℕ → Heads F) (cache : BlockId → ℕ → Heads F)
        (before : (j : ℕ) → j < i → cell bs table cache j ≡ f j) where
      written_all : (j : ℕ) → j < seen → cell bs table (written bs table f i n cache) j ≡ f j
      written_all j h = elim (dec_lt j i) [
        | yes p ↦ written_before bs table f inj i n cache j (omega arith) p ∙ before j p
        | no p ↦ written_at bs table f inj i n cache j (omega arith) (omega arith) (omega arith)
      ]

      gathered :
          take seen (gather table bs (written bs table f i n cache)) ≡ map f (range_from 0 seen)
      gathered =
          take-gather bs pos (written bs table f i n cache) table seen fits
          ∙ map-range_from_ext _ f 0 seen (λ j lo hi. written_all j (omega arith))

    abbrev attend_row : LayerWeights F → Rows F → ℕ → Vector F → Vector F
    attend_row w rows p x =
        attend torch model seen p (query torch model w p x) (keys_to torch model w rows seen)
          (values_to torch model w rows seen)

    -- One row of the round.
    row_lem :
        (w : LayerWeights F) (rows : Rows F) (p : ℕ)
        → IsOrdinaryLayer torch model IsOrdinary w rows seen
        → p < seen
        → finish_layer torch model w (rows p) (
            attend torch model seen p
              (query torch model w p (rows p))
              (keys_to torch model w rows seen)
              (values_to torch model w rows seen))
          ≡ layer_of torch model w rows p
    unfolding layer_of
    row_lem w rows p ord h = ap (finish_layer torch model w (rows p)) (
        attend-causal torch IsOrdinary law model (λ j. key torch model w j (rows j))
          (λ j. value torch model w (rows j)) (query torch model w p (rows p)) p (seen - suc p) seen
          (omega arith) (λ h'. ord.of_scores p h' h) ord.of_values)

    -- A round of the loop over the layers computes the reference's rows.
    pub layer_pass_lem :
        (w : LayerWeights F) (rows : Rows F) (layer : Layer (Block F))
        → IsOrdinaryLayer torch model IsOrdinary w rows seen
        → IsCachedLayer w rows i layer
        → (layer' : Layer (Block F)) × IsCachedLayer w rows seen layer'
          × ((b : BlockId)
              → ((k : ℕ) → k < length table → b ≢ block_at table k)
              → (layer'.k b ≡ layer.k b) × (layer'.v b ≡ layer.v b))
          × (layer_pass torch model w positions
                (map (slot bs table) positions)
                table
                bs
                seen
                (map rows positions)
                layer
              ≡ (map (layer_of torch model w rows) positions, layer'))
    unfolding layer_pass
    layer_pass_lem w rows layer ord cached =
        let K = λ (j : ℕ). key torch model w j (rows j) in
        let V = λ (j : ℕ). value torch model w (rows j) in
        let layer' : Layer (Block F) = record {
          k = written bs table K i n layer.k;
          v = written bs table V i n layer.v;
        } in
        (
          layer',
          record {
            keys = written_all K layer.k cached.keys;
            values = written_all V layer.v cached.values;
          },
          λ b other. (
            fun_ext (λ o. written_elsewhere bs table K i n layer.k b o (omega arith) other),
            fun_ext (λ o. written_elsewhere bs table V i n layer.v b o (omega arith) other),
          ),
          rw
              (
                zip_with_self (key torch model w) rows positions,
                map-map (value torch model w) rows positions,
                gathered K layer.k cached.keys,
                gathered V layer.v cached.values,
              )
              (ap (λ l. (l, layer'))
                (ap (zip_with (finish_layer torch model w) (map rows positions))
                    (zip_with_self (attend_row w rows) rows positions)
                  ∙ zip_with-map (finish_layer torch model w) rows _ positions
                  ∙ map-range_from_ext _ (layer_of torch model w rows) i n
                      (λ p lo hi. row_lem w rows p ord (omega arith)))),
        )
