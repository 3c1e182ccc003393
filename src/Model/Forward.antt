-- ===== src/Model/Forward.antt =====
-- `forward` and `_forward_one` of miniserve/model.py: the passes through the paged cache. A block of a
-- tensor of the cache maps an offset to the heads that are stored there.
use miniserve.Base.{
  ℕ, ◌+◌, ◌-◌, ◌/◌, ◌%◌, Bool, Option, none, some, List, [], ◌∷◌, ◌++◌, map, ite, ℕ_discrete, ltb,
  leb, if◌then◌else◌, length, get_elem?, take,
}
use mathlib.Core.List.{get_last?}
use miniserve.Result.{key_error, index_error, Result, ok, raise, ◌>>=◌}
use miniserve.Dict.{lookup, insert}
use miniserve.KvCache.Storage.{ReqId, BlockId, Layer, PagedKvCache, range_from}
use miniserve.Scheduler.Sequence.{Token, Sequence, is_prefill}
use miniserve.Model.Torch.{Torch, Vector, Heads, masked_fill, zip_with}
use miniserve.Model.Weights.{PagedModel, LayerWeights, query, key, value, finish_layer, logits}

abbrev pub Block : Type 0 → Type 0
Block F = ℕ → Heads F

-- `list[i]`
abbrev pub or_index_error {ℓ} : {A : Type ℓ} → Option A → Result A
or_index_error none = raise index_error
or_index_error (some a) = ok a

abbrev pub content : Sequence → List Token
content q = q.prompt_ids ++ q.output_ids

-- The positions of the pass for a sequence.
unfoldable pub positions_of : Sequence → List ℕ
positions_of q =
    if is_prefill q.status then range_from 0 (length (content q)) else (length (content q) - 1) ∷ []

unfoldable pub tokens_of : Sequence → Result (List Token)
tokens_of q =
    if is_prefill q.status
    then ok (content q)
    else do token ← or_index_error (get_last? (content q)); ok (token ∷ [])

-- `torch.tensor(table)[positions // bs]`, each with its offset.
unfoldable pub slots_of : List BlockId → ℕ → List ℕ → Result (List (BlockId × ℕ))
slots_of table bs [] = ok []
slots_of table bs (p ∷ ps) = do
  block ← or_index_error (get_elem? table (p / bs))
  slots ← slots_of table bs ps
  ok ((block, p % bs) ∷ slots)

module _ {E : Type 0} where
  unfoldable pub write_slot : BlockId × ℕ → E → (BlockId → ℕ → E) → BlockId → ℕ → E
  write_slot slot e cache b o =
      ite (ℕ_discrete b slot.0) (ite (ℕ_discrete o slot.1) e (cache b o)) (cache b o)

  -- `cache[block_ids, offsets] = values`
  unfoldable pub scatter : List (BlockId × ℕ) → List E → (BlockId → ℕ → E) → BlockId → ℕ → E
  scatter [] values cache = cache
  scatter (s ∷ slots) [] cache = cache
  scatter (s ∷ slots) (e ∷ values) cache = scatter slots values (write_slot s e cache)

  -- `cache[table].reshape(-1, ...)`
  unfoldable pub gather : List BlockId → ℕ → (BlockId → ℕ → E) → List E
  gather [] bs cache = []
  gather (b ∷ table) bs cache = map (cache b) (range_from 0 bs) ++ gather table bs cache

-- `repeat_interleave(n, dim=1)` on one row of heads.
abbrev pub repeat_interleave : {F : Type 0} → ℕ → Heads F → Heads F
repeat_interleave n x h = x (h / n)

module _ {F : Type 0} (torch : Torch F) (model : PagedModel F) where
  -- `self.embed[tokens]`
  unfoldable pub embed_all : List Token → Result (List (Vector F))
  embed_all [] = ok []
  embed_all (token ∷ tokens) =
      if ltb token model.embed.rows
      then (do rows ← embed_all tokens; ok (model.embed.at token ∷ rows))
      else raise index_error

  -- The scaled scores of one head of a query with the keys.
  unfoldable pub scores : Heads F → List (Heads F) → ℕ → List F
  scores q ks h =
      map
        (λ k.
          torch.div (torch.dot model.head_dim (q h) (repeat_interleave model.n_rep k h))
            (torch.sqrt (torch.of_nat model.head_dim)))
        ks

  -- `causal`, for a position and the keys 0 to `seen - 1`.
  unfoldable pub causal : ℕ → ℕ → List Bool
  causal seen position = map (λ k. leb k position) (range_from 0 seen)

  -- The context of one head, from its scores.
  unfoldable pub mix : List F → List (Heads F) → ℕ → ℕ → F
  mix head_scores vs h d =
      torch.weighted (map torch.cast (torch.softmax head_scores))
        (map (λ v. repeat_interleave model.n_rep v h d) vs)

  unfoldable pub attend : ℕ → ℕ → Heads F → List (Heads F) → List (Heads F) → Vector F
  attend seen position q ks vs i =
      let h = i / model.head_dim in
      mix (masked_fill torch.lowest (scores q ks h) (causal seen position)) vs h
        (i % model.head_dim)

  -- The round of the loop over the layers, for the rows `xs` at `positions`.
  unfoldable pub layer_pass :
      LayerWeights F
      → List ℕ
      → List (BlockId × ℕ)
      → List BlockId
      → ℕ
      → ℕ
      → List (Vector F)
      → Layer (Block F)
      → List (Vector F) × Layer (Block F)
  layer_pass w positions slots table bs seen xs layer =
      let k_cache = scatter slots (zip_with (key torch model w) positions xs) layer.k in
      let v_cache = scatter slots (map (value torch model w) xs) layer.v in
      let k_all = take seen (gather table bs k_cache) in
      let v_all = take seen (gather table bs v_cache) in
      let ctx =
        zip_with (λ position x. attend seen position (query torch model w position x) k_all v_all)
          positions xs in
      (zip_with (finish_layer torch model w) xs ctx, record { k = k_cache; v = v_cache })

  -- `kv.k_cache[li]` raises where the cache has fewer layers than the model.
  unfoldable pub layers_pass :
      List (LayerWeights F)
      → List ℕ
      → List (BlockId × ℕ)
      → List BlockId
      → ℕ
      → ℕ
      → List (Vector F)
      → List (Layer (Block F))
      → Result (List (Vector F) × List (Layer (Block F)))
  layers_pass [] positions slots table bs seen xs layers = ok (xs, layers)
  layers_pass (w ∷ ws) positions slots table bs seen xs [] = raise index_error
  layers_pass (w ∷ ws) positions slots table bs seen xs (layer ∷ layers) = do
    let (xs', layer') = layer_pass w positions slots table bs seen xs layer
    (out, rest) ← layers_pass ws positions slots table bs seen xs' layers
    ok (out, layer' ∷ rest)

  unfoldable pub forward_one :
      ReqId
      → List Token
      → List ℕ
      → PagedKvCache (Block F)
      → Result (Vector F × PagedKvCache (Block F))
  forward_one req_id tokens positions kv = do
    table ← elim (lookup req_id kv.block_tables) [ none ↦ raise key_error | some t ↦ ok t ]
    slots ← slots_of table kv.block_size positions
    last ← or_index_error (get_last? positions)
    rows ← embed_all tokens
    (xs, layers) ←
        layers_pass model.layers positions slots table kv.block_size (last + 1) rows kv.layers
    x ← or_index_error (get_last? xs)
    ok (logits torch model x, record kv { layers = layers })

  -- The loop over the batch: `out` is the dict of the logits so far.
  unfoldable pub forward_from :
      List (ReqId × Vector F)
      → List Sequence
      → PagedKvCache (Block F)
      → Result (List (ReqId × Vector F) × PagedKvCache (Block F))
  forward_from out [] kv = ok (out, kv)
  forward_from out (q ∷ seqs) kv = do
    tokens ← tokens_of q
    (l, kv') ← forward_one q.req_id tokens (positions_of q) kv
    forward_from (insert q.req_id l out) seqs kv'

  abbrev pub forward :
      List Sequence
      → PagedKvCache (Block F)
      → Result (List (ReqId × Vector F) × PagedKvCache (Block F))
  forward = forward_from []
