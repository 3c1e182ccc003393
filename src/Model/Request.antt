-- ===== src/Model/Request.antt =====
-- `_forward_one` of miniserve/model.py on a request with room in its blocks.
use miniserve.Base.{
  ℕ, zero, suc, ◌+◌, ◌-◌, ◌*◌, ◌≤◌, ◌<◌, ◌≡◌, refl, ap, ◌∙◌, some, List, map, length, All, arith,
  if◌then◌else◌,
}
use miniserve.Result.{ok}
use miniserve.Dict.{lookup}
use miniserve.KvCache.Storage.{ReqId, BlockId, Layer, PagedKvCache, range_from}
use miniserve.Scheduler.Sequence.{Token, Sequence, is_prefill}
use miniserve.Model.Torch.{Torch, IsMasking}
use miniserve.Model.Weights.{PagedModel}
use miniserve.Model.Forward.{
  Block, content, positions_of, tokens_of, embed_all, forward_one, layers_pass,
}
use miniserve.Model.Reference.{embedded, layers_of, reference, IsOrdinaryRun}
use miniserve.Model.Slots.{IsInjective, slot, slots_of-range_from}
use miniserve.Model.Layers.{Agree, layers_pass_lem}
use miniserve.Model.Pass.{IsCached}
use miniserve.Model.Texts.{
  token_at, get_last?-map-range_from, get_last?-range_from, All-token_at, positions_by, start_by,
  tokens_by,
}

-- The position at which the pass for a sequence begins.
abbrev pub start : Sequence → ℕ
start q = if is_prefill q.status then 0 else length (content q) - 1

pub positions_of_lem :
    (q : Sequence)
    → 0 < length (content q)
    → positions_of q ≡ range_from (start q) (length (content q) - start q)
unfolding positions_of range_from
positions_of_lem q h = positions_by (is_prefill q.status) (length (content q)) h

pub tokens_of_lem :
    (q : Sequence)
    → 0 < length (content q)
    → tokens_of q
      ≡ ok (map (token_at (content q)) (range_from (start q) (length (content q) - start q)))
unfolding tokens_of range_from
tokens_of_lem q h = tokens_by (is_prefill q.status) (content q) h

module _ {F : Type 0} (torch : Torch F) (model : PagedModel F) where
  embed_all_lem :
      (text : List Token) (i n : ℕ)
      → All (λ t. t < model.embed.rows) text
      → i + n ≤ length text
      → embed_all torch model (map (token_at text) (range_from i n))
        ≡ ok (map (embedded torch model text) (range_from i n))
  unfolding embed_all range_from
  embed_all_lem text i zero a h = refl
  embed_all_lem text i (suc n) a h =
      let known = All-token_at (λ t. t < model.embed.rows) text i a (omega arith) in
      let rest = embed_all_lem text (suc i) n a (omega arith) in ground (arith, known, rest)

  -- What a pass needs of a request: a text of known tokens whose positions have slots, the
  -- earlier ones with their keys and values in them, and no overflow on the way.
  pub record IsServable (IsOrdinary : F → Type 0) (kv : PagedKvCache (Block F)) (q : Sequence)
      (table : List BlockId) : Type 0 where
    pub found : lookup q.req_id kv.block_tables ≡ some table
    pub some_text : 0 < length (content q)
    pub room : length (content q) ≤ length table * kv.block_size
    pub known : All (λ t. t < model.embed.rows) (content q)
    pub ordinary :
        IsOrdinaryRun torch model IsOrdinary model.layers
          (embedded torch model (content q))
          (length (content q))
    pub cached :
        IsCached torch model kv.block_size table model.layers
          (embedded torch model (content q))
          (start q)
          kv.layers

  -- The pass over the positions `i` to `i + m`, from what the loop over the layers leaves.
  forward_one_range :
      (r : ReqId) (text : List Token) (kv : PagedKvCache (Block F)) (table : List BlockId) (i m : ℕ)
      (layers : List (Layer (Block F)))
      → lookup r kv.block_tables ≡ some table
      → 0 < kv.block_size
      → All (λ t. t < model.embed.rows) text
      → length text ≡ i + suc m
      → length text ≤ length table * kv.block_size
      → layers_pass torch model model.layers
          (range_from i (suc m))
          (map (slot kv.block_size table) (range_from i (suc m)))
          table
          kv.block_size
          (length text)
          (map (embedded torch model text) (range_from i (suc m)))
          kv.layers
        ≡ ok (
          map
              (layers_of torch model model.layers (embedded torch model text))
              (range_from i (suc m)),
          layers,
        )
      → forward_one torch model r
          (map (token_at text) (range_from i (suc m)))
          (range_from i (suc m))
          kv
        ≡ ok (reference torch model text, record kv { layers = layers })
  unfolding forward_one reference
  forward_one_range r text kv table i m layers found pos known e room pass =
      let end : i + m + 1 ≡ length text = omega arith in
      let last : i + m ≡ length text - 1 = omega arith in
      rw
        (
          found,
          slots_of-range_from kv.block_size pos table i (suc m) (omega arith),
          get_last?-range_from i m,
          embed_all_lem text i (suc m) known (omega arith),
          end,
          pass,
          get_last?-map-range_from (layers_of torch model model.layers (embedded torch model text))
              i m,
          last,
        )
        refl

  module _ (IsOrdinary : F → Type 0) (law : IsMasking torch IsOrdinary)
      (kv : PagedKvCache (Block F)) (pos : 0 < kv.block_size) (q : Sequence) (table : List BlockId)
      (v : IsServable IsOrdinary kv q table) (inj : IsInjective table) where
    -- The pass gives the reference's logits, and afterwards the whole text is cached.
    pub forward_one_lem :
        (layers : List (Layer (Block F))) × IsCached torch model kv.block_size table model.layers
          (embedded torch model (content q))
          (length (content q))
          layers
        × Agree table kv.layers layers
        × ((tokens : List Token) × (tokens_of q ≡ ok tokens)
            × (forward_one torch model q.req_id tokens (positions_of q) kv
                ≡ ok (reference torch model (content q), record kv { layers = layers })))
    unfolding forward_one reference
    forward_one_lem =
        let text = content q in
        let i = start q in
        let reach : i < length text = start_by (is_prefill q.status) (length text) v.some_text in
        let m = length text - i - 1 in
        let size : length text - i ≡ suc m = omega (arith, reach) in
        let (layers, c, a, e) =
          layers_pass_lem torch model kv.block_size table IsOrdinary law pos inj i (suc m)
            (length text) (omega (arith, size)) v.room model.layers (embedded torch model text)
            kv.layers v.ordinary v.cached in
        let tokens = map (token_at text) (range_from i (suc m)) in
        (
          layers,
          c,
          a,
          (
            tokens,
            tokens_of_lem q v.some_text ∙ ap (λ n. ok (map (token_at text) (range_from i n))) size,
            ap (λ ps. forward_one torch model q.req_id tokens ps kv)
                  (positions_of_lem q v.some_text ∙ ap (range_from i) size)
                ∙ forward_one_range q.req_id text kv table i m layers v.found pos v.known
                    (omega (arith, size)) v.room e,
          ),
        )
