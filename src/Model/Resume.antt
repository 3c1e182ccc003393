-- ===== src/Model/Resume.antt =====
-- The next pass of a request in miniserve/model.py: over one token after a pass over the text before
-- it, or over the whole text again after a preemption.
use miniserve.Base.{
  ℕ, zero, suc, ◌+◌, ◌-◌, ◌*◌, ◌/◌, ◌%◌, ◌≤◌, ◌<◌, ◌≡◌, refl, ap, ◌∙◌, sym, some, List, [], ◌∷◌,
  ◌++◌, length, All, arith, length-append, if◌then◌else◌,
}
use mathlib.Core.Path.{subst}
use miniserve.Result.{ok}
use miniserve.Dict.{lookup, insert}
use miniserve.KvCache.Storage.{ReqId, BlockId, Layer, PagedKvCache}
use miniserve.KvCache.Conservation.{IsConserved}
use miniserve.Scheduler.Sequence.{Token, Sequence, decode, is_prefill}
use miniserve.Model.Torch.{Torch, IsMasking, Vector}
use miniserve.Model.Weights.{PagedModel, LayerWeights, key, value}
use miniserve.Model.Forward.{Block, content, forward, forward_from}
use miniserve.Model.Reference.{Rows, layer_of, embedded, reference, IsOrdinaryRun}
use miniserve.Model.Slots.{block_at, map-range_from_ext, div_lt}
use miniserve.Model.Pass.{IsCached}
use miniserve.Model.Request.{IsServable, start, forward_one_lem}
use miniserve.Model.Texts.{token_at}
use miniserve.Model.Blocks.{table-IsInjective}
use miniserve.Model.Batched.{IsServed, CanServe}

block_at-append :
    (table more : List BlockId) (k : ℕ)
    → k < length table
    → block_at (table ++ more) k ≡ block_at table k
block_at-append [] more k h = absurd (omega arith)
block_at-append (b ∷ table) more zero h = refl
block_at-append (b ∷ table) more (suc k) h = block_at-append table more k (omega arith)

token_at-append :
    (text more : List Token) (j : ℕ) → j < length text → token_at (text ++ more) j ≡ token_at text j
token_at-append [] more j h = absurd (omega arith)
token_at-append (t ∷ text) more zero h = refl
token_at-append (t ∷ text) more (suc j) h = token_at-append text more j (omega arith)

module _ {F : Type 0} (torch : Torch F) (model : PagedModel F) where
  -- A position does not depend on the rows after it.
  layer_of-causal :
      (w : LayerWeights F) (rows rows' : Rows F) (n : ℕ)
      → ((j : ℕ) → j < n → rows j ≡ rows' j)
      → (j : ℕ) → j < n
      → layer_of torch model w rows j ≡ layer_of torch model w rows' j
  unfolding layer_of
  layer_of-causal w rows rows' n same p h =
      rw
        (
          same p h,
          map-range_from_ext (λ j. key torch model w j (rows j))
              (λ j. key torch model w j (rows' j)) 0 (suc p)
              (λ j lo hi. ap (key torch model w j) (same j (omega arith))),
          map-range_from_ext (λ j. value torch model w (rows j))
              (λ j. value torch model w (rows' j)) 0 (suc p)
              (λ j lo hi. ap (value torch model w) (same j (omega arith))),
        )
        refl

  module _ (bs : ℕ) where
    -- What is cached of a text is cached of each longer text, and in each longer table.
    append-IsCached :
        (table more : List BlockId) (ws : List (LayerWeights F)) (rows rows' : Rows F) (n : ℕ)
        (layers : List (Layer (Block F)))
        → n ≤ length table * bs
        → ((j : ℕ) → j < n → rows j ≡ rows' j)
        → IsCached torch model bs table ws rows n layers
        → IsCached torch model bs (table ++ more) ws rows' n layers
    append-IsCached table more [] rows rows' n layers fits same c = tt
    append-IsCached table more (w ∷ ws) rows rows' n [] fits same c = absurd c
    append-IsCached table more (w ∷ ws) rows rows' n (layer ∷ layers) fits same c =
        let at = λ (j : ℕ) (h : j < n).
          block_at-append table more (j / bs) (div_lt j (length table) bs (omega arith)) in
        (
          record {
            keys = λ j h.
                ap (λ b. layer.k b (j % bs)) (at j h)
                ∙ c.0.keys j h
                ∙ ap (key torch model w j) (same j h);
            values = λ j h.
                ap (λ b. layer.v b (j % bs)) (at j h)
                ∙ c.0.values j h
                ∙ ap (value torch model w) (same j h);
          },
          append-IsCached table more ws (layer_of torch model w rows) (layer_of torch model w rows')
              n layers fits (layer_of-causal w rows rows' n same) c.1,
        )

  module _ (IsOrdinary : F → Type 0) (law : IsMasking torch IsOrdinary) where
    module _ (kv : PagedKvCache (Block F)) (c : IsConserved kv) (pos : 0 < kv.block_size)
        (q : Sequence) (can : CanServe torch model IsOrdinary kv q) where
      -- A batch of one request.
      pub forward-alone :
          (layers : List (Layer (Block F))) × (forward torch model (q ∷ []) kv
            ≡ ok
                ((q.req_id, reference torch model (content q)) ∷ [], record kv { layers = layers }))
      unfolding forward_from insert
      forward-alone =
          let (table, s) = can in
          let (layers, cached, a, (tokens, e1, e2)) =
            forward_one_lem torch model IsOrdinary law kv pos q table s
              (table-IsInjective kv c q.req_id table s.found) in
          (layers, rw (e1, e2) refl)

    -- The growth phase has put `more` at the end of the request's table.
    module _ (kv : PagedKvCache (Block F)) (out : List (ReqId × Vector F)) (q q' : Sequence)
        (free : List BlockId) (tables : List (ReqId × List BlockId)) (more : List BlockId)
        (served : IsServed torch model kv out q) (t : Token) where
      abbrev grown : PagedKvCache (Block F)
      grown = record kv { free_blocks = free; block_tables = tables }

      -- The next token can be decoded on what the last pass has cached.
      pub decode-IsServable :
          content q' ≡ content q ++ t ∷ []
          → q'.status ≡ decode
          → lookup q'.req_id tables ≡ some (served.table ++ more)
          → length (content q') ≤ length (served.table ++ more) * kv.block_size
          → All (λ token. token < model.embed.rows) (content q')
          → IsOrdinaryRun torch model IsOrdinary model.layers
              (embedded torch model (content q'))
              (length (content q'))
          → IsServable torch model IsOrdinary grown q' (served.table ++ more)
      decode-IsServable e decoding found room known ordinary =
          let longer : length (content q') ≡ length (content q) + 1 =
            ap length e ∙ length-append (content q) (t ∷ []) in
          let from : start q' ≡ length (content q') - 1 =
            ap (λ st. if is_prefill st then 0 else length (content q') - 1) decoding in
          let begin : length (content q) ≡ start q' = omega (arith, from, longer) in
          record {
            found = found;
            some_text = omega (arith, longer);
            room = room;
            known = known;
            ordinary = ordinary;
            cached =
                subst
                  (λ n.
                    IsCached torch model kv.block_size (served.table ++ more) model.layers
                      (embedded torch model (content q')) n kv.layers)
                  begin
                  (append-IsCached kv.block_size served.table more model.layers
                    (embedded torch model (content q)) (embedded torch model (content q'))
                    (length (content q)) kv.layers served.room
                    (λ j h. ap model.embed.at (
                      sym (token_at-append (content q) (t ∷ []) j h)
                      ∙ ap (λ text. token_at text j) (sym e)))
                    served.cached);
          }

      -- When a pass has served a request, and the request has since got its next token and
      -- its block table has at most grown at the end, the decode pass over that token
      -- alone returns the logits that the reference computes for the whole longer text.
      pub decode-reference :
          IsConserved grown
          → 0 < kv.block_size
          → content q' ≡ content q ++ t ∷ []
          → q'.status ≡ decode
          → lookup q'.req_id tables ≡ some (served.table ++ more)
          → length (content q') ≤ length (served.table ++ more) * kv.block_size
          → All (λ token. token < model.embed.rows) (content q')
          → IsOrdinaryRun torch model IsOrdinary model.layers
              (embedded torch model (content q'))
              (length (content q'))
          → (layers : List (Layer (Block F))) × (forward torch model (q' ∷ []) grown
              ≡ ok (
                (q'.req_id, reference torch model (content q')) ∷ [],
                record grown { layers = layers },
              ))
      decode-reference c pos e decoding found room known ordinary =
          forward-alone grown c pos q'
            (served.table ++ more, decode-IsServable e decoding found room known ordinary)

    -- Two requests with the same text, one of which may be decoded and the other resumed by
    -- a prefill after a preemption, each with what it needs in its own cache, get the same
    -- logits.
    pub resumed-decode :
        (kv kv' : PagedKvCache (Block F)) (q q' : Sequence)
        → IsConserved kv
        → IsConserved kv'
        → 0 < kv.block_size
        → 0 < kv'.block_size
        → CanServe torch model IsOrdinary kv q
        → CanServe torch model IsOrdinary kv' q'
        → content q ≡ content q'
        → (l : Vector F) × (layers layers' : List (Layer (Block F))) × (forward torch model
              (q ∷ [])
              kv
            ≡ ok ((q.req_id, l) ∷ [], record kv { layers = layers }))
          × (forward torch model (q' ∷ []) kv'
              ≡ ok ((q'.req_id, l) ∷ [], record kv' { layers = layers' }))
    resumed-decode kv kv' q q' c c' pos pos' can can' e =
        let (layers, one) = forward-alone kv c pos q can in
        let (layers', other) = forward-alone kv' c' pos' q' can' in
        (
          reference torch model (content q'),
          layers,
          layers',
          one
              ∙ ap
                  (λ text.
                    ok ((q.req_id, reference torch model text) ∷ [], record kv { layers = layers }))
                  e,
          other,
        )
