-- ===== src/Model/Batched.antt =====
-- `forward` of miniserve/model.py on a batch: each request gets the logits of the reference.
use miniserve.Base.{
  ℕ, ◌*◌, ◌≤◌, ◌<◌, ◌≡◌, refl, ◌∙◌, sym, some, List, [], ◌∷◌, map, length, All, arith, count,
  indicator_yes, String_discrete,
}
use miniserve.Result.{ok}
use miniserve.Dict.{lookup, insert, lookup-insert_self, lookup-insert_ne}
use miniserve.KvCache.Storage.{ReqId, BlockId, Layer, PagedKvCache}
use miniserve.KvCache.Conservation.{IsConserved}
use miniserve.Scheduler.Sequence.{Sequence, is_prefill}
use miniserve.Model.Torch.{Torch, IsMasking, Vector}
use miniserve.Model.Weights.{PagedModel, LayerWeights}
use miniserve.Model.Forward.{Block, content, forward_from, forward}
use miniserve.Model.Reference.{Rows, embedded, reference}
use miniserve.Model.Layers.{Agree, Agree-IsCached}
use miniserve.Model.Blocks.{table-IsInjective, tables-IsOutside}
use miniserve.Model.Pass.{IsCached}
use miniserve.Model.Request.{IsServable, forward_one_lem}
use miniserve.Model.Texts.{start_by}

abbrev pub ids_of : List Sequence → List ReqId
ids_of = map (λ q. q.req_id)

module _ {F : Type 0} (torch : Torch F) (model : PagedModel F) where
  -- The request has the logits of its text, and its slots the keys and values of it.
  pub record IsServed (kv : PagedKvCache (Block F)) (out : List (ReqId × Vector F)) (q : Sequence)
      : Type 0 where
    pub table : List BlockId
    pub found : lookup q.req_id kv.block_tables ≡ some table
    pub room : length (content q) ≤ length table * kv.block_size
    pub answer : lookup q.req_id out ≡ some (reference torch model (content q))
    pub cached :
        IsCached torch model kv.block_size table model.layers
          (embedded torch model (content q))
          (length (content q))
          kv.layers

  -- What a loop over requests leaves alone: other requests' logits and slots.
  pub record Spares (kv : PagedKvCache (Block F)) (seqs : List Sequence)
      (out out' : List (ReqId × Vector F)) (layers' : List (Layer (Block F))) : Type 0 where
    pub logits :
        (r : ReqId) → count String_discrete r (ids_of seqs) ≡ 0 → lookup r out' ≡ lookup r out
    pub slots :
        (r : ReqId) (table : List BlockId)
        → count String_discrete r (ids_of seqs) ≡ 0
        → lookup r kv.block_tables ≡ some table
        → (ws : List (LayerWeights F)) (rows : Rows F) (n : ℕ) → n ≤ length table * kv.block_size
        → IsCached torch model kv.block_size table ws rows n kv.layers
        → IsCached torch model kv.block_size table ws rows n layers'

  abbrev pub CanServe : (F → Type 0) → PagedKvCache (Block F) → Sequence → Type 0
  CanServe IsOrdinary kv q = (table : List BlockId) × IsServable torch model IsOrdinary kv q table

  module _ (IsOrdinary : F → Type 0) (law : IsMasking torch IsOrdinary) where
    -- After the pass of another request a request can be served as before.
    Agree-CanServe :
        (kv : PagedKvCache (Block F)) (layers : List (Layer (Block F))) (r : ReqId)
        (table : List BlockId)
        → IsConserved kv
        → lookup r kv.block_tables ≡ some table
        → Agree table kv.layers layers
        → (seqs : List Sequence) → count String_discrete r (ids_of seqs) ≡ 0
        → All (CanServe IsOrdinary kv) seqs
        → All (CanServe IsOrdinary (record kv { layers = layers })) seqs
    Agree-CanServe kv layers r table c found a [] other can = tt
    Agree-CanServe kv layers r table c found a (q ∷ seqs) other ((table', s), can) = (
      (
        table',
        record {
          found = s.found;
          some_text = s.some_text;
          room = s.room;
          known = s.known;
          ordinary = s.ordinary;
          cached =
              Agree-IsCached torch model kv.block_size table table'
                (tables-IsOutside kv c r q.req_id table table' found s.found (λ p.
                  absurd (omega (arith, other, indicator_yes (String_discrete q.req_id r) p))))
                model.layers (embedded torch model (content q)) _ kv.layers layers
                (omega
                  (arith, s.room, start_by (is_prefill q.status) (length (content q)) s.some_text))
                a s.cached;
        },
      ),
      Agree-CanServe kv layers r table c found a seqs (omega arith) can,
    )

    forward_from_lem :
        (seqs : List Sequence) (out : List (ReqId × Vector F)) (kv : PagedKvCache (Block F))
        → IsConserved kv
        → 0 < kv.block_size
        → ((r : ReqId) → count String_discrete r (ids_of seqs) ≤ 1)
        → All (CanServe IsOrdinary kv) seqs
        → (out' : List (ReqId × Vector F)) × (layers : List (Layer (Block F))) × (forward_from torch
              model out seqs kv
            ≡ ok (out', record kv { layers = layers }))
          × All (IsServed (record kv { layers = layers }) out') seqs
          × Spares kv seqs out out' layers
    unfolding forward_from
    forward_from_lem [] out kv c pos once can = (
      out,
      kv.layers,
      refl,
      tt,
      record { logits = λ r h. refl; slots = λ r table h found ws rows n fits cached. cached },
    )
    forward_from_lem (q ∷ seqs) out kv c pos once ((table, s), can) =
        let absent : count String_discrete q.req_id (ids_of seqs) ≡ 0 =
          omega (arith, once q.req_id, indicator_yes (String_discrete q.req_id q.req_id) refl) in
        let (layers1, c1, a1, (tokens, e1, e2)) =
          forward_one_lem torch model IsOrdinary law kv pos q table s
            (table-IsInjective kv c q.req_id table s.found) in
        let kv1 = record kv { layers = layers1 } in
        let (out', layers', e3, served, spared) =
          forward_from_lem seqs (insert q.req_id (reference torch model (content q)) out) kv1
            (record { total = c.total; once = c.once }) pos (λ r. omega (arith, once r))
            (Agree-CanServe kv layers1 q.req_id table c s.found a1 seqs absent can) in
        (
          out',
          layers',
          rw (e1, e2) e3,
          (
            record {
              table = table;
              found = s.found;
              room = s.room;
              answer = spared.logits q.req_id absent ∙ lookup-insert_self q.req_id _ out;
              cached =
                  spared.slots q.req_id table absent s.found model.layers _ (length (content q))
                    s.room c1;
            },
            served,
          ),
          record {
            logits = λ r h.
                spared.logits r (omega (arith, h))
                ∙ lookup-insert_ne q.req_id r _ out (λ p.
                  absurd (omega (arith, h, indicator_yes (String_discrete q.req_id r) (sym p))));
            slots = λ r table' h found' ws rows n fits cached.
                spared.slots r table' (omega (arith, h)) found' ws rows n fits (
                  Agree-IsCached torch model kv.block_size table table'
                    (tables-IsOutside kv c q.req_id r table table' s.found found' (λ p.
                      absurd
                        (omega (arith, h, indicator_yes (String_discrete q.req_id r) (sym p)))))
                    ws rows n kv.layers layers1 fits a1 cached);
          },
        )

    -- On a cache whose block ids are conserved, with blocks of at least one token and a
    -- softmax that ignores filled scores, `forward` on a batch of distinct requests that can
    -- each be served returns for each the logits of the reference, which runs the same
    -- layers over the whole text with neither cache nor mask; it changes nothing of the
    -- cache but the tensors, afterwards the slots of each request hold the keys and the
    -- values of its whole text, and the logits and the slots of other requests are as
    -- before.
    pub forward_total :
        (seqs : List Sequence) (kv : PagedKvCache (Block F))
        → IsConserved kv
        → 0 < kv.block_size
        → ((r : ReqId) → count String_discrete r (ids_of seqs) ≤ 1)
        → All (CanServe IsOrdinary kv) seqs
        → (out : List (ReqId × Vector F)) × (layers : List (Layer (Block F))) × (forward torch model
              seqs kv
            ≡ ok (out, record kv { layers = layers }))
          × All (IsServed (record kv { layers = layers }) out) seqs
          × Spares kv seqs [] out layers
    forward_total seqs = forward_from_lem seqs []
