-- ===== src/Server/Replies.antt =====
-- What miniserve/server.py answers after a submission, and on its two pages.
use miniserve.Base.{
  ℕ, zero, suc, ◌+◌, ◌*◌, ◌≤◌, ◌<◌, ◌≡◌, refl, none, some, List, [], ◌∷◌, ◌++◌, map, String, length,
  take, arith,
}
use miniserve.Result.{ok}
use miniserve.KvCache.Conservation.{IsConserved}
use miniserve.KvCache.Storage.{free_count, used_count}
use miniserve.Scheduler.Sequence.{Token}
use miniserve.Engine.State.{Engine, FinishSummary, Item, token_item, finish_item}
use miniserve.Server.Respond.{
  StreamEvent, token_event, done_event, ended, disconnected, blocked, relay,
}
use miniserve.Server.Get.{MetricsPage, health, metrics}

-- The writes for a stream of tokens with an end.
abbrev pub writes : List Token → FinishSummary → List StreamEvent
writes tokens summary = map token_event tokens ++ done_event summary ∷ []

abbrev pub stream_of : List Token → FinishSummary → List Item → List Item
stream_of tokens summary rest = map token_item tokens ++ finish_item summary ∷ rest

relay_staying :
    (tokens : List Token) (summary : FinishSummary) (rest : List Item)
    → relay none (stream_of tokens summary rest) ≡ (writes tokens summary, ended)
unfolding relay
relay_staying [] summary rest = refl
relay_staying (t ∷ tokens) summary rest = rw (relay_staying tokens summary rest) refl

relay_leaving :
    (n : ℕ) (tokens : List Token) (summary : FinishSummary) (rest : List Item)
    → n ≤ length tokens
    → relay (some n) (stream_of tokens summary rest)
      ≡ (take n (writes tokens summary), disconnected)
unfolding relay
relay_leaving zero [] summary rest h = refl
relay_leaving zero (t ∷ tokens) summary rest h = refl
relay_leaving (suc n) [] summary rest h = absurd (omega (arith, h))
relay_leaving (suc n) (t ∷ tokens) summary rest h =
    rw (relay_leaving n tokens summary rest (omega (arith, h))) refl

relay_waiting :
    (tokens : List Token) → relay none (map token_item tokens) ≡ (map token_event tokens, blocked)
unfolding relay
relay_waiting [] = refl
relay_waiting (t ∷ tokens) = rw (relay_waiting tokens) refl

-- Of a stream of tokens with an end, the relay writes one event to each token, in order, and the
-- event of the end, and stops there, whatever follows on the stream; a client that takes fewer
-- writes gets exactly the first ones; and while the end is not there, the relay has written all
-- tokens and waits.
pub relay_lem :
    (tokens : List Token) (summary : FinishSummary) (rest : List Item) (n : ℕ)
    → n ≤ length tokens
    → (relay none (stream_of tokens summary rest) ≡ (writes tokens summary, ended))
      × (relay (some n) (stream_of tokens summary rest)
          ≡ (take n (writes tokens summary), disconnected))
      × (relay none (map token_item tokens) ≡ (map token_event tokens, blocked))
relay_lem tokens summary rest n h =
    (relay_staying tokens summary rest, relay_leaving n tokens summary rest h, relay_waiting tokens)

-- On an engine whose cache has its ids conserved and at least one block, the free blocks on the
-- health page are no more than all blocks, the metrics page is there, and its utilization in
-- percent and that of the free blocks add up to one hundred.
pub pages_bounds :
    {T : Type 0} (engine : Engine T) (model_name : String)
    → IsConserved engine.scheduler.kv
    → 0 < engine.scheduler.kv.num_blocks
    → (free total : ℕ) × (page : MetricsPage) × (((health engine model_name).kv_blocks_free ≡ free)
        × ((health engine model_name).kv_blocks_total ≡ total))
      × (metrics engine ≡ ok page)
      × (free ≤ total)
      × (page.kv_utilization_pct.0 + 100 * free ≡ 100 * page.kv_utilization_pct.1)
      × (page.kv_utilization_pct.1 ≡ total)
unfolding health metrics free_count used_count
pages_bounds engine model_name v pos = (
  length engine.scheduler.kv.free_blocks,
  engine.scheduler.kv.num_blocks,
  record {
    num_running = length engine.scheduler.running;
    num_waiting = length engine.scheduler.waiting;
    kv_utilization_pct = (100 * used_count engine.scheduler.kv, engine.scheduler.kv.num_blocks);
    preemptions_total = engine.scheduler.preemptions_total;
    requests_finished = length engine.scheduler.metrics.requests;
    steps_total = length engine.scheduler.metrics.steps;
  },
  (refl, refl),
  ground (arith, pos),
  omega (arith, v.total),
  omega (arith, v.total),
  refl,
)
