-- ===== src/Scheduler/Invariant.antt =====
-- The well-formedness of a scheduler of miniserve/scheduler.py between two statements. `lag r` is 1
-- while the last token of the running object `r` may still have no slot in its blocks, and else 0.
use miniserve.Base.{
  float_limit, ℕ, ◌+◌, ◌-◌, ◌≤◌, ◌<◌, ◌≡◌, ◌⊎◌, List, some, count, indicator, ℕ_discrete,
  String_discrete, length, ceil_div, ◌*◌, arith,
}
use miniserve.Dict.{lookup, keys}
use miniserve.KvCache.Storage.{ReqId, BlockId, PagedKvCache}
use miniserve.KvCache.Conservation.{IsConserved}
use miniserve.Scheduler.Sequence.{Sequence, waiting, prefill, decode, total_len}
use miniserve.Scheduler.State.{Ref, Scheduler, ids, n_blocks, blocks_for}
use miniserve.Result.{ok}
use miniserve.Scheduler.Heap.{◌∈◌}

abbrev pub no_lag : Ref → ℕ
no_lag r = 0

abbrev pub lag_at : Ref → Ref → ℕ
lag_at r r' = indicator (ℕ_discrete r' r)

-- A request that was accepted and is not done: its worst case fits in the cache.
pub record IsLive (block_size num_blocks lag : ℕ) (q : Sequence) : Type 0 where
  pub prompt : 0 < length q.prompt_ids
  pub worst : ceil_div (length q.prompt_ids + q.max_tokens) block_size ≤ num_blocks
  -- `submit` has divided the tokens of its worst case, as floats
  pub divides : length q.prompt_ids + q.max_tokens < float_limit * block_size
  pub unfinished : length q.output_ids < q.max_tokens + lag
  pub emitted : q.emitted_count ≡ length q.output_ids

-- A division of no more tokens than those of a live request's worst case returns.
pub IsLive-blocks_for :
    {T : Type 0} (s : Scheduler T) (lag n : ℕ) (q : Sequence)
    → 0 < s.kv.block_size
    → IsLive s.kv.block_size s.kv.num_blocks lag q
    → n ≤ length q.prompt_ids + q.max_tokens
    → blocks_for s n ≡ ok (n_blocks s n)
unfolding blocks_for
IsLive-blocks_for s lag n q block_pos l h = ground (arith, l.divides)

-- The request's table has exactly the blocks that `n` tokens need.
abbrev pub Holds : {T : Type 0} → PagedKvCache T → Sequence → ℕ → Type 0
Holds kv q n =
    (table : List BlockId) × (lookup q.req_id kv.block_tables ≡ some table)
    × (length table ≡ ceil_div n kv.block_size)

pub record IsValid {T : Type 0} (lag : Ref → ℕ) (s : Scheduler T) : Type 0 where
  pub conserved : IsConserved s.kv
  pub block_pos : 0 < s.kv.block_size
  pub tables :
      (k : ReqId)
      → count String_discrete k (keys s.kv.block_tables)
        ≡ count String_discrete k (ids s.heap s.running)
  pub distinct :
      (k : ReqId)
      → count String_discrete k (ids s.heap s.running)
          + count String_discrete k (ids s.heap s.waiting)
        ≤ 1
  pub live :
      (r : Ref)
      → 0 < count ℕ_discrete r s.running + count ℕ_discrete r s.waiting
      → IsLive s.kv.block_size s.kv.num_blocks (lag r) (s.heap r)
  pub numbered :
      (r : Ref)
      → 0 < count ℕ_discrete r s.running + count ℕ_discrete r s.waiting
      → ((s.heap r).seq_no ≡ r) × (r < s.seq_counter)
  pub active :
      (r : Ref) → r ∈ s.running → ((s.heap r).status ≡ prefill) ⊎ ((s.heap r).status ≡ decode)
  pub idle : (r : Ref) → r ∈ s.waiting → (s.heap r).status ≡ waiting
  pub holds : (r : Ref) → r ∈ s.running → Holds s.kv (s.heap r) (total_len (s.heap r) - lag r)
  pub batched : length s.running ≤ s.max_batch
  pub accounted : length s.metrics.requests + length s.running + length s.waiting ≡ s.seq_counter
