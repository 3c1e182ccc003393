-- ===== src/KvCache/Storage.antt =====
-- The class PagedKVCache of miniserve/kv_cache.py. A tensor's block is a value of the type `T`, which
-- is not described further, and a layer is its pair of tensors, by block id.
use miniserve.Base.{
  ℕ, zero, suc, ◌+◌, ◌-◌, Bool, true, false, none, some, List, [], ◌∷◌, ◌++◌, map, String, ltb,
  ◌==◌, not, if◌then◌else◌, ite, length, count, ℕ_discrete,
}
use miniserve.Result.{
  value_error, key_error, index_error, invariant_violation, Result, ok, raise, ◌>>=◌,
}
use miniserve.Dict.{lookup, insert, delete}

abbrev pub ReqId : Type 0
ReqId = String

abbrev pub BlockId : Type 0
BlockId = ℕ

-- `k_cache[i]` and `v_cache[i]`: both lists are built with one entry to a layer, and only the
-- tensors in them change.
pub record Layer (T : Type 0) : Type 0 where
  pub k : BlockId → T
  pub v : BlockId → T

pub record PagedKvCache (T : Type 0) : Type 0 where
  pub num_blocks : ℕ
  pub block_size : ℕ
  pub poison_on_free : Bool
  pub layers : List (Layer T)
  pub free_blocks : List BlockId
  pub block_tables : List (ReqId × List BlockId)

-- `range(i, i + n)`
unfoldable pub range_from : ℕ → ℕ → List ℕ
range_from i zero = []
range_from i (suc n) = i ∷ range_from (suc i) n

unfoldable pub replicate_layers : {T : Type 0} → ℕ → T → List (Layer T)
replicate_layers zero zeros = []
replicate_layers (suc n) zeros =
    record { k = λ b. zeros; v = λ b. zeros } ∷ replicate_layers n zeros

unfoldable pub init : {T : Type 0} → T → ℕ → ℕ → ℕ → Bool → PagedKvCache T
init zeros num_layers num_blocks block_size poison_on_free = record {
  num_blocks = num_blocks;
  block_size = block_size;
  poison_on_free = poison_on_free;
  layers = replicate_layers num_layers zeros;
  free_blocks = range_from 0 num_blocks;
  block_tables = [];
}

-- The ids in the block tables, in the order in which `check_invariants` reads them.
unfoldable pub held : List (ReqId × List BlockId) → List BlockId
held [] = []
held ((r, table) ∷ tables) = table ++ held tables

-- `[self.free_blocks.popleft() for _ in range(n)]`, and the deque that is left.
unfoldable pub popleft_n : ℕ → List BlockId → Result (List BlockId × List BlockId)
popleft_n zero free = ok ([], free)
popleft_n (suc n) [] = raise index_error
popleft_n (suc n) (b ∷ free) = do (taken, rest) ← popleft_n n free; ok (b ∷ taken, rest)

-- `k[blocks] = value`
unfoldable pub fill : {T : Type 0} → T → List BlockId → (BlockId → T) → BlockId → T
fill value [] k b = k b
fill value (c ∷ blocks) k b = ite (ℕ_discrete b c) value (fill value blocks k b)

-- `len(set(ids))`
unfoldable pub set_size : List BlockId → ℕ
set_size [] = 0
set_size (b ∷ ids) = ite (ℕ_discrete (count ℕ_discrete b ids) 0) 1 0 + set_size ids

module _ {T : Type 0} where
  unfoldable pub free_count : PagedKvCache T → ℕ
  free_count kv = length kv.free_blocks

  unfoldable pub used_count : PagedKvCache T → ℕ
  used_count kv = kv.num_blocks - length kv.free_blocks

  -- The guards of `allocate` that raise are in the order of the source.
  unfoldable pub allocate : PagedKvCache T → ReqId → ℕ → Result (PagedKvCache T × Bool)
  allocate kv req_id num_blocks = elim (lookup req_id kv.block_tables) [
    | some table ↦ raise value_error
    | none ↦
        if ltb num_blocks 1
        then raise value_error
        else if ltb (length kv.free_blocks) num_blocks
        then ok (kv, false)
        else do
          (taken, rest) ← popleft_n num_blocks kv.free_blocks
          ok (
            record kv { free_blocks = rest; block_tables = insert req_id taken kv.block_tables },
            true,
          )
  ]

  unfoldable pub append_to :
      PagedKvCache T → ReqId → List BlockId → List BlockId → PagedKvCache T × Bool
  append_to kv req_id table [] = (kv, false)
  append_to kv req_id table (b ∷ rest) = (
    record kv {
      free_blocks = rest;
      block_tables = insert req_id (table ++ b ∷ []) kv.block_tables;
    },
    true,
  )

  unfoldable pub append_block : PagedKvCache T → ReqId → Result (PagedKvCache T × Bool)
  unfolding append_to
  append_block kv req_id = elim (lookup req_id kv.block_tables) [
    | none ↦ raise key_error
    | some table ↦ ok (append_to kv req_id table kv.free_blocks)
  ]

  unfoldable pub poison : T → List BlockId → Layer T → Layer T
  poison nan blocks layer = record { k = fill nan blocks layer.k; v = fill nan blocks layer.v }

  -- `nan` is what `float("nan")` leaves in a tensor's block.
  unfoldable pub free : T → PagedKvCache T → ReqId → Result (PagedKvCache T)
  free nan kv req_id = elim (lookup req_id kv.block_tables) [
    | none ↦ raise key_error
    | some blocks ↦ ok (record kv {
      layers = if kv.poison_on_free then map (poison nan blocks) kv.layers else kv.layers;
      free_blocks = kv.free_blocks ++ blocks;
      block_tables = delete req_id kv.block_tables;
    })
  ]

  abbrev pub all_ids : PagedKvCache T → List BlockId
  all_ids kv = kv.free_blocks ++ held kv.block_tables

  unfoldable pub check_invariants : PagedKvCache T → Result (Unit {0})
  check_invariants kv =
      if not (length (all_ids kv) == kv.num_blocks)
      then raise invariant_violation
      else if not (set_size (all_ids kv) == kv.num_blocks)
      then raise invariant_violation
      else ok tt
