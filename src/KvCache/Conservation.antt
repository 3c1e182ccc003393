-- ===== src/KvCache/Conservation.antt =====
-- The block ids of miniserve/kv_cache.py on the free list and in the block tables.
use miniserve.Base.{
  ℕ, zero, suc, ◌+◌, ◌≡◌, refl, Bool, none, some, List, [], ◌∷◌, ◌++◌, ite, dec_lt, dec_le,
  ℕ_discrete, length, take, drop, count, indicator, arith, length-append, count-append,
  take-append-drop, ap,
}
use miniserve.Dict.{lookup}
use miniserve.KvCache.Storage.{ReqId, BlockId, PagedKvCache, range_from, init, held}
use miniserve.KvCache.Tables.{held-insert_new, held-insert_old, held-delete}
use miniserve.KvCache.Allocation.{allocated, appended, freed}

pub record IsConserved {T : Type 0} (kv : PagedKvCache T) : Type 0 where
  pub total : length kv.free_blocks + length (held kv.block_tables) ≡ kv.num_blocks
  pub once :
      (b : BlockId)
      → count ℕ_discrete b kv.free_blocks + count ℕ_discrete b (held kv.block_tables)
        ≡ indicator (dec_lt b kv.num_blocks)

length-range_from : (i n : ℕ) → length (range_from i n) ≡ n
unfolding range_from
length-range_from i zero = refl
length-range_from i (suc n) = ap suc (length-range_from (suc i) n)

count-range_from :
    (b i n : ℕ)
    → count ℕ_discrete b (range_from i n) ≡ ite (dec_le i b) (indicator (dec_lt b (i + n))) 0
unfolding range_from
count-range_from b i zero = ground arith
count-range_from b i (suc n) = ground (arith, count-range_from b (suc i) n)

pub init-IsConserved :
    {T : Type 0} (zeros : T) (num_layers num_blocks block_size : ℕ) (poison_on_free : Bool)
    → IsConserved (init zeros num_layers num_blocks block_size poison_on_free)
unfolding init held
init-IsConserved zeros num_layers n block_size p = record {
  total = omega (arith, length-range_from 0 n);
  once = λ b. ground (arith, count-range_from b 0 n);
}

module _ {T : Type 0} (kv : PagedKvCache T) (v : IsConserved kv) (req_id : ReqId) where
  pub allocated-IsConserved :
      (n : ℕ) → lookup req_id kv.block_tables ≡ none → IsConserved (allocated kv req_id n)
  allocated-IsConserved n fresh = record {
    total = omega (
      arith,
      v.total,
      held-insert_new length refl length-append req_id (take n kv.free_blocks) kv.block_tables
          fresh,
      length-append (take n kv.free_blocks) (drop n kv.free_blocks),
      ap length (take-append-drop n kv.free_blocks),
    );
    once = λ b. omega (
      arith,
      v.once b,
      held-insert_new (count ℕ_discrete b) refl (count-append ℕ_discrete b) req_id
          (take n kv.free_blocks) kv.block_tables fresh,
      count-append ℕ_discrete b (take n kv.free_blocks) (drop n kv.free_blocks),
      ap (count ℕ_discrete b) (take-append-drop n kv.free_blocks),
    );
  }

  pub appended-IsConserved :
      (table : List BlockId) (b : BlockId) (rest : List BlockId)
      → lookup req_id kv.block_tables ≡ some table
      → kv.free_blocks ≡ b ∷ rest
      → IsConserved (appended kv req_id table b rest)
  appended-IsConserved table b rest found e = record {
    total = omega (
      arith,
      v.total,
      held-insert_old length refl length-append req_id (table ++ b ∷ []) kv.block_tables table
          found,
      length-append table (b ∷ []),
      ap length e,
    );
    once = λ c. omega (
      arith,
      v.once c,
      held-insert_old (count ℕ_discrete c) refl (count-append ℕ_discrete c) req_id (table ++ b ∷ [])
          kv.block_tables table found,
      count-append ℕ_discrete c table (b ∷ []),
      ap (count ℕ_discrete c) e,
    );
  }

  pub freed-IsConserved :
      (nan : T) (table : List BlockId)
      → lookup req_id kv.block_tables ≡ some table
      → IsConserved (freed kv req_id nan table)
  freed-IsConserved nan table found = record {
    total = omega (
      arith,
      v.total,
      held-delete length refl length-append req_id kv.block_tables table found,
      length-append kv.free_blocks table,
    );
    once = λ c. omega (
      arith,
      v.once c,
      held-delete (count ℕ_discrete c) refl (count-append ℕ_discrete c) req_id kv.block_tables table
          found,
      count-append ℕ_discrete c kv.free_blocks table,
    );
  }
