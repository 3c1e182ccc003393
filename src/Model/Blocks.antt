-- ===== src/Model/Blocks.antt =====
-- The block tables of a cache of miniserve/kv_cache.py whose ids are conserved: no id stands twice in
-- one, and two have none in common.
use miniserve.Base.{
  ℕ, zero, suc, ◌≤◌, ◌<◌, ◌≡◌, ◌≢◌, refl, some, List, [], ◌∷◌, length, count, ℕ_discrete, dec_lt,
  arith, count-append, indicator_le, indicator_yes, sym, ◌∙◌,
}
use miniserve.Dict.{lookup, delete, lookup-delete_ne}
use miniserve.KvCache.Storage.{ReqId, BlockId, PagedKvCache, held}
use miniserve.KvCache.Tables.{held-delete}
use miniserve.KvCache.Conservation.{IsConserved}
use miniserve.Model.Slots.{block_at, IsInjective}
use miniserve.Model.Layers.{IsOutside}

count-block_at :
    (table : List BlockId) (k : ℕ)
    → k < length table
    → 0 < count ℕ_discrete (block_at table k) table
count-block_at [] k h = absurd (omega arith)
count-block_at (b ∷ table) zero h = omega (arith, indicator_yes (ℕ_discrete b b) refl)
count-block_at (b ∷ table) (suc k) h = omega (arith, count-block_at table k (omega arith))

once-IsInjective :
    (table : List BlockId) → ((b : BlockId) → count ℕ_discrete b table ≤ 1) → IsInjective table
once-IsInjective [] once i j hi hj e = absurd (omega arith)
once-IsInjective (b ∷ table) once zero zero hi hj e = refl
once-IsInjective (b ∷ table) once zero (suc j) hi hj e = absurd (
    omega (
      arith,
      once (block_at table j),
      indicator_yes (ℕ_discrete b (block_at table j)) e,
      count-block_at table j (omega arith),
    ))
once-IsInjective (b ∷ table) once (suc i) zero hi hj e = absurd (
    omega (
      arith,
      once (block_at table i),
      indicator_yes (ℕ_discrete b (block_at table i)) (sym e),
      count-block_at table i (omega arith),
    ))
once-IsInjective (b ∷ table) once (suc i) (suc j) hi hj e =
    omega
      (arith, once-IsInjective table (λ c. omega (arith, once c)) i j (omega arith) (omega arith) e)

module _ {T : Type 0} (kv : PagedKvCache T) (v : IsConserved kv) where
  once_held : (b : BlockId) → count ℕ_discrete b (held kv.block_tables) ≤ 1
  once_held b = omega (arith, v.once b, indicator_le (dec_lt b kv.num_blocks))

  pub table-IsInjective :
      (r : ReqId) (table : List BlockId) → lookup r kv.block_tables ≡ some table → IsInjective table
  table-IsInjective r table found = once-IsInjective table (λ b. omega (
    arith,
    once_held b,
    held-delete (count ℕ_discrete b) refl (count-append ℕ_discrete b) r kv.block_tables table found,
  ))

  pub tables-IsOutside :
      (r r' : ReqId) (table table' : List BlockId)
      → lookup r kv.block_tables ≡ some table
      → lookup r' kv.block_tables ≡ some table'
      → r' ≢ r
      → (k : ℕ) → k < length table'
      → IsOutside table (block_at table' k)
  tables-IsOutside r r' table table' found found' ne k hk i hi same =
      let b = block_at table' k in
      let there : 0 < count ℕ_discrete b table = rw same (count-block_at table i hi) in
      absurd (
        omega (
          arith,
          once_held b,
          held-delete (count ℕ_discrete b) refl (count-append ℕ_discrete b) r kv.block_tables table
              found,
          held-delete (count ℕ_discrete b) refl (count-append ℕ_discrete b) r'
              (delete r kv.block_tables) table' (lookup-delete_ne r r' kv.block_tables ne ∙ found'),
          count-block_at table' k hk,
          there,
        ))
