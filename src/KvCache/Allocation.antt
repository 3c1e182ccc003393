-- ===== src/KvCache/Allocation.antt =====
-- What `allocate`, `append_block` and `free` of miniserve/kv_cache.py do on each branch.
use miniserve.Base.{
  ℕ, zero, suc, ◌≤◌, ◌<◌, ◌≡◌, ◌≢◌, ◌⊎◌, inl, inr, refl, true, false, none, some, List, [], ◌∷◌,
  ◌++◌, map, if◌then◌else◌, length, take, drop, ap, arith, Option-cases,
}
use miniserve.Result.{value_error, key_error, ok, raise}
use miniserve.Dict.{lookup, insert, delete}
use miniserve.KvCache.Storage.{
  ReqId, BlockId, PagedKvCache, popleft_n, allocate, append_to, append_block, poison, free,
}

pub popleft_n_lem :
    (n : ℕ) (xs : List BlockId) → n ≤ length xs → popleft_n n xs ≡ ok (take n xs, drop n xs)
unfolding popleft_n
popleft_n_lem zero xs h = refl
popleft_n_lem (suc n) [] h = absurd (omega arith)
popleft_n_lem (suc n) (x ∷ xs) h = rw (popleft_n_lem n xs (omega arith))

module _ {T : Type 0} (kv : PagedKvCache T) (req_id : ReqId) where
  -- The cache after a successful `allocate`.
  abbrev pub allocated : ℕ → PagedKvCache T
  allocated n = record kv {
    free_blocks = drop n kv.free_blocks;
    block_tables = insert req_id (take n kv.free_blocks) kv.block_tables;
  }

  -- The cache after a successful `append_block`, with the table and the free list of before.
  abbrev pub appended : List BlockId → BlockId → List BlockId → PagedKvCache T
  appended table b rest = record kv {
    free_blocks = rest;
    block_tables = insert req_id (table ++ b ∷ []) kv.block_tables;
  }

  -- The cache after `free`, with the table of before.
  abbrev pub freed : T → List BlockId → PagedKvCache T
  freed nan blocks = record kv {
    layers = if kv.poison_on_free then map (poison nan blocks) kv.layers else kv.layers;
    free_blocks = kv.free_blocks ++ blocks;
    block_tables = delete req_id kv.block_tables;
  }

  pub allocate_ok :
      (n : ℕ)
      → lookup req_id kv.block_tables ≡ none
      → 0 < n
      → n ≤ length kv.free_blocks
      → allocate kv req_id n ≡ ok (allocated n, true)
  unfolding allocate
  allocate_ok n fresh pos fits = ground (arith, popleft_n_lem n kv.free_blocks)

  pub append_block_ok :
      (table : List BlockId) (b : BlockId) (rest : List BlockId)
      → lookup req_id kv.block_tables ≡ some table
      → kv.free_blocks ≡ b ∷ rest
      → append_block kv req_id ≡ ok (appended table b rest, true)
  unfolding append_block
  append_block_ok table b rest found front = rw (found, append_block, front, append_to)

  pub append_block_full :
      (table : List BlockId)
      → lookup req_id kv.block_tables ≡ some table
      → kv.free_blocks ≡ []
      → append_block kv req_id ≡ ok (kv, false)
  unfolding append_block
  append_block_full table found empty =
      rw (found, append_block) (ap (λ f. ok (append_to kv req_id table f)) empty)

  pub free_ok :
      (nan : T) (table : List BlockId)
      → lookup req_id kv.block_tables ≡ some table
      → free nan kv req_id ≡ ok (freed nan table)
  unfolding free
  free_ok nan table found = rw (found, free)

  -- `allocate` raises exactly for a request that has a table or for zero blocks; otherwise it
  -- changes nothing and returns False exactly if fewer ids are free, and otherwise it moves
  -- that many ids from the front of the free list, in order, to a new table.
  pub allocate_cases :
      (n : ℕ)
      → (((lookup req_id kv.block_tables ≢ none) ⊎ (n ≡ 0))
          × (allocate kv req_id n ≡ raise value_error))
        ⊎ ((lookup req_id kv.block_tables ≡ none)
            × (0 < n)
            × (((length kv.free_blocks < n) × (allocate kv req_id n ≡ ok (kv, false)))
                ⊎ ((n ≤ length kv.free_blocks) × (allocate kv req_id n ≡ ok (allocated n, true)))))
  unfolding allocate
  allocate_cases n = ground (arith, popleft_n_lem n kv.free_blocks)

  append_to_cases :
      (table free : List BlockId)
      → (((free ≡ []) × (ok (append_to kv req_id table free) ≡ ok (kv, false)))
          ⊎ ((b : BlockId) × (rest : List BlockId) × (free ≡ b ∷ rest)
              × (ok (append_to kv req_id table free) ≡ ok (appended table b rest, true))))
  unfolding append_block
  append_to_cases table [] = inl (refl, refl)
  append_to_cases table (b ∷ rest) = inr (b, rest, refl, refl)

  pub append_block_cases :
      ((lookup req_id kv.block_tables ≡ none) × (append_block kv req_id ≡ raise key_error))
      ⊎ ((table : List BlockId) × (lookup req_id kv.block_tables ≡ some table)
          × (((kv.free_blocks ≡ []) × (append_block kv req_id ≡ ok (kv, false)))
              ⊎ ((b : BlockId) × (rest : List BlockId) × (kv.free_blocks ≡ b ∷ rest)
                  × (append_block kv req_id ≡ ok (appended table b rest, true)))))
  unfolding append_block
  append_block_cases = elim (Option-cases (lookup req_id kv.block_tables)) [
    | inl e ↦ inl (e, rw (e, append_block))
    | inr (table, e) ↦ inr (table, e, rw (e, append_block) (append_to_cases table kv.free_blocks))
  ]

  pub free_cases :
      (nan : T)
      → ((lookup req_id kv.block_tables ≡ none) × (free nan kv req_id ≡ raise key_error))
        ⊎ ((table : List BlockId) × (lookup req_id kv.block_tables ≡ some table)
            × (free nan kv req_id ≡ ok (freed nan table)))
  unfolding free
  free_cases nan = elim (Option-cases (lookup req_id kv.block_tables)) [
    | inl e ↦ inl (e, rw (e, free))
    | inr (table, e) ↦ inr (table, e, rw (e, free))
  ]
