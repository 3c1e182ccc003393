-- ===== src/Tests/Cache.antt =====
-- The block cache at concrete inputs, as in tests/test_kv_cache.py.
use miniserve.Base.{
  ℕ, zero, suc, ◌≤◌, ◌<◌, ◌≡◌, ◌≢◌, ◌↔◌, ◌⊎◌, refl, true, false, none, some, List, [], ◌∷◌, ◌++◌,
  ite, get_elem?, dec_lt, ℕ_discrete, length, count,
}
use miniserve.Result.{ok, raise, value_error}
use miniserve.Dict.{lookup}
use miniserve.KvCache.Storage.{
  BlockId, PagedKvCache, Layer, free, allocate, check_invariants, all_ids,
}
use miniserve.KvCache.Allocation.{allocate_cases, allocated}
use miniserve.KvCache.Check.{
  check_invariants_iff, Call, allocates, appends, frees, run, check_invariants-run,
}
use miniserve.KvCache.Poison.{free_poisons}
use miniserve.Tests.Fixture.{program, cache}

-- A cache whose first two blocks stand in a table.
abbrev used : PagedKvCache ℕ
used = record (cache 3) { free_blocks = 2 ∷ []; block_tables = ("a", 0 ∷ 1 ∷ []) ∷ [] }

-- A second `free` of "a" raises, and the last `allocate` does not fit.
abbrev some_calls : List Call
some_calls =
    allocates "a" 2
    ∷ appends "a"
    ∷ allocates "b" 1
    ∷ frees "a"
    ∷ frees "a"
    ∷ allocates "b" 1
    ∷ allocates "c" 3
    ∷ []

check_invariants-run_example : check_invariants (run (suc zero) (cache 3) some_calls) ≡ ok tt
check_invariants-run_example = check_invariants-run (suc zero) 0 1 3 4 true some_calls

check_invariants_iff_example : (check_invariants used ≡ ok tt) ↔ (
    (length (all_ids used) ≡ used.num_blocks)
    × ((b : BlockId) → count ℕ_discrete b (all_ids used) ≤ 1))
check_invariants_iff_example = check_invariants_iff used

allocate_cases_example :
    (((lookup "b" used.block_tables ≢ none) ⊎ (suc zero ≡ zero))
      × (allocate used "b" 1 ≡ raise value_error))
    ⊎ ((lookup "b" used.block_tables ≡ none)
        × (0 < 1)
        × (((length used.free_blocks < 1) × (allocate used "b" 1 ≡ ok (used, false)))
            ⊎ ((1 ≤ length used.free_blocks)
                × (allocate used "b" 1 ≡ ok (allocated used "b" 1, true)))))
allocate_cases_example = allocate_cases used "b" 1

free_poisons_example :
    (kv' : PagedKvCache ℕ) × (layer' : Layer ℕ) × (free 1 used "a" ≡ ok kv')
    × (kv'.free_blocks ≡ used.free_blocks ++ 0 ∷ 1 ∷ [])
    × (get_elem? kv'.layers 0 ≡ some layer')
    × (layer'.k 1 ≡ ite (dec_lt 0 (count ℕ_discrete 1 (0 ∷ 1 ∷ []))) 1 0)
    × (layer'.v 1 ≡ ite (dec_lt 0 (count ℕ_discrete 1 (0 ∷ 1 ∷ []))) 1 0)
unfolding program
free_poisons_example =
    free_poisons 1 used "a" (0 ∷ 1 ∷ []) 0 (record { k = λ b. 0; v = λ b. 0 }) 1 refl refl refl
