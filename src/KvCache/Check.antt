-- ===== src/KvCache/Check.antt =====
-- `check_invariants` of miniserve/kv_cache.py, and any sequence of calls of the cache.
use miniserve.Base.{
  ℕ, ◌≤◌, ◌≡◌, ◌↔◌, inl, inr, refl, Bool, List, [], ◌∷◌, ℕ_discrete, length, count, arith,
  length-append, count-append,
}
use miniserve.Result.{Result, ok, raise}
use miniserve.KvCache.Storage.{
  ReqId, BlockId, PagedKvCache, init, held, allocate, append_block, free, all_ids, set_size,
  check_invariants,
}
use miniserve.KvCache.Allocation.{allocate_cases, append_block_cases, free_cases}
use miniserve.KvCache.Conservation.{
  IsConserved, init-IsConserved, allocated-IsConserved, appended-IsConserved, freed-IsConserved,
}

set_size-le-length : (xs : List BlockId) → set_size xs ≤ length xs
unfolding set_size
set_size-le-length [] = omega arith
set_size-le-length (x ∷ xs) = ground (arith, set_size-le-length xs)

count-le-one :
    (xs : List BlockId) → set_size xs ≡ length xs → (b : BlockId) → count ℕ_discrete b xs ≤ 1
unfolding set_size
count-le-one [] e b = omega arith
count-le-one (x ∷ xs) e b =
    ground (arith, set_size-le-length xs, count-le-one xs (ground (arith, set_size-le-length xs)) b)

set_size-eq-length :
    (xs : List BlockId) → ((b : BlockId) → count ℕ_discrete b xs ≤ 1) → set_size xs ≡ length xs
unfolding set_size
set_size-eq-length [] h = refl
set_size-eq-length (x ∷ xs) h = ground (arith, h x, set_size-eq-length xs (λ b. omega (arith, h b)))

module _ {T : Type 0} (kv : PagedKvCache T) where
  -- `check_invariants` returns exactly when the free list and the block tables together hold
  -- as many ids as there are blocks, and none twice.
  pub check_invariants_iff : (check_invariants kv ≡ ok tt) ↔ (
      (length (all_ids kv) ≡ kv.num_blocks) × ((b : BlockId) → count ℕ_discrete b (all_ids kv) ≤ 1))
  unfolding check_invariants
  check_invariants_iff = (
    λ e. (ground arith, count-le-one (all_ids kv) (ground arith)),
    λ h. ground (arith, set_size-eq-length (all_ids kv) h.1),
  )

  pub IsConserved-check_invariants : IsConserved kv → check_invariants kv ≡ ok tt
  IsConserved-check_invariants v = check_invariants_iff.1 (
    omega (arith, v.total, length-append kv.free_blocks (held kv.block_tables)),
    λ b. ground (arith, v.once b, count-append ℕ_discrete b kv.free_blocks (held kv.block_tables)),
  )

-- The calls that change a cache.
pub data Call : Type 0 where
  allocates : ReqId → ℕ → Call
  appends frees : ReqId → Call

-- A call that raises leaves the cache as it was: the guards stand before the first change.
abbrev after {ℓ} :
    {T : Type 0} {A : Type ℓ} → PagedKvCache T → (A → PagedKvCache T) → Result A → PagedKvCache T
after kv f (ok a) = f a
after kv f (raise e) = kv

module _ {T : Type 0} (nan : T) where
  unfoldable pub call : PagedKvCache T → Call → PagedKvCache T
  call kv (allocates r n) = after kv (λ a. a.0) (allocate kv r n)
  call kv (appends r) = after kv (λ a. a.0) (append_block kv r)
  call kv (frees r) = after kv (λ a. a) (free nan kv r)

  unfoldable pub run : PagedKvCache T → List Call → PagedKvCache T
  run kv [] = kv
  run kv (c ∷ cs) = run (call kv c) cs

  pub call-IsConserved : (kv : PagedKvCache T) (c : Call) → IsConserved kv → IsConserved (call kv c)
  unfolding call
  call-IsConserved kv (allocates r n) v = elim (allocate_cases kv r n) [
    | inl (_, e) ↦ rw e v
    | inr (fresh, _, inl (_, e)) ↦ rw e v
    | inr (fresh, _, inr (_, e)) ↦ rw e (allocated-IsConserved kv v r n fresh)
  ]
  call-IsConserved kv (appends r) v = elim (append_block_cases kv r) [
    | inl (_, e) ↦ rw e v
    | inr (t, found, inl (_, e)) ↦ rw e v
    | inr (t, found, inr (b, rest, front, e)) ↦
        rw e (appended-IsConserved kv v r t b rest found front)
  ]
  call-IsConserved kv (frees r) v = elim (free_cases kv r nan) [
    | inl (_, e) ↦ rw e v
    | inr (t, found, e) ↦ rw e (freed-IsConserved kv v r nan t found)
  ]

  run-IsConserved :
      (kv : PagedKvCache T) (cs : List Call) → IsConserved kv → IsConserved (run kv cs)
  unfolding run
  run-IsConserved kv [] v = v
  run-IsConserved kv (c ∷ cs) v = run-IsConserved (call kv c) cs (call-IsConserved kv c v)

  -- After any sequence of calls of `allocate`, `append_block` and `free`, the failing ones
  -- included, on a new cache, `check_invariants` does not raise.
  pub check_invariants-run :
      (zeros : T) (num_layers num_blocks block_size : ℕ) (poison_on_free : Bool) (cs : List Call)
      → check_invariants (run (init zeros num_layers num_blocks block_size poison_on_free) cs)
        ≡ ok tt
  check_invariants-run zeros l n s p cs =
      IsConserved-check_invariants _ (run-IsConserved _ cs (init-IsConserved zeros l n s p))
