-- ===== src/Model/Scatter.antt =====
-- What the writes of `_forward_one` of miniserve/model.py through a block table leave in the cache.
use miniserve.Base.{
  ℕ, zero, suc, ◌+◌, ◌*◌, ◌/◌, ◌%◌, ◌≤◌, ◌<◌, ◌≡◌, ◌≢◌, refl, ◌∙◌, List, map, length, take, dec_lt,
  arith, ℕ_discrete,
}
use miniserve.Result.{ok}
use miniserve.KvCache.Storage.{BlockId, range_from}
use miniserve.Model.Forward.{write_slot, scatter, slots_of, gather}
use miniserve.Model.Slots.{
  block_at, slot, cell, IsInjective, div_lt, div_inj, take-gather, map-range_from_ext,
  slots_of-range_from,
}

module _ {E : Type 0} where
  write_self :
      (s : BlockId × ℕ) (e : E) (cache : BlockId → ℕ → E) → write_slot s e cache s.0 s.1 ≡ e
  unfolding write_slot
  write_self s e cache = ground arith

  write_ne :
      (s : BlockId × ℕ) (e : E) (cache : BlockId → ℕ → E) (b o : ℕ)
      → ¬ ((b ≡ s.0) × (o ≡ s.1))
      → write_slot s e cache b o ≡ cache b o
  unfolding write_slot
  write_ne s e cache b o h = ground (arith, h)

module _ {E : Type 0} (bs : ℕ) (table : List BlockId) (f : ℕ → E) where
  -- The pass writes `f j` at each of the `n` positions `j` from `i`.
  abbrev pub written : ℕ → ℕ → (BlockId → ℕ → E) → BlockId → ℕ → E
  written i n = scatter (map (slot bs table) (range_from i n)) (map f (range_from i n))

  -- The blocks of no table index stay as they were.
  pub written_elsewhere :
      (i n : ℕ) (cache : BlockId → ℕ → E) (b o : ℕ)
      → i + n ≤ length table * bs
      → ((k : ℕ) → k < length table → b ≢ block_at table k)
      → written i n cache b o ≡ cache b o
  unfolding scatter range_from
  written_elsewhere i zero cache b o h other = refl
  written_elsewhere i (suc n) cache b o h other =
      written_elsewhere (suc i) n (write_slot (slot bs table i) (f i) cache) b o (omega arith) other
      ∙ write_ne (slot bs table i) (f i) cache b o
          (λ same. other (i / bs) (div_lt i (length table) bs (omega arith)) same.0)

  module _ (inj : IsInjective table) where
    pub slot_ne :
        (i j : ℕ)
        → i < length table * bs
        → j < length table * bs
        → j ≢ i
        → ¬ ((block_at table (j / bs) ≡ block_at table (i / bs)) × (j % bs ≡ i % bs))
    slot_ne i j hi hj ne same = ne (
        div_inj j i bs
          (inj (j / bs) (i / bs) (div_lt j (length table) bs hj) (div_lt i (length table) bs hi)
            same.0)
          same.1)

    pub written_before :
        (i n : ℕ) (cache : BlockId → ℕ → E) (j : ℕ)
        → i + n ≤ length table * bs
        → j < i
        → cell bs table (written i n cache) j ≡ cell bs table cache j
    unfolding scatter range_from
    written_before i zero cache j h before = refl
    written_before i (suc n) cache j h before =
        written_before (suc i) n (write_slot (slot bs table i) (f i) cache) j (omega arith)
          (omega arith)
        ∙ write_ne (slot bs table i) (f i) cache (block_at table (j / bs)) (j % bs)
            (slot_ne i j (omega arith) (omega arith) (λ e. omega (arith, e)))

    pub written_at :
        (i n : ℕ) (cache : BlockId → ℕ → E) (j : ℕ)
        → i + n ≤ length table * bs
        → i ≤ j
        → j < i + n
        → cell bs table (written i n cache) j ≡ f j
    unfolding scatter range_from
    written_at i zero cache j h lo hi = absurd (omega arith)
    written_at i (suc n) cache j h lo hi = elim (ℕ_discrete j i) [
      | yes p ↦ rw p (
          written_before (suc i) n (write_slot (slot bs table i) (f i) cache) i (omega arith)
            (omega arith)
          ∙ write_self (slot bs table i) (f i) cache)
      | no p ↦
          written_at (suc i) n (write_slot (slot bs table i) (f i) cache) j (omega arith)
            (omega arith) (omega arith)
    ]

    -- Through a block table without repetitions that has room, the slots of a range of
    -- positions are found; when the slots before the range hold a function's values and the
    -- pass writes those of the range, gathering the table gives the values of all positions
    -- in order, whatever the other slots hold.
    pub gather-scatter :
        0 < bs
        → (i n : ℕ) (cache : BlockId → ℕ → E) → i + n ≤ length table * bs
        → ((j : ℕ) → j < i → cell bs table cache j ≡ f j)
        → (slots : List (BlockId × ℕ)) × (slots_of table bs (range_from i n) ≡ ok slots)
          × (take (i + n) (gather table bs (scatter slots (map f (range_from i n)) cache))
              ≡ map f (range_from 0 (i + n)))
    gather-scatter pos i n cache fits before = (
      map (slot bs table) (range_from i n),
      slots_of-range_from bs pos table i n fits,
      take-gather bs pos (written i n cache) table (i + n) fits
          ∙ map-range_from_ext _ f 0 (i + n) (λ j lo hi. elim (dec_lt j i) [
            | yes p ↦ written_before i n cache j fits p ∙ before j p
            | no p ↦ written_at i n cache j fits (omega arith) (omega arith)
          ]),
    )
