-- ===== src/Model/Slots.antt =====
-- The slots of positions: the arithmetic of `_forward_one` of miniserve/model.py on blocks and offsets.
use miniserve.Base.{
  ℕ, zero, suc, ◌+◌, ◌*◌, ◌/◌, ◌%◌, ◌≤◌, ◌<◌, ◌≡◌, refl, ap, List, [], ◌∷◌, ◌++◌, map, length,
  get_elem?, take, some, arith,
}
use mathlib.Core.Option
use miniserve.Result.{ok}
use miniserve.KvCache.Storage.{BlockId, range_from}
use miniserve.Model.Forward.{slots_of, gather}

div_small : (j bs : ℕ) → j < bs → (j / bs ≡ 0) × (j % bs ≡ j)
div_small j bs h = grind arith

div_step : (j bs : ℕ) → 0 < bs → ((bs + j) / bs ≡ suc (j / bs)) × ((bs + j) % bs ≡ j % bs)
div_step j bs h = grind arith

pub div_inj : (i j bs : ℕ) → i / bs ≡ j / bs → i % bs ≡ j % bs → i ≡ j
div_inj i j bs h = grind arith

pub div_lt : (i n bs : ℕ) → i < n * bs → i / bs < n
div_lt i n bs h = grind arith

-- The block at an index of a table that is long enough.
abbrev pub block_at : List BlockId → ℕ → BlockId
block_at table i = Option.get_or (get_elem? table i) 0

abbrev pub slot : ℕ → List BlockId → ℕ → BlockId × ℕ
slot bs table j = (block_at table (j / bs), j % bs)

abbrev pub cell : {E : Type 0} → ℕ → List BlockId → (BlockId → ℕ → E) → ℕ → E
cell bs table cache j = cache (block_at table (j / bs)) (j % bs)

-- No block stands twice in the table.
abbrev pub IsInjective : List BlockId → Type 0
IsInjective table =
    (i j : ℕ) → i < length table → j < length table → block_at table i ≡ block_at table j → i ≡ j

get_elem?-block_at :
    (table : List BlockId) (i : ℕ) → i < length table → get_elem? table i ≡ some (block_at table i)
get_elem?-block_at [] i h = absurd (omega arith)
get_elem?-block_at (b ∷ table) zero h = refl
get_elem?-block_at (b ∷ table) (suc i) h = get_elem?-block_at table i (omega arith)

pub map-range_from_shift :
    {A : Type 0} (f : ℕ → A) (i k d n : ℕ)
    → k ≡ d + i
    → map f (range_from k n) ≡ map (λ j. f (d + j)) (range_from i n)
unfolding range_from
map-range_from_shift f i k d zero e = refl
map-range_from_shift f i k d (suc n) e =
    rw (← e) (ap (◌∷◌ (f k)) (map-range_from_shift f (suc i) (suc k) d n (omega arith)))

pub map-range_from_ext :
    {A : Type 0} (f g : ℕ → A) (i n : ℕ)
    → ((j : ℕ) → i ≤ j → j < i + n → f j ≡ g j)
    → map f (range_from i n) ≡ map g (range_from i n)
unfolding range_from
map-range_from_ext f g i zero h = refl
map-range_from_ext f g i (suc n) h =
    rw (h i (omega arith) (omega arith)) (
      ap (◌∷◌ (g i))
        (map-range_from_ext f g (suc i) n (λ j lo hi. h j (omega arith) (omega arith))))

pub range_from_append :
    {A : Type 0} (f : ℕ → A) (i k m n t : ℕ)
    → k ≡ i + m
    → t ≡ m + n
    → map f (range_from i t) ≡ map f (range_from i m) ++ map f (range_from k n)
unfolding range_from
range_from_append f i k zero n t e h =
    let same : k ≡ i = omega arith in let all : t ≡ n = omega arith in rw (same, all) refl
range_from_append f i k (suc m) n zero e h = absurd (omega arith)
range_from_append f i k (suc m) n (suc t) e h =
    ap (◌∷◌ (f i)) (range_from_append f (suc i) k m n t (omega arith) (omega arith))

pub take-range_from :
    {A : Type 0} (f : ℕ → A) (i m n : ℕ)
    → m ≤ n
    → take m (map f (range_from i n)) ≡ map f (range_from i m)
unfolding range_from
take-range_from f i zero n h = refl
take-range_from f i (suc m) zero h = absurd (omega arith)
take-range_from f i (suc m) (suc n) h = ap (◌∷◌ (f i)) (take-range_from f (suc i) m n (omega arith))

module _ (bs : ℕ) (pos : 0 < bs) where
  pub slots_of-range_from :
      (table : List BlockId) (i n : ℕ)
      → i + n ≤ length table * bs
      → slots_of table bs (range_from i n) ≡ ok (map (slot bs table) (range_from i n))
  unfolding slots_of range_from
  slots_of-range_from table i zero h = refl
  slots_of-range_from table i (suc n) h =
      rw
        (
          get_elem?-block_at table (i / bs) (div_lt i (length table) bs (omega arith)),
          slots_of-range_from table (suc i) n (omega arith),
        )
        refl

  module _ {E : Type 0} (cache : BlockId → ℕ → E) where
    gather_all :
        (table : List BlockId)
        → gather table bs cache ≡ map (cell bs table cache) (range_from 0 (length table * bs))
    unfolding gather range_from
    gather_all [] =
        let none_left : 0 ≡ 0 * bs = grind arith in
        ap (λ n. map (cell bs [] cache) (range_from 0 n)) none_left
    gather_all (b ∷ table) =
        rw
          (
            range_from_append (cell bs (b ∷ table) cache) 0 bs bs (length table * bs)
                (length (b ∷ table) * bs) (omega arith) (grind arith),
            map-range_from_shift (cell bs (b ∷ table) cache) 0 bs bs (length table * bs)
                (omega arith),
            gather_all table,
            map-range_from_ext (cell bs (b ∷ table) cache) (cache b) 0 bs (λ j lo hi.
                rw (div_small j bs (omega arith)).0
                  (ap (cache b) (div_small j bs (omega arith)).1)),
            map-range_from_ext (λ j. cell bs (b ∷ table) cache (bs + j)) (cell bs table cache) 0
                (length table * bs)
                (λ j lo hi. rw ((div_step j bs pos).0, (div_step j bs pos).1) refl),
          )
          refl

    -- The whole past, gathered.
    pub take-gather :
        (table : List BlockId) (n : ℕ)
        → n ≤ length table * bs
        → take n (gather table bs cache) ≡ map (cell bs table cache) (range_from 0 n)
    take-gather table n h =
        rw (gather_all table) (take-range_from (cell bs table cache) 0 n (length table * bs) h)
