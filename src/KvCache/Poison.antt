-- ===== src/KvCache/Poison.antt =====
-- What `free` of miniserve/kv_cache.py writes into the tensors.
use miniserve.Base.{
  ℕ, zero, suc, ◌≡◌, refl, ite, dec_lt, ℕ_discrete, true, some, List, [], ◌∷◌, ◌++◌, map, get_elem?,
  count, arith,
}
use miniserve.Result.{ok}
use miniserve.Dict.{lookup}
use miniserve.KvCache.Storage.{ReqId, BlockId, Layer, PagedKvCache, fill, poison, free}
use miniserve.KvCache.Allocation.{freed}

fill_lem :
    {T : Type 0} (nan : T) (blocks : List BlockId) (k : BlockId → T) (b : BlockId)
    → fill nan blocks k b ≡ ite (dec_lt 0 (count ℕ_discrete b blocks)) nan (k b)
unfolding fill dec_lt
fill_lem nan [] k b = refl
fill_lem nan (c ∷ blocks) k b = ground (arith, fill_lem nan blocks k b)

get_elem?-map :
    {A B : Type 0} (f : A → B) (xs : List A) (i : ℕ) {x : A}
    → get_elem? xs i ≡ some x
    → get_elem? (map f xs) i ≡ some (f x)
get_elem?-map f [] i e = cc
get_elem?-map f (y ∷ xs) zero e = ground arith
get_elem?-map f (y ∷ xs) (suc i) e = get_elem?-map f xs i e

-- With `poison_on_free`, `free` of a request that has a table puts its ids at the end of the
-- free list, writes NaN into those blocks of the keys and the values of each layer, and leaves
-- every other block of the layer as it was.
pub free_poisons :
    {T : Type 0} (nan : T) (kv : PagedKvCache T) (req_id : ReqId) (blocks : List BlockId) (i : ℕ)
    (layer : Layer T) (b : BlockId)
    → kv.poison_on_free ≡ true
    → lookup req_id kv.block_tables ≡ some blocks
    → get_elem? kv.layers i ≡ some layer
    → (kv' : PagedKvCache T) × (layer' : Layer T) × (free nan kv req_id ≡ ok kv')
      × (kv'.free_blocks ≡ kv.free_blocks ++ blocks)
      × (get_elem? kv'.layers i ≡ some layer')
      × (layer'.k b ≡ ite (dec_lt 0 (count ℕ_discrete b blocks)) nan (layer.k b))
      × (layer'.v b ≡ ite (dec_lt 0 (count ℕ_discrete b blocks)) nan (layer.v b))
unfolding free poison
free_poisons nan kv req_id blocks i layer b on found at = (
  freed kv req_id nan blocks,
  poison nan blocks layer,
  rw (found, free),
  refl,
  rw on (get_elem?-map (poison nan blocks) kv.layers i at),
  fill_lem nan blocks layer.k b,
  fill_lem nan blocks layer.v b,
)
