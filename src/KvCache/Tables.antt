-- ===== src/KvCache/Tables.antt =====
-- The ids in the block tables under the changes that kv_cache.py makes to them. A measure that adds up
-- over `++` stands for the number of ids, and for the number of times that one id occurs.
use miniserve.Base.{
  ℕ, ◌+◌, ◌≡◌, List, [], ◌∷◌, ◌++◌, some, none, String_discrete, arith, if_pos, if_neg,
}
use miniserve.Dict.{lookup, insert, delete}
use miniserve.KvCache.Storage.{ReqId, BlockId, held}

module _ (measure : List BlockId → ℕ) (measure-nil : measure [] ≡ 0)
    (measure-append : (xs ys : List BlockId) → measure (xs ++ ys) ≡ measure xs + measure ys) where
  pub held-insert_new :
      (k : ReqId) (v : List BlockId) (m : List (ReqId × List BlockId))
      → lookup k m ≡ none
      → measure (held (insert k v m)) ≡ measure (held m) + measure v
  unfolding held insert lookup
  held-insert_new k v [] e = omega (arith, measure-nil, measure-append v [])
  held-insert_new k v ((j, w) ∷ m) e = elim (String_discrete j k) [
    | yes p ↦ ground arith
    | no p ↦ rw (if_neg _ p) (
        omega (
          arith,
          measure-append w (held (insert k v m)),
          measure-append w (held m),
          held-insert_new k v m (rw (if_neg _ p) at e),
        ))
  ]

  pub held-insert_old :
      (k : ReqId) (v : List BlockId) (m : List (ReqId × List BlockId)) (w : List BlockId)
      → lookup k m ≡ some w
      → measure (held (insert k v m)) + measure w ≡ measure (held m) + measure v
  unfolding held insert lookup
  held-insert_old k v [] w e = cc
  held-insert_old k v ((j, x) ∷ m) w e = elim (String_discrete j k) [
    | yes p ↦
        let same : x ≡ w = ground arith in
        rw (if_pos _ p, same) (omega (arith, measure-append v (held m), measure-append w (held m)))
    | no p ↦ rw (if_neg _ p) (
        omega (
          arith,
          measure-append x (held (insert k v m)),
          measure-append x (held m),
          held-insert_old k v m w (rw (if_neg _ p) at e),
        ))
  ]

  pub held-delete :
      (k : ReqId) (m : List (ReqId × List BlockId)) (w : List BlockId)
      → lookup k m ≡ some w
      → measure (held (delete k m)) + measure w ≡ measure (held m)
  unfolding held delete lookup
  held-delete k [] w e = cc
  held-delete k ((j, x) ∷ m) w e = elim (String_discrete j k) [
    | yes p ↦
        let same : x ≡ w = ground arith in
        rw (if_pos _ p, same) (omega (arith, measure-append w (held m)))
    | no p ↦ rw (if_neg _ p) (
        omega (
          arith,
          measure-append x (held (delete k m)),
          measure-append x (held m),
          held-delete k m w (rw (if_neg _ p) at e),
        ))
  ]
