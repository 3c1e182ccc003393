-- ===== src/Dict/Laws.antt =====
-- What a lookup sees after a change, and how the keys change.
use miniserve.Base.{
  ◌+◌, ◌<◌, ◌≡◌, ◌≢◌, refl, String, List, [], ◌∷◌, none, some, String_discrete, arith, indicator,
  count, if_pos, if_neg, ap,
}
use miniserve.Dict.Defs.{lookup, insert, delete, keys}

module _ {ℓ} {V : Type ℓ} where
  pub lookup-insert_self :
      (k : String) (v : V) (m : List (String × V)) → lookup k (insert k v m) ≡ some v
  unfolding lookup insert
  lookup-insert_self k v [] = ground arith
  lookup-insert_self k v ((j, w) ∷ m) = ground (arith, lookup-insert_self k v m)

  pub lookup-insert_ne :
      (k q : String) (v : V) (m : List (String × V)) → q ≢ k → lookup q (insert k v m) ≡ lookup q m
  unfolding lookup insert
  lookup-insert_ne k q v [] h = ground arith
  lookup-insert_ne k q v ((j, w) ∷ m) h = ground (arith, lookup-insert_ne k q v m)

  pub lookup-delete_ne :
      (k q : String) (m : List (String × V)) → q ≢ k → lookup q (delete k m) ≡ lookup q m
  unfolding lookup delete
  lookup-delete_ne k q [] h = refl
  lookup-delete_ne k q ((j, w) ∷ m) h = ground (arith, lookup-delete_ne k q m)

  pub lookup_absent :
      (k : String) (m : List (String × V))
      → count String_discrete k (keys m) ≡ 0
      → lookup k m ≡ none
  unfolding lookup
  lookup_absent k [] h = refl
  lookup_absent k ((j, w) ∷ m) h = ground (arith, lookup_absent k m)

  pub lookup_present :
      (k : String) (m : List (String × V))
      → 0 < count String_discrete k (keys m)
      → (v : V) × (lookup k m ≡ some v)
  unfolding lookup
  lookup_present k [] h = absurd (omega arith)
  lookup_present k ((j, w) ∷ m) h = elim (String_discrete j k) [
    | yes p ↦ (w, ground arith)
    | no p ↦ let (v, e) = lookup_present k m (ground arith) in (v, ground arith)
  ]

  pub count-keys_of_lookup :
      (k : String) (m : List (String × V)) (v : V)
      → lookup k m ≡ some v
      → 0 < count String_discrete k (keys m)
  unfolding lookup
  count-keys_of_lookup k [] v e = cc
  count-keys_of_lookup k ((j, w) ∷ m) v e = ground (arith, count-keys_of_lookup k m v)

  pub count-keys-insert_new :
      (q k : String) (v : V) (m : List (String × V))
      → lookup k m ≡ none
      → count String_discrete q (keys (insert k v m))
        ≡ count String_discrete q (keys m) + indicator (String_discrete k q)
  unfolding lookup insert
  count-keys-insert_new q k v [] e = omega arith
  count-keys-insert_new q k v ((j, w) ∷ m) e = ground (arith, count-keys-insert_new q k v m)

  pub keys-insert_old :
      (k : String) (v : V) (m : List (String × V)) (w : V)
      → lookup k m ≡ some w
      → keys (insert k v m) ≡ keys m
  unfolding lookup insert
  keys-insert_old k v [] x e = cc
  keys-insert_old k v ((j, w) ∷ m) x e = elim (String_discrete j k) [
    | yes p ↦ rw (if_pos _ p)
    | no p ↦ rw (if_neg _ p) (ap (◌∷◌ j) (keys-insert_old k v m x (rw (if_neg _ p) at e)))
  ]

  pub count-keys-delete :
      (q k : String) (m : List (String × V)) (v : V)
      → lookup k m ≡ some v
      → count String_discrete q (keys (delete k m)) + indicator (String_discrete k q)
        ≡ count String_discrete q (keys m)
  unfolding lookup delete
  count-keys-delete q k [] v e = cc
  count-keys-delete q k ((j, w) ∷ m) v e = elim (String_discrete j k) [
    | yes p ↦ rw (if_pos _ p, p) (omega arith)
    | no p ↦ rw (if_neg _ p) (omega (arith, count-keys-delete q k m v (rw (if_neg _ p) at e)))
  ]
