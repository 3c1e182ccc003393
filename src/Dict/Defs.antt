-- ===== src/Dict/Defs.antt =====
-- The operations of a dict: `get`, item assignment, `pop`, and its keys.
use miniserve.Base.{String, List, [], ◌∷◌, map, Option, none, some, ite, String_discrete}

module _ {ℓ} {V : Type ℓ} where
  unfoldable pub lookup : String → List (String × V) → Option V
  lookup k [] = none
  lookup k ((j, v) ∷ m) = ite (String_discrete j k) (some v) (lookup k m)

  -- A key that is there keeps its place; a new one goes to the end.
  unfoldable pub insert : String → V → List (String × V) → List (String × V)
  insert k v [] = (k, v) ∷ []
  insert k v ((j, w) ∷ m) = ite (String_discrete j k) ((j, v) ∷ m) ((j, w) ∷ insert k v m)

  unfoldable pub delete : String → List (String × V) → List (String × V)
  delete k [] = []
  delete k ((j, w) ∷ m) = ite (String_discrete j k) m ((j, w) ∷ delete k m)

  abbrev pub keys : List (String × V) → List String
  keys = map (λ e. e.0)
