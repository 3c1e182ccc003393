-- ===== src/Engine/Tickets.antt =====
-- The tickets of miniserve/engine.py in the queue, among the live streams, and at their ends.
use miniserve.Base.{
  ℕ, suc, ◌+◌, ◌≡◌, ◌≢◌, refl, none, some, List, [], ◌∷◌, ◌++◌, map, ite, if_pos, if_neg, count,
  indicator, ℕ_discrete, arith,
}
use miniserve.Dict.{lookup, insert, delete}
use miniserve.KvCache.Storage.{ReqId}
use miniserve.Engine.State.{Ticket, Item, token_item, finish_item, Submission, Engine, set_at}

abbrev pub n_finish : List Item → ℕ
n_finish [] = 0
n_finish (token_item t ∷ xs) = n_finish xs
n_finish (finish_item q ∷ xs) = suc (n_finish xs)

pub n_finish-append : (xs ys : List Item) → n_finish (xs ++ ys) ≡ n_finish xs + n_finish ys
n_finish-append [] ys = omega arith
n_finish-append (token_item t ∷ xs) ys = n_finish-append xs ys
n_finish-append (finish_item q ∷ xs) ys = omega (arith, n_finish-append xs ys)

abbrev pub n_queued : Ticket → List Submission → ℕ
n_queued t [] = 0
n_queued t (x ∷ xs) = indicator (ℕ_discrete x.ticket t) + n_queued t xs

abbrev pub n_streams : Ticket → List (ReqId × Ticket) → ℕ
n_streams t m = count ℕ_discrete t (map (λ e. e.1) m)

pub n_queued-append :
    (t : Ticket) (xs ys : List Submission) → n_queued t (xs ++ ys) ≡ n_queued t xs + n_queued t ys
n_queued-append t [] ys = omega arith
n_queued-append t (x ∷ xs) ys = omega (arith, n_queued-append t xs ys)

module _ {ℓ} {A : Type ℓ} (f : Ticket → A) (t : Ticket) (a : A) where
  pub set_at_self : set_at f t a t ≡ a
  unfolding set_at
  set_at_self = if_pos (ℕ_discrete t t) refl _ _

  pub set_at_ne : (t' : Ticket) → t' ≢ t → set_at f t a t' ≡ f t'
  unfolding set_at
  set_at_ne t' ne = if_neg (ℕ_discrete t' t) ne _ _

-- A put adds its item to its own stream.
pub n_finish-put :
    {T : Type 0} (g : Engine T) (t t' : Ticket) (item : Item)
    → n_finish (set_at g.items t (g.items t ++ item ∷ []) t')
      ≡ n_finish (g.items t') + ite (ℕ_discrete t' t) (n_finish (item ∷ [])) 0
n_finish-put g t t' item = elim (ℕ_discrete t' t) [
  | yes e ↦
      rw
        (
          e,
          set_at_self g.items t (g.items t ++ item ∷ []),
          if_pos (ℕ_discrete t t) refl (n_finish (item ∷ [])) 0,
        )
        (n_finish-append (g.items t) (item ∷ []))
  | no ne ↦
      rw
        (
          set_at_ne g.items t (g.items t ++ item ∷ []) t' ne,
          if_neg (ℕ_discrete t' t) ne (n_finish (item ∷ [])) 0,
        )
        (omega arith)
]

module _ (k : ReqId) (t : Ticket) where
  pub n_streams-insert_new :
      (ticket : Ticket) (m : List (ReqId × Ticket))
      → lookup k m ≡ none
      → n_streams t (insert k ticket m) ≡ n_streams t m + indicator (ℕ_discrete ticket t)
  unfolding lookup insert
  n_streams-insert_new ticket [] e = omega arith
  n_streams-insert_new ticket ((j, w) ∷ m) e = ground (arith, n_streams-insert_new ticket m)

  pub n_streams-delete :
      (ticket : Ticket) (m : List (ReqId × Ticket))
      → lookup k m ≡ some ticket
      → n_streams t (delete k m) + indicator (ℕ_discrete ticket t) ≡ n_streams t m
  unfolding lookup delete
  n_streams-delete ticket [] e = absurd cc
  n_streams-delete ticket ((j, w) ∷ m) e = ground (arith, n_streams-delete ticket m)
