-- ===== src/Result.antt =====
-- Exceptions as values: what a call of the source raises, and what it returns.
use miniserve.Base.{Bool, true, false, if◌then◌else◌, ◌≡◌, refl, ap, ◌⊎◌, inl, inr}

pub data Error : Type 0 where
  value_error : Error
  -- the subclass of ValueError that scheduler.py declares
  capacity_error : Error
  key_error : Error
  index_error : Error
  runtime_error : Error
  -- the subclass of RuntimeError that kv_cache.py declares
  invariant_violation : Error
  -- the subclass of RuntimeError that engine.py declares
  engine_stopped : Error
  -- InvalidStateError of concurrent.futures
  invalid_state : Error
  -- Empty of queue
  queue_empty : Error
  zero_division_error : Error
  attribute_error : Error
  type_error : Error
  overflow_error : Error
  timeout_error : Error
  recursion_error : Error

pub data Result {ℓ} (A : Type ℓ) : Type ℓ where
  ok : A → Result A
  raise : Error → Result A

infixl 5 ◌>>=◌
abbrev pub ◌>>=◌ {ℓ κ} : {A : Type ℓ} {B : Type κ} → Result A → (A → Result B) → Result B
ok a >>= f = f a
raise e >>= f = raise e

-- To invert a chain that returned, or raised.
pub bind_ok :
    {A B : Type 0} (r : Result A) (f : A → Result B) (b : B)
    → (r >>= f) ≡ ok b
    → (a : A) × (r ≡ ok a) × (f a ≡ ok b)
bind_ok (ok a) f b e = (a, refl, e)
bind_ok (raise x) f b e = cc

pub bind_raise :
    {A B : Type 0} (r : Result A) (f : A → Result B) (e : Error)
    → (r >>= f) ≡ raise e
    → (r ≡ raise e) ⊎ ((a : A) × (r ≡ ok a) × (f a ≡ raise e))
bind_raise (ok a) f e h = inr (a, refl, h)
bind_raise (raise x) f e h = let same : x ≡ e = cc in inl (ap raise same)

pub Result-cases :
    {A : Type 0} (r : Result A) → ((a : A) × (r ≡ ok a)) ⊎ ((e : Error) × (r ≡ raise e))
Result-cases (ok a) = inl (a, refl)
Result-cases (raise e) = inr (e, refl)

-- What a call returns has the property, if it returns.
abbrev pub Ensures : {A : Type 0} → (A → Type 0) → Result A → Type 0
Ensures P (ok a) = P a
Ensures P (raise e) = Unit

pub Ensures-bind :
    {A B : Type 0} (P : A → Type 0) (Q : B → Type 0) (r : Result A) (f : A → Result B)
    → Ensures P r
    → ((a : A) → P a → Ensures Q (f a))
    → Ensures Q (r >>= f)
Ensures-bind P Q (ok a) f p q = q a p
Ensures-bind P Q (raise e) f p q = tt

pub Ensures-any : {A : Type 0} (r : Result A) → Ensures (λ a. Unit {0}) r
Ensures-any (ok a) = tt
Ensures-any (raise e) = tt

pub Ensures-if :
    {A : Type 0} (P : A → Type 0) (b : Bool) (x y : Result A)
    → Ensures P x
    → Ensures P y
    → Ensures P (if b then x else y)
Ensures-if P true x y p q = p
Ensures-if P false x y p q = q
