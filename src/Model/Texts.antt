-- ===== src/Model/Texts.antt =====
-- A text by positions: which positions and tokens a pass of miniserve/model.py takes of it.
use miniserve.Base.{
  ℕ, zero, suc, ◌+◌, ◌-◌, ◌<◌, ◌≡◌, refl, ap, ◌∙◌, sym, Bool, true, false, some, List, [], ◌∷◌, map,
  length, get_elem?, All, arith, if◌then◌else◌,
}
use mathlib.Core.Option
use mathlib.Core.List.{get_last?}
use miniserve.Result.{ok, ◌>>=◌}
use miniserve.KvCache.Storage.{range_from}
use miniserve.Scheduler.Sequence.{Token}
use miniserve.Model.Forward.{or_index_error}
use miniserve.Model.Slots.{map-range_from_shift, map-range_from_ext}

abbrev pub token_at : List Token → ℕ → Token
token_at text p = Option.get_or (get_elem? text p) 0

pub get_last?-map-range_from :
    {A : Type 0} (f : ℕ → A) (i n : ℕ) → get_last? (map f (range_from i (suc n))) ≡ some (f (i + n))
unfolding range_from
get_last?-map-range_from f i zero = let end : i ≡ i + 0 = omega arith in ap (λ j. some (f j)) end
get_last?-map-range_from f i (suc n) =
    let end : suc i + n ≡ i + suc n = omega arith in
    get_last?-map-range_from f (suc i) n ∙ ap (λ j. some (f j)) end

pub map-id-range_from : (i n : ℕ) → map (λ j. j) (range_from i n) ≡ range_from i n
unfolding range_from
map-id-range_from i zero = refl
map-id-range_from i (suc n) = ap (◌∷◌ i) (map-id-range_from (suc i) n)

pub token_at-suc :
    (t : Token) (text : List Token) (j : ℕ) → token_at (t ∷ text) (1 + j) ≡ token_at text j
token_at-suc t text j = let next : 1 + j ≡ suc j = omega arith in ap (token_at (t ∷ text)) next

pub get_last?-range_from : (i n : ℕ) → get_last? (range_from i (suc n)) ≡ some (i + n)
get_last?-range_from i n =
    ap get_last? (sym (map-id-range_from i (suc n))) ∙ get_last?-map-range_from (λ j. j) i n

pub map-token_at : (text : List Token) → map (token_at text) (range_from 0 (length text)) ≡ text
unfolding range_from
map-token_at [] = refl
map-token_at (t ∷ text) = ap (◌∷◌ t) (
    map-range_from_shift (token_at (t ∷ text)) 0 1 1 (length text) (omega arith)
    ∙ map-range_from_ext (λ j. token_at (t ∷ text) (1 + j)) (token_at text) 0 (length text)
        (λ j lo hi. rw (token_at-suc t text j) refl)
    ∙ map-token_at text)

pub All-token_at :
    (P : Token → Type 0) (text : List Token) (j : ℕ)
    → All P text
    → j < length text
    → P (token_at text j)
All-token_at P [] j a h = absurd (omega arith)
All-token_at P (t ∷ text) zero a h = a.0
All-token_at P (t ∷ text) (suc j) a h = All-token_at P text j a.1 (omega arith)

pub positions_by :
    (b : Bool) (n : ℕ)
    → 0 < n
    → (if b then range_from 0 n else (n - 1) ∷ [])
      ≡ range_from (if b then 0 else n - 1) (n - (if b then 0 else n - 1))
unfolding range_from
positions_by true n h = let all : n ≡ n - 0 = omega arith in ap (range_from 0) all
positions_by false n h = let one : 1 ≡ n - (n - 1) = omega arith in ap (range_from (n - 1)) one

pub start_by : (b : Bool) (n : ℕ) → 0 < n → (if b then 0 else n - 1) < n
start_by true n h = h
start_by false n h = omega arith

pub last_token :
    (text : List Token) → 0 < length text → get_last? text ≡ some (token_at text (length text - 1))
last_token text h =
    let n = length text - 1 in
    let whole : length text ≡ suc n = omega arith in
    let end : 0 + n ≡ n = omega arith in
    ap get_last? (sym (map-token_at text) ∙ ap (λ l. map (token_at text) (range_from 0 l)) whole)
    ∙ get_last?-map-range_from (token_at text) 0 n
    ∙ ap (λ j. some (token_at text j)) end

pub tokens_by :
    (b : Bool) (text : List Token)
    → 0 < length text
    → (if b then ok text else (do token ← or_index_error (get_last? text); ok (token ∷ [])))
      ≡ ok (
          map (token_at text) (
            range_from
              (if b then 0 else length text - 1)
              (length text - (if b then 0 else length text - 1))))
unfolding range_from
tokens_by true text h =
    let all : length text ≡ length text - 0 = omega arith in
    ap ok (sym (map-token_at text) ∙ ap (λ n. map (token_at text) (range_from 0 n)) all)
tokens_by false text h =
    let one : 1 ≡ length text - (length text - 1) = omega arith in
    rw (last_token text h) (ap (λ n. ok (map (token_at text) (range_from (length text - 1) n))) one)
