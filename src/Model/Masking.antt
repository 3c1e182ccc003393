-- ===== src/Model/Masking.antt =====
-- The causal mask of `_forward_one` in miniserve/model.py: keys after a position do not count.
use miniserve.Base.{
  ℕ, zero, suc, ◌+◌, ◌/◌, ◌%◌, ◌≤◌, ◌<◌, ◌≡◌, refl, ap, sym, ◌∙◌, fun_ext, List, [], ◌∷◌, ◌++◌, map,
  length, All, arith, length-map, leb, if◌then◌else◌,
}
use miniserve.KvCache.Storage.{range_from}
use miniserve.Model.Torch.{Torch, IsMasking, Heads, zip_with, masked_fill}
use miniserve.Model.Weights.{PagedModel}
use miniserve.Model.Forward.{scores, causal, mix, attend, repeat_interleave}
use miniserve.Model.Reference.{attend_all}
use miniserve.Model.Slots.{map-range_from_ext, range_from_append}

pub map-map :
    {A B C : Type 0} (f : B → C) (g : A → B) (xs : List A)
    → map f (map g xs) ≡ map (λ x. f (g x)) xs
map-map f g [] = refl
map-map f g (x ∷ xs) = ap (◌∷◌ (f (g x))) (map-map f g xs)

pub map-append :
    {A B : Type 0} (f : A → B) (xs ys : List A) → map f (xs ++ ys) ≡ map f xs ++ map f ys
map-append f [] ys = refl
map-append f (x ∷ xs) ys = ap (◌∷◌ (f x)) (map-append f xs ys)

pub zip_with-map :
    {I A B C : Type 0} (f : A → B → C) (a : I → A) (b : I → B) (is : List I)
    → zip_with f (map a is) (map b is) ≡ map (λ i. f (a i) (b i)) is
zip_with-map f a b [] = refl
zip_with-map f a b (i ∷ is) = ap (◌∷◌ (f (a i) (b i))) (zip_with-map f a b is)

pub zip_with_self :
    {I B C : Type 0} (f : I → B → C) (b : I → B) (is : List I)
    → zip_with f is (map b is) ≡ map (λ i. f i (b i)) is
zip_with_self f b [] = refl
zip_with_self f b (i ∷ is) = ap (◌∷◌ (f i (b i))) (zip_with_self f b is)

All-map-range_from :
    {A : Type 0} (P : A → Type 0) (f : ℕ → A) (i n : ℕ)
    → ((j : ℕ) → i ≤ j → j < i + n → P (f j))
    → All P (map f (range_from i n))
unfolding range_from
All-map-range_from P f i zero h = tt
All-map-range_from P f i (suc n) h = (
  h i (omega arith) (omega arith),
  All-map-range_from P f (suc i) n (λ j lo hi. h j (omega arith) (omega arith)),
)

All-map_zero :
    {A : Type 0} (f : A → A) (z : A) (zs : List A)
    → f z ≡ z
    → All (λ x. x ≡ z) zs
    → All (λ x. x ≡ z) (map f zs)
All-map_zero f z [] e h = tt
All-map_zero f z (x ∷ zs) e h = (ap f h.0 ∙ e, All-map_zero f z zs e h.1)

pub length-range_from : (i n : ℕ) → length (range_from i n) ≡ n
unfolding range_from
length-range_from i zero = refl
length-range_from i (suc n) = ap suc (length-range_from (suc i) n)

module _ {F : Type 0} (torch : Torch F) (IsOrdinary : F → Type 0)
    (law : IsMasking torch IsOrdinary) where
  module _ (model : PagedModel F) where
    -- The weights of the scores up to a position are those without the filled scores behind it.
    mix-masked :
        (h d m : ℕ) (s : F) (ss fills : List F) (vs us : List (Heads F))
        → All IsOrdinary (s ∷ ss)
        → All (λ f. f ≡ torch.lowest) fills
        → length (s ∷ ss) ≡ length vs
        → length fills ≡ length us
        → All IsOrdinary (map (λ v. repeat_interleave model.n_rep v h d) us)
        → mix torch model ((s ∷ ss) ++ fills) (vs ++ us) h d ≡ mix torch model (s ∷ ss) vs h d
    unfolding mix
    mix-masked h d m s ss fills vs us hs hf hl hm hu =
        let (zs, hz, lz, e) = law.softmax_masked s ss fills hs hf in
        let at = λ (v : Heads F). repeat_interleave model.n_rep v h d in
        let weigh = λ (ws : List F). torch.weighted ws (map at (vs ++ us)) in
        ap (λ ws. weigh (map torch.cast ws)) e
        ∙ ap weigh (map-append torch.cast (torch.softmax (s ∷ ss)) zs)
        ∙ ap (torch.weighted (map torch.cast (torch.softmax (s ∷ ss)) ++ map torch.cast zs))
            (map-append at vs us)
        ∙ (law.weighted_zeros (map torch.cast (torch.softmax (s ∷ ss))) (map at vs)
            (map torch.cast zs) (map at us)
            (length-map torch.cast _ ∙ law.softmax_length (s ∷ ss) ∙ hl ∙ sym (length-map at vs))
            (All-map_zero torch.cast (torch.of_nat 0) zs law.cast_zero hz)
            (length-map torch.cast zs ∙ lz ∙ hm ∙ sym (length-map at us)) hu)

    masked_scores :
        (K : ℕ → Heads F) (q : Heads F) (p m seen h : ℕ)
        → seen ≡ suc p + m
        → masked_fill torch.lowest
            (scores torch model q (map K (range_from 0 seen)) h)
            (causal torch model seen p)
          ≡ scores torch model q (map K (range_from 0 (suc p))) h
            ++ map (λ j. torch.lowest) (range_from (suc p) m)
    unfolding scores causal
    masked_scores K q p m seen h e =
        let sc = λ (k : Heads F).
          torch.div (torch.dot model.head_dim (q h) (repeat_interleave model.n_rep k h))
            (torch.sqrt (torch.of_nat model.head_dim)) in
        let shown = λ (j : ℕ). if leb j p then sc (K j) else torch.lowest in
        ap (λ l. masked_fill torch.lowest l (map (λ j. leb j p) (range_from 0 seen)))
          (map-map sc K (range_from 0 seen))
        ∙ zip_with-map (λ (s : F) visible. if visible then s else torch.lowest) (λ j. sc (K j))
            (λ j. leb j p) (range_from 0 seen)
        ∙ range_from_append shown 0 (suc p) (suc p) m seen (omega arith) e
        ∙ ap (λ l. l ++ map shown (range_from (suc p) m))
            (map-range_from_ext shown (λ j. sc (K j)) 0 (suc p) (λ j lo hi. ground arith)
              ∙ sym (map-map sc K (range_from 0 (suc p))))
        ∙ ap (λ l. map sc (map K (range_from 0 (suc p))) ++ l)
            (map-range_from_ext shown (λ j. torch.lowest) (suc p) m (λ j lo hi. ground arith))

    -- Attention under the mask is attention to the keys up to the position.
    pub attend-causal :
        (K V : ℕ → Heads F) (q : Heads F) (p m seen : ℕ)
        → seen ≡ suc p + m
        → ((h : ℕ) → All IsOrdinary (scores torch model q (map K (range_from 0 (suc p))) h))
        → ((j h d : ℕ) → j < seen → IsOrdinary (V j h d))
        → attend torch model seen p q (map K (range_from 0 seen)) (map V (range_from 0 seen))
          ≡ attend_all torch model q (map K (range_from 0 (suc p))) (map V (range_from 0 (suc p)))
    unfolding attend attend_all range_from scores
    attend-causal K V q p m seen e hs hv = fun_ext (λ i.
        let h = i / model.head_dim in
        let d = i % model.head_dim in
        rw
          (
            masked_scores K q p m seen h e,
            range_from_append V 0 (suc p) (suc p) m seen (omega arith) e,
          )
          (mix-masked h d m _ _ (map (λ j. torch.lowest) (range_from (suc p) m))
            (map V (range_from 0 (suc p))) (map V (range_from (suc p) m)) (hs h)
            (All-map-range_from (λ f. f ≡ torch.lowest) (λ j. torch.lowest) (suc p) m
              (λ j lo hi. refl))
            (ap suc (
              length-map _ (map K (range_from 1 p))
              ∙ length-map K (range_from 1 p)
              ∙ sym (length-map V (range_from 1 p))))
            (length-map _ (range_from (suc p) m) ∙ sym (length-map V (range_from (suc p) m)))
            (rw
              (map-map (λ (v : Heads F). repeat_interleave model.n_rep v h d) V
                (range_from (suc p) m))
              (All-map-range_from IsOrdinary (λ j. V j (h / model.n_rep) d) (suc p) m
                (λ j lo hi. hv j (h / model.n_rep) d (omega arith))))))
