-- ===== src/Tests/Passes.antt =====
-- A small model of one layer over numbers, and the passes of miniserve/model.py with it.
use miniserve.Base.{
  ℕ, zero, suc, ◌+◌, ◌*◌, ◌/◌, ◌%◌, ◌≤◌, ◌<◌, ◌≡◌, ◌⊎◌, refl, ap, true, none, some, List, [], ◌∷◌,
  ◌++◌, map, All, take, length, arith, count, String_discrete, indicator, indicator_le, ◌≢◌, String,
  sym, ◌∙◌, indicator_no, indicator_yes,
}
use miniserve.Result.{Error, ok, raise}
use miniserve.Dict.{lookup}
use miniserve.KvCache.Storage.{ReqId, BlockId, Layer, PagedKvCache, range_from, held}
use miniserve.KvCache.Conservation.{IsConserved}
use miniserve.Scheduler.Sequence.{Sequence, Token, Status, prefill, decode, default_sampling}
use miniserve.Model.Torch.{Torch, IsMasking, Matrix, Vector}
use miniserve.Model.Weights.{PagedModel, LayerWeights, Loaded, assembled, init, key, value}
use miniserve.Model.Loading.{IsSupported, Carries, init_cases}
use miniserve.Model.Forward.{Block, content, forward, gather, scatter, slots_of}
use miniserve.Model.Reference.{embedded, reference, IsOrdinaryLayer}
use miniserve.Model.Slots.{IsInjective}
use miniserve.Model.Scatter.{gather-scatter}
use miniserve.Model.Pass.{IsCachedLayer}
use miniserve.Model.Batched.{ids_of, CanServe, IsServed, Spares, forward_total}
use miniserve.Model.Resume.{decode-IsServable, decode-reference, resumed-decode}

abbrev weigh : List ℕ → List ℕ → ℕ
weigh [] vs = 0
weigh (a ∷ attn) [] = 0
weigh (a ∷ attn) (v ∷ vs) = a * v + weigh attn vs

abbrev toy : Torch ℕ
toy = record {
  of_nat = λ n. n;
  add = λ x y. x + y;
  mul = λ x y. x * y;
  div = λ x y. x / y;
  neg = λ x. x;
  pow = λ x y. x;
  sqrt = λ x. x;
  rsqrt = λ x. 1;
  cos = λ x. suc x;
  sin = λ x. 1;
  silu = λ x. x;
  cast = λ x. x;
  lowest = 0;
  mean = λ n x. x 0;
  linear = λ w b x o. x 0 * w.at o 0;
  dot = λ n x y. x 0 * y 0;
  softmax = λ xs. xs;
  weighted = weigh;
}

abbrev IsAny : ℕ → Type 0
IsAny x = Unit

All-IsAny : (xs : List ℕ) → All IsAny xs
All-IsAny [] = tt
All-IsAny (x ∷ xs) = (tt, All-IsAny xs)

weigh_zeros :
    (xs vs zs us : List ℕ)
    → length xs ≡ length vs
    → All (λ z. z ≡ 0) zs
    → weigh (xs ++ zs) (vs ++ us) ≡ weigh xs vs
weigh_zeros [] [] [] us e hz = refl
weigh_zeros [] [] (z ∷ zs) [] e hz = refl
weigh_zeros [] [] (z ∷ zs) (u ∷ us) e hz =
    rw (hz.0) (omega (arith, weigh_zeros [] [] zs us refl hz.1))
weigh_zeros [] (v ∷ vs) zs us e hz = absurd (omega (arith, e))
weigh_zeros (x ∷ xs) [] zs us e hz = absurd (omega (arith, e))
weigh_zeros (x ∷ xs) (v ∷ vs) zs us e hz =
    ap (λ n. x * v + n) (weigh_zeros xs vs zs us (omega (arith, e)) hz)

toy-IsMasking : IsMasking toy IsAny
toy-IsMasking = record {
  softmax_masked = λ s ss fills h hf. (fills, hf, refl, refl);
  softmax_length = λ xs. refl;
  cast_zero = refl;
  weighted_zeros = λ xs vs zs us e hz hl hu. weigh_zeros xs vs zs us e hz;
}

abbrev ones : ℕ → Matrix ℕ
ones n = record { rows = n; cols = 1; at = λ o i. suc o }

abbrev weights : LayerWeights ℕ
weights = record {
  in_norm = λ i. 1;
  q_w = ones 1;
  q_b = some (λ i. 1);
  k_w = ones 1;
  k_b = none;
  v_w = ones 1;
  v_b = none;
  o_w = ones 1;
  post_norm = λ i. 1;
  gate_w = ones 1;
  up_w = ones 1;
  down_w = ones 1;
}

abbrev loaded : Loaded ℕ
loaded = record {
  config = record {
    hidden_size = 1;
    num_attention_heads = 1;
    num_key_value_heads = 1;
    head_dim = none;
    rms_norm_eps = 1;
    tie_word_embeddings = true;
    rope_parameters = some (record { rope_type = none; rope_theta = some 10 });
    rope_theta = none;
  };
  embed = ones 10;
  layers = weights ∷ [];
  final_norm = λ i. 1;
  lm_head = ones 10;
  tied = true;
}

abbrev small : PagedModel ℕ
small = assembled toy loaded 1 1 10

init_cases_example :
    (IsSupported loaded
      × ((model : PagedModel ℕ) × (init toy loaded ≡ ok model) × Carries toy loaded model))
    ⊎ (¬ IsSupported loaded × ((e : Error) × (init toy loaded ≡ raise e)))
init_cases_example = init_cases toy loaded

abbrev request : ReqId → List Token → List Token → Status → Sequence
request r prompt out status = record {
  req_id = r;
  prompt_ids = prompt;
  max_tokens = 5;
  sampling = default_sampling;
  arrival_time = 0;
  seq_no = 0;
  output_ids = out;
  status = status;
  first_token_time = none;
  completion_time = none;
  emitted_count = 0;
  preempted_count = 0;
}

abbrev paged : Layer (Block ℕ) → List BlockId → List (ReqId × List BlockId) → PagedKvCache (Block ℕ)
paged layer free tables = record {
  num_blocks = 3;
  block_size = 2;
  poison_on_free = true;
  layers = layer ∷ [];
  free_blocks = free;
  block_tables = tables;
}

-- The tensors as a preemption leaves them.
abbrev stale : Layer (Block ℕ)
stale = record { k = λ b o h d. 99; v = λ b o h d. 99 }

toy-IsOrdinaryLayer : (rows : ℕ → Vector ℕ) (n : ℕ) → IsOrdinaryLayer toy small IsAny weights rows n
toy-IsOrdinaryLayer rows n = record { of_scores = λ p h l. All-IsAny _; of_values = λ j h d l. tt }

-- Nothing is cached yet.
nothing :
    (table : List BlockId) (rows : ℕ → Vector ℕ)
    → IsCachedLayer toy small 2 table weights rows 0 stale
nothing table rows = record {
  keys = λ j h. absurd (omega (arith, h));
  values = λ j h. absurd (omega (arith, h));
}

abbrev two_tables : List (ReqId × List BlockId)
two_tables = ("a", 2 ∷ 0 ∷ []) ∷ ("b", 1 ∷ []) ∷ []

abbrev two_requests : PagedKvCache (Block ℕ)
two_requests = paged stale [] two_tables

abbrev ask_a : Sequence
ask_a = request "a" (3 ∷ 5 ∷ []) (7 ∷ []) prefill

abbrev ask_b : Sequence
ask_b = request "b" (4 ∷ []) [] prefill

conserved : (layer : Layer (Block ℕ)) → IsConserved (paged layer [] two_tables)
unfolding held
conserved layer = record { total = refl; once = λ b. ground arith }

can_a : CanServe toy small IsAny two_requests ask_a
unfolding lookup String_discrete
can_a = (
  2 ∷ 0 ∷ [],
  record {
    found = refl;
    some_text = omega arith;
    room = omega arith;
    known = (omega arith, (omega arith, (omega arith, tt)));
    ordinary = (toy-IsOrdinaryLayer _ 3, tt);
    cached = (nothing _ _, tt);
  },
)

can_b : CanServe toy small IsAny two_requests ask_b
unfolding lookup String_discrete
can_b = (
  1 ∷ [],
  record {
    found = refl;
    some_text = omega arith;
    room = omega arith;
    known = (omega arith, tt);
    ordinary = (toy-IsOrdinaryLayer _ 1, tt);
    cached = (nothing _ _, tt);
  },
)

apart : ◌≢◌ {A = String} "a" "b"
unfolding String_discrete
apart e =
    let differ : indicator (String_discrete "a" "b") ≡ 0 = refl in
    absurd (omega (arith, differ, indicator_yes (String_discrete "a" "b") e))

distinct : (r : ReqId) → count String_discrete r (ids_of (ask_a ∷ ask_b ∷ [])) ≤ 1
distinct r = elim (String_discrete "a" r) [
  | yes p ↦ elim (String_discrete "b" r) [
    | yes q ↦ absurd (apart (p ∙ sym q))
    | no n ↦
        omega (arith, indicator_le (String_discrete "a" r), indicator_no (String_discrete "b" r) n)
  ]
  | no n ↦
      omega (arith, indicator_le (String_discrete "b" r), indicator_no (String_discrete "a" r) n)
]

forward_total_example :
    (out : List (ReqId × Vector ℕ)) × (layers : List (Layer (Block ℕ))) × (forward toy small
        (ask_a ∷ ask_b ∷ [])
        two_requests
      ≡ ok (out, record two_requests { layers = layers }))
    × All (IsServed toy small (record two_requests { layers = layers }) out) (ask_a ∷ ask_b ∷ [])
    × Spares toy small two_requests (ask_a ∷ ask_b ∷ []) [] out layers
forward_total_example =
    forward_total toy small IsAny toy-IsMasking (ask_a ∷ ask_b ∷ []) two_requests (conserved stale)
      (omega arith) distinct (can_a, (can_b, tt))

-- The cache after a pass over the two tokens of a prompt, and one block more.
abbrev text_rows : ℕ → Vector ℕ
text_rows = embedded toy small (3 ∷ 5 ∷ [])

abbrev filled : Layer (Block ℕ)
filled = record {
  k = λ b o. key toy small weights o (text_rows o);
  v = λ b o. value toy small weights (text_rows o);
}

abbrev before : PagedKvCache (Block ℕ)
before = paged filled (0 ∷ 1 ∷ []) (("a", 2 ∷ []) ∷ [])

abbrev prompt : Sequence
prompt = request "a" (3 ∷ 5 ∷ []) [] prefill

abbrev next : Sequence
next = request "a" (3 ∷ 5 ∷ []) (7 ∷ []) decode

abbrev longer : List (ReqId × List BlockId)
longer = ("a", 2 ∷ 0 ∷ []) ∷ []

same : (j : ℕ) → j < 2 → j % 2 ≡ j
same j h = grind arith

prompt_cached : IsCachedLayer toy small 2 (2 ∷ []) weights text_rows 2 filled
prompt_cached = record {
  keys = λ j h. ap (λ o. key toy small weights o (text_rows o)) (same j h);
  values = λ j h. ap (λ o. value toy small weights (text_rows o)) (same j h);
}

served : IsServed toy small before (("a", reference toy small (3 ∷ 5 ∷ [])) ∷ []) prompt
unfolding lookup String_discrete
served = record {
  table = 2 ∷ [];
  found = refl;
  room = omega arith;
  answer = refl;
  cached = (prompt_cached, tt);
}

abbrev grown_cache : PagedKvCache (Block ℕ)
grown_cache = record before { free_blocks = 1 ∷ []; block_tables = longer }

grown-IsConserved : IsConserved grown_cache
unfolding held
grown-IsConserved = record { total = refl; once = λ b. ground arith }

known : All (λ t. t < 10) (content next)
known = (omega arith, (omega arith, (omega arith, tt)))

decode-reference_example :
    (layers : List (Layer (Block ℕ))) × (forward toy small (next ∷ []) grown_cache
      ≡ ok (
        ("a", reference toy small (3 ∷ 5 ∷ 7 ∷ [])) ∷ [],
        record grown_cache { layers = layers },
      ))
unfolding lookup String_discrete served
decode-reference_example =
    decode-reference toy small IsAny toy-IsMasking before
      (("a", reference toy small (3 ∷ 5 ∷ [])) ∷ []) prompt next (1 ∷ []) longer (0 ∷ []) served 7
      grown-IsConserved (omega arith) refl refl refl (omega arith) known
      (toy-IsOrdinaryLayer _ 3, tt)

-- The same text is decoded here, and elsewhere resumed after a preemption.
can_decode : CanServe toy small IsAny grown_cache next
unfolding lookup String_discrete served
can_decode = (
  2 ∷ 0 ∷ [],
  decode-IsServable toy small IsAny toy-IsMasking before
      (("a", reference toy small (3 ∷ 5 ∷ [])) ∷ []) prompt next (1 ∷ []) longer (0 ∷ []) served 7
      refl refl refl (omega arith) known (toy-IsOrdinaryLayer _ 3, tt),
)

resumed-decode_example :
    (l : Vector ℕ) × (layers layers' : List (Layer (Block ℕ))) × (forward toy small
        (next ∷ [])
        grown_cache
      ≡ ok (("a", l) ∷ [], record grown_cache { layers = layers }))
    × (forward toy small (ask_a ∷ []) two_requests
        ≡ ok (("a", l) ∷ [], record two_requests { layers = layers' }))
resumed-decode_example =
    resumed-decode toy small IsAny toy-IsMasking grown_cache two_requests next ask_a
      grown-IsConserved (conserved stale) (omega arith) (omega arith) can_decode can_a refl

-- Two positions stand in the blocks 2 and 0, and the third is written behind them.
abbrev squares : ℕ → ℕ
squares j = j * j

crossing : IsInjective (2 ∷ 0 ∷ [])
crossing zero zero hi hj e = refl
crossing zero (suc zero) hi hj e = absurd (omega (arith, e))
crossing (suc zero) zero hi hj e = absurd (omega (arith, e))
crossing (suc zero) (suc zero) hi hj e = refl
crossing zero (suc (suc j)) hi hj e = absurd (omega (arith, hj))
crossing (suc i) (suc (suc j)) hi hj e = absurd (omega (arith, hj))
crossing (suc (suc i)) j hi hj e = absurd (omega (arith, hi))

gather-scatter_example :
    (slots : List (BlockId × ℕ)) × (slots_of (2 ∷ 0 ∷ []) 2 (range_from 2 1) ≡ ok slots)
    × (take 3 (gather (2 ∷ 0 ∷ []) 2 (scatter slots (map squares (range_from 2 1)) (λ b o. o * o)))
        ≡ map squares (range_from 0 3))
gather-scatter_example =
    gather-scatter 2 (2 ∷ 0 ∷ []) squares crossing (omega arith) 2 1 (λ b o. o * o) (omega arith)
      (λ j h. rw (same j h) refl)
