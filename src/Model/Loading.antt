-- ===== src/Model/Loading.antt =====
-- Which loaded models the constructor of PagedModel in miniserve/model.py takes.
use miniserve.Base.{
  ℕ, ◌<◌, ◌≡◌, ◌⊎◌, inl, inr, refl, ap, Bool, true, false, none, some, String_discrete, arith, ◌/◌,
  dec_lt, Option-cases, Bool-cases, false≢true, not, ◌&&◌, if_pos, if_neg, sym, ◌∙◌,
}
use mathlib.Core.Option
use miniserve.Result.{Error, zero_division_error, attribute_error, runtime_error, ok, raise}
use miniserve.Model.Torch.{Torch}
use miniserve.Model.Weights.{
  RopeParameters, LoadedConfig, Loaded, PagedModel, init, derive_head_dim, floor_div,
  read_rope_theta, inverse_frequency, assembled,
}

-- The base of the rotary embedding, in the place of either version of the library, and of no variant.
abbrev pub HasTheta : {F : Type 0} → LoadedConfig F → F → Type 0
HasTheta {F = F} cfg theta =
    ((cfg.rope_parameters ≡ none) × (cfg.rope_theta ≡ some theta))
    ⊎ ((rope : RopeParameters F) × (cfg.rope_parameters ≡ some rope)
        × (Option.get_or rope.rope_type "default" ≡ "default")
        × (rope.rope_theta ≡ some theta))

pub record IsSupported {F : Type 0} (hf : Loaded F) : Type 0 where
  pub heads : (0 < Option.get_or hf.config.head_dim 0) ⊎ (0 < hf.config.num_attention_heads)
  pub kv_heads : 0 < hf.config.num_key_value_heads
  pub tie : hf.config.tie_word_embeddings ≡ true → hf.tied ≡ true
  pub theta : (theta : F) × HasTheta hf.config theta

floor_div_cases :
    (a b : ℕ)
    → ((0 < b) × (floor_div a b ≡ ok (a / b)))
      ⊎ ((b ≡ 0) × (floor_div a b ≡ raise zero_division_error))
unfolding floor_div
floor_div_cases a b = ground arith

head_dim_cases :
    {F : Type 0} (cfg : LoadedConfig F)
    → (((0 < Option.get_or cfg.head_dim 0) ⊎ (0 < cfg.num_attention_heads))
        × ((n : ℕ) × (derive_head_dim cfg ≡ ok n)))
      ⊎ (¬ ((0 < Option.get_or cfg.head_dim 0) ⊎ (0 < cfg.num_attention_heads))
          × ((e : Error) × (derive_head_dim cfg ≡ raise e)))
unfolding derive_head_dim
head_dim_cases cfg = elim (dec_lt 0 (Option.get_or cfg.head_dim 0)) [
  | yes p ↦ inl (inl p, (Option.get_or cfg.head_dim 0, ground arith))
  | no n ↦ elim (floor_div_cases cfg.hidden_size cfg.num_attention_heads) [
    | inl (p, e) ↦ inl (inr p, (cfg.hidden_size / cfg.num_attention_heads, ground (arith, e)))
    | inr (z, e) ↦ inr (ground arith, (zero_division_error, ground (arith, e)))
  ]
]

theta_cases :
    {F : Type 0} (cfg : LoadedConfig F)
    → ((theta : F) × HasTheta cfg theta × (read_rope_theta cfg ≡ ok theta))
      ⊎ (((theta : F) → ¬ HasTheta cfg theta) × ((e : Error) × (read_rope_theta cfg ≡ raise e)))
unfolding read_rope_theta
theta_cases cfg = elim (Option-cases cfg.rope_parameters) [
  | inl e ↦ elim (Option-cases cfg.rope_theta) [
    | inl absent ↦ inr (
      λ theta h. elim h [ inl (_, t) ↦ cc | inr (rope, there, _, _) ↦ cc ],
      (attribute_error, rw (e, absent) refl),
    )
    | inr (theta, there) ↦ inl (theta, inl (e, there), rw (e, there) refl)
  ]
  | inr (rope, e) ↦ elim (String_discrete (Option.get_or rope.rope_type "default") "default") [
    | yes p ↦ elim (Option-cases rope.rope_theta) [
      | inl absent ↦ inr (
        λ theta h. elim h [
          | inl (gone, _) ↦ cc
          | inr (rope', there, _, t) ↦
              let is : rope' ≡ rope = cc in
              let theirs : rope.rope_theta ≡ some theta = ap (λ r. r.rope_theta) (sym is) ∙ t in cc
        ],
        (runtime_error, rw (e, if_pos _ p, absent) refl),
      )
      | inr (theta, there) ↦ inl (theta, inr (rope, e, p, there), rw (e, if_pos _ p, there) refl)
    ]
    | no n ↦ inr (
      λ theta h. elim h [
        | inl (gone, _) ↦ cc
        | inr (rope', there, p, t) ↦
            let is : rope' ≡ rope = cc in
            n (ap (λ r. Option.get_or r.rope_type "default") (sym is) ∙ p)
      ],
      (runtime_error, rw (e, if_neg _ n) refl),
    )
  ]
]

stale_tie : (declared same : Bool) → declared && not same ≡ true → ¬ (declared ≡ true → same ≡ true)
stale_tie false same e h = cc
stale_tie true true e h = cc
stale_tie true false e h = absurd (false≢true (h refl))

fine_tie : (declared same : Bool) → declared && not same ≡ false → declared ≡ true → same ≡ true
fine_tie declared true e h = refl
fine_tie false false e h = cc
fine_tie true false e h = cc

module _ {F : Type 0} (torch : Torch F) (hf : Loaded F) where
  -- What a checked model carries over: the ratio of the heads, and the base of its embedding.
  abbrev pub Carries : PagedModel F → Type 0
  Carries model =
      (model.n_rep ≡ hf.config.num_attention_heads / hf.config.num_key_value_heads)
      × ((theta : F) × HasTheta hf.config theta
          × (model.inv_freq ≡ inverse_frequency torch theta model.head_dim))

  -- The constructor of PagedModel returns exactly for a loaded model with a declared size of
  -- the heads or attention heads to derive it from, with key and value heads, whose declared
  -- tie of the embeddings is real, and whose rotary embedding is the default one with a base;
  -- then the number of query heads to a key head is the exact quotient, rounded down, and the
  -- frequencies are those of that base. In every other case it raises.
  pub init_cases :
      (IsSupported hf × ((model : PagedModel F) × (init torch hf ≡ ok model) × Carries model))
      ⊎ (¬ IsSupported hf × ((e : Error) × (init torch hf ≡ raise e)))
  unfolding init
  init_cases = elim (head_dim_cases hf.config) [
    | inr (n, (err, e)) ↦ inr (λ s. n s.heads, (err, rw e refl))
    | inl (heads, (d, e)) ↦
        elim (floor_div_cases hf.config.num_attention_heads hf.config.num_key_value_heads) [
          | inr (z, e1) ↦
              inr (λ s. absurd (omega (arith, s.kv_heads)), (zero_division_error, rw (e, e1) refl))
          | inl (p, e1) ↦ elim (Bool-cases (hf.config.tie_word_embeddings && not hf.tied)) [
            | inl stale ↦
                inr (λ s. stale_tie _ _ stale s.tie, (runtime_error, rw (e, e1, stale) refl))
            | inr fine ↦ elim (theta_cases hf.config) [
              | inr (n, (err, e2)) ↦
                  inr (λ s. n s.theta.0 s.theta.1, (err, rw (e, e1, fine, e2) refl))
              | inl (theta, has, e2) ↦ inl (
                record {
                  heads = heads;
                  kv_heads = p;
                  tie = fine_tie _ _ fine;
                  theta = (theta, has);
                },
                (
                  assembled torch hf d
                      (hf.config.num_attention_heads / hf.config.num_key_value_heads) theta,
                  rw (e, e1, fine, e2) refl,
                  (refl, (theta, has, refl)),
                ),
              )
            ]
          ]
        ]
  ]
