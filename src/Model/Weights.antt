-- ===== src/Model/Weights.antt =====
-- The constructor of the class PagedModel of miniserve/model.py, and its functions on one position.
use miniserve.Base.{
  ℕ, ◌+◌, ◌-◌, ◌*◌, ◌/◌, Bool, not, ◌&&◌, Option, none, some, List, String, String_discrete, ite,
  ltb, ◌==◌, if◌then◌else◌,
}
use mathlib.Core.Option
use miniserve.Result.{runtime_error, zero_division_error, attribute_error, Result, ok, raise, ◌>>=◌}
use miniserve.Model.Torch.{Torch, Vector, Heads, Matrix, add_rows}

-- The entries of `config.rope_parameters` that are read.
pub record RopeParameters (F : Type 0) : Type 0 where
  pub rope_type : Option String
  pub rope_theta : Option F

-- The attributes of the loaded model's config that are read, none where one is absent or None.
pub record LoadedConfig (F : Type 0) : Type 0 where
  pub hidden_size : ℕ
  pub num_attention_heads : ℕ
  pub num_key_value_heads : ℕ
  pub head_dim : Option ℕ
  pub rms_norm_eps : F
  pub tie_word_embeddings : Bool
  pub rope_parameters : Option (RopeParameters F)
  pub rope_theta : Option F

-- An entry of `self.layers`, with the fields of the source.
pub record LayerWeights (F : Type 0) : Type 0 where
  pub in_norm : Vector F
  pub q_w : Matrix F
  pub q_b : Option (Vector F)
  pub k_w : Matrix F
  pub k_b : Option (Vector F)
  pub v_w : Matrix F
  pub v_b : Option (Vector F)
  pub o_w : Matrix F
  pub post_norm : Vector F
  pub gate_w : Matrix F
  pub up_w : Matrix F
  pub down_w : Matrix F

-- The loaded model: its config and weights. `tied` says whether `lm_head` is the tensor of `embed`.
pub record Loaded (F : Type 0) : Type 0 where
  pub config : LoadedConfig F
  pub embed : Matrix F
  pub layers : List (LayerWeights F)
  pub final_norm : Vector F
  pub lm_head : Matrix F
  pub tied : Bool

pub record PagedModel (F : Type 0) : Type 0 where
  pub n_heads : ℕ
  pub n_kv_heads : ℕ
  pub head_dim : ℕ
  pub n_rep : ℕ
  pub rms_eps : F
  pub embed : Matrix F
  pub layers : List (LayerWeights F)
  pub final_norm : Vector F
  pub lm_head : Matrix F
  pub inv_freq : Vector F

-- `a // b`
unfoldable pub floor_div : ℕ → ℕ → Result ℕ
floor_div a b = if b == 0 then raise zero_division_error else ok (a / b)

-- `getattr(cfg, "head_dim", None) or hidden_size // num_attention_heads`
unfoldable pub derive_head_dim : {F : Type 0} → LoadedConfig F → Result ℕ
derive_head_dim cfg =
    if ltb 0 (Option.get_or cfg.head_dim 0)
    then ok (Option.get_or cfg.head_dim 0)
    else floor_div cfg.hidden_size cfg.num_attention_heads

abbrev pub or_raise {ℓ} : {A : Type ℓ} → Result A → Option A → Result A
or_raise e none = e
or_raise e (some a) = ok a

-- Where the base of the rotary embedding stands, and what is refused.
unfoldable pub read_rope_theta : {F : Type 0} → LoadedConfig F → Result F
read_rope_theta cfg = elim cfg.rope_parameters [
  | none ↦ or_raise (raise attribute_error) cfg.rope_theta
  | some rope ↦
      ite (String_discrete (Option.get_or rope.rope_type "default") "default")
        (or_raise (raise runtime_error) rope.rope_theta) (raise runtime_error)
]

module _ {F : Type 0} (torch : Torch F) where
  -- Entry `i` of `1.0 / (rope_theta ** (arange(0, head_dim, 2) / head_dim))`
  unfoldable pub inverse_frequency : F → ℕ → Vector F
  inverse_frequency rope_theta head_dim i =
      torch.div (torch.of_nat 1)
        (torch.pow rope_theta (torch.div (torch.of_nat (2 * i)) (torch.of_nat head_dim)))

  -- The object, from its dimensions and the base of the rotary embedding.
  abbrev pub assembled : Loaded F → ℕ → ℕ → F → PagedModel F
  assembled hf head_dim n_rep rope_theta = record {
    n_heads = hf.config.num_attention_heads;
    n_kv_heads = hf.config.num_key_value_heads;
    head_dim = head_dim;
    n_rep = n_rep;
    rms_eps = hf.config.rms_norm_eps;
    embed = hf.embed;
    layers = hf.layers;
    final_norm = hf.final_norm;
    lm_head = hf.lm_head;
    inv_freq = inverse_frequency rope_theta head_dim;
  }

  unfoldable pub init : Loaded F → Result (PagedModel F)
  init hf = do
    head_dim ← derive_head_dim hf.config
    n_rep ← floor_div hf.config.num_attention_heads hf.config.num_key_value_heads
    if hf.config.tie_word_embeddings && not hf.tied then raise runtime_error else (do
      rope_theta ← read_rope_theta hf.config
      ok (assembled hf head_dim n_rep rope_theta))

  -- `_rotate_half`, of a vector of `n` entries.
  unfoldable pub rotate_half : ℕ → Vector F → Vector F
  rotate_half n x i =
      let half = n / 2 in if ltb i (n - half) then torch.neg (x (half + i)) else x (i - (n - half))

  module _ (model : PagedModel F) where
    -- `_rms`, over rows as wide as an embedding.
    unfoldable pub rms : Vector F → Vector F → Vector F
    rms weight x i =
        let width = model.embed.cols in
        let mean = torch.mean width (λ j. torch.pow (x j) (torch.of_nat 2)) in
        let scale = torch.rsqrt (torch.add mean model.rms_eps) in
        torch.mul (torch.cast (torch.mul (x i) scale)) (weight i)

    -- Entry `d` of `cat((freqs, freqs))` at a position.
    unfoldable pub angle : ℕ → Vector F
    angle position d =
        let half = (model.head_dim + 1) / 2 in
        torch.mul (torch.of_nat position) (model.inv_freq (if ltb d half then d else d - half))

    unfoldable pub rope : ℕ → Heads F → Heads F
    rope position x h d =
        torch.add (torch.mul (x h d) (torch.cast (torch.cos (angle position d)))) (
          torch.mul (rotate_half model.head_dim (x h) d)
            (torch.cast (torch.sin (angle position d))))

    -- `x.view(t, heads, head_dim)` on one row.
    abbrev pub view_heads : Vector F → Heads F
    view_heads x h d = x (h * model.head_dim + d)

    unfoldable pub query : LayerWeights F → ℕ → Vector F → Heads F
    query w position x = rope position (view_heads (torch.linear w.q_w w.q_b (rms w.in_norm x)))

    unfoldable pub key : LayerWeights F → ℕ → Vector F → Heads F
    key w position x = rope position (view_heads (torch.linear w.k_w w.k_b (rms w.in_norm x)))

    unfoldable pub value : LayerWeights F → Vector F → Heads F
    value w x = view_heads (torch.linear w.v_w w.v_b (rms w.in_norm x))

    unfoldable pub gated : LayerWeights F → Vector F → Vector F
    gated w h i =
        torch.mul (torch.silu (torch.linear w.gate_w none h i)) (torch.linear w.up_w none h i)

    -- The rest of a layer, after the attention: the output projection and the MLP.
    unfoldable pub finish_layer : LayerWeights F → Vector F → Vector F → Vector F
    finish_layer w x ctx =
        let y = add_rows torch x (torch.linear w.o_w none ctx) in
        add_rows torch y (torch.linear w.down_w none (gated w (rms w.post_norm y)))

    unfoldable pub logits : Vector F → Vector F
    logits x = torch.linear model.lm_head none (rms model.final_norm x)
