-- ===== src/Bench/Cost/Config.antt =====
-- The config of miniserve/bench/costmodel.py, the checks before it is emitted, and the two costs.
use miniserve.Base.{
  ℕ, ◌*◌, Bool, false, Option, none, some, List, [], ◌∷◌, String, not, if◌then◌else◌,
}
use mathlib.Core.Option
use miniserve.Result.{value_error, Result, ok, raise, ◌>>=◌}
use miniserve.Dict.{lookup}
use miniserve.Scheduler.Step.{or_key_error}
use miniserve.Bench.Cost.Fraction.{Fraction, as_float, of_nat, plus, times, inverse}

pub record ModelDims : Type 0 where
  pub num_layers : ℕ
  pub num_kv_heads : ℕ
  pub head_dim : ℕ
  pub dtype_bytes : ℕ

-- The output of `fit_curves`, as far as it is read: `fit_acceptable` may be missing.
pub record PrefillFit : Type 0 where
  pub fit_acceptable : Option Bool
  pub prefers_quadratic : Bool
  pub linear_a : Fraction
  pub linear_b : Fraction
  pub quadratic_a : Fraction
  pub quadratic_b : Fraction
  pub quadratic_c : Fraction

pub record Tier : Type 0 where
  pub latency_ms : Fraction
  pub bandwidth_gb_s : Fraction

-- The dict `hardware`, whose entry `gpu` is a dict of its own; the other values are not read.
pub record Hardware : Type 0 where
  pub fields : List (String × String)
  pub gpu : List (String × String)

abbrev pub Cell : Type 0
Cell = List (String × Fraction)

pub record Config : Type 0 where
  pub schema_version : ℕ
  pub model : String
  pub model_dims : ModelDims
  pub kv_bytes_per_token : ℕ
  pub prefill : PrefillFit
  pub decode : List Cell
  pub transfer : List (String × Tier)
  pub hardware : Hardware
  pub provenance : List (String × String)

abbrev pub required_hardware : List String
required_hardware = "gpu" ∷ "filesystem" ∷ []

abbrev pub required_gpu : List String
required_gpu = "name" ∷ "form_factor" ∷ "driver" ∷ "vram_gb" ∷ []

abbrev pub required_decode_cell : List String
required_decode_cell =
    "batch" ∷ "target_context" ∷ "realized_mean_context" ∷ "decode_ms_median" ∷ []

-- `for key in required: if key not in d: raise ValueError`
unfoldable pub require {ℓ} : {V : Type ℓ} → List String → List (String × V) → Result (Unit {0})
require [] d = ok tt
require (key ∷ required) d = elim (lookup key d) [
  | none ↦ raise value_error
  | some v ↦ require required d
]

unfoldable pub require_cells : List Cell → Result (Unit {0})
require_cells [] = ok tt
require_cells (cell ∷ cells) = do _ ← require required_decode_cell cell; require_cells cells

abbrev pub bytes_per_token : ModelDims → ℕ
bytes_per_token dims = dims.num_layers * 2 * dims.num_kv_heads * dims.head_dim * dims.dtype_bytes

unfoldable pub emit_config :
    String
    → ModelDims
    → PrefillFit
    → List Cell
    → List (String × Tier)
    → Hardware
    → List (String × String)
    → Result Config
emit_config model_name model_dims prefill_fit decode_table transfer_tiers hardware provenance = do
  _ ← require required_hardware hardware.fields
  _ ← require required_gpu hardware.gpu
  _ ← require_cells decode_table
  if not (Option.get_or prefill_fit.fit_acceptable false)
      then raise value_error
      else ok (record {
        schema_version = 1;
        model = model_name;
        model_dims = model_dims;
        kv_bytes_per_token = bytes_per_token model_dims;
        prefill = prefill_fit;
        decode = decode_table;
        transfer = transfer_tiers;
        hardware = hardware;
        provenance = provenance;
      })

-- The fitted curve, at a number that a float holds.
unfoldable pub recompute_at : Config → ℕ → Fraction
recompute_at config tokens =
    let fit = config.prefill in
    if fit.prefers_quadratic
    then plus (plus fit.quadratic_a (times fit.quadratic_b (of_nat tokens)))
        (times (times fit.quadratic_c (of_nat tokens)) (of_nat tokens))
    else plus fit.linear_a (times fit.linear_b (of_nat tokens))

unfoldable pub recompute_ms : Config → ℕ → Result Fraction
recompute_ms config tokens = do _ ← as_float tokens; ok (recompute_at config tokens)

-- GB/s are 1e6 bytes to the millisecond.
unfoldable pub ms_per_byte : Tier → Result Fraction
ms_per_byte t = inverse (times t.bandwidth_gb_s (of_nat 1000000))

-- The cost of one direction, with the tier and its price at hand, at a number that a float holds.
unfoldable pub cost_at : Config → Tier → Fraction → ℕ → Fraction
cost_at config t price tokens =
    plus t.latency_ms (times (of_nat (tokens * config.kv_bytes_per_token)) price)

-- A tier that the config does not have raises KeyError, and one without bandwidth ZeroDivisionError.
unfoldable pub migrate_ms : Config → ℕ → String → Result Fraction
migrate_ms config tokens tier = do
  t ← or_key_error (lookup tier config.transfer)
  price ← ms_per_byte t
  _ ← as_float (tokens * config.kv_bytes_per_token)
  ok (cost_at config t price tokens)

unfoldable pub round_trip_ms : Config → ℕ → String → String → Result Fraction
round_trip_ms config tokens down_tier up_tier = do
  down ← migrate_ms config tokens down_tier
  up ← migrate_ms config tokens up_tier
  ok (plus down up)
