-- ===== src/Bench/Cost/Emission.antt =====
-- When `emit_config` of miniserve/bench/costmodel.py emits a config, and which.
use miniserve.Base.{
  ◌≡◌, ◌≢◌, ◌⊎◌, inl, inr, refl, true, false, false≢true, none, List, [], ◌∷◌, String, All,
  Bool-cases, Option-cases, sym, ◌∙◌,
}
use mathlib.Core.Option
use miniserve.Result.{value_error, Result, ok, raise}
use miniserve.Dict.{lookup}
use miniserve.Bench.Cost.Config.{
  ModelDims, PrefillFit, Tier, Hardware, Cell, Config, required_hardware, required_gpu,
  required_decode_cell, require, require_cells, bytes_per_token, emit_config,
}

-- Every key is there.
abbrev pub HasKeys {ℓ} : {V : Type ℓ} → List String → List (String × V) → Type ℓ
HasKeys required d = All (λ key. lookup key d ≢ none) required

require_cases {ℓ} :
    {V : Type ℓ} (required : List String) (d : List (String × V))
    → (HasKeys required d × (require required d ≡ ok tt))
      ⊎ ((HasKeys required d → ⊥) × (require required d ≡ raise value_error))
unfolding require
require_cases [] d = inl (tt, refl)
require_cases (key ∷ required) d = elim (Option-cases (lookup key d)) [
  | inl e ↦ inr (λ h. h.0 e, rw (e, require))
  | inr (v, e) ↦ elim (require_cases required d) [
    | inl (h, run) ↦ inl ((λ n. cc, h), rw (e, require) run)
    | inr (h, run) ↦ inr (λ k. h k.1, rw (e, require) run)
  ]
]

require_cells_cases :
    (cells : List Cell)
    → (All (HasKeys required_decode_cell) cells × (require_cells cells ≡ ok tt))
      ⊎ ((All (HasKeys required_decode_cell) cells → ⊥) × (require_cells cells ≡ raise value_error))
unfolding require_cells
require_cells_cases [] = inl (tt, refl)
require_cells_cases (cell ∷ cells) = elim (require_cases required_decode_cell cell) [
  | inr (h, run) ↦ inr (λ k. h k.0, rw run)
  | inl (h, run) ↦ elim (require_cells_cases cells) [
    | inl (hs, runs) ↦ inl ((h, hs), rw run runs)
    | inr (hs, runs) ↦ inr (λ k. hs k.1, rw run runs)
  ]
]

module _ (model_name : String) (model_dims : ModelDims) (prefill_fit : PrefillFit)
    (decode_table : List Cell) (transfer_tiers : List (String × Tier)) (hardware : Hardware)
    (provenance : List (String × String)) where
  -- What the emission waits for.
  pub record IsComplete : Type 0 where
    pub has_hardware : HasKeys required_hardware hardware.fields
    pub has_gpu : HasKeys required_gpu hardware.gpu
    pub has_cells : All (HasKeys required_decode_cell) decode_table
    pub acceptable : Option.get_or prefill_fit.fit_acceptable false ≡ true

  abbrev pub emitted : Config
  emitted = record {
    schema_version = 1;
    model = model_name;
    model_dims = model_dims;
    kv_bytes_per_token = bytes_per_token model_dims;
    prefill = prefill_fit;
    decode = decode_table;
    transfer = transfer_tiers;
    hardware = hardware;
    provenance = provenance;
  }

  abbrev pub emission : Result Config
  emission =
      emit_config model_name model_dims prefill_fit decode_table transfer_tiers hardware provenance

  -- `emit_config` returns the config exactly if each required field of the hardware, of its
  -- gpu and of every decode cell is there and the fit is marked as acceptable, and raises
  -- ValueError otherwise.
  pub emit_config_cases :
      (IsComplete × (emission ≡ ok emitted)) ⊎ ((IsComplete → ⊥) × (emission ≡ raise value_error))
  unfolding emit_config
  emit_config_cases = elim (require_cases required_hardware hardware.fields) [
    | inr (h, run) ↦ inr (λ c. h c.has_hardware, rw run)
    | inl (a, run_a) ↦ elim (require_cases required_gpu hardware.gpu) [
      | inr (h, run) ↦ inr (λ c. h c.has_gpu, rw (run_a, run))
      | inl (b, run_b) ↦ elim (require_cells_cases decode_table) [
        | inr (h, run) ↦ inr (λ c. h c.has_cells, rw (run_a, run_b, run))
        | inl (d, run_d) ↦ elim (Bool-cases (Option.get_or prefill_fit.fit_acceptable false)) [
          | inl e ↦ inl (
            record { has_hardware = a; has_gpu = b; has_cells = d; acceptable = e },
            rw (run_a, run_b, run_d, e),
          )
          | inr e ↦ inr (λ c. false≢true (sym e ∙ c.acceptable), rw (run_a, run_b, run_d, e))
        ]
      ]
    ]
  ]
