-- ===== src/Bench/Cost/Crossing.antt =====
-- What `crossover_tokens` of miniserve/bench/costmodel.py returns, and when it raises.
use miniserve.Base.{float_limit, ◌*◌, ℕ, ◌-◌, ◌≤◌, ◌<◌, ◌≡◌, ◌⊎◌, true, false, none, some, String}
use miniserve.Result.{ok}
use miniserve.Dict.{lookup}
use miniserve.Bench.Cost.Fraction.{Fraction}
use miniserve.Bench.Cost.Config.{Config, Tier, ms_per_byte}
use miniserve.Bench.Cost.Crossover.{migrate_wins, crossover_tokens}

module _ (config : Config) (tier : String) where
  -- The tier is there, with a price.
  pub record IsPriced (t : Tier) (price : Fraction) : Type 0 where
    pub found : lookup tier config.transfer ≡ some t
    pub priced : ms_per_byte t ≡ ok price

  -- Both operands lie in the range of the floats.
  abbrev pub InRange : ℕ → Type 0
  InRange tokens = (tokens * config.kv_bytes_per_token < float_limit) × (tokens < float_limit)

  module _ (max_tokens : ℕ) where
    abbrev pub Answers : Type 0
    Answers =
        ((migrate_wins config tier max_tokens ≡ ok false)
          × (crossover_tokens config tier max_tokens ≡ ok none))
        ⊎ ((r : ℕ) × (crossover_tokens config tier max_tokens ≡ ok (some r))
            × (0 < r)
            × (r ≤ max_tokens)
            × (migrate_wins config tier r ≡ ok true)
            × ((r ≡ 1) ⊎ (migrate_wins config tier (r - 1) ≡ ok false)))
