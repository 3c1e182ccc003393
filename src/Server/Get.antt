-- ===== src/Server/Get.antt =====
-- `do_GET` of miniserve/server.py.
use miniserve.Base.{ℕ, ◌*◌, String, String_discrete, ite, ◌==◌, if◌then◌else◌, length}
use miniserve.Result.{zero_division_error, Result, ok, raise, ◌>>=◌}
use miniserve.KvCache.Storage.{free_count, used_count}
use miniserve.Engine.State.{Engine}
use miniserve.Server.Post.{default_max_tokens}

pub record Health : Type 0 where
  pub model : String
  pub kv_blocks_total : ℕ
  pub kv_blocks_free : ℕ
  pub max_tokens_default : ℕ

-- The utilization is a fraction, `100.0 * used / total`.
pub record MetricsPage : Type 0 where
  pub num_running : ℕ
  pub num_waiting : ℕ
  pub kv_utilization_pct : ℕ × ℕ
  pub preemptions_total : ℕ
  pub requests_finished : ℕ
  pub steps_total : ℕ

pub data Page : Type 0 where
  health_page : Health → Page
  metrics_page : MetricsPage → Page
  missing_page : Page

-- `a / b`, as a fraction.
abbrev pub divide : ℕ → ℕ → Result (ℕ × ℕ)
divide a b = if b == 0 then raise zero_division_error else ok (a, b)

module _ {T : Type 0} (engine : Engine T) where
  unfoldable pub health : String → Health
  health model_name = record {
    model = model_name;
    kv_blocks_total = engine.scheduler.kv.num_blocks;
    kv_blocks_free = free_count engine.scheduler.kv;
    max_tokens_default = default_max_tokens;
  }

  unfoldable pub metrics : Result MetricsPage
  metrics = do
    pct ← divide (100 * used_count engine.scheduler.kv) engine.scheduler.kv.num_blocks
    ok record {
      num_running = length engine.scheduler.running;
      num_waiting = length engine.scheduler.waiting;
      kv_utilization_pct = pct;
      preemptions_total = engine.scheduler.preemptions_total;
      requests_finished = length engine.scheduler.metrics.requests;
      steps_total = length engine.scheduler.metrics.steps;
    }

  unfoldable pub do_get : String → String → Result Page
  do_get model_name path =
      ite (String_discrete path "/health") (ok (health_page (health model_name))) (
        ite (String_discrete path "/metrics") (do page ← metrics; ok (metrics_page page))
          (ok missing_page))
