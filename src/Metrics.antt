-- ===== src/Metrics.antt =====
-- miniserve/metrics.py: the per-step and the per-request records.
use miniserve.Base.{ℕ, ◌+◌, ◌-◌, Option, List, [], ◌∷◌, ◌++◌, length}
use mathlib.Core.Option
use miniserve.KvCache.Storage.{ReqId}
use miniserve.Scheduler.Sequence.{Time, Sequence}

pub record StepRecord : Type 0 where
  pub t_start : Time
  pub n_prefill : ℕ
  pub n_decode : ℕ
  pub n_prefill_tokens_fresh : ℕ
  pub n_prefill_tokens_recompute : ℕ
  pub n_decode_tokens : ℕ
  pub kv_used : ℕ
  pub kv_free : ℕ
  pub step_latency_s : Time

abbrev pub n_prefill_tokens : StepRecord → ℕ
n_prefill_tokens s = s.n_prefill_tokens_fresh + s.n_prefill_tokens_recompute

pub record RequestRecord : Type 0 where
  pub req_id : ReqId
  pub arrival_time : Time
  pub first_token_time : Option Time
  pub completion_time : Option Time
  pub prompt_len : ℕ
  pub output_len : ℕ
  pub preempted_count : ℕ

abbrev pub ttft_s : RequestRecord → Option Time
ttft_s r = Option.map (λ t. t - r.arrival_time) r.first_token_time

pub record Metrics : Type 0 where
  pub steps : List StepRecord
  pub requests : List RequestRecord

abbrev pub empty_metrics : Metrics
empty_metrics = record { steps = []; requests = [] }

unfoldable pub record_step : Metrics → StepRecord → Metrics
record_step m step = record m { steps = m.steps ++ step ∷ [] }

abbrev pub request_record : Sequence → RequestRecord
request_record q = record {
  req_id = q.req_id;
  arrival_time = q.arrival_time;
  first_token_time = q.first_token_time;
  completion_time = q.completion_time;
  prompt_len = length q.prompt_ids;
  output_len = length q.output_ids;
  preempted_count = q.preempted_count;
}

unfoldable pub record_request : Metrics → Sequence → Metrics
record_request m q = record m { requests = m.requests ++ request_record q ∷ [] }
