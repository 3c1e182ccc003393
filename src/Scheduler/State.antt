-- ===== src/Scheduler/State.antt =====
-- The state of the class Scheduler in miniserve/scheduler.py, and what its constructor is handed.
-- A Sequence is an object that the queues share: `heap` maps the n-th object to its fields, and a
-- queue holds references. The objects are numbered by `seq_no`, the order of submission.
use miniserve.Base.{
  float_limit, ℕ, suc, ◌*◌, ◌==◌, leb, if◌then◌else◌, Option, none, List, [], map, ite, ℕ_discrete,
  ceil_div,
}
use miniserve.Result.{zero_division_error, overflow_error, Result, ok, raise}
use miniserve.KvCache.Storage.{ReqId, Layer, PagedKvCache}
use miniserve.Metrics.{Metrics, empty_metrics}
use miniserve.Scheduler.Sequence.{Time, Token, Sequence, default_sampling, waiting, PreemptionEvent}

abbrev pub Ref : Type 0
Ref = ℕ

-- The callbacks that the scheduler made, the latest first.
pub data Event : Type 0 where
  on_token : ReqId → Token → Event
  on_finish : Sequence → Event

-- The clock, whose n-th reading is `clock n`, the model, and tensors. `forward` returns the logits by
-- request and the tensors that it has written; `argmax` is that of the tensor library.
pub record Env (T L : Type 0) : Type 0 where
  pub nan : T
  pub clock : ℕ → Time
  pub forward : List Sequence → PagedKvCache T → (ReqId → Option L) × List (Layer T)
  pub argmax : L → Token

pub record Scheduler (T : Type 0) : Type 0 where
  pub kv : PagedKvCache T
  pub max_batch : ℕ
  pub eos_id : Token
  pub heap : Ref → Sequence
  pub waiting : List Ref
  pub running : List Ref
  pub preemptions_total : ℕ
  pub preemption_log : List PreemptionEvent
  pub seq_counter : ℕ
  pub metrics : Metrics
  pub clock_reads : ℕ
  pub events : List Event

-- A write to the object `r`.
unfoldable pub update : (Ref → Sequence) → Ref → Sequence → Ref → Sequence
update heap r q r' = ite (ℕ_discrete r' r) q (heap r')

-- The request ids of the objects in a queue.
abbrev pub ids : (Ref → Sequence) → List Ref → List ReqId
ids heap = map (λ r. (heap r).req_id)

-- What the heap holds where no object has been made yet; nothing reads it.
abbrev pub no_sequence : Sequence
no_sequence = record {
  req_id = "";
  prompt_ids = [];
  max_tokens = 0;
  sampling = default_sampling;
  arrival_time = 0;
  seq_no = 0;
  output_ids = [];
  status = waiting;
  first_token_time = none;
  completion_time = none;
  emitted_count = 0;
  preempted_count = 0;
}

module _ {T : Type 0} where
  unfoldable pub init : PagedKvCache T → ℕ → Token → Scheduler T
  init kv max_batch eos_id = record {
    kv = kv;
    max_batch = max_batch;
    eos_id = eos_id;
    heap = λ r. no_sequence;
    waiting = [];
    running = [];
    preemptions_total = 0;
    preemption_log = [];
    seq_counter = 0;
    metrics = empty_metrics;
    clock_reads = 0;
    events = [];
  }

  -- The number that `blocks_for` gives where it gives one.
  abbrev pub n_blocks : Scheduler T → ℕ → ℕ
  n_blocks s n_tokens = ceil_div n_tokens s.kv.block_size

  -- `ceil(n_tokens / self.kv.block_size)`: the division of two ints is one of floats.
  unfoldable pub blocks_for : Scheduler T → ℕ → Result ℕ
  blocks_for s n_tokens =
      if s.kv.block_size == 0
      then raise zero_division_error
      else if leb (float_limit * s.kv.block_size) n_tokens
      then raise overflow_error
      else ok (n_blocks s n_tokens)

  abbrev pub write : Scheduler T → Ref → Sequence → Scheduler T
  write s r q = record s { heap = update s.heap r q }

  abbrev pub read_clock : Scheduler T → Scheduler T
  read_clock s = record s { clock_reads = suc s.clock_reads }
