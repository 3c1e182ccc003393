-- ===== src/Scheduler/Sequence.antt =====
-- The types of miniserve/scheduler.py: a request, its status, and the reasons for a preemption.
-- A time is a natural number of ticks of the clock, and a sampling parameter is in thousandths.
use miniserve.Base.{ℕ, ◌+◌, Bool, true, false, Option, none, some, List, ◌||◌, leb, ◌==◌, length}
use mathlib.Core.List.{get_last?}
use miniserve.KvCache.Storage.{ReqId}

abbrev pub Time : Type 0
Time = ℕ

abbrev pub Token : Type 0
Token = ℕ

pub data Status : Type 0 where
  waiting prefill decode finished : Status

pub data PreemptionReason : Type 0 where
  youngest_decoded all_fresh_fallback : PreemptionReason

abbrev pub is_waiting : Status → Bool
is_waiting waiting = true
is_waiting _ = false

abbrev pub is_prefill : Status → Bool
is_prefill prefill = true
is_prefill _ = false

abbrev pub is_decode : Status → Bool
is_decode decode = true
is_decode _ = false

pub record SamplingParams : Type 0 where
  pub temperature : ℕ
  pub top_p : ℕ

abbrev pub default_sampling : SamplingParams
default_sampling = record { temperature = 0; top_p = 1000 }

pub record Sequence : Type 0 where
  pub req_id : ReqId
  pub prompt_ids : List Token
  pub max_tokens : ℕ
  pub sampling : SamplingParams
  pub arrival_time : Time
  pub seq_no : ℕ
  pub output_ids : List Token
  pub status : Status
  pub first_token_time : Option Time
  pub completion_time : Option Time
  pub emitted_count : ℕ
  pub preempted_count : ℕ

abbrev pub total_len : Sequence → ℕ
total_len q = length q.prompt_ids + length q.output_ids

-- `bool(output_ids) and (output_ids[-1] == eos_id or len(output_ids) >= max_tokens)`
unfoldable pub is_finished : Sequence → Token → Bool
is_finished q eos_id = elim (get_last? q.output_ids) [
  | none ↦ false
  | some token ↦ token == eos_id || leb q.max_tokens (length q.output_ids)
]

pub record PreemptionEvent : Type 0 where
  pub req_id : ReqId
  pub reason : PreemptionReason
  pub self_preempted : Bool
