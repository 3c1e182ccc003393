-- ===== src/Scheduler/Accounts.antt =====
-- What becomes of each request that `submit` of miniserve/scheduler.py has accepted, and its record in
-- miniserve/metrics.py.
use miniserve.Base.{
  ℕ, suc, Bool, ◌+◌, ◌≡◌, ◌∙◌, refl, List, [], ◌∷◌, ◌++◌, Option, erase, count, count-append,
  count-erase_self, count-erase_ne, indicator, indicator_yes, indicator_no, dec_lt, ℕ_discrete,
  arith, ap, sym, length,
}
use miniserve.KvCache.Storage.{ReqId, BlockId}
use miniserve.KvCache.Allocation.{freed}
use miniserve.Metrics.{RequestRecord, record_request}
use miniserve.Scheduler.Sequence.{SamplingParams, Token}
use miniserve.Scheduler.State.{Ref, Event, on_token, on_finish, Env, Scheduler}
use miniserve.Scheduler.Step.{retired}
use miniserve.Scheduler.Submit.{submitted}
use miniserve.Scheduler.Heap.{◌∈◌}
use miniserve.Scheduler.Invariant.{IsValid, lag_at}
use miniserve.Scheduler.Outcome.{displaced}
use miniserve.Scheduler.Admit.{Admits}
use miniserve.Scheduler.Preserved.{IsPreserved}

-- How often `on_finish` was handed the request of this number.
unfoldable pub n_finished : Ref → List Event → ℕ
n_finished r [] = 0
n_finished r (on_token k t ∷ events) = n_finished r events
n_finished r (on_finish q ∷ events) = indicator (ℕ_discrete q.seq_no r) + n_finished r events

-- What is to be recorded of the requests that `on_finish` was handed, the earliest first.
unfoldable pub finish_records : List Event → List RequestRecord
finish_records [] = []
finish_records (on_token k t ∷ events) = finish_records events
finish_records (on_finish q ∷ events) =
    finish_records events
    ++ record {
      req_id = q.req_id;
      arrival_time = q.arrival_time;
      first_token_time = q.first_token_time;
      completion_time = q.completion_time;
      prompt_len = length q.prompt_ids;
      output_len = length q.output_ids;
      preempted_count = q.preempted_count;
    }
      ∷ []

-- Each number that was given to a request stands in one queue, once, or was handed to `on_finish`,
-- once; and the records are those of the requests that it was handed.
pub record IsAccounted {T : Type 0} (s : Scheduler T) : Type 0 where
  pub once :
      (r : Ref)
      → count ℕ_discrete r s.running + count ℕ_discrete r s.waiting + n_finished r s.events
        ≡ indicator (dec_lt r s.seq_counter)
  pub recorded : s.metrics.requests ≡ finish_records s.events

-- What is taken out of the batch is missing there.
count-erase :
    (r r' : Ref) (rs : List Ref)
    → r ∈ rs
    → count ℕ_discrete r' (erase ℕ_discrete rs r) + indicator (ℕ_discrete r r')
      ≡ count ℕ_discrete r' rs
count-erase r r' rs m = elim (ℕ_discrete r r') [
  | yes e ↦
      rw (← e)
        (omega (arith, count-erase_self ℕ_discrete r rs m, indicator_yes (ℕ_discrete r r) refl))
  | no ne ↦ omega (
    arith,
    count-erase_ne ℕ_discrete r' r rs (λ e. ne (sym e)),
    indicator_no (ℕ_discrete r r') ne,
  )
]

next_indicator :
    (r n : ℕ) → indicator (dec_lt r (suc n)) ≡ indicator (dec_lt r n) + indicator (ℕ_discrete n r)
next_indicator r n = ground arith

module _ {T : Type 0} (s : Scheduler T) (p : IsAccounted s) where
  Admits-IsAccounted : (s' : Scheduler T) → Admits s s' → IsAccounted s'
  Admits-IsAccounted s' a = record {
    once = λ r.
        rw (a.same_events, a.same_counter, a.batch)
          (omega (
            arith,
            p.once r,
            ap (count ℕ_discrete r) a.queue,
            count-append ℕ_discrete r s.running a.front,
            count-append ℕ_discrete r a.front s'.waiting,
          ));
    recorded = rw (a.same_events, a.same_requests) p.recorded;
  }

  module _ {L : Type 0} (env : Env T L) where
    retires-IsAccounted :
        (r : Ref) (table : List BlockId)
        → IsValid (lag_at r) s
        → r ∈ s.running
        → IsAccounted (retired env s r (freed s.kv (s.heap r).req_id env.nan table))
    unfolding n_finished finish_records record_request
    retires-IsAccounted r table v m = record {
      once = λ r'.
          rw (v.numbered r (omega arith)).0
            (omega (arith, p.once r', count-erase r r' s.running m));
      recorded = rw p.recorded refl;
    }

    displaces-IsAccounted :
        (x : Ref) (self_preempted : Bool) (table : List BlockId)
        → x ∈ s.running
        → IsAccounted (displaced env s x self_preempted table)
    displaces-IsAccounted x self_preempted table m = record {
      once = λ r. omega (arith, p.once r, count-erase x r s.running m);
      recorded = p.recorded;
    }

    pub submitted-IsAccounted :
        (req_id : ReqId) (prompt_ids : List Token) (max_tokens : ℕ)
        (sampling : Option SamplingParams)
        → IsAccounted (submitted env s req_id prompt_ids max_tokens sampling)
    submitted-IsAccounted req_id prompt_ids max_tokens sampling = record {
      once = λ r. omega (
        arith,
        p.once r,
        next_indicator r s.seq_counter,
        count-append ℕ_discrete r s.waiting (s.seq_counter ∷ []),
      );
      recorded = p.recorded;
    }

-- A step keeps the accounts.
pub IsAccounted-IsPreserved : {T L : Type 0} (env : Env T L) → IsPreserved env IsAccounted
unfolding n_finished finish_records
IsAccounted-IsPreserved env = record {
  admits = λ s s' a p. Admits-IsAccounted s p s' a;
  takes = λ s r t q reads v m n p. record { once = p.once; recorded = p.recorded };
  retires = λ s r table v m p. retires-IsAccounted s p env r table v m;
  displaces = λ s x b table m p. displaces-IsAccounted s p env x b table m;
  caches = λ s kv p. record { once = p.once; recorded = p.recorded };
  records = λ s m reads same p. record { once = p.once; recorded = same ∙ p.recorded };
}
