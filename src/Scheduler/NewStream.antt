-- ===== src/Scheduler/NewStream.antt =====
-- The streams of miniserve/scheduler.py through a submission.
use miniserve.Base.{
  ℕ, ◌≡◌, Option, List, [], ◌∷◌, count, indicator_no, ℕ_discrete, String_discrete, arith, ap, sym,
  count-append,
}
use miniserve.KvCache.Storage.{ReqId}
use miniserve.Scheduler.Sequence.{Sequence, SamplingParams, Token}
use miniserve.Scheduler.State.{Ref, Env, Scheduler, update}
use miniserve.Scheduler.Submit.{submitted, new_sequence}
use miniserve.Scheduler.Heap.{update_self, update_ne, ids-update_absent, count-ids-append}
use miniserve.Scheduler.Invariant.{IsValid, no_lag}
use miniserve.Scheduler.Accept.{absent-running, absent-waiting}
use miniserve.Scheduler.Streams.{streamed, Queued, n_live, IsStreamed}

module _ {T L : Type 0} (env : Env T L) where
  -- The stream of an accepted request is empty, and the others are as they were.
  module _ (s : Scheduler T) (req_id : ReqId) (prompt_ids : List Token) (max_tokens : ℕ)
      (sampling : Option SamplingParams) (v : IsValid no_lag s) (fresh : n_live s req_id ≡ 0)
      (p : IsStreamed s) where
    abbrev new : Sequence
    new = new_sequence env s req_id prompt_ids max_tokens sampling

    abbrev accept : Scheduler T
    accept = submitted env s req_id prompt_ids max_tokens sampling

    submitted-whole :
        (r : Ref)
        → Queued accept r
        → streamed (update s.heap s.seq_counter new r).req_id s.events
          ≡ (update s.heap s.seq_counter new r).output_ids
    submitted-whole r h = elim (ℕ_discrete r s.seq_counter) [
      | yes e ↦ rw (e, update_self s.heap s.seq_counter new) (p.fresh req_id fresh)
      | no ne ↦ rw (update_ne s.heap s.seq_counter new r ne) (
          p.whole r (
            omega (
              arith,
              count-append ℕ_discrete r s.waiting (s.seq_counter ∷ []),
              indicator_no (ℕ_discrete s.seq_counter r) (λ e. ne (sym e)),
            )))
    ]

    n_live_submitted : (k : ReqId) → n_live accept k ≡ 0 → n_live s k ≡ 0
    n_live_submitted k e = omega (
      arith,
      e,
      ap (count String_discrete k) (
          ids-update_absent s.heap s.seq_counter new s.running
            (absent-running env s req_id prompt_ids max_tokens sampling v)),
      ap (count String_discrete k) (
          ids-update_absent s.heap s.seq_counter new s.waiting
            (absent-waiting env s req_id prompt_ids max_tokens sampling v)),
      count-ids-append (update s.heap s.seq_counter new) k s.waiting (s.seq_counter ∷ []),
    )

    pub submitted-IsStreamed : IsStreamed accept
    submitted-IsStreamed = record {
      whole = submitted-whole;
      fresh = λ k e. p.fresh k (n_live_submitted k e);
      done = p.done;
    }
