-- ===== src/Engine/Contract.antt =====
-- The promise of miniserve/engine.py while it serves: each ticket that was issued is queued with a future
-- that is not resolved, or live, or has had its one end.
use miniserve.Base.{
  float_limit, ℕ, suc, ◌+◌, ◌≤◌, ◌<◌, ◌≡◌, ◌≢◌, inl, inr, refl, true, Option, none, some, List, [],
  ◌∷◌, count, indicator, indicator_yes, indicator_no, indicator_le, dec_lt, ℕ_discrete,
  String_discrete, arith, ap, sym, ◌∙◌, ◌+◌, ◌*◌, All, length,
}
use miniserve.Result.{Error, value_error, capacity_error, ok, raise}
use miniserve.Dict.{lookup, insert, keys, lookup_absent, count-keys-insert_new}
use miniserve.KvCache.Storage.{ReqId}
use miniserve.Scheduler.State.{Env, Scheduler}
use miniserve.Scheduler.Submit
use miniserve.Scheduler.Submit.{submitted}
use miniserve.Scheduler.Invariant.{IsValid, no_lag}
use miniserve.Scheduler.Branches.{submit_branches}
use miniserve.Scheduler.Accept.{submit-IsValid}
use miniserve.Scheduler.Streams.{n_live}
use miniserve.Scheduler.LiveIds.{submitted-n_live}
use miniserve.Engine.State.{
  Ticket, finish_item, Outcome, accepted, refused, Submission, Engine, resolve, set_at,
  refusal_sentinel, aborted_summary,
}
use miniserve.Engine.Loop.{admit, admit_all, is_value_error}
use miniserve.Engine.Tickets.{
  n_finish, n_queued, n_streams, set_at_self, set_at_ne, n_finish-put, n_streams-insert_new,
}

-- The futures of the queue are open, and those of the other tickets are resolved.
pub record IsOpen (queue : List Submission) (issued : ℕ) (futures : Ticket → Option Outcome)
    : Type 0 where
  pub pending : (t : Ticket) → 0 < n_queued t queue → futures t ≡ none
  pub unissued : (t : Ticket) → issued ≤ t → futures t ≡ none
  pub answered :
      (t : Ticket) → t < issued → n_queued t queue ≡ 0 → (o : Outcome) × (futures t ≡ some o)

-- The sum that the scheduler divides lies in the range of the floats.
abbrev pub IsDivisible : Submission → Type 0
IsDivisible item = length item.prompt_ids + item.max_tokens < float_limit

-- A division by more gives less.
divisible-no_overflow :
    (limit block_size total : ℕ) → 0 < block_size → total < limit → limit * block_size ≤ total → ⊥
divisible-no_overflow limit block_size total pos small large = grind arith

pub record IsServing {T : Type 0} (g : Engine T) : Type 0 where
  pub valid : IsValid no_lag g.scheduler
  pub synced : (k : ReqId) → count String_discrete k (keys g.streams) ≡ n_live g.scheduler k
  pub once :
      (t : Ticket)
      → n_queued t g.submissions + n_streams t g.streams + n_finish (g.items t)
        ≡ indicator (dec_lt t g.issued)
  pub opens : IsOpen g.submissions g.issued g.futures

-- The front of the queue is resolved.
pub resolved-IsOpen :
    (item : Submission) (rest : List Submission) (issued : ℕ) (futures : Ticket → Option Outcome)
    (o : Outcome)
    → IsOpen (item ∷ rest) issued futures
    → n_queued item.ticket (item ∷ rest) ≤ 1
    → item.ticket < issued
    → IsOpen rest issued (set_at futures item.ticket (some o))
resolved-IsOpen item rest issued futures o p one old = record {
  pending =
      λ t h. set_at_ne futures item.ticket (some o) t (pending_ne t h) ∙ p.pending t (omega arith);
  unissued = λ t h.
      set_at_ne futures item.ticket (some o) t (λ e. absurd (omega (arith, e))) ∙ p.unissued t h;
  answered = answered;
}
  where
    pending_ne : (t : Ticket) → 0 < n_queued t rest → t ≢ item.ticket
    pending_ne t h e =
        let h' : 0 < n_queued item.ticket rest = rw e at h in
        absurd (omega (arith, indicator_yes (ℕ_discrete item.ticket item.ticket) refl))

    answered :
        (t : Ticket)
        → t < issued
        → n_queued t rest ≡ 0
        → (o' : Outcome) × (set_at futures item.ticket (some o) t ≡ some o')
    answered t h e = elim (ℕ_discrete t item.ticket) [
      | yes same ↦ (o, rw same (set_at_self futures item.ticket (some o)))
      | no ne ↦ rw (set_at_ne futures item.ticket (some o) t ne) (
          p.answered t h (omega (arith, indicator_no (ℕ_discrete item.ticket t) (λ e. ne (sym e)))))
    ]

module _ {T L : Type 0} (env : Env T L) where
  abbrev pub AdmitsItem : Engine T → Submission → List Submission → Type 0
  AdmitsItem g item rest =
      (g' : Engine T) × (admit env (record g { submissions = rest }) item ≡ ok g')
      × IsServing g'
      × (g'.submissions ≡ rest)

  module _ (g : Engine T) (item : Submission) (rest : List Submission) (p : IsServing g)
      (front : g.submissions ≡ item ∷ rest) where
    here : n_queued item.ticket g.submissions ≡ suc (n_queued item.ticket rest)
    here = omega (
      arith,
      ap (n_queued item.ticket) front,
      indicator_yes (ℕ_discrete item.ticket item.ticket) refl,
    )

    one : n_queued item.ticket (item ∷ rest) ≤ 1
    one = omega (
      arith,
      here,
      ap (n_queued item.ticket) front,
      p.once item.ticket,
      indicator_le (dec_lt item.ticket g.issued),
    )

    old : item.ticket < g.issued
    old = elim (dec_lt item.ticket g.issued) [
      | yes h ↦ h
      | no h ↦
          absurd
            (omega (arith, here, p.once item.ticket, indicator_no (dec_lt item.ticket g.issued) h))
    ]

    unresolved : g.futures item.ticket ≡ none
    unresolved = p.opens.pending item.ticket (omega (arith, here))

    next-IsOpen : (o : Outcome) → IsOpen rest g.issued (set_at g.futures item.ticket (some o))
    next-IsOpen o = resolved-IsOpen item rest g.issued g.futures o (rw front at p.opens) one old

    -- The request is refused, and its stream has its end.
    admit_refused :
        (e : Error)
        → is_value_error e ≡ true
        → Submit.submit env g.scheduler item.req_id item.prompt_ids item.max_tokens item.sampling
          ≡ raise e
        → AdmitsItem g item rest
    unfolding admit resolve
    admit_refused e is_value run = (
      refusal_sentinel
          (record g {
            submissions = rest;
            futures = set_at g.futures item.ticket (some (refused e));
          })
          item.req_id item.ticket,
      rw (run, admit, is_value, unresolved, resolve),
      record {
        valid = p.valid;
        synced = p.synced;
        once = λ t. ground (
          arith,
          p.once t,
          ap (n_queued t) front,
          n_finish-put g item.ticket t (finish_item (aborted_summary item.req_id 0)),
        );
        opens = next-IsOpen (refused e);
      },
      refl,
    )

    -- The request goes to the scheduler, and its stream is live.
    admit_accepted :
        (s : Scheduler T) (r : ℕ)
        → n_live g.scheduler item.req_id ≡ 0
        → s ≡ submitted env g.scheduler item.req_id item.prompt_ids item.max_tokens item.sampling
        → Submit.submit env g.scheduler item.req_id item.prompt_ids item.max_tokens item.sampling
          ≡ ok (s, r)
        → AdmitsItem g item rest
    unfolding admit resolve
    admit_accepted s r fresh same run =
        let no_stream : lookup item.req_id g.streams ≡ none =
          lookup_absent item.req_id g.streams (p.synced item.req_id ∙ fresh) in
        (
          record g {
            scheduler = s;
            submissions = rest;
            streams = insert item.req_id item.ticket g.streams;
            futures = set_at g.futures item.ticket (some (accepted item.req_id));
          },
          rw (run, admit, unresolved, resolve),
          record {
            valid =
                submit-IsValid env g.scheduler item.req_id item.prompt_ids item.max_tokens
                  item.sampling s r p.valid run;
            synced = λ k. omega (
              arith,
              p.synced k,
              ap (λ z. n_live z k) same,
              count-keys-insert_new k item.req_id item.ticket g.streams no_stream,
              submitted-n_live g.scheduler env item.req_id item.prompt_ids item.max_tokens
                  item.sampling k p.valid,
            );
            once = λ t. omega (
              arith,
              p.once t,
              ap (n_queued t) front,
              n_streams-insert_new item.req_id t item.ticket g.streams no_stream,
            );
            opens = next-IsOpen (accepted item.req_id);
          },
          refl,
        )

    pub admit_item : IsDivisible item → AdmitsItem g item rest
    admit_item divisible =
        elim (submit_branches env g.scheduler item.req_id item.prompt_ids item.max_tokens
          item.sampling) [
            | inl (_, run) ↦ admit_refused value_error refl run
            | inr (_, _, fresh, inl (no_size, run)) ↦ absurd (omega (arith, p.valid.block_pos))
            | inr (_, _, fresh, inr (inl (pos, over, run))) ↦
                absurd (divisible-no_overflow _ _ _ pos divisible over)
            | inr (_, _, fresh, inr (inr (inl (_, _, _, run)))) ↦
                admit_refused capacity_error refl run
            | inr (_, _, fresh, inr (inr (inr (_, _, _, run)))) ↦ admit_accepted _ _ fresh refl run
          ]

  -- The whole queue is admitted or refused.
  pub admit_all_total :
      (queue : List Submission) (g : Engine T)
      → IsServing g
      → g.submissions ≡ queue
      → All IsDivisible queue
      → (g' : Engine T) × (admit_all env queue g ≡ ok g') × IsServing g' × (g'.submissions ≡ [])
  unfolding admit_all
  admit_all_total [] g p e d = (g, refl, p, e)
  admit_all_total (item ∷ rest) g p e d =
      let (g1, run, p1, e1) = admit_item g item rest p e d.0 in
      let (g', runs, p', e') = admit_all_total rest g1 p1 e1 d.1 in (g', rw run runs, p', e')
