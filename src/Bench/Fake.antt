-- ===== src/Bench/Fake.antt =====
-- miniserve/bench/fake.py: the model of the benchmark's mechanism runs. Its logits are a vector of zeros
-- with a one at the next token; the sleep before them is not modelled.
use miniserve.Base.{
  ℕ, zero, suc, ◌+◌, ◌%◌, ◌≤◌, ◌<◌, ◌≡◌, inl, inr, refl, Bool, Option, none, some, List, [], ◌∷◌,
  ite, if_pos, String_discrete, ℕ_discrete, indicator, indicator_yes, indicator_no, ap, ◌∙◌, arith,
  length, All, ltb, true, if◌then◌else◌, Option-cases, get_elem?,
}
use miniserve.Result.{index_error, Result, ok, raise, ◌>>=◌}
use miniserve.KvCache.Storage.{ReqId}
use miniserve.Scheduler.Sequence.{Sequence, Time, Token}
use miniserve.Scheduler.State.{Env, Scheduler}
use miniserve.Scheduler.Invariant.{IsValid, no_lag}
use miniserve.Scheduler.Safety.{IsAnswering}
use miniserve.Scheduler.Work.{work}
use miniserve.Scheduler.Drain.{IsEager, Drained, drain_total}

-- `torch.zeros(n)`
abbrev pub zeros : ℕ → List ℕ
zeros zero = []
zeros (suc n) = 0 ∷ zeros n

-- `v = torch.zeros(vocab); v[i] = 1.0`, for an index that the vector has; torch raises for any other.
unfoldable pub one_hot : ℕ → ℕ → List ℕ
one_hot zero i = []
one_hot (suc vocab) zero = 1 ∷ zeros vocab
one_hot (suc vocab) (suc i) = 0 ∷ one_hot vocab i

abbrev pub flat_token : Sequence → Token
flat_token q = length q.output_ids % 5 + 1

-- The row of the logits of a sequence: the index may lie outside of a small vocabulary.
unfoldable pub flat_row : ℕ → Sequence → Result (List ℕ)
flat_row vocab q =
    if ltb (flat_token q) vocab then ok (one_hot vocab (flat_token q)) else raise index_error

-- `out[q.req_id] = v`, before the rows of the sequences that come later.
abbrev pub put_row : Sequence → List ℕ → (ReqId → Option (List ℕ)) → ReqId → Option (List ℕ)
put_row q v out r = elim (out r) [
  | some later ↦ some later
  | none ↦ ite (String_discrete q.req_id r) (some v) none
]

unfoldable pub flat_forward : ℕ → List Sequence → Result (ReqId → Option (List ℕ))
flat_forward vocab [] = ok (λ r. none)
flat_forward vocab (q ∷ qs) = do
  v ← flat_row vocab q
  out ← flat_forward vocab qs
  ok (put_row q v out)

-- The dict `out` where each row has its index: a later sequence of the same id replaces an earlier one.
unfoldable flat_logits : ℕ → List Sequence → ReqId → Option (List ℕ)
flat_logits vocab [] r = none
flat_logits vocab (q ∷ qs) r = elim (flat_logits vocab qs r) [
  | some v ↦ some v
  | none ↦ ite (String_discrete q.req_id r) (some (one_hot vocab (flat_token q))) none
]

zeros-get : (n i : ℕ) → i < n → get_elem? (zeros n) i ≡ some 0
zeros-get zero i h = absurd (omega arith)
zeros-get (suc n) zero h = refl
zeros-get (suc n) (suc i) h = zeros-get n i (omega arith)

one_hot-get :
    (vocab i j : ℕ)
    → i < vocab
    → j < vocab
    → get_elem? (one_hot vocab i) j ≡ some (indicator (ℕ_discrete i j))
unfolding one_hot
one_hot-get zero i j h k = absurd (omega arith)
one_hot-get (suc vocab) zero zero h k = ap some (omega (arith, indicator_yes (ℕ_discrete 0 0) refl))
one_hot-get (suc vocab) zero (suc j) h k = zeros-get vocab j (omega arith) ∙ ap some (ground arith)
one_hot-get (suc vocab) (suc i) zero h k = ap some (ground arith)
one_hot-get (suc vocab) (suc i) (suc j) h k =
    one_hot-get vocab i j (omega arith) (omega arith) ∙ ap some (ground arith)

-- For a vocabulary of more than five tokens the fake model's logits are one at its next token
-- and zero at token 0, the end of the text.
pub flat_token-get :
    (vocab : ℕ) (q : Sequence)
    → 5 < vocab
    → (get_elem? (one_hot vocab (flat_token q)) (flat_token q) ≡ some 1)
      × (get_elem? (one_hot vocab (flat_token q)) 0 ≡ some 0)
flat_token-get vocab q h =
    let small : flat_token q < vocab = grind arith in
    (
      one_hot-get vocab (flat_token q) (flat_token q) small small
          ∙ ap some (omega (arith, indicator_yes (ℕ_discrete (flat_token q) (flat_token q)) refl)),
      one_hot-get vocab (flat_token q) 0 small (omega arith)
          ∙ ap some (
              omega (
                arith,
                indicator_no (ℕ_discrete (flat_token q) 0) (λ e. absurd (omega (arith, e))),
              )),
    )

-- For more than five tokens the forward pass returns.
flat_forward_total :
    (vocab : ℕ) (qs : List Sequence) → 5 < vocab → flat_forward vocab qs ≡ ok (flat_logits vocab qs)
unfolding flat_forward flat_row flat_logits
flat_forward_total vocab [] h = refl
flat_forward_total vocab (q ∷ qs) h =
    let small : ltb (flat_token q) vocab ≡ true = grind arith in
    rw (flat_forward, flat_row, small, flat_forward_total vocab qs h) refl

-- An exception of the pass is none of the answers.
abbrev pub or_empty : Result (ReqId → Option (List ℕ)) → ReqId → Option (List ℕ)
or_empty (ok out) = out
or_empty (raise e) = λ r. none

module _ {T : Type 0} (vocab : ℕ) (nan : T) (clock : ℕ → Time) (argmax : List ℕ → Token) where
  -- What the scheduler is handed: an answer for each id of the dict that the pass returns.
  abbrev pub flat_env : Env T (List ℕ)
  flat_env = record {
    nan = nan;
    clock = clock;
    forward = λ qs kv. (or_empty (flat_forward vocab qs), kv.layers);
    argmax = argmax;
  }

  flat_logits-cons :
      (q : Sequence) (qs : List Sequence) (r : ReqId) (v : List ℕ)
      → flat_logits vocab qs r ≡ some v
      → flat_logits vocab (q ∷ qs) r ≡ some v
  unfolding flat_logits
  flat_logits-cons q qs r v e = rw (e, flat_logits)

  flat_logits_self :
      (q : Sequence) (qs : List Sequence)
      → (v : List ℕ) × (flat_logits vocab (q ∷ qs) q.req_id ≡ some v)
  unfolding flat_logits
  flat_logits_self q qs = elim (Option-cases (flat_logits vocab qs q.req_id)) [
    | inr (v, e) ↦ (v, rw (e, flat_logits))
    | inl e ↦ (
      one_hot vocab (flat_token q),
      rw (e, flat_logits, if_pos (String_discrete q.req_id q.req_id) refl),
    )
  ]

  abbrev Answered : List Sequence → Sequence → Type 0
  Answered qs q = (v : List ℕ) × (flat_logits vocab qs q.req_id ≡ some v)

  Answered-cons :
      (x : Sequence) (qs ps : List Sequence) → All (Answered qs) ps → All (Answered (x ∷ qs)) ps
  Answered-cons x qs [] a = tt
  Answered-cons x qs (p ∷ ps) a =
      let (v, e) = a.0 in ((v, flat_logits-cons x qs p.req_id v e), Answered-cons x qs ps a.1)

  All-Answered : (qs : List Sequence) → All (Answered qs) qs
  All-Answered [] = tt
  All-Answered (q ∷ qs) = (flat_logits_self q qs, Answered-cons q qs qs (All-Answered qs))

  -- The fake model answers for each sequence of its batch.
  pub flat_env-IsAnswering : 5 < vocab → IsAnswering flat_env
  flat_env-IsAnswering h = record {
    answers = λ qs kv. rw (flat_forward_total vocab qs h) (All-Answered qs);
  }

  -- With the benchmark's fake model over a vocabulary of more than five tokens, its forward
  -- pass returns for every batch, and whatever the argmax, with an admission hook that opens
  -- whenever nothing runs and something waits, a number of steps that is at least the number
  -- of tokens still to ask for empties both queues of a valid scheduler with a batch size of
  -- at least one, without an exception, with one record to a submission.
  pub flat_drain_total :
      (admission_open : Scheduler T → Bool × ℕ) (n : ℕ) (s : Scheduler T)
      → IsValid no_lag s
      → IsEager admission_open
      → 0 < s.max_batch
      → work s ≤ n
      → 5 < vocab
      → ((qs : List Sequence) → (out : ReqId → Option (List ℕ)) × (flat_forward vocab qs ≡ ok out))
        × Drained flat_env admission_open n s
  flat_drain_total admission_open n s v eager pos enough h = (
    λ qs. (flat_logits vocab qs, flat_forward_total vocab qs h),
    drain_total flat_env admission_open n s v (flat_env-IsAnswering h) eager pos enough,
  )
