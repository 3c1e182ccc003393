-- ===== src/Scheduler/Advance.antt =====
-- The loop body of miniserve/scheduler.py on a valid state.
use miniserve.Base.{
  ℕ, ◌-◌, ◌<◌, ◌≡◌, ◌≢◌, ◌⊎◌, refl, inl, inr, true, false, Option, some, List, [], ◌∷◌, ◌++◌,
  indicator_no, ℕ_discrete, arith, ap, length, length-append, ceil_div, ceil_div_pos, ltb,
  Bool-cases, List-cases,
}
use miniserve.Result.{ok}
use miniserve.Dict.{lookup}
use miniserve.KvCache.Storage.{ReqId, BlockId}
use miniserve.KvCache.Allocation.{freed, free_ok}
use miniserve.Scheduler.Sequence.{Sequence, Token, total_len, waiting, is_finished}
use miniserve.Scheduler.State.{Ref, on_token, Env, Scheduler, update, n_blocks}
use miniserve.Scheduler.Preemption.{has_output}
use miniserve.Scheduler.Step.{retired, finish, settle, advance}
use miniserve.Scheduler.Heap.{◌∈◌, update_self}
use miniserve.Scheduler.Invariant.{IsValid, lag_at, no_lag}
use miniserve.Scheduler.Retire.{retired-IsValid}
use miniserve.Scheduler.Sampling.{IsNext, sampled_lem}
use miniserve.Scheduler.Sampled.{token-IsValid}
use miniserve.Scheduler.Victim.{choose_victim-youngest}
use miniserve.Scheduler.Outcome.{
  Grows, grow_keep, grow_extend, grow_give_up, grow_displace, GrowsWell, active-not-waiting,
}

-- A sequence with a token that is not finished may have another.
not_finished :
    (q : Sequence) (eos_id : Token)
    → has_output q ≡ true
    → is_finished q eos_id ≡ false
    → length q.output_ids < q.max_tokens
unfolding is_finished
not_finished q eos_id o f = elim (List-cases q.output_ids) [
  | inl e ↦ absurd (ground arith)
  | inr (x, xs, e) ↦ ground arith
]

has_output_next : (q q' : Sequence) (t : Token) → IsNext q t q' → has_output q' ≡ true
has_output_next q q' t n =
    let longer : 0 < length q'.output_ids =
      omega (arith, ap length n.output, length-append q.output_ids (t ∷ [])) in
    ground arith

module _ {T L : Type 0} (env : Env T L) where
  module _ (s : Scheduler T) (r : Ref) (v : IsValid (lag_at r) s) (m : r ∈ s.running)
      (some_output : has_output (s.heap r) ≡ true) where
    crowded :
        (unfinished : length (s.heap r).output_ids < (s.heap r).max_tokens) (table : List BlockId)
        → lookup (s.heap r).req_id s.kv.block_tables ≡ some table
        → length table < n_blocks s (total_len (s.heap r))
        → s.kv.free_blocks ≡ []
        → GrowsWell env s r v m unfinished some_output
    crowded unfinished table found short full =
        let (x, chosen, xm, _, _) = choose_victim-youngest s.heap s.running r m some_output in
        elim (ℕ_discrete x r) [
          | yes p ↦
              grow_give_up env s r v m unfinished some_output table found short full
                (rw p at chosen)
          | no ne ↦
              let (freed_table, found_x, size_x) = v.holds x xm in
              elim (List-cases (s.kv.free_blocks ++ freed_table)) [
                | inl e ↦ absurd (
                    omega (
                      arith,
                      some_block x xm ne freed_table size_x,
                      length-append s.kv.free_blocks freed_table,
                      ap length e,
                    ))
                | inr (b, rest, front) ↦
                    grow_displace env s r v m unfinished some_output x ne xm chosen table
                      freed_table found found_x short full b rest front
              ]
        ]
      where
        some_block :
            (x : Ref)
            → x ∈ s.running
            → x ≢ r
            → (freed_table : List BlockId)
            → length freed_table ≡ ceil_div (total_len (s.heap x) - lag_at r x) s.kv.block_size
            → 0 < length freed_table
        some_block x xm ne freed_table size = omega (
          arith,
          size,
          ceil_div_pos s.kv.block_size v.block_pos (total_len (s.heap x) - lag_at r x)
              (omega (arith, (v.live x (omega arith)).prompt, indicator_no (ℕ_discrete x r) ne)),
        )

    -- Not finished, the loop body keeps, extends or preempts.
    pub grow_total :
        (unfinished : length (s.heap r).output_ids < (s.heap r).max_tokens)
        → GrowsWell env s r v m unfinished some_output
    grow_total unfinished =
        let (table, found, size) = v.holds r m in
        elim (Bool-cases (ltb (length table) (n_blocks s (total_len (s.heap r))))) [
          | inr enough ↦ grow_keep env s r v m unfinished some_output table found (ground arith)
          | inl short ↦ elim (List-cases s.kv.free_blocks) [
            | inr (b, rest, front) ↦
                grow_extend env s r v m unfinished some_output table b rest found (ground arith)
                  front
            | inl full ↦ crowded unfinished table found (ground arith) full
          ]
        ]

  -- How a sampled sequence is settled.
  pub data Settles (s : Scheduler T) (r : Ref) (s' : Scheduler T) : Type 0 where
    retire :
        (table : List BlockId)
        → is_finished (s.heap r) s.eos_id ≡ true
        → s' ≡ retired env s r (freed s.kv (s.heap r).req_id env.nan table)
        → Settles s r s'
    go_on : is_finished (s.heap r) s.eos_id ≡ false → Grows env s r s' → Settles s r s'

  pub settle_total :
      (s : Scheduler T) (r : Ref)
      → IsValid (lag_at r) s
      → r ∈ s.running
      → has_output (s.heap r) ≡ true
      → (s' : Scheduler T) × (settle env s r ≡ ok s') × IsValid no_lag s' × Settles s r s'
  unfolding settle finish
  settle_total s r v m o = elim (Bool-cases (is_finished (s.heap r) s.eos_id)) [
    | inl e ↦
        let (table, found, size) = v.holds r m in
        (
          retired env s r (freed s.kv (s.heap r).req_id env.nan table),
          rw e (rw (free_ok s.kv (s.heap r).req_id env.nan table found)),
          retired-IsValid env s r v m table found,
          retire table e refl,
        )
    | inr e ↦
        let (s', run, v', g) = grow_total s r v m o (not_finished (s.heap r) s.eos_id o e) in
        (s', rw e run, v', go_on e g)
  ]

  -- One round of the loop, at an object that runs: it gets its token and is settled.
  pub data Advances (logits : ReqId → Option L) (s : Scheduler T) (r : Ref) (s' : Scheduler T)
      : Type 0 where
    skip : (s.heap r).status ≡ waiting → s' ≡ s → Advances logits s r s'
    take_token :
        (l : L) (q : Sequence) (reads : ℕ)
        → logits (s.heap r).req_id ≡ some l
        → IsNext (s.heap r) (env.argmax l) q
        → Settles
            (record s {
              heap = update s.heap r q;
              clock_reads = reads;
              events = on_token (s.heap r).req_id (env.argmax l) ∷ s.events;
            })
            r
            s'
        → r ∈ s.running
        → Advances logits s r s'

  -- Waiting objects apart, which an earlier round preempted, a round takes a token.
  pub advance_total :
      (logits : ReqId → Option L) (s : Scheduler T) (r : Ref)
      → IsValid no_lag s
      → (r ∈ s.running) ⊎ ((s.heap r).status ≡ waiting)
      → (l : L) × (logits (s.heap r).req_id ≡ some l)
      → (s' : Scheduler T) × (advance env logits s r ≡ ok s')
        × IsValid no_lag s'
        × Advances logits s r s'
  unfolding advance
  advance_total logits s r v (inr w) answer = (s, rw w, v, skip w refl)
  advance_total logits s r v (inl m) (l, found) =
      let token = env.argmax l in
      let (q, reads, same, next) =
        sampled_lem env s r token (v.active r m) (v.live r (omega arith)).emitted in
      let s1 : Scheduler T = record s {
        heap = update s.heap r q;
        clock_reads = reads;
        events = on_token (s.heap r).req_id token ∷ s.events;
      } in
      let longer : has_output (s1.heap r) ≡ true =
        rw (update_self s.heap r q) (has_output_next (s.heap r) q token next) in
      let (s', run, v', settles) =
        settle_total s1 r (token-IsValid s v r m token q next reads _) m longer in
      (
        s',
        rw (active-not-waiting (s.heap r) (v.active r m), found, same) run,
        v',
        take_token l q reads found next settles m,
      )
