-- ===== src/Scheduler/Growth.antt =====
-- The slot of the last token in miniserve/scheduler.py.
use miniserve.Base.{
  ℕ, ◌+◌, ◌-◌, ◌≤◌, ◌<◌, ◌≡◌, ◌≢◌, refl, some, List, [], ◌∷◌, ◌++◌, count, indicator_yes,
  indicator_no, ℕ_discrete, arith, ap, sym, ◌∙◌, length, length-append, ceil_div, ceil_div_mono,
  ceil_div-add_one,
}
use miniserve.Dict.{lookup, lookup-insert_self, lookup-insert_ne, keys-insert_old}
use miniserve.KvCache.Storage.{BlockId, PagedKvCache}
use miniserve.KvCache.Allocation.{appended}
use miniserve.KvCache.Conservation.{appended-IsConserved}
use miniserve.Scheduler.Sequence.{total_len}
use miniserve.Scheduler.State.{Ref, Scheduler, n_blocks}
use miniserve.Scheduler.Heap.{◌∈◌}
use miniserve.Scheduler.Invariant.{IsValid, IsLive, Holds, lag_at, no_lag}
use miniserve.Scheduler.Queues.{ids_ne}

module _ {T : Type 0} (s : Scheduler T) (r : Ref) (v : IsValid (lag_at r) s)
    (unfinished : length (s.heap r).output_ids < (s.heap r).max_tokens) where
  strict :
      (r' : Ref)
      → 0 < count ℕ_discrete r' s.running + count ℕ_discrete r' s.waiting
      → IsLive s.kv.block_size s.kv.num_blocks 0 (s.heap r')
  strict r' h =
      let l = v.live r' h in
      record {
        prompt = l.prompt;
        worst = l.worst;
        divides = l.divides;
        unfinished = elim (ℕ_discrete r' r) [
          | yes p ↦ rw p (omega arith)
          | no p ↦ omega (arith, l.unfinished, indicator_no (ℕ_discrete r' r) p)
        ];
        emitted = l.emitted;
      }

  other-Holds :
      (r' : Ref) → r' ∈ s.running → r' ≢ r → Holds s.kv (s.heap r') (total_len (s.heap r') - 0)
  other-Holds r' h ne = rw (indicator_no (ℕ_discrete r' r) ne) at (v.holds r' h)

  -- Where every running object has its slots, nothing lags.
  settled :
      ((r' : Ref) → r' ∈ s.running → Holds s.kv (s.heap r') (total_len (s.heap r') - 0))
      → IsValid no_lag s
  settled all = record {
    conserved = v.conserved;
    block_pos = v.block_pos;
    tables = v.tables;
    distinct = v.distinct;
    live = strict;
    numbered = v.numbered;
    active = v.active;
    idle = v.idle;
    holds = all;
    batched = v.batched;
    accounted = v.accounted;
  }

  -- An object that was preempted needs no slot.
  pub departed-IsValid : count ℕ_discrete r s.running ≡ 0 → IsValid no_lag s
  departed-IsValid gone =
      settled
        (λ r' h. other-Holds r' h (λ e. let h' : r ∈ s.running = rw e at h in absurd (omega arith)))

  module _ (m : r ∈ s.running) (table : List BlockId)
      (found : lookup (s.heap r).req_id s.kv.block_tables ≡ some table) where
    table_size : length table ≡ ceil_div (total_len (s.heap r) - 1) s.kv.block_size
    table_size =
        let (table', found', size) = v.holds r m in
        let same : table' ≡ table = ground arith in
        ap length (sym same)
        ∙ size
        ∙ ap (λ (n : ℕ). ceil_div (total_len (s.heap r) - n) s.kv.block_size)
            (indicator_yes (ℕ_discrete r r) refl)

    no_lag_size :
        ceil_div (total_len (s.heap r) - 0) s.kv.block_size
        ≡ ceil_div (total_len (s.heap r)) s.kv.block_size
    no_lag_size = ap (λ (n : ℕ). ceil_div n s.kv.block_size) minus_zero
      where
        minus_zero : total_len (s.heap r) - 0 ≡ total_len (s.heap r)
        minus_zero = omega arith

    -- The blocks are enough as they are.
    pub covered-IsValid : n_blocks s (total_len (s.heap r)) ≤ length table → IsValid no_lag s
    covered-IsValid enough = settled λ r' h. elim (ℕ_discrete r' r) [
      | yes p ↦ rw p (
        table,
        found,
        omega (
          arith,
          table_size,
          no_lag_size,
          ceil_div_mono s.kv.block_size v.block_pos (total_len (s.heap r) - 1)
              (total_len (s.heap r)) (omega arith),
        ),
      )
      | no p ↦ other-Holds r' h p
    ]

    module _ (b : BlockId) (rest : List BlockId) (front : s.kv.free_blocks ≡ b ∷ rest)
        (short : length table < n_blocks s (total_len (s.heap r))) where
      abbrev grown_kv : PagedKvCache T
      grown_kv = appended s.kv (s.heap r).req_id table b rest

      grown-Holds :
          (r' : Ref) → r' ∈ s.running → Holds grown_kv (s.heap r') (total_len (s.heap r') - 0)
      grown-Holds r' h = elim (ℕ_discrete r' r) [
        | yes p ↦ rw p (
          table ++ b ∷ [],
          lookup-insert_self (s.heap r).req_id (table ++ b ∷ []) s.kv.block_tables,
          omega (
            arith,
            table_size,
            no_lag_size,
            length-append table (b ∷ []),
            ceil_div-add_one s.kv.block_size v.block_pos (total_len (s.heap r) - 1),
            ap (λ (n : ℕ). ceil_div n s.kv.block_size) (suc_pred),
          ),
        )
        | no p ↦
            let (t, found', size) = other-Holds r' h p in
            (
              t,
              lookup-insert_ne (s.heap r).req_id (s.heap r').req_id (table ++ b ∷ [])
                    s.kv.block_tables (ids_ne v r' r (omega arith) (omega arith) p)
                  ∙ found',
              size,
            )
      ]
        where
          suc_pred : total_len (s.heap r) - 1 + 1 ≡ total_len (s.heap r)
          suc_pred = omega (arith, (v.live r (omega arith)).prompt)

      -- The block that comes is the one that was missing.
      pub grown-IsValid : IsValid no_lag (record s { kv = grown_kv })
      grown-IsValid = record {
        conserved =
            appended-IsConserved s.kv v.conserved (s.heap r).req_id table b rest found front;
        block_pos = v.block_pos;
        tables = λ k.
            rw (keys-insert_old (s.heap r).req_id (table ++ b ∷ []) s.kv.block_tables table found)
              (v.tables k);
        distinct = v.distinct;
        live = strict;
        numbered = v.numbered;
        active = v.active;
        idle = v.idle;
        holds = grown-Holds;
        batched = v.batched;
        accounted = v.accounted;
      }
