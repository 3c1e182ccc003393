-- ===== src/Scheduler/Outcome.antt =====
-- The ends of the loop body of miniserve/scheduler.py: retire, keep, grow, or preempt.
use miniserve.Base.{
  ◌≤◌, ◌<◌, ◌≡◌, ◌≢◌, ◌⊎◌, refl, Bool, true, false, some, List, [], ◌∷◌, ◌++◌, ℕ_discrete, arith,
  sym, ◌∙◌, length, ◌==◌, count-erase_ne, count-erase_self,
}
use miniserve.Result.{ok, ◌>>=◌}
use miniserve.Dict.{lookup, lookup-delete_ne}
use miniserve.KvCache.Storage.{BlockId}
use miniserve.KvCache.Allocation.{appended, freed, append_block_ok, append_block_full, free_ok}
use miniserve.Scheduler.Sequence.{
  Sequence, total_len, prefill, decode, is_waiting, youngest_decoded,
}
use miniserve.Scheduler.State.{Ref, Env, Scheduler, n_blocks, blocks_for}
use miniserve.Scheduler.Preemption.{
  requeued, preempted, preempt, make_room, has_output, choose_victim,
}
use miniserve.Scheduler.Step.{retry_grow, grow}
use miniserve.Scheduler.Heap.{◌∈◌, update_self, update_ne}
use miniserve.Scheduler.Invariant.{IsValid, IsLive-blocks_for, lag_at, no_lag}
use miniserve.Scheduler.Queues.{ids_ne, count-refs-le}
use miniserve.Scheduler.Requeue.{preempted-IsValid}
use miniserve.Scheduler.Growth.{departed-IsValid, covered-IsValid, grown-IsValid}

pub active-not-waiting :
    (q : Sequence) → (q.status ≡ prefill) ⊎ (q.status ≡ decode) → is_waiting q.status ≡ false
active-not-waiting q a = ground arith

module _ {T L : Type 0} (env : Env T L) where
  -- The scheduler after the victim `x` has been preempted, and its blocks have been freed.
  abbrev pub displaced : Scheduler T → Ref → Bool → List BlockId → Scheduler T
  displaced s x self_preempted table =
      preempted s x youngest_decoded self_preempted (freed s.kv (s.heap x).req_id env.nan table)

  abbrev pub extended : Scheduler T → Ref → List BlockId → BlockId → List BlockId → Scheduler T
  extended s r table b rest = record s { kv = appended s.kv (s.heap r).req_id table b rest }

  pub data Grows (s : Scheduler T) (r : Ref) (s' : Scheduler T) : Type 0 where
    -- The blocks are enough.
    keep : s' ≡ s → Grows s r s'
    -- A free block is appended.
    extend :
        (table : List BlockId) (b : BlockId) (rest : List BlockId)
        → s' ≡ extended s r table b rest
        → Grows s r s'
    -- The requester itself is the victim.
    give_up :
        (table : List BlockId)
        → lookup (s.heap r).req_id s.kv.block_tables ≡ some table
        → s' ≡ displaced s r true table
        → Grows s r s'
    -- Another victim makes room, and one of its blocks is appended.
    displace :
        (x : Ref) (table freed_table : List BlockId) (b : BlockId) (rest : List BlockId)
        → x ≢ r
        → x ∈ s.running
        → s' ≡ extended (displaced s x false freed_table) r table b rest
        → Grows s r s'

  -- With a victim at hand `_make_room` does not raise.
  make_room_lem :
      (s : Scheduler T) (r x : Ref) (table : List BlockId)
      → choose_victim s.heap s.running ≡ ok (x, youngest_decoded)
      → lookup (s.heap x).req_id s.kv.block_tables ≡ some table
      → make_room env s r ≡ ok (displaced s x (x == r) table)
  unfolding make_room preempt
  make_room_lem s r x table chosen found =
      rw (chosen, make_room) (rw (free_ok s.kv (s.heap x).req_id env.nan table found))

  retry_waiting :
      (s : Scheduler T) (r : Ref) → is_waiting (s.heap r).status ≡ true → retry_grow env s r ≡ ok s
  unfolding retry_grow
  retry_waiting s r e = rw e

  retry_extend :
      (s : Scheduler T) (r : Ref) (table : List BlockId) (b : BlockId) (rest : List BlockId)
      → is_waiting (s.heap r).status ≡ false
      → lookup (s.heap r).req_id s.kv.block_tables ≡ some table
      → s.kv.free_blocks ≡ b ∷ rest
      → retry_grow env s r ≡ ok (extended s r table b rest)
  unfolding retry_grow
  retry_extend s r table b rest e found front =
      rw (e, append_block_ok s.kv (s.heap r).req_id table b rest found front)

  module _ (s : Scheduler T) (r : Ref) (v : IsValid (lag_at r) s) (m : r ∈ s.running)
      (unfinished : length (s.heap r).output_ids < (s.heap r).max_tokens)
      (some_output : has_output (s.heap r) ≡ true) where
    abbrev pub GrowsWell : Type 0
    GrowsWell = (s' : Scheduler T) × (grow env s r ≡ ok s') × IsValid no_lag s' × Grows s r s'

    divided : blocks_for s (total_len (s.heap r)) ≡ ok (n_blocks s (total_len (s.heap r)))
    divided =
        IsLive-blocks_for s (lag_at r r) _ (s.heap r) v.block_pos (v.live r (omega arith))
          (omega (arith, unfinished))

    pub grow_keep :
        (table : List BlockId)
        → lookup (s.heap r).req_id s.kv.block_tables ≡ some table
        → n_blocks s (total_len (s.heap r)) ≤ length table
        → GrowsWell
    unfolding grow
    grow_keep table found enough = (
      s,
      rw divided (ground arith),
      covered-IsValid s r v unfinished m table found enough,
      keep refl,
    )

    pub grow_extend :
        (table : List BlockId) (b : BlockId) (rest : List BlockId)
        → lookup (s.heap r).req_id s.kv.block_tables ≡ some table
        → length table < n_blocks s (total_len (s.heap r))
        → s.kv.free_blocks ≡ b ∷ rest
        → GrowsWell
    unfolding grow
    grow_extend table b rest found short front = (
      extended s r table b rest,
      rw divided (ground (arith, append_block_ok s.kv (s.heap r).req_id table b rest)),
      grown-IsValid s r v unfinished m table found b rest front short,
      extend table b rest refl,
    )

    -- With no free block, room is made first.
    grow_full :
        (table : List BlockId)
        → lookup (s.heap r).req_id s.kv.block_tables ≡ some table
        → length table < n_blocks s (total_len (s.heap r))
        → s.kv.free_blocks ≡ []
        → grow env s r ≡ (make_room env s r >>= λ s'. retry_grow env s' r)
    unfolding grow
    grow_full table found short full =
        rw divided (ground (arith, append_block_full s.kv (s.heap r).req_id table found full))

    pub grow_give_up :
        (table : List BlockId)
        → lookup (s.heap r).req_id s.kv.block_tables ≡ some table
        → length table < n_blocks s (total_len (s.heap r))
        → s.kv.free_blocks ≡ []
        → choose_victim s.heap s.running ≡ ok (r, youngest_decoded)
        → GrowsWell
    grow_give_up table found short full chosen = (
      displaced s r true table,
      grow_full table found short full ∙ rw (make_room_lem s r r table chosen found, self) retried,
      departed-IsValid (displaced s r true table) r
          (preempted-IsValid env s v r m table found youngest_decoded true)
          (rw (update_self s.heap r (requeued (s.heap r))) unfinished)
          (omega (arith, count-refs-le v r, count-erase_self ℕ_discrete r s.running m)),
      give_up table found refl,
    )
      where
        self : (r == r) ≡ true
        self = ground arith

        retried : retry_grow env (displaced s r true table) r ≡ ok (displaced s r true table)
        retried =
            retry_waiting (displaced s r true table) r
              (rw (update_self s.heap r (requeued (s.heap r))))

    module _ (x : Ref) (ne : x ≢ r) (xm : x ∈ s.running)
        (chosen : choose_victim s.heap s.running ≡ ok (x, youngest_decoded))
        (table freed_table : List BlockId)
        (found : lookup (s.heap r).req_id s.kv.block_tables ≡ some table)
        (found_x : lookup (s.heap x).req_id s.kv.block_tables ≡ some freed_table)
        (short : length table < n_blocks s (total_len (s.heap r))) (full : s.kv.free_blocks ≡ [])
        (b : BlockId) (rest : List BlockId)
        (front : s.kv.free_blocks ++ freed_table ≡ b ∷ rest) where
      abbrev pub made_room : Scheduler T
      made_room = displaced s x false freed_table

      same_requester : made_room.heap r ≡ s.heap r
      same_requester = update_ne s.heap x (requeued (s.heap x)) r (λ e. ne (sym e))

      found_still : lookup (made_room.heap r).req_id made_room.kv.block_tables ≡ some table
      found_still = rw same_requester (
          lookup-delete_ne (s.heap x).req_id (s.heap r).req_id s.kv.block_tables
            (ids_ne v r x (omega arith) (omega arith) (λ e. ne (sym e)))
          ∙ found)

      displaced-IsValid : IsValid no_lag (extended made_room r table b rest)
      displaced-IsValid =
          grown-IsValid made_room r
            (preempted-IsValid env s v x xm freed_table found_x youngest_decoded false)
            (rw same_requester unfinished)
            (omega (arith, count-erase_ne ℕ_discrete r x s.running (λ e. ne (sym e)))) table
            found_still b rest front (rw same_requester short)

      pub grow_displace : GrowsWell
      grow_displace = (
        extended made_room r table b rest,
        grow_full table found short full
            ∙ rw (make_room_lem s r x freed_table chosen found_x, other) retried,
        displaced-IsValid,
        displace x table freed_table b rest ne xm refl,
      )
        where
          other : (x == r) ≡ false
          other = ground arith

          retried : retry_grow env made_room r ≡ ok (extended made_room r table b rest)
          retried =
              retry_extend made_room r table b rest
                (rw same_requester (active-not-waiting (s.heap r) (v.active r m))) found_still front
