-- ===== src/Scheduler/Queues.antt =====
-- Consequences of the invariant for the queues of miniserve/scheduler.py.
use miniserve.Base.{
  ℕ, ◌+◌, ◌≤◌, ◌<◌, ◌≡◌, ◌≢◌, none, erase, count-erase_self, count-erase-le, count, ℕ_discrete,
  arith,
}
use miniserve.Dict.{lookup, lookup_absent}
use miniserve.Scheduler.State.{Ref, Scheduler}
use miniserve.Scheduler.Heap.{◌∈◌, count-le-count-ids, count-add-le-count-ids}
use miniserve.Scheduler.Invariant.{IsValid}

module _ {T : Type 0} {lag : Ref → ℕ} {s : Scheduler T} (v : IsValid lag s) where
  -- No object stands twice in the queues.
  pub count-refs-le : (r : Ref) → count ℕ_discrete r s.running + count ℕ_discrete r s.waiting ≤ 1
  count-refs-le r = omega (
    arith,
    v.distinct (s.heap r).req_id,
    count-le-count-ids s.heap r s.running,
    count-le-count-ids s.heap r s.waiting,
  )

  -- Two objects in the queues have two request ids.
  pub ids_ne :
      (r r' : Ref)
      → 0 < count ℕ_discrete r s.running + count ℕ_discrete r s.waiting
      → 0 < count ℕ_discrete r' s.running + count ℕ_discrete r' s.waiting
      → r ≢ r'
      → (s.heap r).req_id ≢ (s.heap r').req_id
  ids_ne r r' m m' ne e = absurd (
      omega (
        arith,
        v.distinct (s.heap r).req_id,
        count-add-le-count-ids s.heap r r' s.running ne e,
        count-add-le-count-ids s.heap r r' s.waiting ne e,
      ))

  -- A waiting request has no table.
  pub lookup_waiting : (r : Ref) → r ∈ s.waiting → lookup (s.heap r).req_id s.kv.block_tables ≡ none
  lookup_waiting r m = lookup_absent (s.heap r).req_id s.kv.block_tables (
      omega (
        arith,
        v.tables (s.heap r).req_id,
        v.distinct (s.heap r).req_id,
        count-le-count-ids s.heap r s.waiting,
      ))

  module _ (r : Ref) (m : r ∈ s.running) (r' : Ref)
      (h : 0
        < count ℕ_discrete r' (erase ℕ_discrete s.running r) + count ℕ_discrete r' s.waiting) where
    -- What stands in the queues after `r` was taken out is another object.
    pub ne_of_mem-erase : r' ≢ r
    ne_of_mem-erase e =
        let h' : 0
            < count ℕ_discrete r (erase ℕ_discrete s.running r) + count ℕ_discrete r s.waiting =
          rw e at h in
        absurd (omega (arith, count-erase_self ℕ_discrete r s.running m, count-refs-le r))

    pub mem_of_mem-erase : 0 < count ℕ_discrete r' s.running + count ℕ_discrete r' s.waiting
    mem_of_mem-erase = omega (arith, count-erase-le ℕ_discrete r' r s.running)
