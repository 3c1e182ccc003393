-- ===== src/Engine/Shutdown.antt =====
-- `_finalize_shutdown` of miniserve/engine.py.
use miniserve.Base.{
  ◌+◌, ◌≤◌, ◌<◌, ◌≡◌, refl, Option, some, List, [], ◌∷◌, indicator, indicator_yes, indicator_no,
  indicator_le, dec_lt, ℕ_discrete, arith, ap,
}
use miniserve.Result.{ok, engine_stopped}
use miniserve.KvCache.Storage.{ReqId}
use miniserve.Engine.State.{
  Ticket, finish_item, refused, Outcome, Submission, Engine, resolve, set_at, put, aborted_summary,
}
use miniserve.Engine.Loop.{n_output, refuse_all, abort_all, finalize_shutdown}
use miniserve.Engine.Tickets.{n_finish, n_queued, n_streams, n_finish-put}
use miniserve.Engine.Contract.{IsOpen, IsServing, resolved-IsOpen}

module _ {T : Type 0} where
  -- Every future of the queue is resolved, and nothing else changes.
  refuse_all_total :
      (queue : List Submission) (g : Engine T)
      → g.submissions ≡ queue
      → IsOpen queue g.issued g.futures
      → ((t : Ticket) → n_queued t queue ≤ indicator (dec_lt t g.issued))
      → (futures : Ticket → Option Outcome) × (refuse_all queue g
          ≡ ok (record g { submissions = []; futures = futures }))
        × IsOpen [] g.issued futures
  unfolding refuse_all resolve
  refuse_all_total [] g e o h = (g.futures, ap (λ q. ok (record g { submissions = q })) e, o)
  refuse_all_total (item ∷ rest) g e o h =
      let here : 0 < n_queued item.ticket (item ∷ rest) =
        omega (arith, indicator_yes (ℕ_discrete item.ticket item.ticket) refl) in
      let next = set_at g.futures item.ticket (some (refused engine_stopped)) in
      let old : item.ticket < g.issued = issued_of item rest g here h in
      let (futures, run, o') =
        refuse_all_total rest (record g { submissions = rest; futures = next }) refl
          (resolved-IsOpen item rest g.issued g.futures (refused engine_stopped) o
            (omega (arith, h item.ticket, indicator_le (dec_lt item.ticket g.issued))) old)
          (λ t. omega (arith, h t)) in
      (futures, rw (o.pending item.ticket here, resolve) run, o')
    where
      issued_of :
          (item : Submission) (rest : List Submission) (g : Engine T)
          → 0 < n_queued item.ticket (item ∷ rest)
          → ((t : Ticket) → n_queued t (item ∷ rest) ≤ indicator (dec_lt t g.issued))
          → item.ticket < g.issued
      issued_of item rest g here h = elim (dec_lt item.ticket g.issued) [
        | yes k ↦ k
        | no k ↦
            absurd
              (omega (arith, here, h item.ticket, indicator_no (dec_lt item.ticket g.issued) k))
      ]

  -- Every live stream gets one end more.
  n_finish-abort_all :
      (m : List (ReqId × Ticket)) (g : Engine T) (t : Ticket)
      → n_finish ((abort_all m g).items t) ≡ n_finish (g.items t) + n_streams t m
  unfolding abort_all
  n_finish-abort_all [] g t = omega arith
  n_finish-abort_all ((k, ticket) ∷ m) g t =
      let item = finish_item (aborted_summary k (n_output g.scheduler k)) in
      ground (arith, n_finish-abort_all m (put g ticket item) t, n_finish-put g ticket t item)

  abort_all-futures :
      (m : List (ReqId × Ticket)) (g : Engine T)
      → ((abort_all m g).futures ≡ g.futures) × ((abort_all m g).submissions ≡ g.submissions)
  unfolding abort_all
  abort_all-futures [] g = (refl, refl)
  abort_all-futures ((k, ticket) ∷ m) g =
      abort_all-futures m (put g ticket (finish_item (aborted_summary k (n_output g.scheduler k))))

  -- On an engine that keeps its promise, `_finalize_shutdown` raises nothing, empties the
  -- submission queue and the streams, leaves every future that was issued resolved, and gives
  -- the stream of each ticket exactly one end, except that a stream whose submission was still
  -- in the queue gets none.
  pub finalize_shutdown_lem :
      (g : Engine T)
      → IsServing g
      → (g' : Engine T) × (finalize_shutdown g ≡ ok g')
        × (g'.submissions ≡ [])
        × (g'.streams ≡ [])
        × ((t : Ticket) → t < g.issued → (o : Outcome) × (g'.futures t ≡ some o))
        × ((t : Ticket)
            → n_finish (g'.items t) + n_queued t g.submissions ≡ indicator (dec_lt t g.issued))
  unfolding finalize_shutdown
  finalize_shutdown_lem g p =
      let (futures, run, o) =
        refuse_all_total g.submissions g refl p.opens (λ t. omega (arith, p.once t)) in
      let g1 : Engine T = record g { submissions = []; futures = futures } in
      (
        record (abort_all g.streams g1) { streams = [] },
        rw run,
        (abort_all-futures g.streams g1).1,
        refl,
        λ t h. rw ((abort_all-futures g.streams g1).0) (o.answered t h refl),
        λ t. omega (arith, p.once t, n_finish-abort_all g.streams g1 t),
      )
