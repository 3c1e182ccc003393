-- ===== src/Scheduler/Streams.antt =====
-- The tokens and the ends that miniserve/scheduler.py has handed to its callbacks, by request id.
use miniserve.Base.{
  ℕ, ◌+◌, ◌<◌, ◌≡◌, ◌≢◌, refl, List, [], ◌∷◌, ◌++◌, ite, if_pos, if_neg, count, ℕ_discrete,
  String_discrete,
}
use mathlib.Core.Path.{ap₂}
use miniserve.KvCache.Storage.{ReqId}
use miniserve.Scheduler.Sequence.{Sequence, Token}
use miniserve.Scheduler.State.{Ref, Event, on_token, on_finish, Scheduler, ids}

-- The tokens that `on_token` was handed for the id since the last request of that id has finished.
unfoldable pub streamed : ReqId → List Event → List Token
streamed k [] = []
streamed k (on_token k' t ∷ events) =
    ite (String_discrete k' k) (streamed k events ++ t ∷ []) (streamed k events)
streamed k (on_finish q ∷ events) = ite (String_discrete q.req_id k) [] (streamed k events)

-- Whenever `on_finish` was called, the stream was the whole output.
abbrev pub Finishes : List Event → Type 0
Finishes [] = Unit {0}
Finishes (on_token k t ∷ events) = Finishes events
Finishes (on_finish q ∷ events) = (streamed q.req_id events ≡ q.output_ids) × Finishes events

-- The reference stands in one of the queues.
abbrev pub Queued : {T : Type 0} → Scheduler T → Ref → Type 0
Queued s r = 0 < count ℕ_discrete r s.running + count ℕ_discrete r s.waiting

abbrev pub n_live : {T : Type 0} → Scheduler T → ReqId → ℕ
n_live s k =
    count String_discrete k (ids s.heap s.running) + count String_discrete k (ids s.heap s.waiting)

pub record IsStreamed {T : Type 0} (s : Scheduler T) : Type 0 where
  pub whole : (r : Ref) → Queued s r → streamed (s.heap r).req_id s.events ≡ (s.heap r).output_ids
  pub fresh : (k : ReqId) → n_live s k ≡ 0 → streamed k s.events ≡ []
  pub done : Finishes s.events

pub ids-congr :
    (heap heap' : Ref → Sequence)
    → ((r : Ref) → (heap' r).req_id ≡ (heap r).req_id)
    → (rs : List Ref) → ids heap' rs ≡ ids heap rs
ids-congr heap heap' h [] = refl
ids-congr heap heap' h (r ∷ rs) = ap₂ ◌∷◌ (h r) (ids-congr heap heap' h rs)

-- The stream of an id grows by its own token, and is left alone by another id's.
pub own_token :
    (k : ReqId) (t : Token) (events : List Event)
    → streamed k (on_token k t ∷ events) ≡ streamed k events ++ t ∷ []
unfolding streamed
own_token k t events = if_pos (String_discrete k k) refl _ _

pub other_token :
    (k k' : ReqId) (t : Token) (events : List Event)
    → k' ≢ k
    → streamed k (on_token k' t ∷ events) ≡ streamed k events
unfolding streamed
other_token k k' t events ne = if_neg (String_discrete k' k) ne _ _

pub other_finish :
    (k : ReqId) (q : Sequence) (events : List Event)
    → q.req_id ≢ k
    → streamed k (on_finish q ∷ events) ≡ streamed k events
unfolding streamed
other_finish k q events ne = if_neg (String_discrete q.req_id k) ne _ _
