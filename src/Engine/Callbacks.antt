-- ===== src/Engine/Callbacks.antt =====
-- The callbacks of miniserve/engine.py through a step of the scheduler.
use miniserve.Base.{◌+◌, ◌≡◌, refl, ◌∷◌, count, indicator, String_discrete, arith, sym, ◌∙◌}
use miniserve.Result.{ok}
use miniserve.Dict.{delete, keys, lookup_present, count-keys-delete}
use miniserve.KvCache.Storage.{ReqId}
use miniserve.Scheduler.Sequence.{Sequence, Token}
use miniserve.Scheduler.State.{Ref, on_token, on_finish, Env, Scheduler}
use miniserve.Scheduler.Step.{completed}
use miniserve.Scheduler.Heap.{◌∈◌}
use miniserve.Scheduler.Streams.{n_live}
use miniserve.Scheduler.LiveIds.{
  Admits-n_live, update-n_live, running-n_live, erase-n_live, displaced-n_live,
}
use miniserve.Scheduler.Preserved.{IsPreserved}
use miniserve.Engine.State.{Ticket, token_item, finish_item, Engine, put}
use miniserve.Engine.Loop.{handle, handle_all, finish_summary}
use miniserve.Engine.Tickets.{n_finish, n_streams, n_finish-put, n_streams-delete}

-- The callbacks of the scheduler `s` have run, on the engine `g0`, up to the engine `engine`.
pub record Serves {T : Type 0} (g0 : Engine T) (s : Scheduler T) : Type 0 where
  pub engine : Engine T
  pub run : handle_all s.events g0 ≡ ok engine
  pub synced : (k : ReqId) → count String_discrete k (keys engine.streams) ≡ n_live s k
  pub once :
      (t : Ticket)
      → n_streams t engine.streams + n_finish (engine.items t)
        ≡ n_streams t g0.streams + n_finish (g0.items t)
  pub same_scheduler : engine.scheduler ≡ g0.scheduler
  pub same_submissions : engine.submissions ≡ g0.submissions
  pub same_futures : engine.futures ≡ g0.futures
  pub same_issued : engine.issued ≡ g0.issued

module _ {T : Type 0} (g0 : Engine T) where
  -- A token goes to the stream of its request.
  Serves-on_token :
      (s s' : Scheduler T) (r : Ref) (t : Token)
      → Serves g0 s
      → r ∈ s.running
      → s'.events ≡ on_token (s.heap r).req_id t ∷ s.events
      → ((k : ReqId) → n_live s' k ≡ n_live s k)
      → Serves g0 s'
  unfolding handle_all handle
  Serves-on_token s s' r t p m e same =
      let (ticket, found) =
        lookup_present (s.heap r).req_id p.engine.streams
          (omega (arith, p.synced (s.heap r).req_id, running-n_live s r m)) in
      record {
        engine = put p.engine ticket (token_item t);
        run = rw (e, p.run, found);
        synced = λ k. p.synced k ∙ sym (same k);
        once = λ t'. ground (arith, p.once t', n_finish-put p.engine ticket t' (token_item t));
        same_scheduler = p.same_scheduler;
        same_submissions = p.same_submissions;
        same_futures = p.same_futures;
        same_issued = p.same_issued;
      }

  -- The end goes to the stream of its request, which is live no more.
  Serves-on_finish :
      (s s' : Scheduler T) (r : Ref) (q : Sequence)
      → Serves g0 s
      → r ∈ s.running
      → q.req_id ≡ (s.heap r).req_id
      → s'.events ≡ on_finish q ∷ s.events
      → ((k : ReqId) → n_live s' k + indicator (String_discrete (s.heap r).req_id k) ≡ n_live s k)
      → Serves g0 s'
  unfolding handle_all handle
  Serves-on_finish s s' r q p m id e less =
      let (ticket, found) =
        lookup_present (s.heap r).req_id p.engine.streams
          (omega (arith, p.synced (s.heap r).req_id, running-n_live s r m)) in
      record {
        engine =
            put (record p.engine { streams = delete (s.heap r).req_id p.engine.streams }) ticket
              (finish_item (finish_summary q));
        run = rw (e, p.run, id, found);
        synced = λ k. omega (
          arith,
          p.synced k,
          less k,
          count-keys-delete k (s.heap r).req_id p.engine.streams ticket found,
        );
        once = λ t'. ground (
          arith,
          p.once t',
          n_finish-put p.engine ticket t' (finish_item (finish_summary q)),
          n_streams-delete (s.heap r).req_id t' ticket p.engine.streams found,
        );
        same_scheduler = p.same_scheduler;
        same_submissions = p.same_submissions;
        same_futures = p.same_futures;
        same_issued = p.same_issued;
      }

  -- No callback where the events are the same.
  Serves-quiet :
      (s s' : Scheduler T)
      → Serves g0 s
      → s'.events ≡ s.events
      → ((k : ReqId) → n_live s' k ≡ n_live s k)
      → Serves g0 s'
  Serves-quiet s s' p e same = record {
    engine = p.engine;
    run = rw e p.run;
    synced = λ k. p.synced k ∙ sym (same k);
    once = p.once;
    same_scheduler = p.same_scheduler;
    same_submissions = p.same_submissions;
    same_futures = p.same_futures;
    same_issued = p.same_issued;
  }

  pub Serves-IsPreserved : {L : Type 0} (env : Env T L) → IsPreserved env (Serves g0)
  Serves-IsPreserved env = record {
    admits = λ s s' a p. Serves-quiet s s' p a.same_events (λ k. sym (Admits-n_live s s' a k));
    takes = λ s r t q reads v m n p.
        Serves-on_token s _ r t p m refl (λ k. update-n_live s r q k n.same_id);
    retires = λ s r table v m p.
        Serves-on_finish s _ r (completed env s r) p m refl refl
          (λ k. erase-n_live s r (completed env s r) k refl m);
    displaces =
        λ s x b table m p. Serves-quiet s _ p refl (λ k. displaced-n_live s env x b table k m);
    caches = λ s kv p. Serves-quiet s _ p refl (λ k. refl);
    records = λ s m reads same p. Serves-quiet s _ p refl (λ k. refl);
  }
