-- ===== src/Handlers/Calls/Ending/Runs.antt =====
-- `process_bye` and `process_cancel`, when they run undisturbed.
use sentiric_b2bua_service.Prelude.{
  ℕ, String, ◌≡◌, refl, ap, ◌∙◌, false, Option, none, some, List, ◌∷◌, arith, ◌==◌, if◌then◌else◌,
}
use sentiric_b2bua_service.Prelude.Table.{
  lookup, erase, contains, add, contains-add, contains-discard,
}
use sentiric_b2bua_service.Sip
use sentiric_b2bua_service.Sip.{SipPacket, SocketAddr}
use sentiric_b2bua_service.Libraries.{Libraries}
use sentiric_b2bua_service.Data.{CallSession}
use sentiric_b2bua_service.Effects.{
  World, Env, run, respond, update, advance, ◌>>=◌, send, early_insert,
}
use sentiric_b2bua_service.Effects.Run.{run-bind_some}
use sentiric_b2bua_service.Ports.{port_of, released, sent}
use sentiric_b2bua_service.Redis.{removals, IsGone, IsGone-same}
use sentiric_b2bua_service.Store
use sentiric_b2bua_service.Store.Runs.{Removed, remove-Removed}
use sentiric_b2bua_service.RabbitMq.Report.{Report, publish-Report}
use sentiric_b2bua_service.Handlers.Events.{EventManager, publish_call_ended}
use sentiric_b2bua_service.Handlers.Media.{release_port}
use sentiric_b2bua_service.Handlers.Calls.{CallHandler, header_or_default}
use sentiric_b2bua_service.Handlers.Calls.Ending.{
  release_and_report, end_call, process_bye, process_cancel,
}

publish_call_ended-Report :
    (env : Env) (mgr : EventManager) (id reason : String) (w : World)
    → Report (released w.trace) (sent w.trace) w (run env (publish_call_ended mgr id reason) w)
unfolding publish_call_ended
publish_call_ended-Report env mgr id reason w = publish-Report env _ _ w

abbrev pub release_for : Option CallSession → List ℕ → List ℕ
release_for none ps = ps
release_for (some s) ps = port_of s ∷ ps

-- The call `id` is over: it is in no map, its entry was deleted from Redis where that can be
-- reached, its port, if it had a session, is released once, and `messages` is what has been sent.
-- Other calls are as they were.
pub record Ended (id : String) (messages : List (SipPacket × SocketAddr)) (w : World)
    (r : Option (Unit {0}) × World) : Type 0 where
  pub result : r.0 ≡ some tt
  pub cache : r.1.cache ≡ erase id w.cache
  pub early_cancelled :
      (k : String)
      → contains k r.1.early_cancelled ≡ (if id == k then false else contains k w.early_cancelled)
  pub invites_in_flight : r.1.invites_in_flight ≡ w.invites_in_flight
  pub ports : released r.1.trace ≡ release_for (lookup id w.cache) (released w.trace)
  pub said : sent r.1.trace ≡ messages
  pub redis : IsGone id r.1.trace

mark_dropped :
    (id k : String) (s : List String)
    → (if id == k then false else contains k (add id s)) ≡ (if id == k then false else contains k s)
mark_dropped id k s = ground (arith, contains-add id k s)

module _ (lib : Libraries) (self : CallHandler) (env : Env) where
  pub release_and_report-Report :
      (id reason : String) (s : CallSession) (w : World)
      → Report
          (port_of s ∷ released w.trace)
          (sent w.trace)
          w
          (run env (release_and_report lib self id reason s) w)
  unfolding release_and_report release_port run advance respond update released sent removals ◌>>=◌
  release_and_report-Report id reason s w =
      let r = publish_call_ended-Report env self.event_mgr id reason _ in
      record {
        result = r.result;
        cache = r.cache;
        early_cancelled = r.early_cancelled;
        invites_in_flight = r.invites_in_flight;
        ports_released = r.ports_released;
        said = r.said;
        redis = r.redis;
      }

  end_call-Report :
      (id reason : String) (o : Option CallSession) (w : World)
      → Report
          (release_for o (released w.trace))
          (sent w.trace)
          w
          (run env (end_call lib self id reason o) w)
  unfolding end_call run
  end_call-Report id reason none w = record {
    result = refl;
    cache = refl;
    early_cancelled = refl;
    invites_in_flight = refl;
    ports_released = refl;
    said = refl;
    redis = refl;
  }
  end_call-Report id reason (some s) w = release_and_report-Report id reason s w

  -- `remove`, and then the end of what was removed.
  remove_and_end :
      (id reason : String) (w : World)
      → Ended id (sent w.trace) w (run env (Store.remove id >>= end_call lib self id reason) w)
  remove_and_end id reason w =
      let gone : Removed id w _ = remove-Removed env id w in
      let r = end_call-Report id reason (lookup id w.cache) (run env (Store.remove id) w).1 in
      rw (run-bind_some env (Store.remove id) _ w gone.result) (record {
        result = r.result;
        cache = r.cache ∙ gone.cache;
        early_cancelled = λ k.
            ap (contains k) (r.early_cancelled ∙ gone.early_cancelled)
            ∙ contains-discard id k w.early_cancelled;
        invites_in_flight = r.invites_in_flight ∙ gone.invites_in_flight;
        ports = r.ports_released ∙ ap (release_for (lookup id w.cache)) gone.released;
        said = r.said ∙ gone.sent;
        redis = IsGone-same id _ _ r.redis gone.redis;
      })

  -- `process_bye`, with or without a session for the call: it answers 200 OK, takes the call out of
  -- the maps of the store and, where Redis can be reached, its entry out of Redis, and releases the
  -- port of the session that it found, once; all other calls, and the locks, are as they were.
  pub process_bye-Ended :
      (req : SipPacket) (src : SocketAddr) (w : World)
      → Ended
          (header_or_default lib req Sip.call_id)
          ((lib.create_200_ok req, src) ∷ sent w.trace)
          w
          (run env (process_bye lib self req src) w)
  unfolding process_bye run advance respond update released sent ◌>>=◌
  process_bye-Ended req src w =
      let id = header_or_default lib req Sip.call_id in
      let e =
        remove_and_end id "normal_clearing" (advance env (send (lib.create_200_ok req) src) w) in
      record {
        result = e.result;
        cache = e.cache;
        early_cancelled = e.early_cancelled;
        invites_in_flight = e.invites_in_flight;
        ports = e.ports;
        said = e.said;
        redis = e.redis;
      }

  -- `process_cancel` ends the call like `process_bye`. In particular the call id is not in the set
  -- of cancelled calls afterwards, although `process_cancel` marks it: `remove` takes the mark
  -- away.
  pub process_cancel-Ended :
      (req : SipPacket) (src : SocketAddr) (w : World)
      → Ended
          (header_or_default lib req Sip.call_id)
          ((lib.create_200_ok req, src) ∷ sent w.trace)
          w
          (run env (process_cancel lib self req src) w)
  unfolding process_cancel Store.mark_early_cancelled run advance respond update released sent ◌>>=◌
  process_cancel-Ended req src w =
      let id = header_or_default lib req Sip.call_id in
      let e =
        remove_and_end id "cancelled"
          (advance env (early_insert id) (advance env (send (lib.create_200_ok req) src) w)) in
      record {
        result = e.result;
        cache = e.cache;
        early_cancelled = λ k. e.early_cancelled k ∙ mark_dropped id k w.early_cancelled;
        invites_in_flight = e.invites_in_flight;
        ports = e.ports;
        said = e.said;
        redis = e.redis;
      }
