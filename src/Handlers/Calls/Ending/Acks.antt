-- ===== src/Handlers/Calls/Ending/Acks.antt =====
-- What an ACK does.
use sentiric_b2bua_service.Prelude.{String, ◌≡◌, ◌∙◌, Option, none, some, List, arith}
use sentiric_b2bua_service.Prelude.Table.{lookup, insert}
use sentiric_b2bua_service.Libraries.{Libraries}
use sentiric_b2bua_service.Data.{CallSession, established}
use sentiric_b2bua_service.Effects.{World, Env, run, respond, update, advance, with_state, ◌>>=◌}
use sentiric_b2bua_service.Effects.Run.{run-bind_some}
use sentiric_b2bua_service.Ports.{released, sent}
use sentiric_b2bua_service.Store
use sentiric_b2bua_service.RabbitMq.Report.{Report, publish-Report}
use sentiric_b2bua_service.Handlers.Events.{publish_call_answered}
use sentiric_b2bua_service.Handlers.Calls.{CallHandler}
use sentiric_b2bua_service.Handlers.Calls.Ending.{process_ack}

-- The cache where the session of `id`, if there is one, is established.
abbrev pub established_in :
    String → Option CallSession → List (String × CallSession) → List (String × CallSession)
established_in id none m = m
established_in id (some s) m = insert id (with_state established s) m

-- The session of `id`, if there is one in the cache, is established; nothing else in the maps has
-- changed, nothing was sent, and no port was released.
pub record Acked (id : String) (w : World) (r : Option (Unit {0}) × World) : Type 0 where
  pub result : r.0 ≡ some tt
  pub cache : r.1.cache ≡ established_in id (lookup id w.cache) w.cache
  pub early_cancelled : r.1.early_cancelled ≡ w.early_cancelled
  pub invites_in_flight : r.1.invites_in_flight ≡ w.invites_in_flight
  pub ports : released r.1.trace ≡ released w.trace
  pub said : sent r.1.trace ≡ sent w.trace

module _ (lib : Libraries) (self : CallHandler) (env : Env) (id : String) where
  update_state-Acked : (w : World) → Acked id w (run env (Store.update_state lib id established) w)
  unfolding Store.update_state run respond update advance released sent ◌>>=◌
  update_state-Acked w = record {
    result = ground arith;
    cache = ground arith;
    early_cancelled = ground arith;
    invites_in_flight = ground arith;
    ports = ground arith;
    said = ground arith;
  }

  answered-Report :
      (w : World)
      → Report
          (released w.trace)
          (sent w.trace)
          w
          (run env (publish_call_answered lib self.event_mgr id) w)
  unfolding publish_call_answered
  answered-Report w = publish-Report env _ _ w

  -- `process_ack` makes the cached session of the call, if there is one, `Established`, and changes
  -- nothing else in the maps; it sends nothing and releases no port.
  pub process_ack-Acked : (w : World) → Acked id w (run env (process_ack lib self id) w)
  unfolding process_ack
  process_ack-Acked w =
      let u = update_state-Acked w in
      let r = answered-Report (run env (Store.update_state lib id established) w).1 in
      rw
        (run-bind_some env (Store.update_state lib id established)
          (λ _. publish_call_answered lib self.event_mgr id) w u.result)
        (record {
          result = r.result;
          cache = r.cache ∙ u.cache;
          early_cancelled = r.early_cancelled ∙ u.early_cancelled;
          invites_in_flight = r.invites_in_flight ∙ u.invites_in_flight;
          ports = r.ports_released ∙ u.ports;
          said = r.said ∙ u.said;
        })
