-- ===== src/Handlers/Calls/Invite/Announcing.antt =====
-- The 200 OK of `process_invite`, and the event behind it.
use sentiric_b2bua_service.Prelude.{ℕ, String, refl, ◌∷◌, false}
use sentiric_b2bua_service.Sip.{SipPacket, SocketAddr, Outcome, ok, err}
use sentiric_b2bua_service.Libraries.{Libraries}
use sentiric_b2bua_service.Data.{Resolution}
use sentiric_b2bua_service.Effects.{World, Env, run, respond, update, advance, ◌>>=◌, send}
use sentiric_b2bua_service.Ports.{released, sent}
use sentiric_b2bua_service.Redis.{removals}
use sentiric_b2bua_service.RabbitMq.Report.{Report, publish-Report}
use sentiric_b2bua_service.Handlers.Events.{publish_call_started}
use sentiric_b2bua_service.Handlers.Calls.{CallHandler}
use sentiric_b2bua_service.Handlers.Calls.Invite.{Incoming, announce, finish}

module _ (lib : Libraries) (self : CallHandler) (env : Env) (call : Incoming) (src : SocketAddr)
    (r : Resolution) (port : ℕ) (target : String) where
  announce-Report :
      (o : Outcome (Unit {0})) (w : World)
      → Report
          (released w.trace)
          (sent w.trace)
          w
          (run env (announce lib self call port target r o) w)
  unfolding announce publish_call_started run
  announce-Report (ok _) w = publish-Report env _ _ w
  announce-Report (err e) w = record {
    result = refl;
    cache = refl;
    early_cancelled = refl;
    invites_in_flight = refl;
    ports_released = refl;
    said = refl;
    redis = refl;
  }

  pub uncancelled-Report :
      (resp : SipPacket) (w : World)
      → Report
          (released w.trace)
          ((resp, src) ∷ sent w.trace)
          w
          (run env (finish lib self call resp src port target r false) w)
  unfolding finish run respond update advance released sent removals ◌>>=◌
  uncancelled-Report resp w =
      let a = announce-Report (env w (send resp src)) (advance env (send resp src) w) in
      record {
        result = a.result;
        cache = a.cache;
        early_cancelled = a.early_cancelled;
        invites_in_flight = a.invites_in_flight;
        ports_released = a.ports_released;
        said = a.said;
        redis = a.redis;
      }
