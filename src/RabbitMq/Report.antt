-- ===== src/RabbitMq/Report.antt =====
-- Publishing as its callers see it: they drop its outcome.
use sentiric_b2bua_service.Prelude.{ℕ, String, ◌≡◌, refl, Option, some, List}
use sentiric_b2bua_service.Sip.{SipPacket, SocketAddr}
use sentiric_b2bua_service.Data.{Payload}
use sentiric_b2bua_service.Effects.{World, Env, ret, run, ◌>>◌}
use sentiric_b2bua_service.Effects.Run.{run-bind_some}
use sentiric_b2bua_service.Ports.{released, sent}
use sentiric_b2bua_service.Redis.{removals}
use sentiric_b2bua_service.RabbitMq.{publish_event_bytes}
use sentiric_b2bua_service.RabbitMq.Runs.{
  publish_returns, publish-SameMaps, released-publish, sent-publish, removals-publish,
}

-- The maps are unchanged, nothing was removed from Redis, and `ports` and `messages` are what has
-- been released and sent.
pub record Report (ports : List ℕ) (messages : List (SipPacket × SocketAddr)) (w : World)
    (r : Option (Unit {0}) × World) : Type 0 where
  pub result : r.0 ≡ some tt
  pub cache : r.1.cache ≡ w.cache
  pub early_cancelled : r.1.early_cancelled ≡ w.early_cancelled
  pub invites_in_flight : r.1.invites_in_flight ≡ w.invites_in_flight
  pub ports_released : released r.1.trace ≡ ports
  pub said : sent r.1.trace ≡ messages
  pub redis : removals r.1.trace ≡ removals w.trace

pub publish-Report :
    (env : Env) (key : String) (payload : Payload) (w : World)
    → Report
        (released w.trace)
        (sent w.trace)
        w
        (run env (publish_event_bytes key payload >> ret tt) w)
unfolding run
publish-Report env key payload w =
    let same = publish-SameMaps env key payload w in
    let back = publish_returns env key payload w in
    rw (run-bind_some env _ _ w back.1) (record {
      result = refl;
      cache = same.cache;
      early_cancelled = same.early_cancelled;
      invites_in_flight = same.invites_in_flight;
      ports_released = released-publish env key payload w;
      said = sent-publish env key payload w;
      redis = removals-publish env key payload w;
    })
