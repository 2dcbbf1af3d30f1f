-- ===== src/Handlers/Events/Compliance.antt =====
-- Each event goes out under its own type and with its call's trace id.
use sentiric_b2bua_service.Prelude.{ℕ, String, Option, refl}
use sentiric_b2bua_service.Libraries.{Libraries}
use sentiric_b2bua_service.Data.{Resolution}
use sentiric_b2bua_service.Effects.Every.{Every, Every-bind, every_rules}
use sentiric_b2bua_service.Compliance.{Complies}
use sentiric_b2bua_service.RabbitMq.Compliance.{publish_event_bytes-Complies}
use sentiric_b2bua_service.Handlers.Events.{
  EventManager, publish_call_started, publish_call_answered, publish_call_ended,
}

module _ (lib : Libraries) (L : String → Type 0) (A : Type 0) (mgr : EventManager)
    (id : String) where
  pub publish_call_started-Complies :
      (port : ℕ) (rtp from to : String) (r : Option Resolution)
      → Every (Complies lib L A id) (publish_call_started mgr id port rtp from to r)
  unfolding publish_call_started
  publish_call_started-Complies port rtp from to r =
      Every-bind _ _ (publish_event_bytes-Complies lib L A id _ _ refl refl)
        (λ _. search every_rules)

  pub publish_call_answered-Complies :
      Every (Complies lib L A id) (publish_call_answered lib mgr id)
  unfolding publish_call_answered
  publish_call_answered-Complies =
      Every-bind _ _ (publish_event_bytes-Complies lib L A id _ _ refl refl)
        (λ _. search every_rules)

  pub publish_call_ended-Complies :
      (reason : String) → Every (Complies lib L A id) (publish_call_ended mgr id reason)
  unfolding publish_call_ended
  publish_call_ended-Complies reason =
      Every-bind _ _ (publish_event_bytes-Complies lib L A id _ _ refl refl)
        (λ _. search every_rules)
