-- ===== src/RabbitMq/Ports.antt =====
-- The ports, where an event is published (src/rabbitmq.rs).
use sentiric_b2bua_service.Prelude.{ℕ, String, refl, List}
use sentiric_b2bua_service.Sip.{Outcome}
use sentiric_b2bua_service.Data.{Payload}
use sentiric_b2bua_service.Effects.{
  Op, basic_publish, channel_status, connection_status, create_channel, channel_write, sleep_ms,
}
use sentiric_b2bua_service.Effects.Every.{Every-mono}
use sentiric_b2bua_service.Effects.Protocol.{Passes, Keeps, Keeps-frame}
use sentiric_b2bua_service.Ports.{Port}
use sentiric_b2bua_service.RabbitMq.{publish_event_bytes}
use sentiric_b2bua_service.RabbitMq.Compliance.{Publishes, publish_event_bytes-Publishes}

Publishes→Passes :
    (key : String) (payload : Payload) (o : Op) → Publishes key payload o → Passes Port o
Publishes→Passes key payload (basic_publish k p) h = record { free = λ s. tt; still = λ s a. refl }
Publishes→Passes key payload channel_status h = record { free = λ s. tt; still = λ s a. refl }
Publishes→Passes key payload connection_status h = record { free = λ s. tt; still = λ s a. refl }
Publishes→Passes key payload create_channel h = record { free = λ s. tt; still = λ s a. refl }
Publishes→Passes key payload channel_write h = record { free = λ s. tt; still = λ s a. refl }
Publishes→Passes key payload (sleep_ms n) h = record { free = λ s. tt; still = λ s a. refl }
Publishes→Passes key payload _ h = absurd h

pub publish_event_bytes-Port :
    (key : String) (payload : Payload) (Q : List ℕ → Outcome (Unit {0}) → Type 0)
    → ((a : Outcome (Unit {0})) → Q List.[] a)
    → Keeps Port List.[] (publish_event_bytes key payload) Q
publish_event_bytes-Port key payload Q q =
    Keeps-frame Port List.[] (publish_event_bytes key payload) Q
      (Every-mono _ (Publishes→Passes key payload) (publish_event_bytes-Publishes key payload)) refl
      q
