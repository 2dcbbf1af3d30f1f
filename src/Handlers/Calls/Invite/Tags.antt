-- ===== src/Handlers/Calls/Invite/Tags.antt =====
-- The tags that are drawn while an INVITE is set up.
use sentiric_b2bua_service.Prelude.{ℕ, String, ◌≡◌, refl, false, List, [], ◌∷◌}
use sentiric_b2bua_service.Sip.{SipPacket, SocketAddr, Outcome, ok, err}
use sentiric_b2bua_service.Libraries.{Libraries}
use sentiric_b2bua_service.Data.{Payload, Resolution}
use sentiric_b2bua_service.Effects.{
  Op, Answer, Event, World, Env, run, ◌>>=◌, generate_tag, basic_publish, channel_status,
  connection_status, create_channel, channel_write, sleep_ms,
}
use sentiric_b2bua_service.Effects.Every.{Every, Every-bind, Every-ret, Every-mono}
use sentiric_b2bua_service.Effects.Run.{IsUnseen, run-unseen}
use sentiric_b2bua_service.RabbitMq.Compliance.{Publishes, publish_event_bytes-Publishes}
use sentiric_b2bua_service.Handlers.Events.{publish_call_started}
use sentiric_b2bua_service.Handlers.Calls.{CallHandler}
use sentiric_b2bua_service.Handlers.Calls.Invite.{Incoming, announce, finish}

tag_of : (o : Op) → Answer o → List String → List String
tag_of (generate_tag p) a tags = a ∷ tags
tag_of _ a tags = tags

-- The newest first.
unfoldable pub drawn : List Event → List String
unfolding tag_of
drawn [] = []
drawn (e ∷ es) = tag_of e.op e.answer (drawn es)

Publishes-undrawn :
    (key : String) (payload : Payload) (o : Op) → Publishes key payload o → IsUnseen drawn o
unfolding drawn
Publishes-undrawn key payload (basic_publish k p) h a es = refl
Publishes-undrawn key payload channel_status h a es = refl
Publishes-undrawn key payload connection_status h a es = refl
Publishes-undrawn key payload create_channel h a es = refl
Publishes-undrawn key payload channel_write h a es = refl
Publishes-undrawn key payload (sleep_ms n) h a es = refl
Publishes-undrawn key payload _ h a es = absurd h

module _ (lib : Libraries) (self : CallHandler) (call : Incoming) (port : ℕ) (target : String)
    (r : Resolution) where
  announce-undrawn :
      (o : Outcome (Unit {0})) → Every (IsUnseen drawn) (announce lib self call port target r o)
  unfolding announce publish_call_started
  announce-undrawn (err e) = Every-ret tt
  announce-undrawn (ok u) =
      Every-bind _ _ (Every-mono _ (Publishes-undrawn _ _) (publish_event_bytes-Publishes _ _))
        (λ _. Every-ret tt)

  -- The 200 OK and the event draw no tag.
  pub drawn-finish :
      (env : Env) (resp : SipPacket) (src : SocketAddr) (w : World)
      → drawn (run env (finish lib self call resp src port target r false) w).1.trace
        ≡ drawn w.trace
  unfolding finish drawn ◌>>=◌
  drawn-finish env resp src w =
      run-unseen drawn env _ w (record { all = (λ a es. refl, λ o. (announce-undrawn o).all) })
