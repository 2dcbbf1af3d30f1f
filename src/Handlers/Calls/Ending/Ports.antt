-- ===== src/Handlers/Calls/Ending/Ports.antt =====
-- The ports of the sessions that are taken out of the store.
use sentiric_b2bua_service.Prelude.{String, refl, some, List, [], ◌∷◌}
use sentiric_b2bua_service.Sip.{SipPacket, SocketAddr}
use sentiric_b2bua_service.Libraries.{Libraries}
use sentiric_b2bua_service.Data.{CallSession}
use sentiric_b2bua_service.Effects.{◌>>=◌}
use sentiric_b2bua_service.Effects.Protocol.{Keeps, Keeps-bind}
use sentiric_b2bua_service.Ports.{Port, port_of, Settled}
use sentiric_b2bua_service.Store
use sentiric_b2bua_service.Store.{mark_early_cancelled}
use sentiric_b2bua_service.Store.Ports.{remove-Port, update_state-Port}
use sentiric_b2bua_service.RabbitMq.Ports.{publish_event_bytes-Port}
use sentiric_b2bua_service.Handlers.Events.{publish_call_ended, publish_call_answered}
use sentiric_b2bua_service.Handlers.Media.Ports.{release_port-Port}
use sentiric_b2bua_service.Handlers.Calls.{CallHandler}
use sentiric_b2bua_service.Handlers.Calls.Ending.{
  release_and_report, end_call, process_bye, process_cancel, process_ack, say_bye,
  terminate_session,
}

module _ (lib : Libraries) (self : CallHandler) where
  release_and_report-Port :
      (id reason : String) (s : CallSession) (Q : List _ → Unit {0} → Type 0)
      → Q [] tt
      → Keeps Port (port_of s ∷ []) (release_and_report lib self id reason s) Q
  unfolding release_and_report publish_call_ended
  release_and_report-Port id reason s Q q = Keeps-bind Port _ _ _ _ (
      release_port-Port lib self.media_mgr id (port_of s) [] _
        (Keeps-bind Port [] _ _ _ (publish_event_bytes-Port _ _ _ (λ _. q))))

  end_call-Settled :
      (id reason : String) (s : CallSession)
      → Keeps Port (port_of s ∷ []) (end_call lib self id reason (some s)) Settled
  unfolding end_call
  end_call-Settled id reason s = release_and_report-Port id reason s _ refl

  pub process_bye-Settled :
      (req : SipPacket) (src : SocketAddr) → Keeps Port [] (process_bye lib self req src) Settled
  unfolding process_bye ◌>>=◌
  process_bye-Settled req src = (
    tt,
    λ _.
        Keeps-bind Port [] (Store.remove _) _ _
          (remove-Port _ _ refl (λ s. end_call-Settled _ _ s)),
  )

  pub process_cancel-Settled :
      (req : SipPacket) (src : SocketAddr) → Keeps Port [] (process_cancel lib self req src) Settled
  unfolding process_cancel mark_early_cancelled ◌>>=◌
  process_cancel-Settled req src = (
    tt,
    λ _. (
      tt,
      λ _.
          Keeps-bind Port [] (Store.remove _) _ _
            (remove-Port _ _ refl (λ s. end_call-Settled _ _ s)),
    ),
  )

  say_bye-Settled : (id : String) (s : CallSession) → Keeps Port [] (say_bye lib self id s) Settled
  unfolding say_bye ◌>>=◌
  say_bye-Settled id s = (tt, λ _. (tt, λ _. refl))

  pub terminate_session-Settled :
      (id : String) → Keeps Port [] (terminate_session lib self id) Settled
  unfolding terminate_session
  terminate_session-Settled id = Keeps-bind Port [] (Store.remove id) _ _ (
      remove-Port id _ refl (λ s.
        Keeps-bind Port _ (release_and_report lib self id _ s) _ _
          (release_and_report-Port id _ s _ (say_bye-Settled id s))))

  -- `process_ack` moves no port.
  pub process_ack-Settled : (id : String) → Keeps Port [] (process_ack lib self id) Settled
  unfolding process_ack publish_call_answered
  process_ack-Settled id = Keeps-bind Port [] (Store.update_state lib id _) _ _ (
      update_state-Port lib _ id _ []
        (Keeps-bind Port [] _ _ _ (publish_event_bytes-Port _ _ _ (λ _. refl))))
