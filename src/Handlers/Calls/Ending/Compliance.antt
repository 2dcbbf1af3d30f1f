-- ===== src/Handlers/Calls/Ending/Compliance.antt =====
-- The handlers that end a call keep the rules.
use sentiric_b2bua_service.Prelude.{String, Option, none, some}
use sentiric_b2bua_service.Sip
use sentiric_b2bua_service.Sip.{SipPacket, SocketAddr}
use sentiric_b2bua_service.Libraries.{Libraries}
use sentiric_b2bua_service.Data.{CallSession, established}
use sentiric_b2bua_service.Effects.{◌>>=◌}
use sentiric_b2bua_service.Effects.Every.{Every, Every-bind, Every-ret}
use sentiric_b2bua_service.Compliance.{Complies}
use sentiric_b2bua_service.Store
use sentiric_b2bua_service.Store.Compliance.{
  remove-Complies, mark_early_cancelled-Complies, update_state-Complies,
}
use sentiric_b2bua_service.Handlers.Events.Compliance.{
  publish_call_ended-Complies, publish_call_answered-Complies,
}
use sentiric_b2bua_service.Handlers.Media.Compliance.{release_port-Complies}
use sentiric_b2bua_service.Handlers.Calls.{CallHandler, header_or_default}
use sentiric_b2bua_service.Handlers.Calls.Ending.{
  release_and_report, end_call, process_bye, process_cancel, process_ack, say_bye, end_and_say_bye,
  terminate_session,
}

module _ (lib : Libraries) (L : String → Type 0) (A : Type 0) (self : CallHandler) where
  release_and_report-Complies :
      (id reason : String) (s : CallSession)
      → Every (Complies lib L A id) (release_and_report lib self id reason s)
  unfolding release_and_report
  release_and_report-Complies id reason s =
      Every-bind _ _ (release_port-Complies lib L A id _ _)
        (λ _. publish_call_ended-Complies lib L A _ id reason)

  end_call-Complies :
      (id reason : String) (o : Option CallSession)
      → Every (Complies lib L A id) (end_call lib self id reason o)
  unfolding end_call
  end_call-Complies id reason none = Every-ret tt
  end_call-Complies id reason (some s) = release_and_report-Complies id reason s

  pub process_bye-Complies :
      (req : SipPacket) (src : SocketAddr)
      → Every
          (Complies lib L A (header_or_default lib req Sip.call_id))
          (process_bye lib self req src)
  unfolding process_bye ◌>>=◌
  process_bye-Complies req src = record {
    all = (
      tt,
      λ _.
          (Every-bind (Store.remove _) _ (remove-Complies lib L A _)
            (λ o. end_call-Complies _ _ o)).all,
    );
  }

  pub process_cancel-Complies :
      (req : SipPacket) (src : SocketAddr)
      → Every
          (Complies lib L A (header_or_default lib req Sip.call_id))
          (process_cancel lib self req src)
  unfolding process_cancel ◌>>=◌
  process_cancel-Complies req src = record {
    all = (
      tt,
      λ _.
          (Every-bind _ _ (mark_early_cancelled-Complies lib L A _) (λ _.
            Every-bind (Store.remove _) _ (remove-Complies lib L A _)
              (λ o. end_call-Complies _ _ o))).all,
    );
  }

  pub process_ack-Complies : (id : String) → Every (Complies lib L A id) (process_ack lib self id)
  unfolding process_ack
  process_ack-Complies id =
      Every-bind _ _ (update_state-Complies lib L A id established)
        (λ _. publish_call_answered-Complies lib L A _ id)

  say_bye-Complies :
      (id : String) (s : CallSession) → Every (Complies lib L A id) (say_bye lib self id s)
  unfolding say_bye ◌>>=◌
  say_bye-Complies id s = record { all = (tt, λ _. (tt, λ _. tt)) }

  end_and_say_bye-Complies :
      (id : String) (o : Option CallSession)
      → Every (Complies lib L A id) (end_and_say_bye lib self id o)
  unfolding end_and_say_bye
  end_and_say_bye-Complies id none = Every-ret tt
  end_and_say_bye-Complies id (some s) =
      Every-bind _ _ (release_and_report-Complies id _ s) (λ _. say_bye-Complies id s)

  pub terminate_session-Complies :
      (id : String) → Every (Complies lib L A id) (terminate_session lib self id)
  unfolding terminate_session
  terminate_session-Complies id =
      Every-bind _ _ (remove-Complies lib L A id) (λ o. end_and_say_bye-Complies id o)
