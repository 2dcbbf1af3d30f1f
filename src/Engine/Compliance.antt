-- ===== src/Engine/Compliance.antt =====
-- What a packet makes the service do, whoever answers and whatever runs beside it.
use sentiric_b2bua_service.Prelude.{String, ◌≡◌, Bool, refl}
use sentiric_b2bua_service.Sip
use sentiric_b2bua_service.Sip.{
  SipPacket, SocketAddr, Method, invite, ack, bye, cancel, other_method, TransactionAction,
  retransmit, ignore, forward_to_app, Outcome,
}
use sentiric_b2bua_service.Libraries.{Libraries}
use sentiric_b2bua_service.Effects.{◌>>=◌}
use sentiric_b2bua_service.Effects.Every.{Every, Every-bind, Every-ret, Every-if}
use sentiric_b2bua_service.Compliance.{Complies}
use sentiric_b2bua_service.Store
use sentiric_b2bua_service.Store.Compliance.{
  get-Complies, try_lock_invite-Complies, unlock_invite-Complies,
}
use sentiric_b2bua_service.Handlers.Calls.{header_or_default}
use sentiric_b2bua_service.Handlers.Calls.Ending.Compliance.{
  process_bye-Complies, process_cancel-Complies, process_ack-Complies,
}
use sentiric_b2bua_service.Handlers.Calls.Invite.Compliance.{
  process_invite-Complies, process_reinvite-Complies,
}
use sentiric_b2bua_service.Engine.{
  B2BuaEngine, locked_invite, invite_request, by_method, take_action, action_for, is_ack,
  handle_packet,
}

module _ (lib : Libraries) (self : B2BuaEngine) (packet : SipPacket) (src : SocketAddr) where
  abbrev id : String
  id = header_or_default lib packet Sip.call_id

  abbrev Own : String → Type 0
  Own k = k ≡ id

  locked_invite-Complies :
      (locked : Bool)
      → Every (Complies lib Own Unit id) (locked_invite lib self id packet src locked)
  unfolding locked_invite
  locked_invite-Complies locked =
      Every-if locked _ _
        (Every-bind _ _ (process_invite-Complies lib Own Unit _ tt packet src)
          (λ _. unlock_invite-Complies lib Own Unit id refl))
        (Every-ret tt)

  invite_request-Complies : Every (Complies lib Own Unit id) (invite_request lib self id packet src)
  unfolding invite_request
  invite_request-Complies =
      Every-if (lib.is_in_dialog_request packet) _ _
        (process_reinvite-Complies lib Own Unit _ packet src)
        (Every-bind _ _ (try_lock_invite-Complies lib Own Unit id refl) locked_invite-Complies)

  by_method-Complies :
      (m : Method) → Every (Complies lib Own Unit id) (by_method lib self m id packet src)
  unfolding by_method
  by_method-Complies invite = invite_request-Complies
  by_method-Complies bye = process_bye-Complies lib Own Unit _ packet src
  by_method-Complies cancel = process_cancel-Complies lib Own Unit _ packet src
  by_method-Complies ack = Every-ret tt
  by_method-Complies (other_method m) = Every-ret tt

  take_action-Complies :
      (a : TransactionAction)
      → Every (Complies lib Own Unit id) (take_action lib self a id packet src)
  unfolding take_action ◌>>=◌
  take_action-Complies (retransmit resp) = record { all = (tt, λ _. tt) }
  take_action-Complies ignore = Every-ret tt
  take_action-Complies forward_to_app =
      Every-if (lib.is_request packet) _ _ (by_method-Complies packet.method) (Every-ret tt)

  -- Whatever a packet makes a handler do, whatever the outside answers and whatever other tasks do
  -- in between: each gRPC request has its deadline, and the call id as trace id where that can be
  -- one; each event goes out under its own type and with the call id as trace id; a session written
  -- to Redis expires after a day; and the entries that it reads or removes, in the maps of the
  -- store and in Redis, are those of the packet's call id, as are the INVITE locks that it takes or
  -- gives back.
  pub handle_packet-Complies :
      Every
        (Complies lib
          (λ k. k ≡ header_or_default lib packet Sip.call_id)
          Unit
          (header_or_default lib packet Sip.call_id))
        (handle_packet lib self packet src)
  unfolding handle_packet
  handle_packet-Complies =
      Every-if (is_ack packet.method) _ _ (process_ack-Complies lib Own Unit _ id) (
        Every-bind (Store.get lib id) _ (get-Complies lib Own Unit id)
          (λ s. take_action-Complies (action_for lib s packet)))
