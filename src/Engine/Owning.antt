-- ===== src/Engine/Owning.antt =====
-- The ports that the tasks of the engine own.
use sentiric_b2bua_service.Prelude.{
  none, List, Option, ℕ, String, ◌≡◌, Bool, true, false, some, [], inl, inr, Bool-cases,
}
use sentiric_b2bua_service.Sip.{
  SipPacket, SocketAddr, Method, invite, ack, bye, cancel, other_method, TransactionAction,
  retransmit, ignore, forward_to_app,
}
use sentiric_b2bua_service.Libraries.{Libraries}
use sentiric_b2bua_service.Effects.{◌>>=◌, ◌>>◌, perform, ret}
use sentiric_b2bua_service.Effects.Protocol.{Keeps-bind, Keeps-mono}
use sentiric_b2bua_service.Ports.{Port}
use sentiric_b2bua_service.Ports.Owner.{Owner, Owns, Port→Owns, get-Owns}
use sentiric_b2bua_service.Store.{try_lock_invite, unlock_invite}
use sentiric_b2bua_service.Handlers.Calls.Ending.Ports.{
  process_bye-Settled, process_cancel-Settled, process_ack-Settled, terminate_session-Settled,
}
use sentiric_b2bua_service.Handlers.Calls.Invite.{process_invite}
use sentiric_b2bua_service.Handlers.Calls.Invite.Owning.{process_invite-Owns}
use sentiric_b2bua_service.Handlers.Calls.Outbound.Ports.{process_outbound_invite-Port}
use sentiric_b2bua_service.Engine.{
  B2BuaEngine, is_ack, action_for, take_action, by_method, invite_request, locked_invite,
  handle_packet, terminate_session, send_outbound_invite,
}

-- The packet is no INVITE within a dialog.
abbrev pub NoReinvite : Libraries → Method → SipPacket → Type 0
NoReinvite lib invite packet = lib.is_in_dialog_request packet ≡ false
NoReinvite lib _ packet = Unit

module _ (lib : Libraries) (engine : B2BuaEngine) where
  unlock-Owns : (id : String) (s : Option (List ℕ)) → Owns s (unlock_invite id)
  unfolding unlock_invite perform
  unlock-Owns id none = (tt, λ _. tt)
  unlock-Owns id (some ps) = (tt, λ _. tt)

  locked_invite-Owns :
      (id : String) (packet : SipPacket) (src : SocketAddr) (locked : Bool)
      → Owns (some []) (locked_invite lib engine id packet src locked)
  unfolding locked_invite
  locked_invite-Owns id packet src true =
      Keeps-bind Owner (some []) (process_invite lib engine.call_handler packet src) _ _ (
        Keeps-mono Owner (some []) _ _ _ (λ s u h. unlock-Owns id s)
          (process_invite-Owns lib engine.call_handler packet src))
  locked_invite-Owns id packet src false = tt

  invite_request-Owns :
      (id : String) (packet : SipPacket) (src : SocketAddr)
      → lib.is_in_dialog_request packet ≡ false
      → Owns (some []) (invite_request lib engine id packet src)
  unfolding invite_request try_lock_invite ◌>>=◌
  invite_request-Owns id packet src e = rw e (tt, λ locked. locked_invite-Owns id packet src locked)

  by_method-Owns :
      (m : Method) (id : String) (packet : SipPacket) (src : SocketAddr)
      → NoReinvite lib m packet
      → Owns (some []) (by_method lib engine m id packet src)
  unfolding by_method
  by_method-Owns invite id packet src e = invite_request-Owns id packet src e
  by_method-Owns bye id packet src e =
      Port→Owns [] _ _ (process_bye-Settled lib engine.call_handler packet src)
  by_method-Owns cancel id packet src e =
      Port→Owns [] _ _ (process_cancel-Settled lib engine.call_handler packet src)
  by_method-Owns ack id packet src e = tt
  by_method-Owns (other_method s) id packet src e = tt

  take_action-Owns :
      (action : TransactionAction) (id : String) (packet : SipPacket) (src : SocketAddr)
      → NoReinvite lib packet.method packet
      → Owns (some []) (take_action lib engine action id packet src)
  unfolding take_action ◌>>=◌
  take_action-Owns (retransmit resp) id packet src e = (tt, λ _. tt)
  take_action-Owns ignore id packet src e = tt
  take_action-Owns forward_to_app id packet src e = elim (Bool-cases (lib.is_request packet)) [
    | inl y ↦ rw y (by_method-Owns packet.method id packet src e)
    | inr n ↦ rw n tt
  ]

  -- A packet's task owns what it stores and releases, until it finds a connection to Redis.
  pub handle_packet-Owns :
      (packet : SipPacket) (src : SocketAddr)
      → NoReinvite lib packet.method packet
      → Owns (some []) (handle_packet lib engine packet src)
  unfolding handle_packet
  handle_packet-Owns packet src e = elim (Bool-cases (is_ack packet.method)) [
    | inl y ↦ rw y (Port→Owns [] _ _ (process_ack-Settled lib engine.call_handler _))
    | inr n ↦ rw n (
        get-Owns lib _ [] _
          λ session. take_action-Owns (action_for lib session packet) _ packet src e)
  ]

  pub terminate_session-Owns : (id : String) → Owns (some []) (terminate_session lib engine id)
  unfolding terminate_session
  terminate_session-Owns id =
      Port→Owns [] _ _ (terminate_session-Settled lib engine.call_handler id)

  pub send_outbound_invite-Owns :
      (id from_uri to_uri : String)
      → Owns (some []) (send_outbound_invite lib engine id from_uri to_uri >> ret tt)
  unfolding send_outbound_invite
  send_outbound_invite-Owns id from_uri to_uri =
      Port→Owns [] _ (λ ps a. Unit)
        (Keeps-bind Port [] _ _ _ (
          Keeps-mono Port [] _ _ _ (λ ps a u. tt)
            (process_outbound_invite-Port lib engine.call_handler id from_uri to_uri)))
