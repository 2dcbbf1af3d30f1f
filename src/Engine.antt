-- ===== src/Engine.antt =====
-- src/sip/engine.rs: the engine, which gives each packet to a handler.
pub mod Compliance
pub mod Locking
pub mod Owning
use sentiric_b2bua_service.Prelude.{String, Bool, true, false, Option, none, some, if◌then◌else◌}
use sentiric_b2bua_service.Sip.{
  SipPacket, SocketAddr, Method, invite, ack, bye, cancel, call_id, TransactionAction, retransmit,
  ignore, forward_to_app, Outcome,
}
use sentiric_b2bua_service.Libraries.{Libraries}
use sentiric_b2bua_service.Config.{AppConfig}
use sentiric_b2bua_service.Data.{CallSession}
use sentiric_b2bua_service.Effects.{Prog, ret, perform, ◌>>=◌, ◌>>◌, send}
use sentiric_b2bua_service.Store
use sentiric_b2bua_service.Handlers.Calls.{CallHandler, header_or_default}
use sentiric_b2bua_service.Handlers.Calls.Ending
use sentiric_b2bua_service.Handlers.Calls.Ending.{process_bye, process_cancel, process_ack}
use sentiric_b2bua_service.Handlers.Calls.Invite.{process_invite, process_reinvite}
use sentiric_b2bua_service.Handlers.Calls.Outbound.{process_outbound_invite}

pub record B2BuaEngine : Type 0 where
  pub call_handler : CallHandler

pub new : AppConfig → B2BuaEngine
new config = record {
  call_handler = record {
    config = config;
    media_mgr = record { config = config };
    event_mgr = record { tenant_id = config.tenant_id };
  };
}

-- `packet.method == Method::Ack`
is_ack : Method → Bool
is_ack ack = true
is_ack _ = false

action_for : Libraries → Option CallSession → SipPacket → TransactionAction
action_for lib none packet = forward_to_app
action_for lib (some session) packet = lib.check session.active_transaction packet

module _ (lib : Libraries) (self : B2BuaEngine) where
  unfoldable pub send_outbound_invite : (id from_uri to_uri : String) → Prog (Outcome (Unit {0}))
  send_outbound_invite id from_uri to_uri =
      process_outbound_invite lib self.call_handler id from_uri to_uri

  pub terminate_session : String → Prog Unit
  terminate_session id = Ending.terminate_session lib self.call_handler id

  -- An INVITE that opens a dialog, behind the lock on its call id.
  locked_invite : String → SipPacket → SocketAddr → Bool → Prog Unit
  locked_invite id packet src_addr locked =
      if locked
      then (do process_invite lib self.call_handler packet src_addr; Store.unlock_invite id)
      else ret tt

  pub invite_request : String → SipPacket → SocketAddr → Prog Unit
  unfolding locked_invite
  invite_request id packet src_addr =
      if lib.is_in_dialog_request packet
      then process_reinvite lib self.call_handler packet src_addr
      else (do locked ← Store.try_lock_invite id; locked_invite id packet src_addr locked)

  by_method : Method → String → SipPacket → SocketAddr → Prog Unit
  unfolding invite_request
  by_method invite id packet src_addr = invite_request id packet src_addr
  by_method bye id packet src_addr = process_bye lib self.call_handler packet src_addr
  by_method cancel id packet src_addr = process_cancel lib self.call_handler packet src_addr
  by_method _ id packet src_addr = ret tt

  take_action : TransactionAction → String → SipPacket → SocketAddr → Prog Unit
  unfolding by_method
  take_action (retransmit cached_resp) id packet src_addr = do
    perform (send cached_resp src_addr)
    ret tt
  take_action ignore id packet src_addr = ret tt
  take_action forward_to_app id packet src_addr =
      if lib.is_request packet then by_method packet.method id packet src_addr else ret tt

  unfoldable pub handle_packet : SipPacket → SocketAddr → Prog Unit
  unfolding action_for take_action is_ack
  handle_packet packet src_addr =
      let id = header_or_default lib packet call_id in
      if is_ack packet.method then process_ack lib self.call_handler id else (do
        session ← Store.get lib id
        take_action (action_for lib session packet) id packet src_addr)
