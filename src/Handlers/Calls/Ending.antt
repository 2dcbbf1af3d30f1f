-- ===== src/Handlers/Calls/Ending.antt =====
-- `process_bye`, `process_cancel`, `process_ack` and `terminate_session` of
-- src/sip/handlers/calls.rs.
pub mod Compliance
pub mod Ports
pub mod Runs
pub mod Terminate
pub mod Acks
use sentiric_b2bua_service.Prelude.{String, Option, none, some, [], ◌∷◌, ◌++◌, ◌==◌, if◌then◌else◌}
use sentiric_b2bua_service.Prelude.Text.{replace, show}
use sentiric_b2bua_service.Sip.{
  SipPacket, SocketAddr, bye, via, from, to, call_id, cseq, max_forwards, route, content_length,
}
use sentiric_b2bua_service.Libraries.{Libraries}
use sentiric_b2bua_service.Data.{CallSession, CallSessionData, established}
use sentiric_b2bua_service.Effects.{Prog, ret, perform, ◌>>=◌, ◌>>◌, send, generate_branch_id}
use sentiric_b2bua_service.Store
use sentiric_b2bua_service.Handlers.Events.{publish_call_answered, publish_call_ended}
use sentiric_b2bua_service.Handlers.Media.{release_port}
use sentiric_b2bua_service.Handlers.Calls.{CallHandler, concat, header, header_or_default, tag_mark}

-- the `To` of the BYE: the caller, with the tag that it gave
abbrev pub caller_with_tag : CallSessionData → String
caller_with_tag d =
    if d.caller_tag == "" then d.from_uri else concat (d.from_uri ∷ tag_mark ∷ d.caller_tag ∷ [])

module _ (lib : Libraries) (self : CallHandler) where
  -- What a session that was removed leaves to do.
  pub release_and_report : (id reason : String) → CallSession → Prog Unit
  release_and_report id reason session = do
    release_port lib self.media_mgr session.session_data.rtp_port id
    publish_call_ended self.event_mgr id reason

  end_call : (id reason : String) → Option CallSession → Prog Unit
  unfolding release_and_report
  end_call id reason none = ret tt
  end_call id reason (some session) = release_and_report id reason session

  unfoldable pub process_bye : SipPacket → SocketAddr → Prog Unit
  unfolding end_call
  process_bye req src_addr = do
    let id = header_or_default lib req call_id
    perform (send (lib.create_200_ok req) src_addr)
    removed ← Store.remove id
    end_call id "normal_clearing" removed

  unfoldable pub process_cancel : SipPacket → SocketAddr → Prog Unit
  unfolding end_call
  process_cancel req src_addr = do
    let id = header_or_default lib req call_id
    perform (send (lib.create_200_ok req) src_addr)
    Store.mark_early_cancelled id
    removed ← Store.remove id
    end_call id "cancelled" removed

  unfoldable pub process_ack : String → Prog Unit
  process_ack id = do
    Store.update_state lib id established
    publish_call_answered lib self.event_mgr id

  -- The BYE that `terminate_session` sends to the caller.
  unfoldable pub bye_request : (id branch : String) → CallSessionData → SipPacket
  unfolding replace show
  bye_request id branch d =
      let packet = lib.new_request bye (replace (replace d.client_contact "<" "") ">" "") in
      let local = concat (
        "SIP/2.0/UDP "
        ∷ self.config.public_ip
        ∷ ":"
        ∷ show self.config.sip_port
        ∷ ";branch="
        ∷ branch
        ∷ ";rport"
        ∷ []) in
      record packet {
        headers =
            packet.headers
            ++ header via local
              ∷ header max_forwards "70"
              ∷ header to (caller_with_tag d)
              ∷ header from (concat (d.to_uri ∷ tag_mark ∷ d.local_tag ∷ []))
              ∷ header call_id id
              ∷ header cseq "999 BYE"
              ∷ header route
                  (concat ("<sip:sbc@" ∷ self.config.sbc_public_ip ∷ ":" ∷ "5060" ∷ ";lr>" ∷ []))
              ∷ header content_length "0"
              ∷ [];
      }

  say_bye : String → CallSession → Prog Unit
  unfolding bye_request
  say_bye id session = do
    branch ← perform generate_branch_id
    perform (send (bye_request id branch session.session_data) session.session_data.proxy_addr)
    ret tt

  end_and_say_bye : String → Option CallSession → Prog Unit
  unfolding release_and_report say_bye
  end_and_say_bye id none = ret tt
  end_and_say_bye id (some session) = do
    release_and_report id "system_terminated" session
    say_bye id session

  unfoldable pub terminate_session : String → Prog Unit
  unfolding end_and_say_bye
  terminate_session id = do removed ← Store.remove id; end_and_say_bye id removed
