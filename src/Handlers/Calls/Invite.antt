-- ===== src/Handlers/Calls/Invite.antt =====
-- `process_invite` and `process_reinvite` of src/sip/handlers/calls.rs.
pub mod Compliance
pub mod Ports
pub mod Owning
pub mod Outcomes
pub mod Runs
pub mod Resolve
pub mod Routes
pub mod Again
pub mod Answers
pub mod Tags
pub mod Announcing
use sentiric_b2bua_service.Prelude.{
  ℕ, zero, suc, ◌+◌, ◌*◌, String, Bool, Option, none, some, [], ◌∷◌, leb, unwrap_or, if◌then◌else◌,
}
use sentiric_b2bua_service.Prelude.Text.{split, second, show}
use sentiric_b2bua_service.Sip.{
  SipPacket, SocketAddr, SipUri, Outcome, ok, err, from, to, call_id, contact,
}
use sentiric_b2bua_service.Libraries.{Libraries}
use sentiric_b2bua_service.Data.{CallSession, CallSessionData, Resolution, established}
use sentiric_b2bua_service.Effects.{
  Prog, ret, abort, perform, ◌>>=◌, ◌>>◌, send, sleep_ms, generate_tag, resolve_dialplan,
}
use sentiric_b2bua_service.Store
use sentiric_b2bua_service.Handlers.Events.{publish_call_started}
use sentiric_b2bua_service.Handlers.Media.{
  traced, max_attempts, first_backoff, allocate_port, set_target, generate_sdp,
}
use sentiric_b2bua_service.Handlers.Calls.{
  CallHandler, concat, header_or_default, change_first, tag_mark, tag_new, tag_again, with_sdp,
  open_transaction,
}
use sentiric_b2bua_service.Handlers.Calls.Sdp.{extract_rtp_target_from_sdp}
use sentiric_b2bua_service.Handlers.Calls.Ending.{terminate_session}

-- What `process_invite` reads from the request before it asks anybody.
pub record Incoming : Type 0 where
  pub call_id : String
  pub from_uri : String
  pub to_uri : String
  pub caller_tag : String
  pub client_contact : String

module _ (lib : Libraries) (self : CallHandler) where
  unfoldable pub incoming : SipPacket → Incoming
  unfolding split
  incoming req =
      let from_uri = header_or_default lib req from in
      record {
        call_id = header_or_default lib req call_id;
        from_uri = from_uri;
        to_uri = header_or_default lib req to;
        caller_tag = unwrap_or (second (split from_uri tag_mark)) "";
        client_contact =
            unwrap_or (lib.get_header_value req contact) (concat ("<" ∷ from_uri ∷ ">" ∷ []));
      }

  -- the unwrap of the fallback, which panics if the library cannot read it
  fallback_uri : Option SipUri → Prog SipUri
  fallback_uri none = abort
  fallback_uri (some uri) = ret uri

  pub parse_to : Option SipUri → Prog SipUri
  unfolding fallback_uri
  parse_to (some uri) = ret uri
  parse_to none = fallback_uri (lib.parse_uri "sip:unknown@sentiric.local")

  -- The loop over `resolve_dialplan`. It ends in the third round at the latest.
  unfoldable pub resolve_loop :
      (fuel attempt backoff : ℕ) (id from_uri to_aor : String) → Prog (Outcome Resolution)
  resolve_loop zero attempt backoff id from_uri to_aor = abort
  resolve_loop (suc fuel) attempt backoff id from_uri to_aor = do
    let attempt' = attempt + 1
    res ← perform (
        resolve_dialplan (
          traced lib id 150
            (record { caller_contact_value = from_uri; destination_number = to_aor })))
    elim res [
      | ok resolution ↦ ret (ok resolution)
      | err e ↦ if leb max_attempts attempt' then ret (err e) else (do
        perform (sleep_ms backoff)
        resolve_loop fuel attempt' (backoff * 2) id from_uri to_aor)
    ]

  pub session_of : Incoming → (rtp_port : ℕ) (local_tag : String) → SocketAddr → CallSessionData
  session_of call rtp_port local_tag src_addr = record {
    call_id = call.call_id;
    state = established;
    from_uri = call.from_uri;
    to_uri = call.to_uri;
    rtp_port = rtp_port;
    local_tag = local_tag;
    caller_tag = call.caller_tag;
    client_contact = call.client_contact;
    proxy_addr = src_addr;
  }

  -- The 200 OK with the tag and the SDP of the new session.
  pub ok_response : SipPacket → (rtp_port : ℕ) (local_tag : String) → SipPacket
  unfolding generate_sdp
  ok_response req rtp_port local_tag =
      let resp = lib.create_200_ok req in
      with_sdp self.config (generate_sdp lib self.media_mgr rtp_port)
        (record resp { headers = change_first to (tag_new local_tag) resp.headers })

  announce :
      Incoming → (rtp_port : ℕ) (target : String) → Resolution → Outcome (Unit {0}) → Prog Unit
  announce call rtp_port target resolution (err e) = ret tt
  announce call rtp_port target resolution (ok _) =
      publish_call_started self.event_mgr call.call_id rtp_port target call.from_uri call.to_uri
        (some resolution)

  -- from the test of `is_early_cancelled` on
  pub finish :
      Incoming
      → SipPacket
      → SocketAddr
      → (rtp_port : ℕ) (target : String) → Resolution
      → Bool
      → Prog Unit
  unfolding announce
  finish call ok_resp src_addr rtp_port target resolution cancelled =
      if cancelled then terminate_session lib self call.call_id else (do
        sent ← perform (send ok_resp src_addr)
        announce call rtp_port target resolution sent)

  pub rtp_target : SipPacket → SocketAddr → String
  unfolding extract_rtp_target_from_sdp show
  rtp_target req src_addr =
      unwrap_or (extract_rtp_target_from_sdp req.body)
        (concat (src_addr.ip ∷ ":" ∷ show 30000 ∷ []))

  -- from the port that the media service gave on
  pub establish : Incoming → SipPacket → SocketAddr → Resolution → (rtp_port : ℕ) → Prog Unit
  unfolding rtp_target ok_response session_of finish
  establish call req src_addr resolution rtp_port = do
    let target = rtp_target req src_addr
    set_target lib self.media_mgr rtp_port target call.call_id
    local_tag ← perform (generate_tag "b2bua")
    let ok_resp = ok_response req rtp_port local_tag
    tx ← open_transaction lib req ok_resp
    Store.insert lib (record {
      session_data = session_of call rtp_port local_tag src_addr;
      active_transaction = some tx;
    })
    cancelled ← Store.is_early_cancelled call.call_id
    finish call ok_resp src_addr rtp_port target resolution cancelled

  pub refuse : SipPacket → SocketAddr → (status : ℕ) (reason : String) → Prog Unit
  refuse req src_addr status reason = do
    perform (send (lib.create_error req status reason) src_addr)
    ret tt

  pub with_port : Incoming → SipPacket → SocketAddr → Resolution → Outcome ℕ → Prog Unit
  unfolding establish refuse
  with_port call req src_addr resolution (ok rtp_port) =
      establish call req src_addr resolution rtp_port
  with_port call req src_addr resolution (err e) = refuse req src_addr 503 "Media Error"

  route_call : Incoming → SipPacket → SocketAddr → Outcome Resolution → Prog Unit
  unfolding with_port refuse
  route_call call req src_addr (ok resolution) = do
    allocated ← allocate_port lib self.media_mgr call.call_id
    with_port call req src_addr resolution allocated
  route_call call req src_addr (err e) = refuse req src_addr 500 "Routing Error"

  unfoldable pub process_invite : SipPacket → SocketAddr → Prog Unit
  unfolding incoming parse_to route_call
  process_invite req src_addr = do
    let call = incoming req
    uri ← parse_to (lib.parse_uri call.to_uri)
    let to_aor = unwrap_or uri.user ""
    perform (send (lib.create_100_trying req) src_addr)
    resolved ← resolve_loop max_attempts 0 first_backoff call.call_id call.from_uri to_aor
    route_call call req src_addr resolved

  pub reinvite_response : SipPacket → CallSessionData → SipPacket
  unfolding generate_sdp
  reinvite_response req d =
      let resp = lib.create_200_ok req in
      with_sdp self.config (generate_sdp lib self.media_mgr d.rtp_port)
        (record resp { headers = change_first to (tag_again d.local_tag) resp.headers })

  unfoldable pub answer_again : SipPacket → SocketAddr → Option CallSession → Prog Unit
  unfolding reinvite_response refuse
  answer_again req src_addr none = refuse req src_addr 481 "Call Does Not Exist"
  answer_again req src_addr (some session) = do
    let ok_resp = reinvite_response req session.session_data
    tx ← open_transaction lib req ok_resp
    Store.insert lib (record session { active_transaction = some tx })
    perform (send ok_resp src_addr)
    ret tt

  unfoldable pub process_reinvite : SipPacket → SocketAddr → Prog Unit
  unfolding answer_again
  process_reinvite req src_addr = do
    session ← Store.get lib (header_or_default lib req call_id)
    answer_again req src_addr session
