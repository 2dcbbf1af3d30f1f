-- ===== src/Handlers/Calls/Outbound.antt =====
-- `process_outbound_invite` of src/sip/handlers/calls.rs.
pub mod Compliance
pub mod Runs
pub mod Ports
pub mod Answers
use Prim.Native.String
use sentiric_b2bua_service.Prelude.{ℕ, String, Option, none, some, List, [], ◌∷◌, ◌++◌}
use sentiric_b2bua_service.Prelude.Text.{show}
use sentiric_b2bua_service.Sip.{
  SipPacket, SocketAddr, Outcome, ok, err, invite, from, to, call_id, cseq, contact, content_type,
  content_length,
}
use sentiric_b2bua_service.Libraries.{Libraries}
use sentiric_b2bua_service.Data.{CallSessionData, new_session, trying}
use sentiric_b2bua_service.Effects.{
  Prog, ret, perform, ◌>>=◌, ◌>>◌, send, lookup_host, generate_tag,
}
use sentiric_b2bua_service.Store
use sentiric_b2bua_service.Handlers.Media.{allocate_port, generate_sdp}
use sentiric_b2bua_service.Handlers.Calls.{CallHandler, concat, header, contact_uri, tag_mark}

module _ (lib : Libraries) (self : CallHandler) where
  pub outbound_request : (id from_uri to_uri local_tag : String) (rtp_port : ℕ) → SipPacket
  unfolding generate_sdp
  outbound_request id from_uri to_uri local_tag rtp_port =
      let packet = lib.new_request invite to_uri in
      let sdp_body = generate_sdp lib self.media_mgr rtp_port in
      record packet {
        headers =
            packet.headers
            ++ header from (concat ("<" ∷ from_uri ∷ ">" ∷ tag_mark ∷ local_tag ∷ []))
              ∷ header to (concat ("<" ∷ to_uri ∷ ">" ∷ []))
              ∷ header call_id id
              ∷ header cseq "1 INVITE"
              ∷ header contact (contact_uri self.config)
              ∷ header content_type "application/sdp"
              ∷ header content_length (show (String.len sdp_body))
              ∷ [];
        body = sdp_body;
      }

  pub outbound_session :
      (id from_uri to_uri local_tag : String) (rtp_port : ℕ) → SocketAddr → CallSessionData
  outbound_session id from_uri to_uri local_tag rtp_port proxy_addr = record {
    call_id = id;
    state = trying;
    from_uri = from_uri;
    to_uri = to_uri;
    rtp_port = rtp_port;
    local_tag = local_tag;
    caller_tag = "";
    client_contact = contact_uri self.config;
    proxy_addr = proxy_addr;
  }

  -- The first address of the proxy, where the lookup succeeds and has one.
  dial :
      SipPacket
      → (SocketAddr → CallSessionData)
      → Option (List SocketAddr)
      → Prog (Outcome (Unit {0}))
  dial request session none = ret (ok tt)
  dial request session (some []) = ret (ok tt)
  dial request session (some (proxy_addr ∷ _)) = do
    Store.insert lib (new_session (session proxy_addr))
    perform (send request proxy_addr)

  call_out : (id from_uri to_uri : String) → Outcome ℕ → Prog (Outcome (Unit {0}))
  unfolding outbound_request outbound_session dial
  call_out id from_uri to_uri (err e) = ret (err e)
  call_out id from_uri to_uri (ok rtp_port) = do
    local_tag ← perform (generate_tag "b2bua-out")
    addrs ← perform (lookup_host self.config.proxy_sip_addr)
    dial (outbound_request id from_uri to_uri local_tag rtp_port)
        (outbound_session id from_uri to_uri local_tag rtp_port) addrs

  unfoldable pub process_outbound_invite : (id from_uri to_uri : String) → Prog (Outcome (Unit {0}))
  unfolding call_out
  process_outbound_invite id from_uri to_uri = do
    allocated ← allocate_port lib self.media_mgr id
    call_out id from_uri to_uri allocated
