-- ===== src/Handlers/Calls.antt =====
-- src/sip/handlers/calls.rs: the call handler, and what its handlers share.
pub mod Sdp
pub mod Ending
pub mod Invite
pub mod Outbound
use Prim.Native.String
use sentiric_b2bua_service.Prelude.{
  String, Bool, true, false, not, List, [], ◌∷◌, ◌++◌, unwrap_or, if◌then◌else◌,
}
use sentiric_b2bua_service.Prelude.Text.{contains, trim, show}
use sentiric_b2bua_service.Sip.{
  HeaderName, Header, SipPacket, SipTransaction, ◌=ʰ◌, contact, content_type, content_length,
}
use sentiric_b2bua_service.Libraries.{Libraries}
use sentiric_b2bua_service.Config.{AppConfig}
use sentiric_b2bua_service.Effects.{Prog, ret, abort}
use sentiric_b2bua_service.Handlers.Events.{EventManager}
use sentiric_b2bua_service.Handlers.Media.{MediaManager}

-- The gRPC clients and the call store are what the actions of `Effects` reach.
pub record CallHandler : Type 0 where
  pub config : AppConfig
  pub media_mgr : MediaManager
  pub event_mgr : EventManager

-- Texts set side by side, as `format!` does.
abbrev pub concat : List String → String
concat [] = ""
concat (s ∷ ss) = String.◌++◌ s (concat ss)

abbrev pub header : HeaderName → String → Header
header name value = record { name = name; value = value }

-- `headers.iter_mut().find(|h| h.name == name)`, and a change of what it finds
unfoldable pub change_first : HeaderName → (String → String) → List Header → List Header
change_first name f [] = []
change_first name f (h ∷ hs) =
    if h.name =ʰ name then record h { value = f h.value } ∷ hs else h ∷ change_first name f hs

-- `headers.retain(|h| h.name != name)`
unfoldable pub without_header : HeaderName → List Header → List Header
without_header name [] = []
without_header name (h ∷ hs) =
    let rest = without_header name hs in if h.name =ʰ name then rest else h ∷ rest

abbrev pub tag_mark : String
tag_mark = ";tag="

-- the `To` value of `process_invite`
unfoldable pub tag_new : String → String → String
unfolding contains trim
tag_new local_tag value =
    let clean_val = trim value in
    if contains clean_val tag_mark then value else concat (clean_val ∷ tag_mark ∷ local_tag ∷ [])

-- the `To` value of `process_reinvite`
unfoldable pub tag_again : String → String → String
unfolding contains trim
tag_again local_tag value =
    if contains value tag_mark then value else concat (trim value ∷ tag_mark ∷ local_tag ∷ [])

abbrev pub contact_uri : AppConfig → String
contact_uri config = concat ("<sip:b2bua@" ∷ config.sbc_public_ip ∷ ":" ∷ "5060" ∷ ">" ∷ [])

-- The 200 OK's headers behind the changed `To`, and its body.
unfoldable pub with_sdp : AppConfig → String → SipPacket → SipPacket
unfolding without_header show
with_sdp config sdp_body ok_resp = record ok_resp {
  headers =
      without_header content_length (
        ok_resp.headers
        ++ header contact (contact_uri config) ∷ header content_type "application/sdp" ∷ [])
      ++ header content_length (show (String.len sdp_body)) ∷ [];
  body = sdp_body;
}

module _ (lib : Libraries) where
  abbrev pub header_or_default : SipPacket → HeaderName → String
  header_or_default req name = unwrap_or (lib.get_header_value req name) ""

  -- `SipTransaction::new(&req).unwrap()`, then `update_with_response`
  unfoldable pub open_transaction : SipPacket → SipPacket → Prog SipTransaction
  open_transaction req ok_resp =
      if lib.opens_transaction req
      then ret (record { request = req; responses = ok_resp ∷ [] })
      else abort
