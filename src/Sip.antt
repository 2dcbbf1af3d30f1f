-- ===== src/Sip.antt =====
-- What the service takes from `sentiric_sip_core`, `sentiric_rtp_core`, `tonic` and `serde_json`,
-- whose code the repository does not hold. The data that the source reads or writes field by field
-- is written out; the functions that it calls are the fields of `SipLibrary`, about which nothing
-- is assumed but what a theorem names.
use sentiric_b2bua_service.Prelude.{ℕ, String, Bool, Option, List, ◌==◌, ◌=ℕ◌}

pub data Method : Type 0 where
  invite ack bye cancel : Method
  other_method : String → Method

pub data HeaderName : Type 0 where
  via from to call_id cseq contact max_forwards route content_type content_length : HeaderName
  other_header : String → HeaderName

header_tag : HeaderName → ℕ
header_tag via = 0
header_tag from = 1
header_tag to = 2
header_tag call_id = 3
header_tag cseq = 4
header_tag contact = 5
header_tag max_forwards = 6
header_tag route = 7
header_tag content_type = 8
header_tag content_length = 9
header_tag (other_header s) = 10

same_header : HeaderName → HeaderName → Bool
unfolding header_tag
same_header (other_header s) (other_header t) = s == t
same_header a b = header_tag a =ℕ header_tag b

-- a.name == b.name
infix 50 ◌=ʰ◌
unfoldable pub ◌=ʰ◌ : HeaderName → HeaderName → Bool
unfolding same_header
a =ʰ b = same_header a b

pub record Header : Type 0 where
  pub name : HeaderName
  pub value : String

-- `start` is what the source never looks at: the request's target, or the status line. The body is
-- the text that its bytes encode: the source writes text to it and reads it by `from_utf8_lossy`.
pub record SipPacket : Type 0 where
  pub method : Method
  pub start : String
  pub headers : List Header
  pub body : String

-- `std::net::SocketAddr`; the address as it is displayed
pub record SocketAddr : Type 0 where
  pub ip : String
  pub port : ℕ

-- A transaction is known by the calls that made it: `SipTransaction::new`, `update_with_response`.
pub record SipTransaction : Type 0 where
  pub request : SipPacket
  pub responses : List SipPacket

pub data TransactionAction : Type 0 where
  retransmit : SipPacket → TransactionAction
  ignore forward_to_app : TransactionAction

pub record SipUri : Type 0 where
  pub user : Option String

pub record CodecConf : Type 0 where
  pub payload_type : ℕ
  pub name : String
  pub rate : ℕ
  pub fmtp : Option String

pub record AudioProfile : Type 0 where
  pub ptime : ℕ
  pub codecs : List CodecConf

-- An `SdpBuilder` is the calls made on it, `codecs` in the order of `add_codec`.
pub record SdpBuilder : Type 0 where
  pub ip : String
  pub port : ℕ
  pub ptime : ℕ
  pub rtcp : Bool
  pub codecs : List CodecConf

-- A `tonic::Request` with the deadline that `set_timeout` gives it and its `x-trace-id`.
pub record Request (A : Type 0) : Type 0 where
  pub message : A
  pub timeout_ms : ℕ
  pub trace_id : Option String

-- The answer of a fallible call; an error is the text that it displays.
pub data Outcome {ℓ} (A : Type ℓ) : Type ℓ where
  ok : A → Outcome A
  err : String → Outcome A

pub record SipLibrary : Type 0 where
  pub get_header_value : SipPacket → HeaderName → Option String
  pub is_request : SipPacket → Bool
  pub is_in_dialog_request : SipPacket → Bool
  pub new_request : Method → String → SipPacket
  pub create_100_trying : SipPacket → SipPacket
  pub create_200_ok : SipPacket → SipPacket
  pub create_error : SipPacket → ℕ → String → SipPacket
  pub parse_uri : String → Option SipUri
  -- whether `SipTransaction::new` succeeds
  pub opens_transaction : SipPacket → Bool
  pub check : Option SipTransaction → SipPacket → TransactionAction
  pub build_sdp : SdpBuilder → String
