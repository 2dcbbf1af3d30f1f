-- ===== src/Data.antt =====
-- The data of src/sip/store.rs, and the messages of the gRPC services and of the event bus.
use sentiric_b2bua_service.Prelude.{ℕ, String, Option, none}
use sentiric_b2bua_service.Sip.{SocketAddr, SipTransaction}

pub data CallState : Type 0 where
  null trying ringing established terminated : CallState

pub record CallSessionData : Type 0 where
  pub call_id : String
  pub state : CallState
  pub from_uri : String
  pub to_uri : String
  pub rtp_port : ℕ
  pub local_tag : String
  pub caller_tag : String
  pub client_contact : String
  pub proxy_addr : SocketAddr

-- `endpoint` is left out: the source makes each as `RtpEndpoint::new(None)` and never reads it.
pub record CallSession : Type 0 where
  pub session_data : CallSessionData
  pub active_transaction : Option SipTransaction

abbrev pub new_session : CallSessionData → CallSession
new_session d = record { session_data = d; active_transaction = none }

pub record ResolveDialplanRequest : Type 0 where
  pub caller_contact_value : String
  pub destination_number : String

-- The answer of the dialplan service, which the source passes on unread.
pub record Resolution : Type 0 where
  pub encoded : String

pub record AllocatePortRequest : Type 0 where
  pub call_id : String

pub record PlayAudioRequest : Type 0 where
  pub audio_uri : String
  pub server_rtp_port : ℕ
  pub rtp_target_addr : String

pub record ReleasePortRequest : Type 0 where
  pub rtp_port : ℕ

pub record MediaInfo : Type 0 where
  pub caller_rtp_addr : String
  pub server_rtp_port : ℕ

-- The events, without their timestamps. `encode_to_vec` turns them into the published bytes.
pub data Payload : Type 0 where
  call_started :
      (event_type trace_id call_id from_uri to_uri : String)
      → Option Resolution
      → Option MediaInfo
      → Payload
  generic : (event_type trace_id tenant_id : String) (payload_json : String) → Payload
  call_ended : (event_type trace_id call_id reason : String) → Payload
