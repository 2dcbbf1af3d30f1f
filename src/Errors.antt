-- ===== src/Errors.antt =====
-- src/error.rs: the service's errors, their texts, and the gRPC status of each.
use Prim.Native.String
use sentiric_b2bua_service.Prelude.{ℕ, String}

-- `tonic::Code`; any but the two that the source gives is known by its number.
pub data Code : Type 0 where
  unavailable internal : Code
  other_code : ℕ → Code

-- `tonic::Status`
pub record Status : Type 0 where
  pub code : Code
  pub message : String

-- An error of another crate is given by the text that it displays.
pub data ServiceError : Type 0 where
  config_error : (displayed : String) → ServiceError
  grpc_transport_error : (displayed : String) → ServiceError
  grpc_status : Status → ServiceError
  sip_signaling_error : (message : String) → ServiceError
  io : (displayed : String) → ServiceError

-- `#[error(...)]`; `show_status` is the display of a `Status`.
pub display : (show_status : Status → String) → ServiceError → String
display show_status (config_error e) = String.◌++◌ "Yapılandırma/Ortam hatası: " e
display show_status (grpc_transport_error e) = String.◌++◌ "gRPC iletişim hatası: " e
display show_status (grpc_status s) = String.◌++◌ "gRPC servis hatası: " (show_status s)
display show_status (sip_signaling_error msg) = String.◌++◌ "SIP sinyalleşme hatası: " msg
display show_status (io e) = String.◌++◌ "I/O hatası: " e

-- `impl From<ServiceError> for Status`; `debug` is the error by `{:#?}`.
pub status_of : (debug : ServiceError → String) → ServiceError → Status
status_of debug (grpc_status s) = s
status_of debug (sip_signaling_error msg) = record {
  code = unavailable;
  message = String.◌++◌ "SIP Sinyalleşme Başarısız: " msg;
}
status_of debug (grpc_transport_error e) = record {
  code = unavailable;
  message = String.◌++◌ "gRPC bağlantı hatası: " e;
}
status_of debug other = record { code = internal; message = debug other }
