-- ===== src/Config/Loading.antt =====
-- `AppConfig::load_from_env` of src/config.rs.
pub mod Laws
use sentiric_b2bua_service.Prelude.{ℕ, String, Option, none, some, unwrap_or, ◌==◌}
use sentiric_b2bua_service.Prelude.Text.{parse_u16, parse_port}
use sentiric_b2bua_service.Sip.{SocketAddr, Outcome, ok}
use sentiric_b2bua_service.Fallible.{◌>>=◌, ◌>>◌, required, refuse_if}
use sentiric_b2bua_service.Config.{AppConfig}

-- `std::env::var`; `none` where a variable is not set, or is no text
abbrev pub Vars : Type 0
Vars = String → Option String

-- `format!("[::]:{}", port).parse::<SocketAddr>()`
any_address : String → Option SocketAddr
any_address port = elim (parse_port port) [
  | none ↦ none
  | some n ↦ some (record { ip = "::"; port = n })
]

-- `SIP_SBC_ADVERTISED_PORT`, where a text that is no port counts as one that is not set
unfoldable pub advertised_port : Vars → ℕ
advertised_port vars =
    unwrap_or (parse_u16 (unwrap_or (vars "SIP_SBC_ADVERTISED_PORT") "5060")) 5060

-- `version` is `CARGO_PKG_VERSION`, a text of the build.
unfoldable pub load_from_env : (version : String) → Vars → Outcome AppConfig
unfolding any_address
load_from_env version vars = do
  let grpc_port = unwrap_or (vars "SIP_B2BUA_SERVICE_GRPC_PORT") "13081"
  let http_port = unwrap_or (vars "SIP_B2BUA_SERVICE_HTTP_PORT") "13080"
  let sip_port_str = unwrap_or (vars "SIP_B2BUA_SERVICE_SIP_PORT") "13084"
  sip_port ← required "Geçersiz SIP portu" (parse_u16 sip_port_str)
  grpc_addr ← required "invalid socket address syntax" (any_address grpc_port)
  http_addr ← required "invalid socket address syntax" (any_address http_port)
  let proxy_target = unwrap_or (vars "SIP_PROXY_SERVICE_SIP_TARGET") "sip-proxy-service:13074"
  sbc_target ← required "ZORUNLU: SIP_SBC_SERVICE_SIP_TARGET" (vars "SIP_SBC_SERVICE_SIP_TARGET")
  sbc_public_ip ← required "ZORUNLU: SIP_SBC_SERVICE_PUBLIC_IP" (vars "SIP_SBC_SERVICE_PUBLIC_IP")
  node_ip ← required "ZORUNLU: NODE_IP eksik" (vars "NODE_IP")
  tenant_id ←
      required "[ARCH-COMPLIANCE] TENANT_ID env var zorunludur, tanımlanmamış" (vars "TENANT_ID")
  refuse_if (tenant_id == "") "[ARCH-COMPLIANCE] TENANT_ID boş olamaz"
  media_service_url ← required "MEDIA_SERVICE_URL" (vars "MEDIA_SERVICE_TARGET_GRPC_URL")
  registrar_service_url ← required "REGISTRAR_URL" (vars "SIP_REGISTRAR_SERVICE_TARGET_GRPC_URL")
  dialplan_service_url ← required "DIALPLAN_URL" (vars "DIALPLAN_SERVICE_TARGET_GRPC_URL")
  rabbitmq_url ← required "RABBITMQ_URL" (vars "RABBITMQ_URL")
  redis_url ← required "REDIS_URL" (vars "REDIS_URL")
  cert_path ← required "CERT PATH" (vars "SIP_B2BUA_SERVICE_CERT_PATH")
  key_path ← required "KEY PATH" (vars "SIP_B2BUA_SERVICE_KEY_PATH")
  ca_path ← required "CA PATH" (vars "GRPC_TLS_CA_PATH")
  ok (record {
    grpc_listen_addr = grpc_addr;
    http_listen_addr = http_addr;
    sip_bind_ip = "0.0.0.0";
    sip_port = sip_port;
    media_service_url = media_service_url;
    proxy_service_url = unwrap_or (vars "SIP_PROXY_SERVICE_TARGET_GRPC_URL") "";
    registrar_service_url = registrar_service_url;
    user_service_url = unwrap_or (vars "USER_SERVICE_TARGET_GRPC_URL") "";
    dialplan_service_url = dialplan_service_url;
    rabbitmq_url = rabbitmq_url;
    redis_url = redis_url;
    proxy_sip_addr = proxy_target;
    sbc_sip_addr = sbc_target;
    sbc_public_ip = sbc_public_ip;
    public_ip = node_ip;
    sip_realm = unwrap_or (vars "SIP_SIGNALING_SERVICE_REALM") "sentiric_demo";
    public_sip_port = advertised_port vars;
    env = unwrap_or (vars "ENV") "production";
    rust_log = unwrap_or (vars "RUST_LOG") "info";
    log_format = unwrap_or (vars "LOG_FORMAT") "json";
    service_version = version;
    node_hostname = unwrap_or (vars "NODE_HOSTNAME") "localhost";
    cert_path = cert_path;
    key_path = key_path;
    ca_path = ca_path;
    tenant_id = tenant_id;
    preferred_audio_codec = unwrap_or (vars "PREFERRED_AUDIO_CODEC") "PCMA";
  })
