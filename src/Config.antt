-- ===== src/Config.antt =====
-- src/config.rs: the configuration of the service.
pub mod Loading
use sentiric_b2bua_service.Prelude.{ℕ, String}
use sentiric_b2bua_service.Sip.{SocketAddr}

pub record AppConfig : Type 0 where
  pub grpc_listen_addr : SocketAddr
  pub http_listen_addr : SocketAddr
  pub sip_bind_ip : String
  pub sip_port : ℕ
  pub media_service_url : String
  pub proxy_service_url : String
  pub registrar_service_url : String
  pub user_service_url : String
  pub dialplan_service_url : String
  pub rabbitmq_url : String
  pub redis_url : String
  pub proxy_sip_addr : String
  pub sbc_sip_addr : String
  pub sbc_public_ip : String
  pub public_ip : String
  pub sip_realm : String
  pub public_sip_port : ℕ
  pub env : String
  pub rust_log : String
  pub log_format : String
  pub service_version : String
  pub node_hostname : String
  pub cert_path : String
  pub key_path : String
  pub ca_path : String
  pub tenant_id : String
  pub preferred_audio_codec : String
