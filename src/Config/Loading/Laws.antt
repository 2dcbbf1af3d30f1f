-- ===== src/Config/Loading/Laws.antt =====
-- What a configuration that loads is, and when one loads.
use sentiric_b2bua_service.Prelude.{
  String, ◌≡◌, ◌≢◌, sym, ap, ◌∙◌, ◌↔◌, Option, some, unwrap_or, arith, eq_iff, inl, inr,
}
use sentiric_b2bua_service.Prelude.Text.{parse_u16, parse_port}
use sentiric_b2bua_service.Sip.{ok, err}
use sentiric_b2bua_service.Effects.Retry.{Outcome-cases}
use sentiric_b2bua_service.Config.{AppConfig}
use sentiric_b2bua_service.Config.Loading.{Vars, load_from_env, advertised_port}

-- The fields of a configuration that `vars` must give, and what they say.
pub record IsGiven (vars : Vars) (c : AppConfig) : Type 0 where
  pub sip_port : parse_u16 (unwrap_or (vars "SIP_B2BUA_SERVICE_SIP_PORT") "13084") ≡ some c.sip_port
  pub grpc_port :
      parse_port (unwrap_or (vars "SIP_B2BUA_SERVICE_GRPC_PORT") "13081")
      ≡ some c.grpc_listen_addr.port
  pub http_port :
      parse_port (unwrap_or (vars "SIP_B2BUA_SERVICE_HTTP_PORT") "13080")
      ≡ some c.http_listen_addr.port
  pub sbc_sip_addr : vars "SIP_SBC_SERVICE_SIP_TARGET" ≡ some c.sbc_sip_addr
  pub sbc_public_ip : vars "SIP_SBC_SERVICE_PUBLIC_IP" ≡ some c.sbc_public_ip
  pub public_ip : vars "NODE_IP" ≡ some c.public_ip
  pub tenant_id : vars "TENANT_ID" ≡ some c.tenant_id
  pub media_service_url : vars "MEDIA_SERVICE_TARGET_GRPC_URL" ≡ some c.media_service_url
  pub registrar_service_url :
      vars "SIP_REGISTRAR_SERVICE_TARGET_GRPC_URL" ≡ some c.registrar_service_url
  pub dialplan_service_url : vars "DIALPLAN_SERVICE_TARGET_GRPC_URL" ≡ some c.dialplan_service_url
  pub rabbitmq_url : vars "RABBITMQ_URL" ≡ some c.rabbitmq_url
  pub redis_url : vars "REDIS_URL" ≡ some c.redis_url
  pub cert_path : vars "SIP_B2BUA_SERVICE_CERT_PATH" ≡ some c.cert_path
  pub key_path : vars "SIP_B2BUA_SERVICE_KEY_PATH" ≡ some c.key_path
  pub ca_path : vars "GRPC_TLS_CA_PATH" ≡ some c.ca_path
  -- the tenant has a name
  pub named : c.tenant_id ≢ ""

-- The other fields: a variable's text or its default, or fixed.
pub record HasDefaults (version : String) (vars : Vars) (c : AppConfig) : Type 0 where
  pub grpc_ip : c.grpc_listen_addr.ip ≡ "::"
  pub http_ip : c.http_listen_addr.ip ≡ "::"
  pub sip_bind_ip : c.sip_bind_ip ≡ "0.0.0.0"
  pub public_sip_port : c.public_sip_port ≡ advertised_port vars
  pub proxy_sip_addr :
      c.proxy_sip_addr ≡ unwrap_or (vars "SIP_PROXY_SERVICE_SIP_TARGET") "sip-proxy-service:13074"
  pub preferred_audio_codec :
      c.preferred_audio_codec ≡ unwrap_or (vars "PREFERRED_AUDIO_CODEC") "PCMA"
  pub proxy_service_url :
      c.proxy_service_url ≡ unwrap_or (vars "SIP_PROXY_SERVICE_TARGET_GRPC_URL") ""
  pub user_service_url : c.user_service_url ≡ unwrap_or (vars "USER_SERVICE_TARGET_GRPC_URL") ""
  pub sip_realm : c.sip_realm ≡ unwrap_or (vars "SIP_SIGNALING_SERVICE_REALM") "sentiric_demo"
  pub env : c.env ≡ unwrap_or (vars "ENV") "production"
  pub rust_log : c.rust_log ≡ unwrap_or (vars "RUST_LOG") "info"
  pub log_format : c.log_format ≡ unwrap_or (vars "LOG_FORMAT") "json"
  pub service_version : c.service_version ≡ version
  pub node_hostname : c.node_hostname ≡ unwrap_or (vars "NODE_HOSTNAME") "localhost"

-- A configuration that was read from `vars`, by the build `version`.
pub record IsFrom (version : String) (vars : Vars) (c : AppConfig) : Type 0 where
  pub given : IsGiven vars c
  pub defaults : HasDefaults version vars c

load-IsGiven :
    (version : String) (vars : Vars) (c : AppConfig)
    → load_from_env version vars ≡ ok c
    → IsGiven vars c
unfolding load_from_env
load-IsGiven version vars c e = ground (arith, eq_iff c.tenant_id "")

load-HasDefaults :
    (version : String) (vars : Vars) (c : AppConfig)
    → load_from_env version vars ≡ ok c
    → HasDefaults version vars c
unfolding load_from_env
load-HasDefaults version vars c e = ground (arith)

load-IsFrom :
    (version : String) (vars : Vars) (c : AppConfig)
    → load_from_env version vars ≡ ok c
    → IsFrom version vars c
load-IsFrom version vars c e = record {
  given = load-IsGiven version vars c e;
  defaults = load-HasDefaults version vars c e;
}

IsGiven-load :
    (version : String) (vars : Vars) (c : AppConfig) (message : String)
    → IsGiven vars c
    → load_from_env version vars ≡ err message
    → ⊥
unfolding load_from_env
IsGiven-load version vars c message v e = ground (arith, eq_iff c.tenant_id "")

same_value : {A : Type 0} {o : Option A} {a b : A} → o ≡ some a → o ≡ some b → a ≡ b
same_value h k = cc (h, k)

-- The variables describe at most one configuration.
IsFrom-unique :
    (version : String) (vars : Vars) (c d : AppConfig)
    → IsFrom version vars c
    → IsFrom version vars d
    → c ≡ d
IsFrom-unique version vars c d h k = λ i. record {
  grpc_listen_addr = record {
    ip = (h.defaults.grpc_ip ∙ sym k.defaults.grpc_ip) i;
    port = same_value h.given.grpc_port k.given.grpc_port i;
  };
  http_listen_addr = record {
    ip = (h.defaults.http_ip ∙ sym k.defaults.http_ip) i;
    port = same_value h.given.http_port k.given.http_port i;
  };
  sip_bind_ip = (h.defaults.sip_bind_ip ∙ sym k.defaults.sip_bind_ip) i;
  sip_port = same_value h.given.sip_port k.given.sip_port i;
  media_service_url = same_value h.given.media_service_url k.given.media_service_url i;
  proxy_service_url = (h.defaults.proxy_service_url ∙ sym k.defaults.proxy_service_url) i;
  registrar_service_url = same_value h.given.registrar_service_url k.given.registrar_service_url i;
  user_service_url = (h.defaults.user_service_url ∙ sym k.defaults.user_service_url) i;
  dialplan_service_url = same_value h.given.dialplan_service_url k.given.dialplan_service_url i;
  rabbitmq_url = same_value h.given.rabbitmq_url k.given.rabbitmq_url i;
  redis_url = same_value h.given.redis_url k.given.redis_url i;
  proxy_sip_addr = (h.defaults.proxy_sip_addr ∙ sym k.defaults.proxy_sip_addr) i;
  sbc_sip_addr = same_value h.given.sbc_sip_addr k.given.sbc_sip_addr i;
  sbc_public_ip = same_value h.given.sbc_public_ip k.given.sbc_public_ip i;
  public_ip = same_value h.given.public_ip k.given.public_ip i;
  sip_realm = (h.defaults.sip_realm ∙ sym k.defaults.sip_realm) i;
  public_sip_port = (h.defaults.public_sip_port ∙ sym k.defaults.public_sip_port) i;
  env = (h.defaults.env ∙ sym k.defaults.env) i;
  rust_log = (h.defaults.rust_log ∙ sym k.defaults.rust_log) i;
  log_format = (h.defaults.log_format ∙ sym k.defaults.log_format) i;
  service_version = (h.defaults.service_version ∙ sym k.defaults.service_version) i;
  node_hostname = (h.defaults.node_hostname ∙ sym k.defaults.node_hostname) i;
  cert_path = same_value h.given.cert_path k.given.cert_path i;
  key_path = same_value h.given.key_path k.given.key_path i;
  ca_path = same_value h.given.ca_path k.given.ca_path i;
  tenant_id = same_value h.given.tenant_id k.given.tenant_id i;
  preferred_audio_codec =
      (h.defaults.preferred_audio_codec ∙ sym k.defaults.preferred_audio_codec) i;
}

-- `load_from_env` gives a configuration exactly if it is the one that the variables describe: the
-- SIP, gRPC and HTTP ports are ports, the twelve variables that have no default are set, the
-- tenant's is not empty, and every other field is its variable's text or its default.
pub load-ok_iff :
    (version : String) (vars : Vars) (c : AppConfig)
    → load_from_env version vars ≡ ok c ↔ IsFrom version vars c
load-ok_iff version vars c = (
  load-IsFrom version vars c,
  λ v. elim (Outcome-cases (load_from_env version vars)) [
    | inl (d, e) ↦ e ∙ ap ok (IsFrom-unique version vars d c (load-IsFrom version vars d e) v)
    | inr (m, e) ↦ absurd (IsGiven-load version vars c m v.given e)
  ],
)
