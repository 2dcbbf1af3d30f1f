-- ===== src/Tests/Starting.antt =====
-- Configuration, clients, log records and the process at concrete inputs.
use sentiric_b2bua_service.Prelude.{
  ◌≡◌, refl, ◌↔◌, arith, true, none, some, String, List, [], ◌∷◌, ◌<◌,
}
use sentiric_b2bua_service.Sip.{ok, err}
use sentiric_b2bua_service.Config.{AppConfig}
use sentiric_b2bua_service.Config.Loading.{Vars, load_from_env, advertised_port}
use sentiric_b2bua_service.Config.Loading.Laws.{IsFrom, load-ok_iff}
use sentiric_b2bua_service.Clients.{
  Outside, InternalClients, connect, target_url, connect_endpoint, load_tls_config,
  load_server_tls_config,
}
use sentiric_b2bua_service.Clients.Laws.{Connected, connect-ok_iff, channel_to}
use sentiric_b2bua_service.Telemetry.{
  Call, Context, Json, Value, text, record_str, record_u64, record_i64, record_debug, negsuc, info,
  log_record, visit, field_of, float,
}
use sentiric_b2bua_service.Telemetry
use sentiric_b2bua_service.Telemetry.Laws.{Records, IsU64, log_record-Records}
use sentiric_b2bua_service.App.{on_runtime, App, Host, grpc_server, bootstrap, main, run, layer_of}
use sentiric_b2bua_service.App.Laws.{serves, Ready, main-Ready, main-exit_code, Clean}
use sentiric_b2bua_service.Handlers.Calls.Sdp.{extract_rtp_target_from_sdp}
use sentiric_b2bua_service.Handlers.Calls.Sdp.Laws.{shown, target_of, extract-last}
use sentiric_b2bua_service.Prelude.Text.{lines, starts_with, parse_u16, parse_port, replace}
use sentiric_b2bua_service.Prelude.Table.{lookup, erase, insert}
use sentiric_b2bua_service.Tests.Fixtures.{config}

abbrev vars : Vars
unfolding lookup
vars name = lookup name (
    ("SIP_SBC_SERVICE_SIP_TARGET", "sbc:13094")
    ∷ ("SIP_SBC_SERVICE_PUBLIC_IP", "192.0.2.1")
    ∷ ("NODE_IP", "192.0.2.2")
    ∷ ("TENANT_ID", "tenant")
    ∷ ("MEDIA_SERVICE_TARGET_GRPC_URL", "http://media")
    ∷ ("SIP_REGISTRAR_SERVICE_TARGET_GRPC_URL", "https://registrar")
    ∷ ("DIALPLAN_SERVICE_TARGET_GRPC_URL", "dialplan")
    ∷ ("RABBITMQ_URL", "amqp://rabbit")
    ∷ ("REDIS_URL", "redis://redis")
    ∷ ("SIP_B2BUA_SERVICE_CERT_PATH", "cert")
    ∷ ("SIP_B2BUA_SERVICE_KEY_PATH", "key")
    ∷ ("GRPC_TLS_CA_PATH", "ca")
    ∷ ("SIP_SBC_ADVERTISED_PORT", "65536")
    ∷ [])

abbrev loaded : AppConfig
loaded = record config {
  grpc_listen_addr = record { ip = "::"; port = 13081 };
  http_listen_addr = record { ip = "::"; port = 13080 };
  registrar_service_url = "https://registrar";
  dialplan_service_url = "dialplan";
  proxy_service_url = "";
  user_service_url = "";
  proxy_sip_addr = "sip-proxy-service:13074";
  sip_realm = "sentiric_demo";
  env = "production";
  node_hostname = "localhost";
  cert_path = "cert";
  key_path = "key";
  ca_path = "ca";
}

loads : load_from_env "1" vars ≡ ok loaded
unfolding load_from_env vars lookup parse_u16 parse_port advertised_port
loads = refl

load-ok_iff_example : load_from_env "1" vars ≡ ok loaded ↔ IsFrom "1" vars loaded
load-ok_iff_example = load-ok_iff "1" vars loaded

mixed_test : target_url "httpbin:50051" ≡ "httpbin:50051"
unfolding target_url starts_with replace
mixed_test = refl

abbrev files : Outside
files = record { read = λ path. some path; is_uri = λ s. true; tls_error = λ uri tls. none }

abbrev clients : InternalClients
clients = record {
  media = channel_to "cert" "key" "ca" "http://media";
  registrar = channel_to "cert" "key" "ca" "https://registrar";
  user = channel_to "cert" "key" "ca" "";
  dialplan = channel_to "cert" "key" "ca" "dialplan";
}

connects : connect files loaded ≡ ok clients
unfolding connect connect_endpoint load_tls_config
connects = refl

connect-ok_iff_example : connect files loaded ≡ ok clients ↔ Connected files loaded clients
connect-ok_iff_example = connect-ok_iff files loaded clients

abbrev json : Json
json = record { of_f64 = λ f. float f; to_string = λ r. some r.event }

abbrev calls : List Call
calls =
    record_str "event" "SIP_PACKET_RECEIVED"
    ∷ record_debug "sip.call_id" "a"
    ∷ record_u64 "net.src.port" 5060
    ∷ record_i64 "net.src.port" (negsuc 0)
    ∷ []

abbrev ctx : Context
ctx = record { level = info; now = "2026-01-01T00:00:00+00:00"; lookup_current = some 0xbeef }

log_record-Records_example :
    Records json
      (Telemetry.new "b2bua" "1" "test" "node" "tenant")
      ctx
      calls
      (log_record json (Telemetry.new "b2bua" "1" "test" "node" "tenant") ctx calls)
log_record-Records_example =
    log_record-Records json (Telemetry.new "b2bua" "1" "test" "node" "tenant") ctx calls
      (unfold IsU64 in omega arith)

log_record_test :
    (log_record json (Telemetry.new "b2bua" "1" "test" "node" "tenant") ctx calls).trace_id
    ≡ some "a"
unfolding log_record lookup erase visit insert field_of
log_record_test = refl

-- The gRPC server ends first, with an error.
abbrev host : Host
host = record {
  runtime = ok tt;
  vars = vars;
  files = files;
  filter_error = λ s. none;
  join_error = "panicked";
  bind = λ addr. ok tt;
  lookup_host = λ name. err "no address";
  takes_tls = λ tls. true;
  first = grpc_server (err "address in use");
}

abbrev app : App
app = record { config = loaded; filter = "info"; layer = layer_of host loaded }

boots : bootstrap host "1" ≡ ok app
unfolding bootstrap load_from_env vars lookup parse_u16 parse_port advertised_port
boots = refl

serving : serves (main host "1").stages ≡ true
unfolding main on_runtime bootstrap run load_from_env vars lookup parse_u16 parse_port
    advertised_port serves connect connect_endpoint load_tls_config
serving = refl

main-Ready_example : (c : AppConfig) × (clients : InternalClients) × Ready host "1" c clients
main-Ready_example = main-Ready host "1" serving

main-exit_code_example : (main host "1").exit_code ≡ 0 ↔ Clean host "1"
main-exit_code_example = main-exit_code host "1"

-- The gRPC server ended with an error.
crash_test : (main host "1").exit_code ≡ 0
unfolding main on_runtime bootstrap run load_from_env vars lookup parse_u16 parse_port
    advertised_port connect connect_endpoint load_tls_config load_server_tls_config
crash_test = refl

abbrev offer : String
offer =
    "c=IN IP4 10.0.0.1\r\nm=audio 4000 RTP/AVP 8\r\nc=IN IP4  10.0.0.7 \r\nm=audio 30000 RTP/AVP 8\r\n"

extract-last_example :
    (extract_rtp_target_from_sdp offer ≡ shown (target_of (lines offer)))
    × ((target_of (lines offer)).port < 65536)
extract-last_example = extract-last offer
