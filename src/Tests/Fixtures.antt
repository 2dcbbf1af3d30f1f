-- ===== src/Tests/Fixtures.antt =====
-- A small SIP library, a configuration, packets and worlds for the examples.
use sentiric_b2bua_service.Prelude.{
  String, Bool, true, false, Option, none, some, List, [], ◌∷◌, if◌then◌else◌,
}
use sentiric_b2bua_service.Sip
use sentiric_b2bua_service.Sip.{
  SipPacket, SocketAddr, Header, HeaderName, Method, invite, bye, from, to, other_method,
  SipTransaction, TransactionAction, forward_to_app, Outcome, ok, err, ◌=ʰ◌,
}
use sentiric_b2bua_service.Libraries.{Libraries}
use sentiric_b2bua_service.Config.{AppConfig}
use sentiric_b2bua_service.Data.{CallSession, CallSessionData, new_session, established}
use sentiric_b2bua_service.Effects.{
  Env, World, redis_clone, redis_get, resolve_dialplan, media_allocate, send, lookup_host,
  generate_tag, generate_branch_id, channel_status, connection_status, create_channel,
  basic_publish, cache_get, cache_set_state, cache_remove, early_contains, inflight_insert,
  media_play,
}
use sentiric_b2bua_service.Handlers.Calls.{CallHandler}
use sentiric_b2bua_service.Engine.{B2BuaEngine}

abbrev find_header : HeaderName → List Header → Option String
find_header name [] = none
find_header name (h ∷ hs) =
    let rest = find_header name hs in if h.name =ʰ name then some h.value else rest

abbrev pub here_addr : SocketAddr
here_addr = record { ip = "10.0.0.1"; port = 5060 }

abbrev pub config : AppConfig
config = record {
  grpc_listen_addr = here_addr;
  http_listen_addr = here_addr;
  sip_bind_ip = "0.0.0.0";
  sip_port = 13084;
  media_service_url = "http://media";
  proxy_service_url = "http://proxy";
  registrar_service_url = "http://registrar";
  user_service_url = "http://user";
  dialplan_service_url = "http://dialplan";
  rabbitmq_url = "amqp://rabbit";
  redis_url = "redis://redis";
  proxy_sip_addr = "proxy:13074";
  sbc_sip_addr = "sbc:13094";
  sbc_public_ip = "192.0.2.1";
  public_ip = "192.0.2.2";
  sip_realm = "sentiric";
  public_sip_port = 5060;
  env = "test";
  rust_log = "info";
  log_format = "json";
  service_version = "1";
  node_hostname = "node";
  cert_path = "";
  key_path = "";
  ca_path = "";
  tenant_id = "tenant";
  preferred_audio_codec = "PCMA";
}

abbrev packet_of : Method → String → List Header → SipPacket
packet_of m start headers = record { method = m; start = start; headers = headers; body = "" }

-- A library whose transactions open or not, as `opens` says.
abbrev pub lib_where : Bool → Libraries
lib_where opens = record {
  sip = record {
    get_header_value = λ p name. find_header name p.headers;
    is_request = λ p. true;
    is_in_dialog_request = λ p. false;
    new_request = λ m uri. packet_of m uri [];
    create_100_trying = λ p. packet_of (other_method "100") "100" [];
    create_200_ok = λ p. packet_of (other_method "200") "200" p.headers;
    create_error = λ p code reason. packet_of (other_method "error") reason p.headers;
    parse_uri = λ s. some (record { user = some s });
    opens_transaction = λ p. opens;
    check = λ t p. forward_to_app;
    build_sdp = λ b. b.ip;
  };
  profile = record { ptime = 20; codecs = [] };
  to_uppercase = λ s. s;
  is_metadata = λ s. true;
  to_json = λ d. some "json";
  from_json = λ s. none;
  call_id_json = λ s. s;
}

abbrev pub lib : Libraries
lib = lib_where true

abbrev pub handler : CallHandler
handler = record {
  config = config;
  media_mgr = record { config = config };
  event_mgr = record { tenant_id = "tenant" };
}

abbrev pub engine : B2BuaEngine
engine = record { call_handler = handler }

abbrev pub caller_addr : SocketAddr
caller_addr = record { ip = "10.0.0.7"; port = 5060 }

-- A packet of the call "a".
abbrev pub packet : Method → SipPacket
packet m = packet_of m "sip:100@b2bua" (
    record { name = from; value = "sip:1@x;tag=9" }
    ∷ record { name = to; value = "sip:100@x" }
    ∷ record { name = Sip.call_id; value = "a" }
    ∷ [])

abbrev pub session_data : CallSessionData
session_data = record {
  call_id = "a";
  state = established;
  from_uri = "sip:1@x";
  to_uri = "sip:100@x";
  rtp_port = 30100;
  local_tag = "b2bua-1";
  caller_tag = "9";
  client_contact = "<sip:1@10.0.0.7>";
  proxy_addr = caller_addr;
}

abbrev pub session : CallSession
session = new_session session_data

-- An outside whose services answer `served`: the dialplan and the media service succeed or fail,
-- there is no Redis, and the channel to RabbitMQ is up.
abbrev pub outside : Bool → Env
outside served w (cache_get k) = none
outside served w (cache_set_state k s) = none
outside served w (cache_remove k) = none
outside served w (early_contains k) = false
outside served w (inflight_insert k) = false
outside served w redis_clone = false
outside served w (redis_get k) = none
outside served w (resolve_dialplan r) = if served then ok (record { encoded = "" }) else err "down"
outside served w (media_allocate r) = if served then ok 30100 else err "down"
outside served w (media_play r) = ok tt
outside served w (send p a) = ok tt
outside served w (lookup_host h) = some (caller_addr ∷ [])
outside served w (generate_tag p) = "b2bua-1"
outside served w generate_branch_id = "branch"
outside served w channel_status = some true
outside served w connection_status = some true
outside served w create_channel = ok tt
outside served w (basic_publish k e) = ok tt
outside served w _ = tt

abbrev pub env : Env
env = outside true

-- Nothing cached, and the session of the call "a" cached.
abbrev pub empty : World
empty = record { cache = []; early_cancelled = []; invites_in_flight = []; trace = [] }

abbrev pub one_call : World
one_call = record empty { cache = ("a", session) ∷ [] }
