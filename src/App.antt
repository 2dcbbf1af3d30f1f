-- ===== src/App.antt =====
-- src/app.rs and src/main.rs: how the service starts, what it runs, and how it ends.
pub mod Laws
use Prim.Native.String
use sentiric_b2bua_service.Prelude.{
  ℕ, String, Bool, true, false, not, Option, none, some, List, [], ◌∷◌, ◌++◌, unwrap_or, ◌==◌, ◌||◌,
  if◌then◌else◌,
}
use sentiric_b2bua_service.Prelude.Text.{show}
use sentiric_b2bua_service.Sip.{SocketAddr, Outcome, ok, err}
use sentiric_b2bua_service.Fallible.{◌>>=◌, ◌>>◌, refuse_if}
use sentiric_b2bua_service.Config.{AppConfig}
use sentiric_b2bua_service.Config.Loading.{Vars, load_from_env}
use sentiric_b2bua_service.Clients.{
  Outside, InternalClients, ServerTlsConfig, connect, load_server_tls_config,
}
use sentiric_b2bua_service.Engine.{B2BuaEngine}
use sentiric_b2bua_service.Engine
use sentiric_b2bua_service.Telemetry.{SutsFormatter}
use sentiric_b2bua_service.Telemetry

pub record HttpResponse : Type 0 where
  pub status : ℕ
  pub content_type : String
  pub body : String

pub handle_http_request : {Request : Type 0} → Request → HttpResponse
handle_http_request req = record {
  status = 200;
  content_type = "application/json";
  body = "{\"status\":\"ok\", \"service\": \"sip-b2bua-service\"}";
}

-- The layer that formats the log.
pub data Layer : Type 0 where
  suts : SutsFormatter → Layer
  compact : Layer

pub record App : Type 0 where
  pub config : AppConfig
  -- the text of the filter that the log has
  pub filter : String
  pub layer : Layer

-- What the gRPC server comes to, once it serves.
pub data FirstEnded : Type 0 where
  grpc_server : (serve : Outcome (Unit {0})) → FirstEnded
  http_server sip_server : FirstEnded
  -- with what `tokio::signal::ctrl_c` gave
  ctrl_c : (signal : Outcome (Unit {0})) → FirstEnded

-- The operating system and the other crates. `bind` is `SipTransport::new`; `first` is what
-- `select!` takes.
pub record Host : Type 0 where
  -- what the builder of the tokio runtime gives
  pub runtime : Outcome (Unit {0})
  pub vars : Vars
  pub files : Outside
  -- the error of `EnvFilter::try_new`, if any, and the text of tokio's `JoinError`
  pub filter_error : String → Option String
  pub join_error : String
  pub bind : String → Outcome (Unit {0})
  pub lookup_host : String → Outcome (List SocketAddr)
  -- whether the builder of the gRPC server takes the configuration
  pub takes_tls : ServerTlsConfig → Bool
  pub first : FirstEnded

-- What `run` has done.
pub data Stage : Type 0 where
  bound : String → Stage
  warmer_sent : SocketAddr → Stage
  clients_made : InternalClients → Stage
  store_started rabbitmq_started : (url : String) → Stage
  engine_made : B2BuaEngine → Stage
  consumer_started sip_started : Stage
  grpc_started http_started : SocketAddr → Stage
  shutdown_sent : Stage

-- How a task ends, the main one with it: it panics by `expect`, or it returns.
pub data Ended : Type 0 where
  panicked : Ended
  returned : Outcome (Unit {0}) → Ended

-- `error.context(message)`; the chain's other texts are not displayed
abbrev in_context {ℓ} : {A : Type ℓ} → String → Outcome A → Outcome A
in_context message (ok a) = ok a
in_context message (err e) = err message

-- What `main` has done, what it wrote to stderr itself (the message of a panic is Rust's), and its
-- exit code.
pub record Process : Type 0 where
  pub stages : List Stage
  pub stderr : String
  pub exit_code : ℕ

fatal : String → String
fatal e =
    String.◌++◌
      "{\"schema_v\":\"1.0.0\",\"severity\":\"FATAL\",\"event\":\"BOOTSTRAP_FAILED\",\"message\":\""
      (String.◌++◌ e "\"}\n")

-- A panic of the main thread ends a Rust process with 101.
abbrev pub code_of : Ended → ℕ
code_of panicked = 101
code_of (returned (ok _)) = 0
code_of (returned (err e)) = 1

-- format!("{}:{}", config.sip_bind_ip, config.sip_port)
unfoldable pub bind_addr : AppConfig → String
unfolding show
bind_addr config = String.◌++◌ config.sip_bind_ip (String.◌++◌ ":" (show config.sip_port))

unfoldable pub warm : Outcome (List SocketAddr) → List Stage
warm (ok (proxy_addr ∷ addrs)) = warmer_sent proxy_addr ∷ []
warm _ = []

module _ (host : Host) where
  -- `EnvFilter::try_from_default_env().or_else(...)`; both parse RUST_LOG where it is set
  env_filter : AppConfig → Outcome String
  env_filter config =
      let rust_log_env = unwrap_or (host.vars "RUST_LOG") config.rust_log in
      elim (host.filter_error rust_log_env) [ none ↦ ok rust_log_env | some e ↦ err e ]

  pub layer_of : AppConfig → Layer
  layer_of config =
      if config.log_format == "json"
      then suts (
          Telemetry.new "sip-b2bua-service" config.service_version config.env config.node_hostname
            config.tenant_id)
      else compact

  unfoldable pub bootstrap : (version : String) → Outcome App
  unfolding env_filter
  bootstrap version = do
    config ← in_context "Konfigürasyon yüklenemedi" (load_from_env version host.vars)
    filter ← env_filter config
    ok (record { config = config; filter = filter; layer = layer_of config })

  -- The servers and the connections, once the clients are there.
  servers : AppConfig → InternalClients → List Stage
  servers config clients =
      clients_made clients
      ∷ store_started config.redis_url
      ∷ rabbitmq_started config.rabbitmq_url
      ∷ engine_made (Engine.new config)
      ∷ consumer_started
      ∷ sip_started
      ∷ grpc_started config.grpc_listen_addr
      ∷ http_started config.http_listen_addr
      ∷ []

  serve_with : Outcome ServerTlsConfig → Outcome (Unit {0}) → Ended
  serve_with (err e) serve = panicked
  serve_with (ok tls_config) serve = if host.takes_tls tls_config then returned serve else panicked

  -- The task that `tokio::spawn` starts for the gRPC server.
  unfoldable pub grpc_task : AppConfig → Outcome (Unit {0}) → Ended
  unfolding serve_with
  grpc_task config serve = serve_with (load_server_tls_config host.files config) serve

  -- `res?` is an error where the task panicked; an error that it returned is logged.
  ending : Ended → List Stage × Ended
  ending panicked = ([], returned (err host.join_error))
  ending (returned result) = (shutdown_sent ∷ [], returned (ok tt))

  -- The `expect` on the signal panics in the main task.
  unfoldable pub select : AppConfig → FirstEnded → List Stage × Ended
  unfolding grpc_task ending
  select config (grpc_server serve) = ending (grpc_task config serve)
  select config (ctrl_c (err e)) = ([], panicked)
  select config (ctrl_c (ok _)) = (shutdown_sent ∷ [], returned (ok tt))
  select config http_server = (shutdown_sent ∷ [], returned (ok tt))
  select config sip_server = (shutdown_sent ∷ [], returned (ok tt))

  unfoldable pub with_clients : AppConfig → Outcome InternalClients → List Stage × Ended
  unfolding servers select
  with_clients config (err e) = ([], returned (err "gRPC istemcileri yapılandırılamadı"))
  with_clients config (ok clients) =
      let rest = select config host.first in (servers config clients ++ rest.0, rest.1)

  with_transport : AppConfig → Outcome (Unit {0}) → List Stage × Ended
  unfolding with_clients warm
  with_transport config (err e) =
      ([], returned (err (String.◌++◌ "UDP Portuna bağlanılamadı: " (bind_addr config))))
  with_transport config (ok _) =
      let rest = with_clients config (connect host.files config) in
      (bound (bind_addr config) ∷ warm (host.lookup_host config.proxy_sip_addr) ++ rest.0, rest.1)

  unfoldable pub run : AppConfig → List Stage × Ended
  unfolding with_transport
  run config = with_transport config (host.bind (bind_addr config))

  unfoldable pub started : Outcome App → Process
  unfolding run fatal
  started (err e) = record { stages = []; stderr = fatal e; exit_code = 1 }
  started (ok app) =
      let done = run app.config in
      record { stages = done.0; stderr = ""; exit_code = code_of done.1 }

  -- An error that `main` returns is written by Rust, with the exit code 1.
  unfoldable pub on_runtime : (version : String) → Outcome (Unit {0}) → Process
  unfolding bootstrap started
  on_runtime version (err e) = record { stages = []; stderr = ""; exit_code = 1 }
  on_runtime version (ok _) = started (bootstrap version)

  unfoldable pub main : (version : String) → Process
  unfolding on_runtime
  main version = on_runtime version host.runtime
