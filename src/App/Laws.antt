-- ===== src/App/Laws.antt =====
-- What the process of src/main.rs runs, and how it ends.
use sentiric_b2bua_service.Prelude.{
  String, ◌≡◌, refl, Bool, true, false, ◌||◌, ◌↔◌, inl, inr, List, [], ◌∷◌, ◌++◌, arith,
}
use sentiric_b2bua_service.Sip.{SocketAddr, Outcome, ok, err}
use sentiric_b2bua_service.Effects.Retry.{Outcome-cases}
use sentiric_b2bua_service.Config.{AppConfig}
use sentiric_b2bua_service.Config.Loading.{load_from_env}
use sentiric_b2bua_service.Config.Loading.Laws.{IsFrom, load-ok_iff}
use sentiric_b2bua_service.Clients.{
  Outside, InternalClients, ServerTlsConfig, connect, load_server_tls_config,
}
use sentiric_b2bua_service.Clients.Laws.{Connected, connect-Connected}
use sentiric_b2bua_service.App.{
  App, Host, Stage, warmer_sent, bound, FirstEnded, grpc_server, ctrl_c, http_server, sip_server,
  bootstrap, bind_addr, run, main, started, on_runtime, warm, with_clients, select, grpc_task,
}

-- A stage that serves a call, or reaches another service but by the socket alone.
pub is_serving : Stage → Bool
is_serving (bound a) = false
is_serving (warmer_sent a) = false
is_serving _ = true

unfoldable pub serves : List Stage → Bool
unfolding is_serving
serves [] = false
serves (s ∷ ss) = is_serving s || serves ss

-- What ends first does not end the process with an error: if it is the gRPC server, its builder
-- takes the TLS configuration; if it is ctrl_c, the signal could be awaited.
pub Survives : (takes_tls : Bool) → FirstEnded → Type 0
Survives takes_tls (grpc_server serve) = takes_tls ≡ true
Survives takes_tls (ctrl_c signal) = signal ≡ ok tt
Survives takes_tls http_server = Unit
Survives takes_tls sip_server = Unit

-- Where the clients have their certificates, so has the server.
abbrev pub server_tls :
    {out : Outside} {config : AppConfig} {c : InternalClients}
    → Connected out config c
    → ServerTlsConfig
server_tls k = record { identity = record { cert = k.cert; key = k.key }; client_ca_root = k.ca }

Connected-server :
    (out : Outside) (config : AppConfig) (c : InternalClients) (k : Connected out config c)
    → load_server_tls_config out config ≡ ok (server_tls k)
unfolding load_server_tls_config
Connected-server out config c k = rw (k.cert_read, k.key_read, k.ca_read) refl

module _ (host : Host) (version : String) where
  -- What has to be there before anything is served.
  pub record Ready (config : AppConfig) (clients : InternalClients) : Type 0 where
    pub loaded : IsFrom version host.vars config
    pub bound : host.bind (bind_addr config) ≡ ok tt
    pub connected : Connected host.files config clients

  booted :
      (app : App)
      → bootstrap host version ≡ ok app
      → load_from_env version host.vars ≡ ok app.config
  unfolding bootstrap
  booted app e = elim (Outcome-cases (load_from_env version host.vars)) [
    | inl (config, l) ↦ ground (arith, e, l)
    | inr (m, l) ↦ absurd (ground (arith, e, l))
  ]

  warm-serves : (o : Outcome (List SocketAddr)) → serves (warm o ++ []) ≡ false
  unfolding warm serves
  warm-serves (ok []) = refl
  warm-serves (ok (a ∷ as_)) = refl
  warm-serves (err e) = refl

  unserved_clients :
      (m : String) (config : AppConfig)
      → host.bind (bind_addr config) ≡ ok tt
      → connect host.files config ≡ err m
      → serves (run host config).0 ≡ true
      → ⊥
  unfolding run with_clients serves
  unserved_clients m config b e s =
      absurd (ground (arith, b, e, s, warm-serves (host.lookup_host config.proxy_sip_addr)))

  run-serves :
      (config : AppConfig)
      → serves (run host config).0 ≡ true
      → (host.bind (bind_addr config) ≡ ok tt)
        × ((c : InternalClients) × (connect host.files config ≡ ok c))
  unfolding run serves
  run-serves config s = elim (Outcome-cases (host.bind (bind_addr config))) [
    | inl (u, b) ↦ elim (Outcome-cases (connect host.files config)) [
      | inl (c, e) ↦ (b, (c, e))
      | inr (m, e) ↦ absurd (unserved_clients m config b e s)
    ]
    | inr (m, b) ↦ absurd (ground (arith, b, s))
  ]

  unbooted-serves :
      (m : String) × (bootstrap host version ≡ err m) → serves (main host version).stages ≡ true → ⊥
  unfolding main on_runtime started serves
  unbooted-serves (m, b) s = elim (Outcome-cases host.runtime) [
    | inl (u, t) ↦ absurd (ground (arith, s, b, t))
    | inr (e, t) ↦ absurd (ground (arith, s, t))
  ]

  booted-serves :
      (app : App)
      → bootstrap host version ≡ ok app
      → serves (main host version).stages ≡ true
      → serves (run host app.config).0 ≡ true
  unfolding main on_runtime started serves
  booted-serves app b s = elim (Outcome-cases host.runtime) [
    | inl (u, t) ↦ ground (arith, s, b, t)
    | inr (e, t) ↦ absurd (ground (arith, s, t))
  ]

  -- A process that serves calls, or connects to another service, has a configuration that the
  -- variables of its environment describe, its UDP port bound, and four clients that are channels
  -- with TLS, of certificates that were read.
  pub main-Ready :
      serves (main host version).stages ≡ true
      → (config : AppConfig) × (clients : InternalClients) × Ready config clients
  unfolding main started serves
  main-Ready s = elim (Outcome-cases (bootstrap host version)) [
    | inr (m, b) ↦ absurd (unbooted-serves (m, b) s)
    | inl (app, b) ↦
        let on = run-serves app.config (booted-serves app b s) in
        (
          app.config,
          on.1.0,
          record {
            loaded = (load-ok_iff version host.vars app.config).0 (booted app b);
            bound = on.0;
            connected = connect-Connected host.files app.config on.1.0 on.1.1;
          },
        )
  ]

  -- A process that has its runtime, boots, binds its port, makes its clients, and loses neither the
  -- gRPC server's task nor the wait for ctrl_c by a panic.
  pub record Clean : Type 0 where
    pub runtime : host.runtime ≡ ok tt
    pub app : App
    pub clients : InternalClients
    pub boots : bootstrap host version ≡ ok app
    pub binds : host.bind (bind_addr app.config) ≡ ok tt
    pub connects : connect host.files app.config ≡ ok clients
    pub certified : Connected host.files app.config clients
    pub survives : Survives (host.takes_tls (server_tls certified)) host.first

  Clean-exit_code : Clean → (main host version).exit_code ≡ 0
  unfolding main on_runtime started run with_clients select grpc_task Survives
  Clean-exit_code k = ground (
    arith,
    k.runtime,
    k.boots,
    k.binds,
    k.connects,
    k.survives,
    Connected-server host.files k.app.config k.clients k.certified,
  )

  exit_code-Clean : (main host version).exit_code ≡ 0 → Clean
  unfolding main on_runtime started run with_clients select grpc_task Survives
  exit_code-Clean e = elim (Outcome-cases host.runtime) [
    | inr (m, t) ↦ absurd (ground (arith, t, e))
    | inl (u, t) ↦ elim (Outcome-cases (bootstrap host version)) [
      | inr (m, b) ↦ absurd (ground (arith, t, b, e))
      | inl (app, b) ↦ elim (Outcome-cases (host.bind (bind_addr app.config))) [
        | inr (m, d) ↦ absurd (ground (arith, t, b, d, e))
        | inl (u, d) ↦ elim (Outcome-cases (connect host.files app.config)) [
          | inr (m, c) ↦ absurd (ground (arith, t, b, d, c, e))
          | inl (clients, c) ↦
              let k = connect-Connected host.files app.config clients c in
              record {
                runtime = t;
                app = app;
                clients = clients;
                boots = b;
                binds = d;
                connects = c;
                certified = k;
                survives =
                    ground (arith, t, b, d, c, e, Connected-server host.files app.config clients k);
              }
        ]
      ]
    ]
  ]

  -- The process exits with 0 exactly if its runtime is built, it boots, binds its UDP port and
  -- makes its clients, and what ends first is neither the gRPC server by refusing the TLS
  -- configuration nor ctrl_c with an error: so also where the gRPC server returns an error, or the
  -- HTTP server ends.
  pub main-exit_code : (main host version).exit_code ≡ 0 ↔ Clean
  main-exit_code = (exit_code-Clean, Clean-exit_code)
