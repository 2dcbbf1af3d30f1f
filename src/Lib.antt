-- ===== src/Lib.antt =====
-- The B2BUA service: a SIP back-to-back user agent that takes calls, gives each an RTP port of the
-- media service, and keeps their sessions in memory and in Redis.
--
-- The program. `SipServer::run` (src/sip/server.rs) starts a task for each packet, which runs
-- `B2BuaEngine::handle_packet` (src/sip/engine.rs); the engine looks the call up in `CallStore`
-- (src/sip/store.rs), asks the SIP library whether the packet is a retransmission, and gives it to
-- `CallHandler` (src/sip/handlers/calls.rs), which uses `MediaManager` (src/sip/handlers/media.rs) and
-- `EventManager` (src/sip/handlers/events.rs), and through it `RabbitMqClient` (src/rabbitmq.rs). Two
-- more kinds of task end a call (the consumer of src/rabbitmq.rs) and place one (src/grpc/service.rs).
--
-- The model. An async handler is a program (`Prog` of Effects) over atomic actions `Op`, one for each
-- access to a shared map and each call of an outside service, so that every `.await` lies between two
-- actions. `World` holds the maps of `CallStore` and the trace of what was done. What the outside
-- answers is an argument: `Env` gives it in a run with no other task in between (`run`), and in Tasks
-- each step of a task may have an environment of its own. A panic is `abort`.
--
-- Files:
--   * Sip, Libraries: the data and the functions of other crates; the functions are parameters.
--   * Config, Data: the records of src/config.rs and src/sip/store.rs, and the messages.
--   * Effects: actions, programs, runs; Effects/Run, Effects/Every and Effects/Protocol have the ways to
--     prove about a run, about every action, and about a protocol that a task keeps; Effects/Retry says
--     what a retrying loop comes to.
--   * Store: the methods of `CallStore`, by their names; Store/Contract: the abstract store; Store/Reload:
--     a session read back from Redis by the next process. Redis: what a removal did to Redis.
--   * RabbitMq: `publish_event_bytes` and `ensure_healthy_channel`; RabbitMq/Consumer:
--     `start_termination_consumer`. Connecting: the tasks that connect to RabbitMQ and Redis.
--   * Handlers/Events, Handlers/Media, Handlers/Calls: the managers and the call handler. Handlers/Calls
--     has Sdp (`extract_rtp_target_from_sdp`), Ending (`process_bye`, `process_cancel`, `process_ack`,
--     `terminate_session`), Invite (`process_invite`, `process_reinvite`) and Outbound
--     (`process_outbound_invite`).
--   * Engine: `handle_packet`, `terminate_session`, `send_outbound_invite`.
--   * Server: `SipServer::run`, by the packets that it starts a task for.
--   * Config/Loading: `AppConfig::load_from_env`. Clients: src/grpc/client.rs and src/tls.rs. Telemetry:
--     src/telemetry.rs. Errors: src/error.rs. Fallible: `?` in a chain of fallible steps.
--   * App: `App::bootstrap` and `App::run` of src/app.rs, and `main` of src/main.rs, as the stages that are
--     reached and the exit code.
--   * Service: the RPCs `initiate_call` and `transfer_call` (src/grpc/service.rs).
--   * Tasks: the running service as steps; Tasks/Exclusion, Tasks/Panic: its locks; Tasks/Balance: its
--     ports; Tasks/Alone: one task running for a while.
--   * Compliance, Locks, Ports: the rules on requests and entries, the protocol of the INVITE lock, and
--     the ownership of ports. Modules of these names below a component are about that component.
--   * Handlers/Media/Offer, Handlers/Calls/Invite/Answers, Handlers/Calls/Outbound/Answers: the SDP and the
--     messages that the service writes, described apart from the code that fills them in.
--   * Prelude: Boolean tests, the string functions of Rust's `str`, maps and sets as lists.
--   * Tests: the theorems at concrete inputs.
--
-- Bounds. The loops over `resolve_dialplan` and `allocate_port` leave at the third round, so they take
-- three rounds of fuel. `for _attempt in 0..3` of `publish_event_bytes` is recursion on the rounds
-- left. `rtp_port as u16` is `% 2 ^ 16`.
--
-- The listener, the consumer and the tasks that connect loop for as long as the service runs: they
-- are functions of the list of what their rounds find, and such a list is as long as one likes.
--
-- Not modelled: the SIP parser, transport and transaction check, tonic, lapin, serde and prost, which
-- are other crates, and the file system and the sockets. What the service logs of itself is left out of
-- its handlers. In a handler, whether Redis and RabbitMQ are connected is an answer of the outside, at
-- each look; the publisher confirm that `basic_publish` gives is dropped by the source, and so here. Left out too: the timestamps of events, and `CallSession::endpoint`, which is never read.
-- `release_port` spawns its request as a task; here it is an action of the caller. The body of a packet
-- is text. In Tasks each call that the consumer ends has a task of its own. The consumer's queue is
-- declared and bound before it is consumed, whatever that answers.
mod Prelude
pub mod Sip
pub mod Fallible
pub mod Config
pub mod Data
pub mod Libraries
pub mod Effects
pub mod Store
pub mod Compliance
pub mod Locks
pub mod Ports
pub mod Redis
pub mod RabbitMq
pub mod Handlers
pub mod Engine
pub mod Clients
pub mod Telemetry
pub mod Connecting
pub mod Server
pub mod Errors
pub mod Service
pub mod App
pub mod Tasks
pub mod Tests
