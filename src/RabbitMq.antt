-- ===== src/RabbitMq.antt =====
-- src/rabbitmq.rs: publishing an event. What the task that connects has come to, and the broker,
-- are outside: each look at the channel or the connection has an answer of its own.
pub mod Compliance
pub mod Ports
pub mod Runs
pub mod Report
pub mod Consumer
use sentiric_b2bua_service.Prelude.{ℕ, zero, suc, String, Bool, true, Option, none, some}
use sentiric_b2bua_service.Sip.{Outcome, ok, err}
use sentiric_b2bua_service.Data.{Payload}
use sentiric_b2bua_service.Effects.{
  Prog, ret, perform, ◌>>=◌, ◌>>◌, sleep_ms, channel_status, connection_status, create_channel,
  channel_write, basic_publish,
}

abbrev pub dead : Outcome (Unit {0})
dead = err "RabbitMQ Connection is dead."

abbrev pub failed : Outcome (Unit {0})
failed = err "RabbitMQ publish başarısız"

abbrev pub max_retries : ℕ
max_retries = 3

restore_channel : Outcome (Unit {0}) → Prog (Outcome (Unit {0}))
restore_channel (err e) = ret (err e)
restore_channel (ok _) = do perform channel_write; ret (ok tt)

recreate_channel : Option Bool → Prog (Outcome (Unit {0}))
unfolding restore_channel
recreate_channel (some true) = do created ← perform create_channel; restore_channel created
recreate_channel _ = ret dead

channel_or_recreate : Option Bool → Prog (Outcome (Unit {0}))
unfolding recreate_channel
channel_or_recreate (some true) = ret (ok tt)
channel_or_recreate _ = do connection ← perform connection_status; recreate_channel connection

unfoldable pub ensure_healthy_channel : Prog (Outcome (Unit {0}))
unfolding channel_or_recreate
ensure_healthy_channel = do channel ← perform channel_status; channel_or_recreate channel

-- One round of the loop; `none` goes on with the next.
try_publish : String → Payload → Option Bool → Prog (Option (Outcome (Unit {0})))
try_publish routing_key payload none = ret none
try_publish routing_key payload (some _) = do
  result ← perform (basic_publish routing_key payload)
  elim result [ ok _ ↦ ret (some (ok tt)) | err _ ↦ (do perform (sleep_ms 100); ret none) ]

attempt : String → Payload → Prog (Option (Outcome (Unit {0})))
unfolding ensure_healthy_channel try_publish
attempt routing_key payload = do
  healthy ← ensure_healthy_channel
  elim healthy [
    | err _ ↦ (do perform (sleep_ms 200); ret none)
    | ok _ ↦ (do channel ← perform channel_status; try_publish routing_key payload channel)
  ]

-- `for _attempt in 0..MAX_RETRIES`, over the rounds that are left
publish_loop : ℕ → String → Payload → Prog (Outcome (Unit {0}))
unfolding attempt
publish_loop zero routing_key payload = ret failed
publish_loop (suc rounds) routing_key payload = do
  outcome ← attempt routing_key payload
  elim outcome [ some result ↦ ret result | none ↦ publish_loop rounds routing_key payload ]

unfoldable pub publish_event_bytes : String → Payload → Prog (Outcome (Unit {0}))
unfolding publish_loop
publish_event_bytes routing_key payload = do
  channel ← perform channel_status
  elim channel [ none ↦ ret (ok tt) | some _ ↦ publish_loop max_retries routing_key payload ]
