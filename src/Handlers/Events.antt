-- ===== src/Handlers/Events.antt =====
-- src/sip/handlers/events.rs: the events of a call. The outcome of a publication is dropped.
pub mod Compliance
use sentiric_b2bua_service.Prelude.{ℕ, String, Option, some}
use sentiric_b2bua_service.Libraries.{Libraries}
use sentiric_b2bua_service.Data.{Resolution, call_started, generic, call_ended}
use sentiric_b2bua_service.Effects.{Prog, ret, ◌>>◌}
use sentiric_b2bua_service.RabbitMq.{publish_event_bytes}

pub record EventManager : Type 0 where
  pub tenant_id : String

unfoldable pub publish_call_started :
    EventManager
    → (call_id : String) (server_port : ℕ) (caller_rtp from to : String) → Option Resolution
    → Prog Unit
publish_call_started mgr call_id server_port caller_rtp from to dialplan_res = do
  publish_event_bytes "call.started" (
      call_started "call.started" call_id call_id from to dialplan_res
        (some (record { caller_rtp_addr = caller_rtp; server_rtp_port = server_port })))
  ret tt

unfoldable pub publish_call_answered : Libraries → EventManager → String → Prog Unit
publish_call_answered lib mgr call_id = do
  publish_event_bytes "call.answered"
      (generic "call.answered" call_id mgr.tenant_id (lib.call_id_json call_id))
  ret tt

unfoldable pub publish_call_ended : EventManager → (call_id reason : String) → Prog Unit
publish_call_ended mgr call_id reason = do
  publish_event_bytes "call.ended" (call_ended "call.ended" call_id call_id reason)
  ret tt
