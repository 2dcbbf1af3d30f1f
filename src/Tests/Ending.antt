-- ===== src/Tests/Ending.antt =====
-- The ends of calls at concrete inputs.
use sentiric_b2bua_service.Prelude.{String, ◌≡◌, refl, ◌∷◌}
use sentiric_b2bua_service.Sip
use sentiric_b2bua_service.Sip.{bye, cancel}
use sentiric_b2bua_service.Effects.{run}
use sentiric_b2bua_service.Prelude.Table.{lookup}
use sentiric_b2bua_service.Ports.{released, sent}
use sentiric_b2bua_service.Handlers.Calls.{header_or_default}
use sentiric_b2bua_service.Handlers.Calls.Ending.{
  process_ack, process_bye, process_cancel, terminate_session,
}
use sentiric_b2bua_service.Handlers.Calls.Ending.Acks.{Acked, process_ack-Acked}
use sentiric_b2bua_service.Handlers.Calls.Ending.Runs.{
  Ended, process_bye-Ended, process_cancel-Ended,
}
use sentiric_b2bua_service.Handlers.Calls.Ending.Terminate.{
  terminate-cached, terminate-uncached, bye_message,
}
use sentiric_b2bua_service.Tests.Fixtures.{
  lib, handler, env, packet, caller_addr, session, empty, one_call,
}

process_bye-Ended_example :
    Ended
      (header_or_default lib (packet bye) Sip.call_id)
      ((lib.create_200_ok (packet bye), caller_addr) ∷ sent one_call.trace)
      one_call
      (run env (process_bye lib handler (packet bye) caller_addr) one_call)
process_bye-Ended_example = process_bye-Ended lib handler env (packet bye) caller_addr one_call

process_cancel-Ended_example :
    Ended
      (header_or_default lib (packet cancel) Sip.call_id)
      ((lib.create_200_ok (packet cancel), caller_addr) ∷ sent one_call.trace)
      one_call
      (run env (process_cancel lib handler (packet cancel) caller_addr) one_call)
process_cancel-Ended_example =
    process_cancel-Ended lib handler env (packet cancel) caller_addr one_call

terminate-cached_example :
    (branch : String) × Ended "a"
      (bye_message lib handler "a" branch session ∷ sent one_call.trace)
      one_call
      (run env (terminate_session lib handler "a") one_call)
terminate-cached_example =
    terminate-cached lib handler env "a" session one_call (unfold lookup in refl)

terminate-uncached_example :
    Ended "a" (sent empty.trace) empty (run env (terminate_session lib handler "a") empty)
    × (released (run env (terminate_session lib handler "a") empty).1.trace ≡ released empty.trace)
terminate-uncached_example = terminate-uncached lib handler env "a" empty (unfold lookup in refl)

process_ack-Acked_example : Acked "a" one_call (run env (process_ack lib handler "a") one_call)
process_ack-Acked_example = process_ack-Acked lib handler env "a" one_call
