-- ===== src/Tests/Calling.antt =====
-- The RPC that places a call, at a concrete input.
use sentiric_b2bua_service.Effects.{run}
use sentiric_b2bua_service.Service.{InitiateCallRequest, initiate_call}
use sentiric_b2bua_service.Engine.{send_outbound_invite}
use sentiric_b2bua_service.Service.Runs.{Replied, initiate_call-Replied}
use sentiric_b2bua_service.Tests.Fixtures.{lib, engine, env, empty}

abbrev req : InitiateCallRequest
req = record { call_id = ""; from_uri = "sip:1@x"; to_uri = "sip:2@y" }

initiate_call-Replied_example :
    Replied "uuid-1"
      (run env (send_outbound_invite lib engine "uuid-1" "sip:1@x" "sip:2@y") empty)
      (run env (initiate_call lib engine "uuid-1" req) empty)
initiate_call-Replied_example = initiate_call-Replied lib engine env "uuid-1" req empty
