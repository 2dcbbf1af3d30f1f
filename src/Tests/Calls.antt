-- ===== src/Tests/Calls.antt =====
-- Calls coming in, at concrete inputs.
use sentiric_b2bua_service.Prelude.{String, ◌≡◌, refl, [], ◌∷◌}
use sentiric_b2bua_service.Prelude.Table.{contains}
use sentiric_b2bua_service.Sip
use sentiric_b2bua_service.Sip.{SipPacket, invite, cancel, ◌=ʰ◌}
use sentiric_b2bua_service.Data.{Resolution}
use sentiric_b2bua_service.Effects.{World, run}
use sentiric_b2bua_service.Effects.Every.{Every}
use sentiric_b2bua_service.Effects.Protocol.{Keeps}
use sentiric_b2bua_service.Compliance.{Complies}
use sentiric_b2bua_service.Ports.{Port, Settled}
use sentiric_b2bua_service.Handlers.Calls.{header_or_default}
use sentiric_b2bua_service.Handlers.Calls.Invite.{Incoming, establish, process_invite}
use sentiric_b2bua_service.Handlers.Calls.Invite.Answers.{ok_message}
use sentiric_b2bua_service.Handlers.Calls.Invite.Tags.{drawn}
use sentiric_b2bua_service.Effects.Retry.{Newest}
use sentiric_b2bua_service.Handlers.Calls.Invite.Outcomes.{stored, SetUp, Abandoned}
use sentiric_b2bua_service.Handlers.Calls.Invite.Runs.{
  establish-SetUp, establish-cancelled, cancel-SetUp,
}
use sentiric_b2bua_service.Handlers.Calls.Ending.{process_cancel}
use sentiric_b2bua_service.Handlers.Calls.Ending.Terminate.{bye_message}
use sentiric_b2bua_service.Handlers.Calls.Outbound.{process_outbound_invite}
use sentiric_b2bua_service.Handlers.Calls.Outbound.Runs.{
  CalledOut, process_outbound_invite-CalledOut,
}
use sentiric_b2bua_service.Handlers.Calls.Invite.Ports.{process_invite-Settled}
use sentiric_b2bua_service.Engine.{handle_packet}
use sentiric_b2bua_service.Engine.Compliance.{handle_packet-Complies}
use sentiric_b2bua_service.Tests.Fixtures.{lib, handler, engine, packet, caller_addr, env, empty}

process_invite-Settled_example :
    Keeps Port [] (process_invite lib handler (packet invite) caller_addr) Settled
process_invite-Settled_example = process_invite-Settled lib handler (packet invite) caller_addr refl

handle_packet-Complies_example :
    Every
      (Complies lib
        (λ k. k ≡ header_or_default lib (packet invite) Sip.call_id)
        Unit
        (header_or_default lib (packet invite) Sip.call_id))
      (handle_packet lib engine (packet invite) caller_addr)
handle_packet-Complies_example = handle_packet-Complies lib engine (packet invite) caller_addr

abbrev resolution : Resolution
resolution = record { encoded = "" }

abbrev call : Incoming
call = record {
  call_id = "a";
  from_uri = "sip:1@x;tag=9";
  to_uri = "sip:100@x";
  caller_tag = "9";
  client_contact = "<sip:1@10.0.0.7>";
}

abbrev req : SipPacket
req = packet invite

establish-SetUp_example :
    (tag : String) × Newest tag
      (drawn (run env (establish lib handler call req caller_addr resolution 30100) empty).1.trace)
    × SetUp "a"
        (stored lib handler call req caller_addr 30100 tag)
        (ok_message lib handler req 30100 tag)
        caller_addr
        empty
        (run env (establish lib handler call req caller_addr resolution 30100) empty)
establish-SetUp_example =
    establish-SetUp lib handler env call req caller_addr resolution 30100 empty refl
      (unfold contains in refl)

abbrev marked : World
marked = record empty { early_cancelled = "a" ∷ [] }

establish-cancelled_example :
    (tag branch : String) × Abandoned "a" 30100
      (bye_message lib handler "a" branch (stored lib handler call req caller_addr 30100 tag))
      marked
      (run env (establish lib handler call req caller_addr resolution 30100) marked)
establish-cancelled_example =
    establish-cancelled lib handler env call req caller_addr resolution 30100 marked refl
      (unfold contains in refl)

cancel-SetUp_example :
    (tag : String) × SetUp "a"
      (stored lib handler call req caller_addr 30100 tag)
      (ok_message lib handler req 30100 tag)
      caller_addr
      (run env (process_cancel lib handler (packet cancel) caller_addr) empty).1
      (run env
        (establish lib handler call req caller_addr resolution 30100)
        (run env (process_cancel lib handler (packet cancel) caller_addr) empty).1)
cancel-SetUp_example =
    cancel-SetUp lib handler env call req caller_addr resolution 30100 (packet cancel) caller_addr
      empty refl (unfold ◌=ʰ◌ in refl)

process_outbound_invite-CalledOut_example :
    CalledOut lib handler "b" "sip:1@x" "sip:2@y" empty
      (run env (process_outbound_invite lib handler "b" "sip:1@x" "sip:2@y") empty).1
      (run env (process_outbound_invite lib handler "b" "sip:1@x" "sip:2@y") empty).0
process_outbound_invite-CalledOut_example =
    process_outbound_invite-CalledOut lib handler "b" "sip:1@x" "sip:2@y" env empty
