-- ===== src/Tests/Invites.antt =====
-- Whole INVITEs and re-INVITEs at concrete inputs.
use sentiric_b2bua_service.Prelude.{refl, false}
use sentiric_b2bua_service.Prelude.Table.{lookup}
use sentiric_b2bua_service.Sip.{SipPacket, invite, ◌=ʰ◌}
use sentiric_b2bua_service.Effects.{run, ◌>>=◌}
use sentiric_b2bua_service.Effects.Retry.{Retried}
use sentiric_b2bua_service.Store.{get}
use sentiric_b2bua_service.Handlers.Calls.Invite.{process_reinvite, resolve_loop}
use sentiric_b2bua_service.Handlers.Calls.Invite.Resolve.{resolve_loop-Retried, route_answers}
use sentiric_b2bua_service.Handlers.Calls.Invite.Answers.{ok_again_message}
use sentiric_b2bua_service.Handlers.Calls.Invite.Again.{
  Reanswered, Unknown, again, reinvite-Reanswered, reinvite-Unknown,
}
use sentiric_b2bua_service.Tests.Fixtures.{
  lib, handler, packet, caller_addr, session, env, outside, empty, one_call,
}

abbrev req : SipPacket
req = packet invite

resolve_loop-Retried_example :
    Retried 3
      (λ e. e)
      (route_answers empty.trace)
      (route_answers
        (run (outside false) (resolve_loop lib handler 3 0 500 "a" "sip:1@x" "100") empty).1.trace)
      (run (outside false) (resolve_loop lib handler 3 0 500 "a" "sip:1@x" "100") empty).0
resolve_loop-Retried_example =
    resolve_loop-Retried lib handler (outside false) "a" "sip:1@x" "100" empty

reinvite-Reanswered_example :
    Reanswered
      (again lib handler env req caller_addr session)
      (ok_again_message lib handler req 30100 "b2bua-1")
      caller_addr
      one_call
      (run env (process_reinvite lib handler req caller_addr) one_call)
reinvite-Reanswered_example =
    reinvite-Reanswered lib handler env req caller_addr session one_call refl
      (unfold lookup ◌=ʰ◌ in refl)

reinvite-Unknown_example :
    Unknown
      (lib.create_error req 481 "Call Does Not Exist")
      caller_addr
      empty
      (run env (process_reinvite lib handler req caller_addr) empty)
reinvite-Unknown_example =
    reinvite-Unknown lib handler env req caller_addr empty
      (unfold get run lookup ◌=ʰ◌ ◌>>=◌ in refl)
