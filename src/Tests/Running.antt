-- ===== src/Tests/Running.antt =====
-- The running service at concrete inputs.
use sentiric_b2bua_service.Prelude.{◌≡◌, List, refl, false, [], ◌∷◌}
use sentiric_b2bua_service.Prelude.Table.{lookup, contains}
use sentiric_b2bua_service.Sip.{invite, ◌=ʰ◌}
use sentiric_b2bua_service.Effects.{◌>>=◌, ret}
use sentiric_b2bua_service.Store.{get, try_lock_invite, unlock_invite}
use sentiric_b2bua_service.Handlers.Calls.Invite.{process_invite, resolve_loop}
use sentiric_b2bua_service.Tasks.{Task, System, Steps, here, later, receive, boot, start}
use sentiric_b2bua_service.Tasks.Alone.{alone, alone-Steps}
use sentiric_b2bua_service.Tasks.Exclusion.{
  Working, holding, lock-exclusive, AllReturned, returned-unlocked,
}
use sentiric_b2bua_service.Engine.{handle_packet}
use sentiric_b2bua_service.Tests.Fixtures.{
  lib_where, lib, engine, packet, caller_addr, outside, env, empty,
}

-- Two INVITEs of one call, the newer of which has done three actions and holds the lock.
abbrev invited : System
invited =
    alone 3 env empty (handle_packet lib engine (packet invite) caller_addr) []
      (start (handle_packet lib engine (packet invite) caller_addr) ∷ [])

invited-Steps : Steps lib engine boot invited
invited-Steps = alone-Steps lib engine env 3 empty _ [] _ (
    later (later here (receive (packet invite) caller_addr refl))
      (receive (packet invite) caller_addr refl))

abbrev newest : List Task → Task
newest [] = start (ret tt)
newest (t ∷ ts) = t

abbrev waiting : Task
waiting = start (handle_packet lib engine (packet invite) caller_addr)

lock-exclusive_example : ¬ (Working "a" (newest invited.tasks) × Working "a" waiting)
lock-exclusive_example =
    lock-exclusive lib engine "a" invited-Steps [] (newest invited.tasks) [] waiting []
      (unfold alone handle_packet get try_lock_invite lookup ◌>>=◌ in refl)

invited_test : Working "a" (newest invited.tasks)
unfolding alone handle_packet get try_lock_invite lookup ◌=ʰ◌ ◌>>=◌ contains
invited_test = holding refl

-- An INVITE whose dialplan service fails three times, to its end.
abbrev refused : System
refused =
    alone 20 (outside false) empty (handle_packet lib engine (packet invite) caller_addr) [] []

refused-Steps : Steps lib engine boot refused
refused-Steps =
    alone-Steps lib engine (outside false) 20 empty _ [] _
      (later here (receive (packet invite) caller_addr refl))

refused-AllReturned : AllReturned refused.tasks
unfolding alone handle_packet get ◌>>=◌ lookup try_lock_invite contains process_invite resolve_loop
    unlock_invite
refused-AllReturned = (refl, tt)

returned-unlocked_example : contains "a" refused.world.invites_in_flight ≡ false
returned-unlocked_example = returned-unlocked lib engine "a" refused-Steps refused-AllReturned

-- An INVITE for which no transaction opens, to its end.
abbrev panicked : System
panicked =
    alone 20 env empty (handle_packet (lib_where false) engine (packet invite) caller_addr) [] []
