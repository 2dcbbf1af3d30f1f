-- ===== src/Tests/Balancing.antt =====
-- The ports of the running service at a concrete input.
use sentiric_b2bua_service.Prelude.{◌≡◌, ◌+◌, ◌≤◌, ℕ, zero, suc, refl, false, List, [], ◌∷◌}
use sentiric_b2bua_service.Sip.{invite}
use sentiric_b2bua_service.Effects.{Prog, ret, abort, act, Event, World, Env, redis_clone, ◌>>=◌}
use sentiric_b2bua_service.Engine.{handle_packet}
use sentiric_b2bua_service.Prelude.Table.{lookup, contains, insert}
use sentiric_b2bua_service.Store
use sentiric_b2bua_service.Store.{get, try_lock_invite, is_early_cancelled, unlock_invite}
use sentiric_b2bua_service.RabbitMq.{publish_event_bytes}
use sentiric_b2bua_service.Handlers.Events.{publish_call_started}
use sentiric_b2bua_service.Handlers.Media.{allocate_port, set_target}
use sentiric_b2bua_service.Handlers.Calls.{open_transaction}
use sentiric_b2bua_service.Handlers.Calls.Invite.{process_invite, resolve_loop}
use sentiric_b2bua_service.Ports.{released}
use sentiric_b2bua_service.Ports.Balance.{count, cached, allocated}
use sentiric_b2bua_service.Tasks.{Task, System, Steps, here, later, receive, boot}
use sentiric_b2bua_service.Tasks.Alone.{alone, alone-Steps}
use sentiric_b2bua_service.Tasks.Balance.{AllPlain, ports-covered}
use sentiric_b2bua_service.Prelude.{some}
use sentiric_b2bua_service.Sip.{bye, ◌=ʰ◌}
use sentiric_b2bua_service.Handlers.Media.{release_port}
use sentiric_b2bua_service.Handlers.Events.{publish_call_ended}
use sentiric_b2bua_service.Effects.{run}
use sentiric_b2bua_service.Handlers.Calls.Ending.{process_bye}
use sentiric_b2bua_service.Handlers.Calls.Invite.{answer_again}
use sentiric_b2bua_service.Tests.Fixtures.{
  handler, session, one_call, lib, engine, env, packet, caller_addr, empty,
}

-- A task that runs alone takes steps at which Redis cannot be reached, where it cannot be.
alone-AllPlain :
    {s : System} (e : Env) (down : (w : World) → e w redis_clone ≡ false) (n : ℕ) (w : World)
    (m : Prog Unit) (log : List Event) (ts : List Task)
    (r : Steps lib engine s (record { world = w; tasks = record { prog = m; log = log } ∷ ts }))
    → AllPlain r
    → AllPlain (alone-Steps lib engine e n w m log ts r)
unfolding alone alone-Steps
alone-AllPlain e down zero w m log ts r h = h
alone-AllPlain e down (suc n) w (ret a) log ts r h = h
alone-AllPlain e down (suc n) w abort log ts r h = h
alone-AllPlain e down (suc n) w (act o k) log ts r h =
    alone-AllPlain e down n _ _ _ ts _ (h, down w)

-- An INVITE, to its end.
invited :
    Steps lib engine boot
      (alone 40 env empty (handle_packet lib engine (packet invite) caller_addr) [] [])
invited =
    alone-Steps lib engine env 40 empty _ [] []
      (later here (receive (packet invite) caller_addr refl))

invited-AllPlain : AllPlain invited
unfolding invited
invited-AllPlain =
    alone-AllPlain env (λ w. refl) 40 empty _ [] []
      (later here (receive (packet invite) caller_addr refl)) (tt, refl)

abbrev after : World
after = (alone 40 env empty (handle_packet lib engine (packet invite) caller_addr) [] []).world

ports-covered_example :
    count 30100 (released after.trace) + count 30100 (cached after.cache)
    ≤ count 30100 (allocated after.trace)
ports-covered_example = ports-covered lib engine 30100 invited invited-AllPlain

-- The port was given once, and is in one session.
after_test : (count 30100 (allocated after.trace) ≡ 1) × (count 30100 (cached after.cache) ≡ 1)
unfolding count allocated cached alone handle_packet ◌>>=◌ get lookup try_lock_invite contains
    process_invite resolve_loop allocate_port set_target open_transaction Store.insert
    is_early_cancelled publish_call_started publish_event_bytes unlock_invite insert
after_test = (refl, refl)

-- A re-INVITE that read the session before a BYE ended the call, and stores it again after; then
-- one more BYE.
abbrev revived : World
revived =
    let ended = (run env (process_bye lib handler (packet bye) caller_addr) one_call).1 in
    let again =
      (run env (answer_again lib handler (packet invite) caller_addr (some session)) ended).1 in
    (run env (process_bye lib handler (packet bye) caller_addr) again).1

revived_test : released revived.trace ≡ 30100 ∷ 30100 ∷ []
unfolding released run process_bye answer_again open_transaction ◌>>=◌ Store.remove lookup
    Store.insert insert ◌=ʰ◌ release_port publish_call_ended publish_event_bytes
revived_test = refl
