-- ===== src/Tests/Listening.antt =====
-- The listener, the consumer, the tasks that connect, and the store as a whole, at concrete inputs.
use sentiric_b2bua_service.Prelude.{◌≡◌, refl, true, Option, none, some, List, [], ◌∷◌, ◌++◌}
use sentiric_b2bua_service.Sip.{SipPacket, Outcome, ok, err, invite}
use sentiric_b2bua_service.Data.{terminated}
use sentiric_b2bua_service.Effects.{run}
use sentiric_b2bua_service.Tasks.{boot, Steps, here}
use sentiric_b2bua_service.Server
use sentiric_b2bua_service.Server.{Bytes, Selected, shutdown, received, udp_error, all_filler}
use sentiric_b2bua_service.Server.Laws.{Listens, started, run-starts}
use sentiric_b2bua_service.RabbitMq.Consumer.{
  Delivery, Wire, terminate_session, ack, asked, consume, no_connection, channel_created,
  start_termination_consumer,
}
use sentiric_b2bua_service.RabbitMq.Consumer.Laws.{
  ending_tasks, ended, acked, delivered, all_asked, JustEnded, consume-JustEnded, consume-Serves,
  consumer-once,
}
use sentiric_b2bua_service.Store.{parse_entry}
use sentiric_b2bua_service.Store.Contract.{
  Command, put, set_state, find, take, mark, ask, lock, unlock, methods, answers, calls_of,
  methods-refines,
}
use sentiric_b2bua_service.Tests.Fixtures.{lib, env, engine, packet, caller_addr, session, empty}

-- A parser that takes every datagram.
abbrev parse : Bytes → Option SipPacket
parse bytes = some (packet invite)

abbrev rounds : List Selected
rounds =
    received (13 ∷ 10 ∷ []) caller_addr
    ∷ received (0 ∷ 0 ∷ 0 ∷ 0 ∷ []) caller_addr
    ∷ udp_error
    ∷ received (73 ∷ 78 ∷ 86 ∷ 73 ∷ []) caller_addr
    ∷ shutdown
    ∷ received (73 ∷ 78 ∷ 86 ∷ 73 ∷ []) caller_addr
    ∷ []

run-starts_example :
    Listens parse rounds (Server.run parse rounds)
    × Steps lib engine boot
        (record boot { tasks = started parse lib engine (Server.run parse rounds) boot.tasks })
run-starts_example = run-starts parse lib engine rounds here

run_test : Server.run parse rounds ≡ (packet invite, caller_addr) ∷ []
unfolding Server.run all_filler
run_test = refl

-- An event whose data is its length asks to end the call "a".
abbrev wire : Wire
wire = record {
  decode = λ bytes. elim bytes [ [] ↦ none | b ∷ bs ↦ some "json" ];
  from_str = λ s. some (λ key. some "a");
}

abbrev delivery : Delivery
delivery = record { tag = 1; content = 7 ∷ [] }

abbrev deliveries : List (Outcome Delivery)
deliveries = err "closed" ∷ ok delivery ∷ ok (record { tag = 2; content = [] }) ∷ []

consume-Serves_example :
    (ended (consume wire deliveries) ≡ all_asked wire (delivered deliveries))
    × (acked (consume wire deliveries) ≡ delivered deliveries)
    × Steps lib engine boot (record boot {
      tasks = ending_tasks wire lib engine (ended (consume wire deliveries)) boot.tasks;
    })
consume-Serves_example = consume-Serves wire lib engine deliveries here

consume-JustEnded_example : JustEnded wire "a" (terminate_session "a" ∷ [])
unfolding consume asked
consume-JustEnded_example =
    consume-JustEnded wire deliveries delivery "a" refl (terminate_session "a" ∷ [])
      (ack (record { tag = 2; content = [] }) ∷ []) refl

consumer-once_example :
    (start_termination_consumer wire (
        (no_connection ∷ [])
        ++ channel_created (ok deliveries) ∷ channel_created (ok deliveries) ∷ [])
      ≡ start_termination_consumer wire
          ((no_connection ∷ []) ++ channel_created (ok deliveries) ∷ []))
    × ((start_termination_consumer wire (
          (no_connection ∷ [])
          ++ channel_created (ok deliveries) ∷ channel_created (ok deliveries) ∷ [])).1
        ≡ true)
consumer-once_example =
    consumer-once wire (no_connection ∷ []) (channel_created (ok deliveries) ∷ []) (ok deliveries)

abbrev commands : List Command
commands =
    lock "a"
    ∷ lock "a"
    ∷ put session
    ∷ set_state "a" terminated
    ∷ mark "a"
    ∷ ask "a"
    ∷ take "a"
    ∷ find "a"
    ∷ unlock "a"
    ∷ []

methods-refines_example :
    ((run env (methods lib commands) empty).0 ≡ some (answers commands (calls_of empty)).0)
    × (calls_of (run env (methods lib commands) empty).1 ≡ (answers commands (calls_of empty)).1)
unfolding parse_entry
methods-refines_example = methods-refines lib env (λ w k. refl) commands empty
