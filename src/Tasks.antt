-- ===== src/Tasks.antt =====
-- The running service: the tasks that src/sip/server.rs, src/rabbitmq.rs and src/grpc/service.rs
-- start, over one world. Tasks are interleaved in any order at their actions, and the outside may
-- answer anything. A task that has ended, by a result or by a panic, stays in the list.
pub mod Exclusion
pub mod Panic
pub mod Alone
pub mod Balance
use sentiric_b2bua_service.Prelude.{ℕ, String, ◌≡◌, List, [], ◌∷◌, ◌++◌}
use sentiric_b2bua_service.Sip.{SipPacket, SocketAddr, Outcome}
use sentiric_b2bua_service.Libraries.{Libraries}
use sentiric_b2bua_service.Effects.{
  Op, Answer, Prog, ret, act, ◌>>◌, Event, World, Env, respond, advance,
}
use sentiric_b2bua_service.Locks.{lock_step}
use sentiric_b2bua_service.Engine
use sentiric_b2bua_service.Engine.{B2BuaEngine}

pub record Task : Type 0 where
  pub prog : Prog Unit
  -- what the task itself has done, the newest first
  pub log : List Event

pub record System : Type 0 where
  pub world : World
  pub tasks : List Task

-- The INVITE locks that a task holds, by what it has done.
abbrev pub held : List Event → List String
held [] = []
held (e ∷ log) = lock_step (held log) e.op e.answer

abbrev pub start : Prog Unit → Task
start m = record { prog = m; log = [] }

abbrev pub step_task : Env → World → (t : Task) (o : Op) → (Answer o → Prog Unit) → Task
step_task env w t o k = record {
  prog = k (respond env w o);
  log = record { op = o; answer = respond env w o } ∷ t.log;
}

module _ (lib : Libraries) (engine : B2BuaEngine) where
  pub data Step (s u : System) : Type 0 where
    -- `SipServer::run`: a task for each packet
    receive :
        (packet : SipPacket) (src_addr : SocketAddr)
        → u ≡ record s { tasks = start (Engine.handle_packet lib engine packet src_addr) ∷ s.tasks }
        → Step s u
    -- `start_termination_consumer`: a request to end a call
    terminate :
        (id : String)
        → u ≡ record s { tasks = start (Engine.terminate_session lib engine id) ∷ s.tasks }
        → Step s u
    -- `initiate_call`: a call out
    dial :
        (id from_uri to_uri : String)
        → u ≡ record s {
          tasks =
              start (Engine.send_outbound_invite lib engine id from_uri to_uri >> ret tt) ∷ s.tasks;
        }
        → Step s u
    -- one action of one task
    move :
        (env : Env) (before : List Task) (t : Task) (after : List Task) (o : Op)
        (k : Answer o → Prog Unit)
        → s.tasks ≡ before ++ t ∷ after
        → t.prog ≡ act o k
        → u ≡ record {
          world = advance env o s.world;
          tasks = before ++ step_task env s.world t o k ∷ after;
        }
        → Step s u

  -- any number of steps
  pub data Steps (s : System) : System → Type 0 where
    here : Steps s s
    later : {t u : System} → Steps s t → Step t u → Steps s u

-- The service as `App::run` starts it.
abbrev pub boot : System
boot = record {
  world = record { cache = []; early_cancelled = []; invites_in_flight = []; trace = [] };
  tasks = [];
}
