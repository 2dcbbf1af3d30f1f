-- ===== src/Service/Runs.antt =====
-- What the caller of an RPC is told.
use sentiric_b2bua_service.Prelude.{String, ◌≡◌, refl, true, Option, some, ◌==◌, if◌then◌else◌}
use sentiric_b2bua_service.Sip.{Outcome, ok, err}
use sentiric_b2bua_service.Libraries.{Libraries}
use sentiric_b2bua_service.Effects.{World, Env, ret, run}
use sentiric_b2bua_service.Effects.Run.{run-bind_some}
use sentiric_b2bua_service.Handlers.Calls.Outbound.Runs.{
  CalledOut, no_port, no_address, placed, process_outbound_invite-CalledOut,
}
use sentiric_b2bua_service.Engine.{B2BuaEngine, send_outbound_invite}
use sentiric_b2bua_service.Service.{
  InitiateCallRequest, InitiateCallResponse, Reply, response, internal, reply_to, call_id_of,
  initiate_call,
}

-- The reply to a call out that gave `called`; the world is the one that the call out left.
pub data Replied (id : String) (called : Option (Outcome (Unit {0})) × World)
    : Option (Reply InitiateCallResponse) × World → Type 0 where
  succeeded :
      called.0 ≡ some (ok tt)
      → Replied id called (some (response (record { success = true; new_call_id = id })), called.1)
  failed : (e : String) → called.0 ≡ some (err e) → Replied id called (some (internal e), called.1)

returned :
    {lib : Libraries} {engine : B2BuaEngine} {id from_uri to_uri : String} {w u : World}
    (r : Option (Outcome (Unit {0})))
    → CalledOut lib engine.call_handler id from_uri to_uri w u r
    → (o : Outcome (Unit {0})) × (r ≡ some o)
returned r (no_port e p h) = (_, refl)
returned r (no_address port addrs p a m h) = (_, refl)
returned r (placed port t a rest o p l g d h) = (_, refl)

reply-Replied :
    (id : String) (called : Option (Outcome (Unit {0})) × World) (o : Outcome (Unit {0}))
    → called.0 ≡ some o
    → Replied id called (some (reply_to id o), called.1)
unfolding reply_to
reply-Replied id called (ok x) e = succeeded e
reply-Replied id called (err m) e = failed m e

-- `initiate_call` returns. Its call out has the id of the request or, where that is empty, a new
-- one. It replies with success and that id exactly if `send_outbound_invite` gave `ok`, and with
-- the status `internal` and the error's text exactly if it gave an error; it does nothing else.
pub initiate_call-Replied :
    (lib : Libraries) (engine : B2BuaEngine) (env : Env) (new_id : String)
    (req : InitiateCallRequest) (w : World)
    → Replied
        (if req.call_id == "" then new_id else req.call_id)
        (run env
          (send_outbound_invite lib engine
            (if req.call_id == "" then new_id else req.call_id)
            req.from_uri
            req.to_uri)
          w)
        (run env (initiate_call lib engine new_id req) w)
unfolding initiate_call send_outbound_invite call_id_of run
initiate_call-Replied lib engine env new_id req w =
    let id = call_id_of new_id req in
    let c =
      process_outbound_invite-CalledOut lib engine.call_handler id req.from_uri req.to_uri env w in
    let (o, back) = returned {lib = lib} {engine = engine} _ c in
    rw
      (run-bind_some env (send_outbound_invite lib engine id req.from_uri req.to_uri)
        (λ x. ret (reply_to id x)) w back)
      (reply-Replied id _ o back)
