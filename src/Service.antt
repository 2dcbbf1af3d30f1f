-- ===== src/Service.antt =====
-- src/grpc/service.rs: the RPCs of the service.
pub mod Runs
use sentiric_b2bua_service.Prelude.{String, Bool, true, ◌==◌, if◌then◌else◌}
use sentiric_b2bua_service.Sip.{Outcome, ok, err}
use sentiric_b2bua_service.Libraries.{Libraries}
use sentiric_b2bua_service.Effects.{Prog, ret, ◌>>=◌}
use sentiric_b2bua_service.Engine
use sentiric_b2bua_service.Engine.{B2BuaEngine}

pub record InitiateCallRequest : Type 0 where
  pub call_id : String
  pub from_uri : String
  pub to_uri : String

pub record InitiateCallResponse : Type 0 where
  pub success : Bool
  pub new_call_id : String

-- The answer of an RPC: a response, or one of the two codes of `tonic::Status` that the source
-- gives.
pub data Reply (A : Type 0) : Type 0 where
  response : A → Reply A
  internal unimplemented : String → Reply A

reply_to : String → Outcome (Unit {0}) → Reply InitiateCallResponse
reply_to id (ok _) = response (record { success = true; new_call_id = id })
reply_to id (err e) = internal e

-- The id of the call; `new_id` is what `Uuid::new_v4` gives.
pub call_id_of : (new_id : String) → InitiateCallRequest → String
call_id_of new_id req = if req.call_id == "" then new_id else req.call_id

module _ (lib : Libraries) (engine : B2BuaEngine) where
  pub initiate_call : (new_id : String) → InitiateCallRequest → Prog (Reply InitiateCallResponse)
  unfolding reply_to call_id_of
  initiate_call new_id req = do
    let id = call_id_of new_id req
    outcome ← Engine.send_outbound_invite lib engine id req.from_uri req.to_uri
    ret (reply_to id outcome)

pub transfer_call : {A B : Type 0} → A → Reply B
transfer_call req = unimplemented "Transfer not implemented"
