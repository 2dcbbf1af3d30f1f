-- ===== src/Handlers/Calls/Invite/Outcomes.antt =====
-- What comes of an INVITE that has its port.
use sentiric_b2bua_service.Prelude.{
  ℕ, String, ◌≡◌, false, Option, none, some, [], ◌∷◌, ◌==◌, if◌then◌else◌,
}
use sentiric_b2bua_service.Prelude.Table
use sentiric_b2bua_service.Prelude.Table.{lookup, contains}
use sentiric_b2bua_service.Sip.{SipPacket, SocketAddr}
use sentiric_b2bua_service.Libraries.{Libraries}
use sentiric_b2bua_service.Data.{CallSession, established}
use sentiric_b2bua_service.Effects.{World}
use sentiric_b2bua_service.Ports.{released, sent}
use sentiric_b2bua_service.Handlers.Calls.{CallHandler}
use sentiric_b2bua_service.Handlers.Calls.Invite.{Incoming}
use sentiric_b2bua_service.Handlers.Calls.Invite.Answers.{ok_message}
use sentiric_b2bua_service.Redis.{IsGone}

-- The session that `establish` stores.
abbrev pub stored :
    Libraries
    → CallHandler
    → Incoming
    → SipPacket
    → SocketAddr
    → (port : ℕ) (tag : String) → CallSession
stored lib self call req src port tag = record {
  session_data = record {
    call_id = call.call_id;
    state = established;
    from_uri = call.from_uri;
    to_uri = call.to_uri;
    rtp_port = port;
    local_tag = tag;
    caller_tag = call.caller_tag;
    client_contact = call.client_contact;
    proxy_addr = src;
  };
  active_transaction =
      some (record { request = req; responses = ok_message lib self req port tag ∷ [] });
}

-- The call is set up: its session is cached, no port is released, and the 200 OK is the one message
-- sent.
pub record SetUp (id : String) (s : CallSession) (ok_resp : SipPacket) (src : SocketAddr)
    (w : World) (r : Option (Unit {0}) × World) : Type 0 where
  pub result : r.0 ≡ some tt
  pub cache : r.1.cache ≡ Table.insert id s w.cache
  pub early_cancelled : r.1.early_cancelled ≡ w.early_cancelled
  pub invites_in_flight : r.1.invites_in_flight ≡ w.invites_in_flight
  pub ports : released r.1.trace ≡ released w.trace
  pub said : sent r.1.trace ≡ (ok_resp, src) ∷ sent w.trace

-- The call is given up: it is in no map, its entry was deleted from Redis where that can be
-- reached, its port is released once, and the BYE is the one message sent; other calls are as they
-- were.
pub record Abandoned (id : String) (port : ℕ) (bye : SipPacket × SocketAddr) (w : World)
    (r : Option (Unit {0}) × World) : Type 0 where
  pub result : r.0 ≡ some tt
  pub cache : (k : String) → lookup k r.1.cache ≡ (if id == k then none else lookup k w.cache)
  pub unmarked : contains id r.1.early_cancelled ≡ false
  pub invites_in_flight : r.1.invites_in_flight ≡ w.invites_in_flight
  pub ports : released r.1.trace ≡ port ∷ released w.trace
  pub said : sent r.1.trace ≡ bye ∷ sent w.trace
  pub redis : IsGone id r.1.trace
