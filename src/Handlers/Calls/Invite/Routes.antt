-- ===== src/Handlers/Calls/Invite/Routes.antt =====
-- All the ways in which `process_invite` ends.
use sentiric_b2bua_service.Prelude.{ℕ, String, ◌≡◌, true, false, Option, some, ◌∷◌}
use sentiric_b2bua_service.Prelude.Table.{contains}
use sentiric_b2bua_service.Sip.{SipPacket, SocketAddr, Outcome, ok, err}
use sentiric_b2bua_service.Libraries.{Libraries}
use sentiric_b2bua_service.Data.{Resolution}
use sentiric_b2bua_service.Effects.{World}
use sentiric_b2bua_service.Effects.Run.{SameMaps}
use sentiric_b2bua_service.Ports.{released, sent}
use sentiric_b2bua_service.Handlers.Media.Runs.{port_answers}
use sentiric_b2bua_service.Effects.Retry.{Newest}
use sentiric_b2bua_service.Handlers.Calls.{CallHandler}
use sentiric_b2bua_service.Handlers.Calls.Ending.Terminate.{bye_message}
use sentiric_b2bua_service.Handlers.Calls.Invite.{Incoming, incoming}
use sentiric_b2bua_service.Handlers.Calls.Invite.Answers.{ok_message}
use sentiric_b2bua_service.Handlers.Calls.Invite.Outcomes.{stored, SetUp, Abandoned}
use sentiric_b2bua_service.Handlers.Calls.Invite.Resolve.{route_answers}

-- Between `w` and `v` the service has only asked, and said `first`.
pub record Asked (first : SipPacket × SocketAddr) (w v : World) : Type 0 where
  pub maps : SameMaps w v
  pub ports : released v.trace ≡ released w.trace
  pub said : sent v.trace ≡ first ∷ sent w.trace

-- The last answers of the dialplan service and of the media service.
abbrev pub Decided : Outcome Resolution → World → Type 0
Decided o v = Newest o (route_answers v.trace)

abbrev pub Given : Outcome ℕ → World → Type 0
Given o v = Newest o (port_answers v.trace)

-- The call is refused with `answer`; no map has changed and no port was released.
pub record Refused (answer : SipPacket × SocketAddr) (w : World) (r : Option (Unit {0}) × World)
    : Type 0 where
  pub result : r.0 ≡ some tt
  pub maps : SameMaps w r.1
  pub ports : released r.1.trace ≡ released w.trace
  pub said : sent r.1.trace ≡ answer ∷ sent w.trace

module _ (lib : Libraries) (self : CallHandler) (req : SipPacket) (src : SocketAddr) where
  abbrev call : Incoming
  call = incoming lib self req

  abbrev trying_100 : SipPacket × SocketAddr
  trying_100 = (lib.create_100_trying req, src)

  -- How `process_invite` ends: after 100 Trying, by an error answer, with the call set up, or with
  -- the call given up because a CANCEL left its mark.
  pub data Handled (w : World) (r : Option (Unit {0}) × World) : Type 0 where
    no_route :
        {v : World} (e : String)
        → Asked trying_100 w v
        → Decided (err e) r.1
        → Refused (lib.create_error req 500 "Routing Error", src) v r
        → Handled w r
    no_port :
        {v : World} {resolution : Resolution} (e : String)
        → Asked trying_100 w v
        → Decided (ok resolution) v
        → Given (err e) r.1
        → Refused (lib.create_error req 503 "Media Error", src) v r
        → Handled w r
    set_up :
        {v : World} {resolution : Resolution} (port : ℕ) (tag : String)
        → contains call.call_id w.early_cancelled ≡ false
        → Asked trying_100 w v
        → Decided (ok resolution) v
        → Given (ok port) v
        → SetUp call.call_id
            (stored lib self call req src port tag)
            (ok_message lib self req port tag)
            src
            v
            r
        → Handled w r
    given_up :
        {v : World} {resolution : Resolution} (port : ℕ) (tag branch : String)
        → contains call.call_id w.early_cancelled ≡ true
        → Asked trying_100 w v
        → Decided (ok resolution) v
        → Given (ok port) v
        → Abandoned call.call_id port
            (bye_message lib self call.call_id branch (stored lib self call req src port tag))
            v
            r
        → Handled w r
