-- ===== src/Handlers/Calls/Invite/Again.antt =====
-- How a re-INVITE is answered.
use sentiric_b2bua_service.Prelude.{String, ◌≡◌, refl, ap, ◌∙◌, true, Option, none, some, [], ◌∷◌}
use sentiric_b2bua_service.Prelude.Table
use sentiric_b2bua_service.Prelude.Table.{lookup}
use sentiric_b2bua_service.Sip
use sentiric_b2bua_service.Sip.{SipPacket, SocketAddr}
use sentiric_b2bua_service.Libraries.{Libraries}
use sentiric_b2bua_service.Data.{CallSession}
use sentiric_b2bua_service.Effects.{
  Prog, ret, World, Env, run, respond, update, advance, ◌>>=◌, ◌>>◌, perform, send, cache_get,
}
use sentiric_b2bua_service.Effects.Run.{run-bind_some, SameMaps}
use sentiric_b2bua_service.Ports.{released, sent}
use sentiric_b2bua_service.Store
use sentiric_b2bua_service.Handlers.Calls.Invite.Answers.{
  ok_again_message, reinvite_response-ok_again_message,
}
use sentiric_b2bua_service.Store.Runs.{
  Inserted, insert-Inserted, run-get_cached, Missing, get-Missing,
}
use sentiric_b2bua_service.Handlers.Calls.{CallHandler, header_or_default, open_transaction}
use sentiric_b2bua_service.Handlers.Calls.Invite.{
  process_reinvite, answer_again, reinvite_response, refuse,
}

-- The session `s` is cached again, with the transaction of the re-INVITE, and `resp` was sent.
pub record Reanswered (s : CallSession) (resp : SipPacket) (src : SocketAddr) (w : World)
    (r : Option (Unit {0}) × World) : Type 0 where
  pub result : r.0 ≡ some tt
  pub cache : r.1.cache ≡ Table.insert s.session_data.call_id s w.cache
  pub early_cancelled : r.1.early_cancelled ≡ w.early_cancelled
  pub invites_in_flight : r.1.invites_in_flight ≡ w.invites_in_flight
  pub ports : released r.1.trace ≡ released w.trace
  pub said : sent r.1.trace ≡ (resp, src) ∷ sent w.trace

-- 481 was sent, and no map has changed.
pub record Unknown (resp : SipPacket) (src : SocketAddr) (w : World) (r : Option (Unit {0}) × World)
    : Type 0 where
  pub result : r.0 ≡ some tt
  pub maps : SameMaps w r.1
  pub ports : released r.1.trace ≡ released w.trace
  pub said : sent r.1.trace ≡ (resp, src) ∷ sent w.trace

module _ (lib : Libraries) (self : CallHandler) (env : Env) (req : SipPacket)
    (src : SocketAddr) where
  abbrev id : String
  id = header_or_default lib req Sip.call_id

  -- The session with the transaction of the re-INVITE.
  abbrev answered_with : CallSession → SipPacket → CallSession
  answered_with s resp = record s {
    active_transaction = some (record { request = req; responses = resp ∷ [] });
  }

  abbrev message : CallSession → SipPacket
  message s = ok_again_message lib self req s.session_data.rtp_port s.session_data.local_tag

  abbrev pub again : CallSession → CallSession
  again s = answered_with s (message s)

  abbrev reopened : CallSession → CallSession
  reopened s = answered_with s (reinvite_response lib self req s.session_data)

  message_lem : (s : CallSession) → reinvite_response lib self req s.session_data ≡ message s
  message_lem s = reinvite_response-ok_again_message lib self req s.session_data

  abbrev found_in : World → World
  found_in w = advance env (cache_get id) w

  reply : CallSession → Prog Unit
  reply s = do perform (send (reinvite_response lib self req s.session_data) src); ret tt

  run-opened :
      (s : CallSession) (w : World)
      → lib.opens_transaction req ≡ true
      → run env (answer_again lib self req src (some s)) w
        ≡ run env (Store.insert lib (reopened s) >> reply s) w
  unfolding answer_again open_transaction reply ◌>>=◌
  run-opened s w h = rw h refl

  run-reinvite :
      (s : CallSession) (w : World)
      → lib.opens_transaction req ≡ true
      → lookup id w.cache ≡ some s
      → run env (process_reinvite lib self req src) w
        ≡ run env (Store.insert lib (reopened s) >> reply s) (found_in w)
  unfolding process_reinvite open_transaction reply
  run-reinvite s w h found =
      run-bind_some env (Store.get lib id) (answer_again lib self req src) w
        (ap (λ r. r.0) (run-get_cached lib env id w found))
      ∙ ap (λ r. run env (answer_again lib self req src (some s)) r.1)
          (run-get_cached lib env id w found)
      ∙ run-opened s (found_in w) h

  reply-Reanswered :
      (s : CallSession) (w : World)
      → Reanswered
          (again s)
          (message s)
          src
          w
          (run env (reply s) (run env (Store.insert lib (reopened s)) (found_in w)).1)
  unfolding reply run respond update advance released sent ◌>>=◌
  reply-Reanswered s w =
      let i : Inserted (reopened s) (found_in w) _ =
        insert-Inserted lib env (reopened s) (found_in w) in
      record {
        result = refl;
        cache =
            i.cache
            ∙ ap (λ p. Table.insert s.session_data.call_id (answered_with s p) w.cache)
                (message_lem s);
        early_cancelled = i.early_cancelled;
        invites_in_flight = i.invites_in_flight;
        ports = i.released;
        said =
            ap (λ ms. (reinvite_response lib self req s.session_data, src) ∷ ms) i.sent
            ∙ ap (λ p. (p, src) ∷ sent w.trace) (message_lem s);
      }

  -- A re-INVITE of a call whose session is cached, where a transaction can be opened for it: 200 OK
  -- with the session's tag (unless the To has one) and the SDP of the session's port, and the
  -- session is cached with its data as they were (its port with them) and the transaction of the
  -- re-INVITE; no port is released.
  pub reinvite-Reanswered :
      (s : CallSession) (w : World)
      → lib.opens_transaction req ≡ true
      → lookup (header_or_default lib req Sip.call_id) w.cache ≡ some s
      → Reanswered (again s) (message s) src w (run env (process_reinvite lib self req src) w)
  reinvite-Reanswered s w h found =
      rw
        (run-reinvite s w h found
          ∙ run-bind_some env (Store.insert lib (reopened s)) (λ _. reply s) (found_in w)
              (insert-Inserted lib env (reopened s) (found_in w)).result)
        (reply-Reanswered s w)

  refuse-Unknown :
      (v : World)
      → Unknown
          (lib.create_error req 481 "Call Does Not Exist")
          src
          v
          (run env (answer_again lib self req src none) v)
  unfolding answer_again refuse run respond update advance released sent ◌>>=◌
  refuse-Unknown v = record {
    result = refl;
    maps = record { cache = refl; early_cancelled = refl; invites_in_flight = refl };
    ports = refl;
    said = refl;
  }

  -- A re-INVITE of a call that `get` does not find, in the cache or in Redis: 481, and no map
  -- changes.
  pub reinvite-Unknown :
      (w : World)
      → (run env (Store.get lib (header_or_default lib req Sip.call_id)) w).0 ≡ some none
      → Unknown
          (lib.create_error req 481 "Call Does Not Exist")
          src
          w
          (run env (process_reinvite lib self req src) w)
  unfolding process_reinvite
  reinvite-Unknown w none_found =
      let m : Missing lib env w _ = get-Missing lib env id w none_found in
      let u = refuse-Unknown (run env (Store.get lib id) w).1 in
      rw (run-bind_some env (Store.get lib id) (answer_again lib self req src) w none_found)
        (record {
          result = u.result;
          maps = record {
            cache = u.maps.cache ∙ m.cache;
            early_cancelled = u.maps.early_cancelled ∙ m.early_cancelled;
            invites_in_flight = u.maps.invites_in_flight ∙ m.invites_in_flight;
          };
          ports = u.ports ∙ m.released;
          said =
              u.said ∙ ap (λ ms. (lib.create_error req 481 "Call Does Not Exist", src) ∷ ms) m.sent;
        })
