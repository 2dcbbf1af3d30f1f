-- ===== src/Handlers/Calls/Invite/Compliance.antt =====
-- The handlers of an INVITE keep the rules.
use sentiric_b2bua_service.Prelude.{ℕ, zero, suc, ◌+◌, String, Bool, refl, Option, none, some, leb}
use sentiric_b2bua_service.Sip
use sentiric_b2bua_service.Sip.{SipPacket, SocketAddr, SipUri, Outcome, ok, err}
use sentiric_b2bua_service.Libraries.{Libraries}
use sentiric_b2bua_service.Data.{CallSession, Resolution}
use sentiric_b2bua_service.Effects.{◌>>=◌, perform}
use sentiric_b2bua_service.Effects.Every.{Every, Every-bind, Every-ret, Every-abort, Every-if}
use sentiric_b2bua_service.Compliance.{Complies}
use sentiric_b2bua_service.Store
use sentiric_b2bua_service.Store.Compliance.{
  insert-Complies, is_early_cancelled-Complies, get-Complies,
}
use sentiric_b2bua_service.Handlers.Events.Compliance.{publish_call_started-Complies}
use sentiric_b2bua_service.Handlers.Media.{max_attempts, first_backoff}
use sentiric_b2bua_service.Handlers.Media.Compliance.{allocate_port-Complies, set_target-Complies}
use sentiric_b2bua_service.Handlers.Calls.{CallHandler, header_or_default, open_transaction}
use sentiric_b2bua_service.Handlers.Calls.Ending.Compliance.{terminate_session-Complies}
use sentiric_b2bua_service.Handlers.Calls.Invite.{
  Incoming, fallback_uri, parse_to, resolve_loop, announce, finish, establish, refuse, with_port,
  route_call, incoming, process_invite, answer_again, process_reinvite,
}

module _ (lib : Libraries) (L : String → Type 0) (A : Type 0) (self : CallHandler) where
  fallback_uri-Complies :
      (id : String) (o : Option SipUri) → Every (Complies lib L A id) (fallback_uri lib self o)
  unfolding fallback_uri
  fallback_uri-Complies id none = Every-abort
  fallback_uri-Complies id (some u) = Every-ret u

  parse_to-Complies :
      (id : String) (o : Option SipUri) → Every (Complies lib L A id) (parse_to lib self o)
  unfolding parse_to
  parse_to-Complies id (some u) = Every-ret u
  parse_to-Complies id none = fallback_uri-Complies id _

  resolve_loop-Complies :
      A
      → (fuel attempt backoff : ℕ) (id from_uri to_aor : String)
      → Every (Complies lib L A id) (resolve_loop lib self fuel attempt backoff id from_uri to_aor)
  unfolding resolve_loop ◌>>=◌
  resolve_loop-Complies may zero attempt backoff id from_uri to_aor = Every-abort
  resolve_loop-Complies may (suc fuel) attempt backoff id from_uri to_aor = record {
    all = (
      (refl, refl, may),
      elim [
        | ok r ↦ tt
        | err e ↦
            (Every-if (leb max_attempts (attempt + 1)) _ _ (Every-ret _) (record {
              all = (tt, λ _. (resolve_loop-Complies may fuel _ _ id from_uri to_aor).all);
            })).all
      ],
    );
  }

  refuse-Complies :
      (id : String) (req : SipPacket) (src : SocketAddr) (status : ℕ) (reason : String)
      → Every (Complies lib L A id) (refuse lib self req src status reason)
  unfolding refuse ◌>>=◌
  refuse-Complies id req src status reason = record { all = (tt, λ _. tt) }

  open_transaction-Complies :
      (id : String) (req resp : SipPacket)
      → Every (Complies lib L A id) (open_transaction lib req resp)
  unfolding open_transaction
  open_transaction-Complies id req resp =
      Every-if (lib.opens_transaction req) _ _ (Every-ret _) Every-abort

  module _ (call : Incoming) where
    announce-Complies :
        (port : ℕ) (target : String) (r : Resolution) (o : Outcome (Unit {0}))
        → Every (Complies lib L A call.call_id) (announce lib self call port target r o)
    unfolding announce
    announce-Complies port target r (err e) = Every-ret tt
    announce-Complies port target r (ok u) =
        publish_call_started-Complies lib L A _ call.call_id port target _ _ _

    finish-Complies :
        (resp : SipPacket) (src : SocketAddr) (port : ℕ) (target : String) (r : Resolution)
        (cancelled : Bool)
        → Every
            (Complies lib L A call.call_id)
            (finish lib self call resp src port target r cancelled)
    unfolding finish ◌>>=◌
    finish-Complies resp src port target r cancelled =
        Every-if cancelled _ _ (terminate_session-Complies lib L A self call.call_id)
          (record { all = (tt, λ o. (announce-Complies port target r o).all) })

    establish-Complies :
        A
        → (req : SipPacket) (src : SocketAddr) (r : Resolution) (port : ℕ)
        → Every (Complies lib L A call.call_id) (establish lib self call req src r port)
    unfolding establish perform
    establish-Complies may req src r port =
        Every-bind _ _ (set_target-Complies lib L A call.call_id may _ port _) λ _.
          Every-bind _ _ (record { all = (tt, λ _. tt) })
            λ tag.
              Every-bind (open_transaction lib req _) _ (open_transaction-Complies _ req _) λ tx.
                Every-bind _ _ (insert-Complies lib L A call.call_id _) λ _.
                  Every-bind _ _ (is_early_cancelled-Complies lib L A call.call_id)
                    λ c. finish-Complies _ src port _ r c

    with_port-Complies :
        A
        → (req : SipPacket) (src : SocketAddr) (r : Resolution) (o : Outcome ℕ)
        → Every (Complies lib L A call.call_id) (with_port lib self call req src r o)
    unfolding with_port
    with_port-Complies may req src r (ok port) = establish-Complies may req src r port
    with_port-Complies may req src r (err e) = refuse-Complies call.call_id req src _ _

    route_call-Complies :
        A
        → (req : SipPacket) (src : SocketAddr) (o : Outcome Resolution)
        → Every (Complies lib L A call.call_id) (route_call lib self call req src o)
    unfolding route_call
    route_call-Complies may req src (ok r) =
        Every-bind _ _ (allocate_port-Complies lib L A call.call_id _)
          λ o. with_port-Complies may req src r o
    route_call-Complies may req src (err e) = refuse-Complies call.call_id req src _ _

  pub process_invite-Complies :
      A
      → (req : SipPacket) (src : SocketAddr)
      → Every
          (Complies lib L A (header_or_default lib req Sip.call_id))
          (process_invite lib self req src)
  unfolding process_invite perform
  process_invite-Complies may req src = Every-bind _ _ (parse_to-Complies _ _) λ uri.
      Every-bind _ _ (record { all = (tt, λ _. tt) })
        λ _.
          Every-bind _ _ (resolve_loop-Complies may max_attempts 0 first_backoff _ _ _)
            λ o. route_call-Complies (incoming lib self req) may req src o

  answer_again-Complies :
      (id : String) (req : SipPacket) (src : SocketAddr) (o : Option CallSession)
      → Every (Complies lib L A id) (answer_again lib self req src o)
  unfolding answer_again perform
  answer_again-Complies id req src none = refuse-Complies id req src _ _
  answer_again-Complies id req src (some s) =
      Every-bind (open_transaction lib req _) _ (open_transaction-Complies _ req _) λ tx.
        Every-bind _ _ (insert-Complies lib L A id _)
          λ _. Every-bind _ _ (record { all = (tt, λ _. tt) }) λ _. Every-ret tt

  pub process_reinvite-Complies :
      (req : SipPacket) (src : SocketAddr)
      → Every
          (Complies lib L A (header_or_default lib req Sip.call_id))
          (process_reinvite lib self req src)
  unfolding process_reinvite
  process_reinvite-Complies req src =
      Every-bind (Store.get lib _) _ (get-Complies lib L A _) λ o. answer_again-Complies _ req src o
