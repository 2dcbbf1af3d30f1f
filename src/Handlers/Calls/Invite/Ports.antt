-- ===== src/Handlers/Calls/Invite/Ports.antt =====
-- The ports of incoming calls.
use sentiric_b2bua_service.Prelude.{
  ℕ, zero, suc, ◌+◌, String, ◌≡◌, Bool, true, refl, Option, none, some, List, [], ◌∷◌, leb,
}
use sentiric_b2bua_service.Sip.{SipPacket, SocketAddr, SipUri, SipTransaction, Outcome, ok, err}
use sentiric_b2bua_service.Libraries.{Libraries}
use sentiric_b2bua_service.Data.{Resolution}
use sentiric_b2bua_service.Effects.{◌>>=◌, perform}
use sentiric_b2bua_service.Effects.Protocol.{Keeps, Keeps-bind, Keeps-if}
use sentiric_b2bua_service.Ports.{Port, Settled}
use sentiric_b2bua_service.Store
use sentiric_b2bua_service.Store.{is_early_cancelled}
use sentiric_b2bua_service.Store.Ports.{insert-Port}
use sentiric_b2bua_service.RabbitMq.Ports.{publish_event_bytes-Port}
use sentiric_b2bua_service.Handlers.Events.{publish_call_started}
use sentiric_b2bua_service.Handlers.Media.{max_attempts, first_backoff}
use sentiric_b2bua_service.Handlers.Media.Ports.{allocate_port-Port, set_target-Port}
use sentiric_b2bua_service.Handlers.Calls.{CallHandler, open_transaction}
use sentiric_b2bua_service.Handlers.Calls.Ending.Ports.{terminate_session-Settled}
use sentiric_b2bua_service.Handlers.Calls.Invite.{
  Incoming, fallback_uri, parse_to, resolve_loop, announce, finish, establish, refuse, with_port,
  route_call, incoming, process_invite,
}

module _ (lib : Libraries) (self : CallHandler) where
  fallback_uri-Port :
      (o : Option SipUri) (Q : List ℕ → SipUri → Type 0)
      → ((u : SipUri) → Q [] u)
      → Keeps Port [] (fallback_uri lib self o) Q
  unfolding fallback_uri
  fallback_uri-Port none Q q = refl
  fallback_uri-Port (some u) Q q = q u

  pub parse_to-Port :
      (o : Option SipUri) (Q : List ℕ → SipUri → Type 0)
      → ((u : SipUri) → Q [] u)
      → Keeps Port [] (parse_to lib self o) Q
  unfolding parse_to
  parse_to-Port (some u) Q q = q u
  parse_to-Port none Q q = fallback_uri-Port _ Q q

  pub resolve_loop-Port :
      (Q : List ℕ → Outcome Resolution → Type 0)
      → ((o : Outcome Resolution) → Q [] o)
      → (fuel attempt backoff : ℕ) (id from_uri to_aor : String)
      → Keeps Port [] (resolve_loop lib self fuel attempt backoff id from_uri to_aor) Q
  unfolding resolve_loop ◌>>=◌
  resolve_loop-Port Q q zero attempt backoff id from_uri to_aor = refl
  resolve_loop-Port Q q (suc fuel) attempt backoff id from_uri to_aor = (
    tt,
    elim [
      | ok r ↦ q (ok r)
      | err e ↦
          Keeps-if Port [] (leb max_attempts (attempt + 1)) _ _ Q (q (err e))
            (tt, λ _. resolve_loop-Port Q q fuel _ _ id from_uri to_aor)
    ],
  )

  pub refuse-Settled :
      (req : SipPacket) (src : SocketAddr) (status : ℕ) (reason : String)
      → Keeps Port [] (refuse lib self req src status reason) Settled
  unfolding refuse ◌>>=◌
  refuse-Settled req src status reason = (tt, λ _. refl)

  open_transaction-Port :
      (req resp : SipPacket) (ps : List ℕ) (Q : List ℕ → SipTransaction → Type 0)
      → lib.opens_transaction req ≡ true
      → ((tx : SipTransaction) → Q ps tx)
      → Keeps Port ps (open_transaction lib req resp) Q
  unfolding open_transaction
  open_transaction-Port req resp ps Q h q = rw h (q _)

  announce-Settled :
      (call : Incoming) (port : ℕ) (target : String) (r : Resolution) (o : Outcome (Unit {0}))
      → Keeps Port [] (announce lib self call port target r o) Settled
  unfolding announce publish_call_started
  announce-Settled call port target r (err e) = refl
  announce-Settled call port target r (ok u) =
      Keeps-bind Port [] _ _ _ (publish_event_bytes-Port _ _ _ (λ _. refl))

  finish-Settled :
      (call : Incoming) (resp : SipPacket) (src : SocketAddr) (port : ℕ) (target : String)
      (r : Resolution) (cancelled : Bool)
      → Keeps Port [] (finish lib self call resp src port target r cancelled) Settled
  unfolding finish ◌>>=◌
  finish-Settled call resp src port target r cancelled =
      Keeps-if Port [] cancelled _ _ _ (terminate_session-Settled lib self call.call_id)
        (tt, λ o. announce-Settled call port target r o)

  pub establish-Settled :
      (call : Incoming) (req : SipPacket) (src : SocketAddr) (r : Resolution) (port : ℕ)
      → lib.opens_transaction req ≡ true
      → Keeps Port (port ∷ []) (establish lib self call req src r port) Settled
  unfolding establish perform is_early_cancelled
  establish-Settled call req src r port h = Keeps-bind Port _ _ _ _ (
      set_target-Port lib self.media_mgr call.call_id port _ _ _ λ _. Keeps-bind Port _ _ _ _ (
        tt,
        λ tag. Keeps-bind Port _ (open_transaction lib req _) _ _ (
            open_transaction-Port req _ _ _ h λ tx. Keeps-bind Port _ (Store.insert lib _) _ _ (
              insert-Port lib _ _ []
                (Keeps-bind Port [] _ _ _ (tt, λ c. finish-Settled call _ src port _ r c)))),
      ))

  pub with_port-Settled :
      (call : Incoming) (req : SipPacket) (src : SocketAddr) (r : Resolution) (e : String)
      → Keeps Port [] (with_port lib self call req src r (err e)) Settled
  unfolding with_port
  with_port-Settled call req src r e = refuse-Settled req src _ _

  route_call-Settled :
      (call : Incoming) (req : SipPacket) (src : SocketAddr) (o : Outcome Resolution)
      → lib.opens_transaction req ≡ true
      → Keeps Port [] (route_call lib self call req src o) Settled
  unfolding route_call
  route_call-Settled call req src (ok r) h = Keeps-bind Port [] _ _ _ (
      allocate_port-Port lib self.media_mgr call.call_id _
        (λ p. establish-Settled call req src r p h) (λ e. with_port-Settled call req src r e))
  route_call-Settled call req src (err e) h = refuse-Settled req src _ _

  -- Where a transaction can be opened for the INVITE, and whatever the outside answers and other
  -- tasks do: each port that the media service gives to `process_invite` goes into a session that
  -- it stores or back to the media service, and so does a port that it takes out of the store with
  -- a session; it stores and releases no other port.
  pub process_invite-Settled :
      (req : SipPacket) (src : SocketAddr)
      → lib.opens_transaction req ≡ true
      → Keeps Port [] (process_invite lib self req src) Settled
  unfolding process_invite perform
  process_invite-Settled req src h =
      let to_uri = lib.parse_uri (incoming lib self req).to_uri in
      Keeps-bind Port [] (parse_to lib self to_uri) _ _ (
        parse_to-Port to_uri _ λ uri. Keeps-bind Port [] _ _ _ (
          tt,
          λ _. Keeps-bind Port [] _ _ _ (
              resolve_loop-Port _ (λ o. route_call-Settled _ req src o h) max_attempts 0
                first_backoff _ _ _),
        ))
