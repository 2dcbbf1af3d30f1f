-- ===== src/Handlers/Calls/Invite/Owning.antt =====
-- The ports of incoming calls, also where a task panics because no transaction opens.
use sentiric_b2bua_service.Prelude.{ℕ, ◌≡◌, refl, false, Bool-cases, inl, inr, some, List, [], ◌∷◌}
use sentiric_b2bua_service.Sip.{SipPacket, SocketAddr, SipTransaction, Outcome, ok, err}
use sentiric_b2bua_service.Libraries.{Libraries}
use sentiric_b2bua_service.Data.{Resolution}
use sentiric_b2bua_service.Effects.{Prog, ◌>>=◌, perform}
use sentiric_b2bua_service.Ports.Owner.{Owns, Port→Owns, Port→Owns_bind}
use sentiric_b2bua_service.Handlers.Media.{max_attempts, first_backoff, allocate_port, set_target}
use sentiric_b2bua_service.Handlers.Media.Ports.{allocate_port-Port, set_target-Port}
use sentiric_b2bua_service.Handlers.Calls.{CallHandler, open_transaction}
use sentiric_b2bua_service.Handlers.Calls.Invite.{
  Incoming, parse_to, resolve_loop, establish, with_port, route_call, incoming, process_invite,
}
use sentiric_b2bua_service.Handlers.Calls.Invite.Ports.{
  parse_to-Port, resolve_loop-Port, establish-Settled, with_port-Settled, refuse-Settled,
}

module _ (lib : Libraries) (self : CallHandler) where
  panic-Owns :
      {A : Type 0} (req resp : SipPacket) (ps : List ℕ) (f : SipTransaction → Prog A)
      → lib.opens_transaction req ≡ false
      → Owns (some ps) (open_transaction lib req resp >>= f)
  unfolding open_transaction ◌>>=◌
  panic-Owns req resp ps f h = rw h tt

  establish-Owns :
      (call : Incoming) (req : SipPacket) (src : SocketAddr) (r : Resolution) (port : ℕ)
      → Owns (some (port ∷ [])) (establish lib self call req src r port)
  unfolding establish perform ◌>>=◌
  establish-Owns call req src r port = elim (Bool-cases (lib.opens_transaction req)) [
    | inl h ↦ Port→Owns _ _ _ (establish-Settled lib self call req src r port h)
    | inr h ↦
        Port→Owns_bind _ (set_target lib self.media_mgr port _ call.call_id)
          (λ ps a. ps ≡ port ∷ []) _
          (set_target-Port lib self.media_mgr call.call_id port _ _ _ (λ _. refl))
          (λ ps a e. rw e (tt, λ tag. panic-Owns req _ _ _ h))
  ]

  -- What a task owns once the media service has answered.
  Allocated : List ℕ → Outcome ℕ → Type 0
  Allocated ps (ok p) = ps ≡ p ∷ []
  Allocated ps (err e) = ps ≡ []

  with_port-Owns :
      (call : Incoming) (req : SipPacket) (src : SocketAddr) (r : Resolution) (ps : List ℕ)
      (o : Outcome ℕ)
      → Allocated ps o
      → Owns (some ps) (with_port lib self call req src r o)
  unfolding with_port Allocated
  with_port-Owns call req src r ps (ok p) e = rw e (establish-Owns call req src r p)
  with_port-Owns call req src r ps (err m) e =
      rw e (Port→Owns [] _ _ (with_port-Settled lib self call req src r m))

  route_call-Owns :
      (call : Incoming) (req : SipPacket) (src : SocketAddr) (o : Outcome Resolution)
      → Owns (some []) (route_call lib self call req src o)
  unfolding route_call Allocated
  route_call-Owns call req src (ok r) =
      Port→Owns_bind [] (allocate_port lib self.media_mgr call.call_id) Allocated _
        (allocate_port-Port lib self.media_mgr call.call_id _ (λ p. refl) (λ e. refl))
        (λ ps o e. with_port-Owns call req src r ps o e)
  route_call-Owns call req src (err e) = Port→Owns [] _ _ (refuse-Settled lib self req src _ _)

  -- An incoming call stores and releases only ports that its task owns, also where the task panics.
  pub process_invite-Owns :
      (req : SipPacket) (src : SocketAddr) → Owns (some []) (process_invite lib self req src)
  unfolding process_invite perform ◌>>=◌
  process_invite-Owns req src =
      let to_uri = lib.parse_uri (incoming lib self req).to_uri in
      Port→Owns_bind [] (parse_to lib self to_uri) (λ ps u. ps ≡ []) _
        (parse_to-Port lib self to_uri _ (λ u. refl))
        (λ ps u e. rw e (
          tt,
          λ _.
              Port→Owns_bind [] (resolve_loop lib self max_attempts 0 first_backoff _ _ _)
                (λ qs o. qs ≡ []) _
                (resolve_loop-Port lib self _ (λ o. refl) max_attempts 0 first_backoff _ _ _)
                (λ qs o d. rw d (route_call-Owns _ req src o)),
        ))
