-- ===== src/Engine/Locking.antt =====
-- A packet's task takes at most the lock of its call, sets up a call only with it, and gives it
-- back.
use sentiric_b2bua_service.Prelude.{
  String, ◌≡◌, refl, Bool, true, false, not, some, List, [], ◌∷◌, arith, eq_refl,
}
use sentiric_b2bua_service.Prelude.Table.{contains, discard}
use sentiric_b2bua_service.Sip
use sentiric_b2bua_service.Sip.{
  SipPacket, SocketAddr, Method, invite, ack, bye, cancel, other_method, TransactionAction,
  retransmit, ignore, forward_to_app, Outcome,
}
use sentiric_b2bua_service.Libraries.{Libraries}
use sentiric_b2bua_service.Effects.{
  Prog, ◌>>=◌, perform, World, Env, run, respond, advance, inflight_insert,
}
use sentiric_b2bua_service.Effects.Every.{Every, Every-mono}
use sentiric_b2bua_service.Effects.Protocol.{
  Keeps, Keeps-bind, Keeps-frame, Keeps-frame_at, Keeps-if,
}
use sentiric_b2bua_service.Compliance.{Complies}
use sentiric_b2bua_service.Locks.{Lock, Complies→Passes, Complies→PassesAt}
use sentiric_b2bua_service.Store
use sentiric_b2bua_service.Store.{unlock_invite, try_lock_invite}
use sentiric_b2bua_service.Store.Compliance.{get-Complies}
use sentiric_b2bua_service.Handlers.Calls.{header_or_default}
use sentiric_b2bua_service.Handlers.Calls.Ending.Compliance.{
  process_bye-Complies, process_cancel-Complies, process_ack-Complies, terminate_session-Complies,
}
use sentiric_b2bua_service.Handlers.Calls.Invite.{process_invite}
use sentiric_b2bua_service.Handlers.Calls.Invite.Compliance.{
  process_invite-Complies, process_reinvite-Complies,
}
use sentiric_b2bua_service.Handlers.Calls.Outbound.Compliance.{process_outbound_invite-Complies}
use sentiric_b2bua_service.Engine.{
  B2BuaEngine, send_outbound_invite, terminate_session, locked_invite, invite_request, by_method,
  take_action, action_for, is_ack, handle_packet,
}

abbrev pub Unlocked : {A : Type 0} → List String → A → Type 0
Unlocked held a = held ≡ []

-- Between the two lock actions the handlers touch no lock.
lock_free :
    {A : Type 0} (lib : Libraries) (id : String) (m : Prog A)
    → Every (Complies lib (λ k. ⊥) ⊥ id) m
    → Keeps Lock [] m Unlocked
lock_free lib id m h =
    Keeps-frame Lock [] m _ (Every-mono m (Complies→Passes lib id) h) tt (λ a. refl)

unlock-Unlocked : (id : String) → Keeps Lock (id ∷ []) (unlock_invite id) Unlocked
unfolding unlock_invite perform contains discard
unlock-Unlocked id = (ground (arith, eq_refl id), λ a. ground (arith, eq_refl id))

try_lock-Keeps :
    (id : String) (Q : List String → Bool → Type 0)
    → Q (id ∷ []) true
    → Q [] false
    → Keeps Lock [] (try_lock_invite id) Q
unfolding try_lock_invite perform
try_lock-Keeps id Q t f = (tt, elim [ true ↦ t | false ↦ f ])

module _ (lib : Libraries) (self : B2BuaEngine) (packet : SipPacket) (src : SocketAddr) where
  abbrev id : String
  id = header_or_default lib packet Sip.call_id

  locked : Keeps Lock (id ∷ []) (locked_invite lib self id packet src true) Unlocked
  unfolding locked_invite
  locked = Keeps-bind Lock _ (process_invite lib _ packet src) _ _ (
      Keeps-frame_at Lock _ _ _
        (Every-mono _ (Complies→PassesAt lib id)
          (process_invite-Complies lib (λ k. ⊥) Unit _ tt packet src))
        tt (λ a. unlock-Unlocked id))

  invite_request-Unlocked : Keeps Lock [] (invite_request lib self id packet src) Unlocked
  unfolding invite_request locked_invite
  invite_request-Unlocked =
      Keeps-if Lock [] (lib.is_in_dialog_request packet) _ _ _
        (lock_free lib id _ (process_reinvite-Complies lib (λ k. ⊥) ⊥ _ packet src))
        (Keeps-bind Lock [] (try_lock_invite id) _ _ (try_lock-Keeps id _ locked refl))

  by_method-Unlocked : (m : Method) → Keeps Lock [] (by_method lib self m id packet src) Unlocked
  unfolding by_method
  by_method-Unlocked invite = invite_request-Unlocked
  by_method-Unlocked bye = lock_free lib id _ (process_bye-Complies lib (λ k. ⊥) ⊥ _ packet src)
  by_method-Unlocked cancel =
      lock_free lib id _ (process_cancel-Complies lib (λ k. ⊥) ⊥ _ packet src)
  by_method-Unlocked ack = refl
  by_method-Unlocked (other_method m) = refl

  take_action-Unlocked :
      (a : TransactionAction) → Keeps Lock [] (take_action lib self a id packet src) Unlocked
  unfolding take_action ◌>>=◌
  take_action-Unlocked (retransmit resp) = (tt, λ o. refl)
  take_action-Unlocked ignore = refl
  take_action-Unlocked forward_to_app =
      Keeps-if Lock [] (lib.is_request packet) _ _ _ (by_method-Unlocked packet.method) refl

  pub handle_packet-Unlocked : Keeps Lock [] (handle_packet lib self packet src) Unlocked
  unfolding handle_packet
  handle_packet-Unlocked =
      Keeps-if Lock [] (is_ack packet.method) _ _ _
        (lock_free lib id _ (process_ack-Complies lib (λ k. ⊥) ⊥ _ id))
        (Keeps-bind Lock [] (Store.get lib id) _ _ (
          Keeps-frame Lock [] _ _
            (Every-mono _ (Complies→Passes lib id) (get-Complies lib (λ k. ⊥) ⊥ id)) tt
            (λ s. take_action-Unlocked (action_for lib s packet))))

module _ (lib : Libraries) (self : B2BuaEngine) (id : String) where
  pub terminate_session-Unlocked : Keeps Lock [] (terminate_session lib self id) Unlocked
  unfolding terminate_session
  terminate_session-Unlocked = lock_free lib id _ (terminate_session-Complies lib (λ k. ⊥) ⊥ _ id)

  pub send_outbound_invite-Unlocked :
      (from_uri to_uri : String)
      → Keeps Lock [] (send_outbound_invite lib self id from_uri to_uri) Unlocked
  unfolding send_outbound_invite
  send_outbound_invite-Unlocked from_uri to_uri =
      lock_free lib id _ (process_outbound_invite-Complies lib (λ k. ⊥) ⊥ _ id from_uri to_uri)

module _ (lib : Libraries) (self : B2BuaEngine) (id : String) (packet : SipPacket)
    (src : SocketAddr) (env : Env) where
  locked_run :
      (taken : Bool) (w : World)
      → taken ≡ true
      → run env (locked_invite lib self id packet src (not taken)) w ≡ (some tt, w)
  unfolding locked_invite run
  locked_run true w e = refl
  locked_run false w e = absurd (cc e)

  -- An INVITE outside a dialog whose lock is taken.
  pub locked_out :
      (w : World)
      → lib.is_in_dialog_request packet ≡ false
      → contains id w.invites_in_flight ≡ true
      → run env (invite_request lib self id packet src) w
        ≡ (some tt, advance env (inflight_insert id) w)
  unfolding invite_request try_lock_invite perform run respond ◌>>=◌
  locked_out w outside taken = rw outside (locked_run (contains id w.invites_in_flight) _ taken)
