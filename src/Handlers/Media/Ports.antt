-- ===== src/Handlers/Media/Ports.antt =====
-- Who owns a port after a call of the media service.
use sentiric_b2bua_service.Prelude.{ℕ, zero, suc, ◌+◌, String, List, [], ◌∷◌, leb, refl}
use sentiric_b2bua_service.Sip.{Outcome, ok, err}
use sentiric_b2bua_service.Libraries.{Libraries}
use sentiric_b2bua_service.Effects.{◌>>=◌, perform}
use sentiric_b2bua_service.Effects.Protocol.{Keeps, Keeps-if}
use sentiric_b2bua_service.Ports.{Port, has_port_self, give_port_self}
use sentiric_b2bua_service.Handlers.Media.{
  MediaManager, max_attempts, first_backoff, allocate_loop, allocate_port, set_target, release_port,
}

module _ (lib : Libraries) (mgr : MediaManager) (id : String) where
  allocate_loop-Port :
      (Q : List ℕ → Outcome ℕ → Type 0)
      → ((p : ℕ) → Q (p ∷ []) (ok p))
      → ((e : String) → Q [] (err e))
      → (fuel attempt backoff : ℕ) → Keeps Port [] (allocate_loop lib fuel attempt backoff id) Q
  unfolding allocate_loop ◌>>=◌
  allocate_loop-Port Q good bad zero attempt backoff = refl
  allocate_loop-Port Q good bad (suc fuel) attempt backoff = (
    tt,
    elim [
      | ok p ↦ good p
      | err e ↦
          Keeps-if Port [] (leb max_attempts (attempt + 1)) _ _ Q (bad _)
            (tt, λ _. allocate_loop-Port Q good bad fuel _ _)
    ],
  )

  pub allocate_port-Port :
      (Q : List ℕ → Outcome ℕ → Type 0)
      → ((p : ℕ) → Q (p ∷ []) (ok p))
      → ((e : String) → Q [] (err e))
      → Keeps Port [] (allocate_port lib mgr id) Q
  unfolding allocate_port
  allocate_port-Port Q good bad = allocate_loop-Port Q good bad max_attempts 0 first_backoff

  pub set_target-Port :
      (port : ℕ) (target : String) (ps : List ℕ) (Q : List ℕ → Outcome (Unit {0}) → Type 0)
      → ((a : Outcome (Unit {0})) → Q ps a)
      → Keeps Port ps (set_target lib mgr port target id) Q
  unfolding set_target perform
  set_target-Port port target ps Q q = (tt, q)

  pub release_port-Port :
      (port : ℕ) (ps : List ℕ) (Q : List ℕ → Unit {0} → Type 0)
      → Q ps tt
      → Keeps Port (port ∷ ps) (release_port lib mgr port id) Q
  unfolding release_port perform
  release_port-Port port ps Q q = (has_port_self port ps, λ _. rw (give_port_self port ps) q)
