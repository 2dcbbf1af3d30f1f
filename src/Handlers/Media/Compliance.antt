-- ===== src/Handlers/Media/Compliance.antt =====
-- The rules on the requests to the media service.
use sentiric_b2bua_service.Prelude.{ℕ, zero, suc, ◌+◌, String, refl, leb}
use sentiric_b2bua_service.Sip.{ok, err}
use sentiric_b2bua_service.Libraries.{Libraries}
use sentiric_b2bua_service.Effects.{◌>>=◌, perform}
use sentiric_b2bua_service.Effects.Every.{Every, Every-abort, Every-ret, Every-if}
use sentiric_b2bua_service.Compliance.{Complies}
use sentiric_b2bua_service.Handlers.Media.{
  MediaManager, max_attempts, first_backoff, allocate_loop, allocate_port, set_target, release_port,
}

module _ (lib : Libraries) (L : String → Type 0) (A : Type 0) (id : String) where
  allocate_loop-Complies :
      (fuel attempt backoff : ℕ)
      → Every (Complies lib L A id) (allocate_loop lib fuel attempt backoff id)
  unfolding allocate_loop ◌>>=◌
  allocate_loop-Complies zero attempt backoff = Every-abort
  allocate_loop-Complies (suc fuel) attempt backoff = record {
    all = (
      (refl, refl),
      elim [
        | ok port ↦ tt
        | err e ↦
            (Every-if (leb max_attempts (attempt + 1)) _ _ (Every-ret _)
              (record { all = (tt, λ _. (allocate_loop-Complies fuel _ _).all) })).all
      ],
    );
  }

  pub allocate_port-Complies :
      (mgr : MediaManager) → Every (Complies lib L A id) (allocate_port lib mgr id)
  unfolding allocate_port
  allocate_port-Complies mgr = allocate_loop-Complies max_attempts 0 first_backoff

  pub set_target-Complies :
      A
      → (mgr : MediaManager) (port : ℕ) (target : String)
      → Every (Complies lib L A id) (set_target lib mgr port target id)
  unfolding set_target perform
  set_target-Complies may mgr port target = record { all = ((refl, refl, may), λ _. tt) }

  pub release_port-Complies :
      (mgr : MediaManager) (port : ℕ) → Every (Complies lib L A id) (release_port lib mgr port id)
  unfolding release_port perform
  release_port-Complies mgr port = record { all = ((refl, refl), λ _. tt) }
