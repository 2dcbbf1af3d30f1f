-- ===== src/Store/Ports.antt =====
-- What the methods of `CallStore` do with the ports of the sessions.
use sentiric_b2bua_service.Prelude.{ℕ, String, true, false, Option, none, some, List, [], ◌∷◌}
use sentiric_b2bua_service.Libraries.{Libraries}
use sentiric_b2bua_service.Data.{CallState, CallSession, CallSessionData}
use sentiric_b2bua_service.Effects.{◌>>=◌, perform, ret, redis_set_ex}
use sentiric_b2bua_service.Effects.Protocol.{Keeps}
use sentiric_b2bua_service.Ports.{Port, port_of, has_port_self, give_port_self}
use sentiric_b2bua_service.Store.{remove, insert, update_state, write_redis, redis_key}

-- The task that removes a session owns its port.
pub remove-Port :
    (id : String) (Q : List ℕ → Option CallSession → Type 0)
    → Q [] none
    → ((s : CallSession) → Q (port_of s ∷ []) (some s))
    → Keeps Port [] (remove id) Q
unfolding remove ◌>>=◌
remove-Port id Q q h = (
  tt,
  elim [
    | true ↦ (tt, λ _. (tt, λ _. (tt, elim [ none ↦ q | some s ↦ h s ])))
    | false ↦ (tt, λ _. (tt, elim [ none ↦ q | some s ↦ h s ]))
  ],
)

module _ (lib : Libraries) (Q : List ℕ → Unit {0} → Type 0) where
  write-Port :
      (key : String) (json : Option String) (ps : List ℕ)
      → Q ps tt
      → Keeps Port ps
          (elim json [
            | none ↦ ret tt
            | some json ↦ perform (redis_set_ex (redis_key key) json 86400)
          ])
          Q
  unfolding perform
  write-Port key none ps q = q
  write-Port key (some json) ps q = (tt, λ _. q)

  write_redis-Port :
      (key : String) (d : CallSessionData) (ps : List ℕ)
      → Q ps tt
      → Keeps Port ps (write_redis lib key d) Q
  unfolding write_redis ◌>>=◌
  write_redis-Port key d ps q =
      (tt, elim [ true ↦ write-Port key (lib.to_json d) ps q | false ↦ q ])

  -- The session takes over a port that the task owns.
  pub insert-Port :
      (s : CallSession) (ps : List ℕ) → Q ps tt → Keeps Port (port_of s ∷ ps) (insert lib s) Q
  unfolding insert ◌>>=◌
  insert-Port s ps q =
      (has_port_self (port_of s) ps, λ _. rw give_port_self (write_redis-Port _ _ ps q))

  changed-Port :
      (id : String) (entry : Option CallSessionData) (ps : List ℕ)
      → Q ps tt
      → Keeps Port ps (elim entry [ none ↦ ret tt | some d ↦ write_redis lib id d ]) Q
  changed-Port id none ps q = q
  changed-Port id (some d) ps q = write_redis-Port id d ps q

  -- The state of a session changes, and not its port.
  pub update_state-Port :
      (id : String) (st : CallState) (ps : List ℕ)
      → Q ps tt
      → Keeps Port ps (update_state lib id st) Q
  unfolding update_state ◌>>=◌
  update_state-Port id st ps q = (tt, λ entry. changed-Port id entry ps q)
