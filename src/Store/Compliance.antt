-- ===== src/Store/Compliance.antt =====
-- The methods of `CallStore` keep the rules.
use sentiric_b2bua_service.Prelude.{String, refl, Option, none, some, true, false}
use sentiric_b2bua_service.Libraries.{Libraries}
use sentiric_b2bua_service.Data.{CallState, CallSession, CallSessionData}
use sentiric_b2bua_service.Effects.{◌>>=◌, ret, perform, redis_set_ex}
use sentiric_b2bua_service.Effects.Every.{Every, every_rules}
use sentiric_b2bua_service.Compliance.{Complies}
use sentiric_b2bua_service.Store.{
  remove, insert, update_state, get, write_redis, reload, fetch, parse_entry, redis_key,
  try_lock_invite, unlock_invite, mark_early_cancelled, is_early_cancelled,
}

module _ (lib : Libraries) (L : String → Type 0) (A : Type 0) (id : String) where
  pub try_lock_invite-Complies : L id → Every (Complies lib L A id) (try_lock_invite id)
  unfolding try_lock_invite perform
  try_lock_invite-Complies h = record { all = (h, λ _. tt) }

  pub unlock_invite-Complies : L id → Every (Complies lib L A id) (unlock_invite id)
  unfolding unlock_invite perform
  unlock_invite-Complies h = record { all = (h, λ _. tt) }

  pub mark_early_cancelled-Complies : Every (Complies lib L A id) (mark_early_cancelled id)
  unfolding mark_early_cancelled perform
  mark_early_cancelled-Complies = record { all = (refl, λ _. tt) }

  pub is_early_cancelled-Complies : Every (Complies lib L A id) (is_early_cancelled id)
  unfolding is_early_cancelled perform
  is_early_cancelled-Complies = record { all = (refl, λ _. tt) }

  pub remove-Complies : Every (Complies lib L A id) (remove id)
  unfolding remove ◌>>=◌
  remove-Complies = record {
    all = (
      tt,
      elim [
        | true ↦ (refl, λ _. (refl, λ _. (refl, λ _. tt)))
        | false ↦ (refl, λ _. (refl, λ _. tt))
      ],
    );
  }

  write_when :
      (key : String) (json : Option String)
      → Every (Complies lib L A id) (elim json [
        | none ↦ ret tt
        | some json ↦ perform (redis_set_ex (redis_key key) json 86400)
      ])
  unfolding perform
  write_when key none = search every_rules
  write_when key (some json) = record { all = (refl, λ _. tt) }

  write_redis-Complies :
      (key : String) (d : CallSessionData) → Every (Complies lib L A id) (write_redis lib key d)
  unfolding write_redis ◌>>=◌
  write_redis-Complies key d = record {
    all = (tt, elim [ true ↦ (write_when key (lib.to_json d)).all | false ↦ tt ]);
  }

  pub insert-Complies : (s : CallSession) → Every (Complies lib L A id) (insert lib s)
  unfolding insert ◌>>=◌
  insert-Complies s = record { all = (tt, λ _. (write_redis-Complies _ _).all) }

  pub update_state-Complies :
      (st : CallState) → Every (Complies lib L A id) (update_state lib id st)
  unfolding update_state ◌>>=◌
  update_state-Complies st = record {
    all = (refl, elim [ none ↦ tt | some d ↦ (write_redis-Complies id d).all ]);
  }

  reload-Complies : (o : Option CallSessionData) → Every (Complies lib L A id) (reload lib id o)
  unfolding reload ◌>>=◌
  reload-Complies none = search every_rules
  reload-Complies (some d) = record { all = (tt, λ _. tt) }

  fetch-Complies : Every (Complies lib L A id) (fetch lib id)
  unfolding fetch ◌>>=◌
  fetch-Complies = record {
    all = (
      tt,
      elim [ true ↦ (refl, λ json. (reload-Complies (parse_entry lib json)).all) | false ↦ tt ],
    );
  }

  pub get-Complies : Every (Complies lib L A id) (get lib id)
  unfolding get ◌>>=◌
  get-Complies = record { all = (refl, elim [ some s ↦ tt | none ↦ fetch-Complies.all ]) }
