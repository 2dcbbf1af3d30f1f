-- ===== src/Store/Reload.antt =====
-- A session that is written to Redis by one process and read back by the next.
use sentiric_b2bua_service.Prelude.{
  String, ◌≡◌, refl, ◌∙◌, true, Option, none, some, List, [], ◌∷◌, arith, ◌==◌, eq_refl,
  if◌then◌else◌,
}
use sentiric_b2bua_service.Prelude.Table
use sentiric_b2bua_service.Prelude.Table.{lookup}
use sentiric_b2bua_service.Libraries.{Libraries}
use sentiric_b2bua_service.Data.{CallSession, CallSessionData, new_session}
use sentiric_b2bua_service.Effects.{
  Op, Answer, Event, World, Env, run, respond, update, advance, ◌>>=◌, cache_get, cache_insert,
  redis_clone, redis_get, redis_set_ex, redis_del,
}
use sentiric_b2bua_service.Store.{insert, remove, write_redis, get, fetch, redis_key}

text_of : String → (o : Op) → Answer o → Option String → Option String
text_of key (redis_set_ex k json ttl) a before = if k == key then some json else before
text_of key (redis_del k) a before = if k == key then none else before
text_of key _ a before = before

-- What was last set under a key, and not deleted since.
unfoldable pub last_set : String → List Event → Option String
unfolding text_of
last_set key [] = none
last_set key (e ∷ es) = text_of key e.op e.answer (last_set key es)

-- What the next process finds: Redis, and nothing in memory.
abbrev pub restarted : World → World
restarted w = record { cache = []; early_cancelled = []; invites_in_flight = []; trace = w.trace }

module _ (lib : Libraries) (env : Env) where
  insert-last_set :
      (s : CallSession) (json : String) (w : World)
      → ((u : World) → env u redis_clone ≡ true)
      → lib.to_json s.session_data ≡ some json
      → last_set (redis_key s.session_data.call_id) (run env (insert lib s) w).1.trace ≡ some json
  unfolding insert write_redis run respond update advance last_set ◌>>=◌
  insert-last_set s json w up written = ground (
    arith,
    up (advance env (cache_insert s.session_data.call_id s) w),
    written,
    eq_refl (redis_key s.session_data.call_id),
  )

  abbrev connected : String → World → World
  connected id w = advance env redis_clone (advance env (cache_get id) w)

  fetch_lem :
      (id : String) (w : World) (d : CallSessionData) (json : String)
      → lookup id w.cache ≡ none
      → env (advance env (cache_get id) w) redis_clone ≡ true
      → env (connected id w) (redis_get (redis_key id)) ≡ some json
      → lib.from_json json ≡ some d
      → ((run env (get lib id) w).0 ≡ some (some (new_session d)))
        × ((run env (get lib id) w).1.cache ≡ Table.insert id (new_session d) w.cache)
  unfolding get fetch run respond update advance ◌>>=◌
  fetch_lem id w d json miss up stored read =
      (ground (arith, up, stored), ground (arith, up, stored))

  -- Where Redis can be reached and answers a GET with what was last set under the key (as it does
  -- within the expiry), and `serde_json` reads back what it writes for the session's data: a
  -- session that was inserted by a process that then ended is what `get` gives in the next process,
  -- by its call id, with the same data and without its transaction, and it is cached there.
  pub get-reload :
      (s : CallSession) (json : String) (w : World)
      → ((u : World) → env u redis_clone ≡ true)
      → ((u : World) (key : String) → env u (redis_get key) ≡ last_set key u.trace)
      → lib.to_json s.session_data ≡ some json
      → lib.from_json json ≡ some s.session_data
      → ((run env (get lib s.session_data.call_id) (restarted (run env (insert lib s) w).1)).0
          ≡ some (some (new_session s.session_data)))
        × ((run env
              (get lib s.session_data.call_id)
              (restarted (run env (insert lib s) w).1)).1.cache
            ≡ (s.session_data.call_id, new_session s.session_data) ∷ [])
  unfolding lookup advance respond update last_set Table.insert
  get-reload s json w up kept written read =
      let id = s.session_data.call_id in
      let u = restarted (run env (insert lib s) w).1 in
      fetch_lem id u s.session_data json refl (up _)
        (kept (connected id u) (redis_key id) ∙ insert-last_set s json w up written) read

  remove-last_set :
      (id : String) (w : World)
      → ((u : World) → env u redis_clone ≡ true)
      → last_set (redis_key id) (run env (remove id) w).1.trace ≡ none
  unfolding remove run respond update advance last_set ◌>>=◌
  remove-last_set id w up = ground (arith, up w, eq_refl (redis_key id))

  nothing_lem :
      (id : String) (w : World)
      → lookup id w.cache ≡ none
      → env (advance env (cache_get id) w) redis_clone ≡ true
      → env (connected id w) (redis_get (redis_key id)) ≡ none
      → ((run env (get lib id) w).0 ≡ some none) × ((run env (get lib id) w).1.cache ≡ w.cache)
  unfolding get fetch run respond update advance ◌>>=◌
  nothing_lem id w miss up gone = (ground (arith, up, gone), ground (arith, up, gone))

  -- Where Redis can be reached and answers a GET with what was last set under the key and not
  -- deleted since: a call that was removed by a process that then ended is not found by `get` in
  -- the next process, and nothing is cached there.
  pub get-removed :
      (id : String) (w : World)
      → ((u : World) → env u redis_clone ≡ true)
      → ((u : World) (key : String) → env u (redis_get key) ≡ last_set key u.trace)
      → ((run env (get lib id) (restarted (run env (remove id) w).1)).0 ≡ some none)
        × ((run env (get lib id) (restarted (run env (remove id) w).1)).1.cache ≡ [])
  unfolding lookup advance respond update last_set
  get-removed id w up kept =
      let u = restarted (run env (remove id) w).1 in
      nothing_lem id u refl (up _) (kept (connected id u) (redis_key id) ∙ remove-last_set id w up)
