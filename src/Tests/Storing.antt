-- ===== src/Tests/Storing.antt =====
-- The store, publishing, and the media service, at concrete inputs.
use sentiric_b2bua_service.Prelude.{true, false, ◌≡◌, refl, some, none, [], ◌∷◌}
use sentiric_b2bua_service.Data.{Payload, new_session, call_ended}
use sentiric_b2bua_service.Effects.{Env, World, run, redis_clone, redis_get}
use sentiric_b2bua_service.Libraries.{Libraries}
use sentiric_b2bua_service.Handlers.Media.{allocate_port}
use sentiric_b2bua_service.Handlers.Media.Runs.{allocate_port-Retried, port_answers, unreachable}
use sentiric_b2bua_service.Effects.Retry.{Retried}
use sentiric_b2bua_service.Store.{insert, remove, get}
use sentiric_b2bua_service.Store.Runs.{get-insert}
use sentiric_b2bua_service.Store.Reload.{last_set, restarted, get-reload, get-removed}
use sentiric_b2bua_service.Tests.Fixtures.{lib, env, outside, handler, session, session_data, empty}

get-insert_example :
    (run env (get lib "a") (run env (insert lib session) empty).1).0 ≡ some (some session)
get-insert_example = get-insert lib env session session "a" empty refl

abbrev ended : Payload
ended = call_ended "call.ended" "a" "a" "normal_clearing"

-- An outside with a Redis that keeps what it is told.
abbrev with_redis : Env
with_redis w redis_clone = true
with_redis w (redis_get k) = last_set k w.trace
with_redis w o = env w o

abbrev reading : Libraries
reading = record lib { from_json = λ s. some session_data }

get-reload_example :
    ((run with_redis
        (get reading "a")
        (restarted (run with_redis (insert reading session) empty).1)).0
      ≡ some (some (new_session session_data)))
    × ((run with_redis
          (get reading "a")
          (restarted (run with_redis (insert reading session) empty).1)).1.cache
        ≡ ("a", new_session session_data) ∷ [])
get-reload_example =
    get-reload reading with_redis session "json" empty (λ u. refl) (λ u k. refl) refl refl

-- The call "a" with its entry in Redis.
abbrev stored_call : World
stored_call = (run with_redis (insert reading session) empty).1

get-removed_example :
    ((run with_redis (get reading "a") (restarted (run with_redis (remove "a") stored_call).1)).0
      ≡ some none)
    × ((run with_redis
          (get reading "a")
          (restarted (run with_redis (remove "a") stored_call).1)).1.cache
        ≡ [])
get-removed_example = get-removed reading with_redis "a" stored_call (λ u. refl) (λ u k. refl)

allocate_port-Retried_example :
    Retried 3 unreachable
      (port_answers empty.trace)
      (port_answers (run (outside false) (allocate_port lib handler.media_mgr "a") empty).1.trace)
      (run (outside false) (allocate_port lib handler.media_mgr "a") empty).0
allocate_port-Retried_example =
    allocate_port-Retried lib (outside false) "a" handler.media_mgr empty
