-- ===== src/Store.antt =====
-- src/sip/store.rs: `CallStore`, a cache in memory with a copy of each session in Redis. A command
-- to Redis may fail; the source ignores that, and so does the answer of the action.
pub mod Compliance
pub mod Ports
pub mod Runs
pub mod Reload
pub mod Contract
use sentiric_b2bua_service.Prelude.{String, Bool, Option, none, some, if◌then◌else◌}
use Prim.Native.String.{◌++◌}
use sentiric_b2bua_service.Libraries.{Libraries}
use sentiric_b2bua_service.Data.{CallState, CallSession, CallSessionData, new_session}
use sentiric_b2bua_service.Effects.{
  Prog, ret, perform, ◌>>=◌, ◌>>◌, cache_get, cache_insert, cache_set_state, cache_remove,
  early_insert, early_remove, early_contains, inflight_insert, inflight_remove, redis_clone,
  redis_set_ex, redis_get, redis_del,
}

abbrev pub redis_key : String → String
redis_key call_id = "b2bua:call:" ++ call_id

unfoldable pub try_lock_invite : String → Prog Bool
try_lock_invite call_id = perform (inflight_insert call_id)

unfoldable pub unlock_invite : String → Prog Unit
unlock_invite call_id = perform (inflight_remove call_id)

unfoldable pub mark_early_cancelled : String → Prog Unit
mark_early_cancelled call_id = perform (early_insert call_id)

unfoldable pub is_early_cancelled : String → Prog Bool
is_early_cancelled call_id = perform (early_contains call_id)

unfoldable pub remove : String → Prog (Option CallSession)
remove call_id = do
  connected ← perform redis_clone
  if connected then perform (redis_del (redis_key call_id)) else ret tt
  perform (early_remove call_id)
  perform (cache_remove call_id)

module _ (lib : Libraries) where
  -- the writes of `insert` and `update_state` to Redis
  write_redis : String → CallSessionData → Prog Unit
  write_redis call_id entry = do
    connected ← perform redis_clone
    if connected
        then elim (lib.to_json entry) [
          | none ↦ ret tt
          | some json ↦ perform (redis_set_ex (redis_key call_id) json 86400)
        ]
        else ret tt

  unfoldable pub insert : CallSession → Prog Unit
  unfolding write_redis
  insert session = do
    let call_id = session.session_data.call_id
    perform (cache_insert call_id session)
    write_redis call_id session.session_data

  unfoldable pub update_state : String → CallState → Prog Unit
  unfolding write_redis
  update_state call_id new_state = do
    entry ← perform (cache_set_state call_id new_state)
    elim entry [ none ↦ ret tt | some entry ↦ write_redis call_id entry ]

  -- a session read back from Redis, which is cached again
  reload : String → Option CallSessionData → Prog (Option CallSession)
  reload call_id none = ret none
  reload call_id (some entry) = do
    let session = new_session entry
    perform (cache_insert call_id session)
    ret (some session)

  unfoldable pub parse_entry : Option String → Option CallSessionData
  parse_entry none = none
  parse_entry (some json) = lib.from_json json

  unfoldable pub fetch : String → Prog (Option CallSession)
  unfolding reload parse_entry
  fetch call_id = do
    connected ← perform redis_clone
    if connected
        then (do json ← perform (redis_get (redis_key call_id)); reload call_id (parse_entry json))
        else ret none

  unfoldable pub get : String → Prog (Option CallSession)
  unfolding fetch
  get call_id = do
    cached ← perform (cache_get call_id)
    elim cached [ some session ↦ ret (some session) | none ↦ fetch call_id ]
