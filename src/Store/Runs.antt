-- ===== src/Store/Runs.antt =====
-- What the methods of `CallStore` do to its maps, when they run undisturbed.
use sentiric_b2bua_service.Prelude.{
  ℕ, String, ◌≡◌, refl, ap, ◌∙◌, true, false, List, Option, none, some, arith, ◌==◌, inl, inr,
  Option-cases, Bool-cases, if◌then◌else◌,
}
use sentiric_b2bua_service.Prelude.Table
use sentiric_b2bua_service.Prelude.Table.{lookup, erase, contains, discard, lookup-insert}
use sentiric_b2bua_service.Libraries.{Libraries}
use sentiric_b2bua_service.Data.{CallSession, CallSessionData}
use sentiric_b2bua_service.Effects.{
  Event, ret, perform, World, Env, run, respond, update, advance, ◌>>=◌, cache_get, cache_insert,
  redis_clone, redis_set_ex,
}
use sentiric_b2bua_service.Effects.Every.{Every}
use sentiric_b2bua_service.Effects.Run.{IsUnseen, run-unseen}
use sentiric_b2bua_service.Ports.{released, sent}
use sentiric_b2bua_service.Redis.{removals, IsGone}
use sentiric_b2bua_service.Store.{remove, insert, get, write_redis, fetch}

-- `remove` gives what the cache has, and takes the call out of the cache and out of the set of
-- cancelled calls, and its entry out of Redis where that can be reached; no lock moves.
pub record Removed (id : String) (w : World) (r : Option (Option CallSession) × World)
    : Type 0 where
  pub result : r.0 ≡ some (lookup id w.cache)
  pub cache : r.1.cache ≡ erase id w.cache
  pub early_cancelled : r.1.early_cancelled ≡ discard id w.early_cancelled
  pub invites_in_flight : r.1.invites_in_flight ≡ w.invites_in_flight
  pub released : released r.1.trace ≡ released w.trace
  pub sent : sent r.1.trace ≡ sent w.trace
  pub redis : IsGone id r.1.trace

removals-remove : (env : Env) (id : String) (w : World) → IsGone id (run env (remove id) w).1.trace
unfolding remove run respond update advance removals ◌>>=◌
removals-remove env id w = elim (Bool-cases (env w redis_clone)) [
  | inl up ↦ inl (record { earlier = removals w.trace; newest = ground (arith, up) })
  | inr down ↦ inr (record { earlier = removals w.trace; newest = ground (arith, down) })
]

pub remove-Removed : (env : Env) (id : String) (w : World) → Removed id w (run env (remove id) w)
unfolding remove run respond update advance released sent ◌>>=◌
remove-Removed env id w = record {
  result = ground arith;
  cache = ground arith;
  early_cancelled = ground arith;
  invites_in_flight = ground arith;
  released = ground arith;
  sent = ground arith;
  redis = removals-remove env id w;
}

-- `insert` caches the session under its own call id, and changes nothing else.
pub record Inserted (s : CallSession) (w : World) (r : Option (Unit {0}) × World) : Type 0 where
  pub result : r.0 ≡ some tt
  pub cache : r.1.cache ≡ Table.insert s.session_data.call_id s w.cache
  pub early_cancelled : r.1.early_cancelled ≡ w.early_cancelled
  pub invites_in_flight : r.1.invites_in_flight ≡ w.invites_in_flight
  pub released : released r.1.trace ≡ released w.trace
  pub sent : sent r.1.trace ≡ sent w.trace

module _ (lib : Libraries) (env : Env) where
  pub insert-Inserted : (s : CallSession) (w : World) → Inserted s w (run env (insert lib s) w)
  unfolding insert write_redis run respond update advance released sent ◌>>=◌
  insert-Inserted s w = record {
    result = ground arith;
    cache = ground arith;
    early_cancelled = ground arith;
    invites_in_flight = ground arith;
    released = ground arith;
    sent = ground arith;
  }

  write_redis-IsUnseen :
      {X : Type 0} (view : List Event → X) (key : String) (d : CallSessionData)
      → IsUnseen view redis_clone
      → ((k json : String) (ttl : ℕ) → IsUnseen view (redis_set_ex k json ttl))
      → Every (IsUnseen view) (write_redis lib key d)
  unfolding write_redis perform ◌>>=◌
  write_redis-IsUnseen view key d c s = record {
    all = (
      c,
      elim [
        | true ↦ elim (Option-cases (lib.to_json d)) [
          | inl e ↦ rw e tt
          | inr (json, e) ↦ rw e (s _ _ _, λ _. tt)
        ]
        | false ↦ tt
      ],
    );
  }

  -- What caching and the writes to Redis do not show in, `insert` does not show in.
  pub insert-unseen :
      {X : Type 0} (view : List Event → X) (s : CallSession) (w : World)
      → IsUnseen view (cache_insert s.session_data.call_id s)
      → IsUnseen view redis_clone
      → ((k json : String) (ttl : ℕ) → IsUnseen view (redis_set_ex k json ttl))
      → view (run env (insert lib s) w).1.trace ≡ view w.trace
  unfolding insert ◌>>=◌
  insert-unseen view s w i c x =
      run-unseen view env _ w (record { all = (i, λ _. (write_redis-IsUnseen view _ _ c x).all) })

  abbrev after_look : String → World → Option CallSession → Option (Option CallSession) × World
  after_look id w cached =
      run env (elim cached [ some session ↦ ret (some session) | none ↦ fetch lib id ])
        (advance env (cache_get id) w)

  look_lem :
      (id : String) (w : World) → run env (get lib id) w ≡ after_look id w (lookup id w.cache)
  unfolding get run respond ◌>>=◌
  look_lem id w = refl

  pub run-get_cached :
      (id : String) (w : World) {s : CallSession}
      → lookup id w.cache ≡ some s
      → run env (get lib id) w ≡ (some (some s), advance env (cache_get id) w)
  run-get_cached id w e = look_lem id w ∙ ap (after_look id w) e ∙ unfold run in refl

  -- Where `get` finds no session it changes no map.
  pub record Missing (w : World) (r : Option (Option CallSession) × World) : Type 0 where
    pub cache : r.1.cache ≡ w.cache
    pub early_cancelled : r.1.early_cancelled ≡ w.early_cancelled
    pub invites_in_flight : r.1.invites_in_flight ≡ w.invites_in_flight
    pub released : released r.1.trace ≡ released w.trace
    pub sent : sent r.1.trace ≡ sent w.trace

  pub get-Missing :
      (id : String) (w : World)
      → (run env (get lib id) w).0 ≡ some none
      → Missing w (run env (get lib id) w)
  unfolding get run respond update advance released sent ◌>>=◌
  get-Missing id w e = record {
    cache = ground arith;
    early_cancelled = ground arith;
    invites_in_flight = ground arith;
    released = ground arith;
    sent = ground arith;
  }

  -- A session that is cached is what `get` gives, and `get` then changes no map.
  pub get_cached :
      (id : String) (w : World) {s : CallSession}
      → lookup id w.cache ≡ some s
      → ((run env (get lib id) w).0 ≡ some (some s)) × ((run env (get lib id) w).1.cache ≡ w.cache)
  unfolding get run respond update advance ◌>>=◌
  get_cached id w e = (ground arith, ground arith)

  -- After `insert`, `get` gives the session back; for another call id it gives what was cached for
  -- it.
  pub get-insert :
      (s t : CallSession) (id : String) (w : World)
      → (if s.session_data.call_id == id then some s else lookup id w.cache) ≡ some t
      → (run env (get lib id) (run env (insert lib s) w).1).0 ≡ some (some t)
  get-insert s t id w e =
      (get_cached id _ (
        ap (λ m. lookup id m) (insert-Inserted s w).cache
        ∙ lookup-insert s.session_data.call_id id s w.cache
        ∙ e)).0
