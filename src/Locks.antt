-- ===== src/Locks.antt =====
-- The INVITE locks: `invites_in_flight` of src/sip/store.rs, as one task uses it.
use sentiric_b2bua_service.Prelude.{
  String, ◌≡◌, refl, true, false, Option, none, some, List, [], ◌∷◌, arith, eq_refl, if◌then◌else◌,
}
use sentiric_b2bua_service.Prelude.Table.{contains, discard}
use sentiric_b2bua_service.Libraries.{Libraries}
use sentiric_b2bua_service.Effects.{
  Op, Answer, inflight_insert, inflight_remove, resolve_dialplan, media_play,
}
use sentiric_b2bua_service.Effects.Protocol.{Protocol, Passes, PassesAt}
use sentiric_b2bua_service.Compliance.{Complies}

-- The locks that a task has taken and not given back, moved by one action.
abbrev pub lock_step : List String → (o : Op) → Answer o → List String
lock_step held (inflight_insert k) true = k ∷ held
lock_step held (inflight_insert k) false = held
lock_step held (inflight_remove k) a = discard k held
lock_step held _ a = held

-- The lock of a request's call is held, where the request names the call.
abbrev pub HasLock : List String → Option String → Type 0
HasLock held none = Unit
HasLock held (some id) = contains id held ≡ true

-- A task gives back only a lock that it has; and only with the lock of its call does it ask for a
-- route, or for a target of the media.
abbrev pub MayUnlock : List String → Op → Type 0
MayUnlock held (inflight_remove k) = contains k held ≡ true
MayUnlock held (resolve_dialplan r) = HasLock held r.trace_id
MayUnlock held (media_play r) = HasLock held r.trace_id
MayUnlock held _ = Unit

abbrev pub Lock : Protocol (List String)
Lock = record { allowed = MayUnlock; next = lock_step; aborted = λ held. Unit }

-- What may be done without the lock.
pub Complies→Passes :
    (lib : Libraries) (id : String) (o : Op) → Complies lib (λ k. ⊥) ⊥ id o → Passes Lock o
Complies→Passes lib id (inflight_insert k) h = absurd h
Complies→Passes lib id (inflight_remove k) h = absurd h
Complies→Passes lib id (resolve_dialplan r) h = absurd h.2
Complies→Passes lib id (media_play r) h = absurd h.2
Complies→Passes lib id _ h = record { free = λ s. tt; still = λ s a. refl }

HasLock-own :
    (lib : Libraries) (id : String) (t : Option String)
    → t ≡ (if lib.is_metadata id then some id else none)
    → HasLock (id ∷ []) t
unfolding contains
HasLock-own lib id none e = tt
HasLock-own lib id (some k) e = ground (arith, e, eq_refl id)

-- What may be done with the lock.
pub Complies→PassesAt :
    (lib : Libraries) (id : String) (o : Op)
    → Complies lib (λ k. ⊥) Unit id o
    → PassesAt Lock (id ∷ []) o
Complies→PassesAt lib id (inflight_insert k) h = absurd h
Complies→PassesAt lib id (inflight_remove k) h = absurd h
Complies→PassesAt lib id (resolve_dialplan r) h = record {
  free = HasLock-own lib id r.trace_id h.1;
  still = λ a. refl;
}
Complies→PassesAt lib id (media_play r) h = record {
  free = HasLock-own lib id r.trace_id h.1;
  still = λ a. refl;
}
Complies→PassesAt lib id _ h = record { free = tt; still = λ a. refl }
