-- ===== src/Compliance.antt =====
-- The rules that the comments of the source number: every gRPC request has a deadline (ARCH-004)
-- and the trace id of its call (ARCH-006), and a handler touches no other call's entries.
use sentiric_b2bua_service.Prelude.{String, ◌≡◌, some, none, if◌then◌else◌}
use sentiric_b2bua_service.Sip.{Request}
use sentiric_b2bua_service.Libraries.{Libraries}
use sentiric_b2bua_service.Data.{Payload, call_started, generic, call_ended}
use sentiric_b2bua_service.Effects.{
  Op, cache_get, cache_set_state, cache_remove, early_insert, early_remove, early_contains,
  inflight_insert, inflight_remove, redis_set_ex, redis_get, redis_del, resolve_dialplan,
  media_allocate, media_play, media_release, basic_publish,
}
use sentiric_b2bua_service.Store.{redis_key}

abbrev pub event_type : Payload → String
event_type (call_started kind t c f to d m) = kind
event_type (generic kind t tenant json) = kind
event_type (call_ended kind t c r) = kind

abbrev pub event_trace : Payload → String
event_trace (call_started kind t c f to d m) = t
event_trace (generic kind t tenant json) = t
event_trace (call_ended kind t c r) = t

module _ (lib : Libraries) where
  abbrev pub IsTraced : {A : Type 0} → String → Request A → Type 0
  IsTraced id r = r.trace_id ≡ (if lib.is_metadata id then some id else none)

  -- What a handler of the call `id` may do, where it may touch the INVITE locks of `L`; only where
  -- `A` holds may it ask for a route, or for a target of the media.
  abbrev pub Complies : (String → Type 0) → Type 0 → String → Op → Type 0
  Complies L A id (cache_get k) = k ≡ id
  Complies L A id (cache_set_state k s) = k ≡ id
  Complies L A id (cache_remove k) = k ≡ id
  Complies L A id (early_insert k) = k ≡ id
  Complies L A id (early_remove k) = k ≡ id
  Complies L A id (early_contains k) = k ≡ id
  Complies L A id (inflight_insert k) = L k
  Complies L A id (inflight_remove k) = L k
  Complies L A id (redis_set_ex k json ttl) = ttl ≡ 86400
  Complies L A id (redis_get k) = k ≡ redis_key id
  Complies L A id (redis_del k) = k ≡ redis_key id
  Complies L A id (resolve_dialplan r) = (r.timeout_ms ≡ 150) × IsTraced id r × A
  Complies L A id (media_allocate r) = (r.timeout_ms ≡ 100) × IsTraced id r
  Complies L A id (media_play r) = (r.timeout_ms ≡ 100) × IsTraced id r × A
  Complies L A id (media_release r) = (r.timeout_ms ≡ 100) × IsTraced id r
  Complies L A id (basic_publish key payload) =
      (event_type payload ≡ key) × (event_trace payload ≡ id)
  Complies L A id _ = Unit
