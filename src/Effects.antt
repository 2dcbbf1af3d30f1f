-- ===== src/Effects.antt =====
-- The async handlers as programs over atomic actions, one for each access to shared state and each
-- call of an outside service; every `.await` of the source lies at one of them. The world is the
-- state that the tasks share: the maps of `CallStore`, and what has been done so far.
pub mod Run
pub mod Every
pub mod Protocol
pub mod Retry
use sentiric_b2bua_service.Prelude.{ℕ, String, Bool, not, Option, none, some, List, ◌∷◌}
use sentiric_b2bua_service.Prelude.Table.{lookup, insert, erase, contains, add, discard}
use sentiric_b2bua_service.Sip.{SipPacket, SocketAddr, Request, Outcome}
use sentiric_b2bua_service.Data.{
  CallState, CallSession, CallSessionData, ResolveDialplanRequest, Resolution, AllocatePortRequest,
  PlayAudioRequest, ReleasePortRequest, Payload,
}

pub data Op : Type 0 where
  -- `CallStore::local_cache`
  cache_get : String → Op
  cache_insert : String → CallSession → Op
  cache_set_state : String → CallState → Op
  cache_remove : String → Op
  -- `CallStore::early_cancelled`
  early_insert early_remove early_contains : String → Op
  -- `CallStore::invites_in_flight`
  inflight_insert inflight_remove : String → Op
  -- `CallStore::redis`: whether a connection is there, and the commands on it
  redis_clone : Op
  redis_set_ex : (key json : String) (ttl : ℕ) → Op
  redis_get redis_del : String → Op
  -- the dialplan and media services
  resolve_dialplan : Request ResolveDialplanRequest → Op
  media_allocate : Request AllocatePortRequest → Op
  media_play : Request PlayAudioRequest → Op
  media_release : Request ReleasePortRequest → Op
  -- the transport, the resolver, the clock, the random source
  send : SipPacket → SocketAddr → Op
  lookup_host : String → Op
  sleep_ms : ℕ → Op
  generate_tag : String → Op
  generate_branch_id : Op
  -- RabbitMQ: whether the channel or the connection is there, and connected
  channel_status connection_status create_channel channel_write : Op
  basic_publish : String → Payload → Op

abbrev pub Answer : Op → Type 0
Answer (cache_get k) = Option CallSession
Answer (cache_set_state k s) = Option CallSessionData
Answer (cache_remove k) = Option CallSession
Answer (early_contains k) = Bool
Answer (inflight_insert k) = Bool
Answer redis_clone = Bool
Answer (redis_get k) = Option String
Answer (resolve_dialplan r) = Outcome Resolution
Answer (media_allocate r) = Outcome ℕ
Answer (media_play r) = Outcome (Unit {0})
Answer (send p a) = Outcome (Unit {0})
Answer (lookup_host h) = Option (List SocketAddr)
Answer (generate_tag p) = String
Answer generate_branch_id = String
Answer channel_status = Option Bool
Answer connection_status = Option Bool
Answer create_channel = Outcome (Unit {0})
Answer (basic_publish k e) = Outcome (Unit {0})
Answer _ = Unit {0}

-- `abort` is a task that ends with no result: a panic.
pub data Prog (A : Type 0) : Type 0 where
  ret : A → Prog A
  abort : Prog A
  act : (o : Op) → (Answer o → Prog A) → Prog A

unfoldable pub perform : (o : Op) → Prog (Answer o)
perform o = act o (λ a. ret a)

infixl 5 ◌>>=◌ ◌>>◌
-- opening this opens `perform` too
unfoldable pub ◌>>=◌ : {A B : Type 0} → Prog A → (A → Prog B) → Prog B
unfolding perform
ret a >>= f = f a
abort >>= f = abort
act o k >>= f = act o (λ a. k a >>= f)

abbrev pub ◌>>◌ : {A B : Type 0} → Prog A → Prog B → Prog B
m >> k = m >>= λ _. k

pub record Event : Type 0 where
  pub op : Op
  pub answer : Answer op

pub record World : Type 0 where
  pub cache : List (String × CallSession)
  pub early_cancelled : List String
  pub invites_in_flight : List String
  -- what has been done, the newest first
  pub trace : List Event

-- The outside: its answer may depend on all that happened before.
abbrev pub Env : Type 0
Env = World → (o : Op) → Answer o

abbrev pub with_state : CallState → CallSession → CallSession
with_state st s = record s { session_data = record s.session_data { state = st } }

abbrev set_state : CallState → Option CallSession → Option CallSessionData
set_state st none = none
set_state st (some s) = some (with_state st s).session_data

-- What an action finds: in the maps of the store, or by the outside.
unfoldable pub respond : Env → World → (o : Op) → Answer o
respond env w (cache_get k) = lookup k w.cache
respond env w (cache_insert k s) = tt
respond env w (cache_set_state k st) = set_state st (lookup k w.cache)
respond env w (cache_remove k) = lookup k w.cache
respond env w (early_contains k) = contains k w.early_cancelled
respond env w (inflight_insert k) = not (contains k w.invites_in_flight)
respond env w o = env w o

abbrev pub overwrite :
    String
    → CallState
    → Option CallSession
    → List (String × CallSession)
    → List (String × CallSession)
overwrite k st none m = m
overwrite k st (some s) m = insert k (with_state st s) m

-- What an action changes.
unfoldable pub update : Op → World → World
update (cache_insert k s) w = record w { cache = insert k s w.cache }
update (cache_set_state k st) w = record w { cache = overwrite k st (lookup k w.cache) w.cache }
update (cache_remove k) w = record w { cache = erase k w.cache }
update (early_insert k) w = record w { early_cancelled = add k w.early_cancelled }
update (early_remove k) w = record w { early_cancelled = discard k w.early_cancelled }
update (inflight_insert k) w = record w { invites_in_flight = add k w.invites_in_flight }
update (inflight_remove k) w = record w { invites_in_flight = discard k w.invites_in_flight }
update o w = w

unfoldable pub advance : Env → Op → World → World
unfolding respond update
advance env o w = record (update o w) {
  trace = record { op = o; answer = respond env w o } ∷ w.trace;
}

-- A task that runs with no other task in between; `none` is a panic.
unfoldable pub run : {A : Type 0} → Env → Prog A → World → Option A × World
unfolding respond advance
run env (ret a) w = (some a, w)
run env abort w = (none, w)
run env (act o k) w = run env (k (respond env w o)) (advance env o w)
