-- ===== src/Connecting.antt =====
-- The tasks that connect: to Redis (`CallStore::new` of src/sip/store.rs), and to RabbitMQ
-- (`RabbitMqClient::new` of src/rabbitmq.rs). Each is a function of what its attempts come to.
use sentiric_b2bua_service.Prelude.{
  ℕ, zero, suc, ◌≡◌, refl, ap, Bool, true, false, List, [], ◌∷◌, ◌++◌, length,
}
use sentiric_b2bua_service.Sip.{Outcome, ok, err}

-- Five seconds of sleep, or a connection or a channel that is put where the other tasks look for
-- it.
data Deed : Type 0 where
  sleep redis_set connection_set channel_set : Deed

-- `opens` is whether `redis::Client::open` takes the URL.
connect_redis : (opens : Bool) → List (Outcome (Unit {0})) → List Deed
connect_redis false attempts = []
connect_redis true [] = []
connect_redis true (ok c ∷ rest) = redis_set ∷ []
connect_redis true (err e ∷ rest) = sleep ∷ connect_redis true rest

-- What an attempt to connect to RabbitMQ comes to; `confirm_select` may fail.
data Attempt : Type 0 where
  unreachable channel_fail : Attempt
  connected : (confirm_select : Outcome (Unit {0})) → Attempt

connect_rabbitmq : List Attempt → List Deed
connect_rabbitmq [] = []
connect_rabbitmq (unreachable ∷ rest) = sleep ∷ connect_rabbitmq rest
connect_rabbitmq (channel_fail ∷ rest) = sleep ∷ connect_rabbitmq rest
connect_rabbitmq (connected c ∷ rest) = connection_set ∷ channel_set ∷ []

sleeps : ℕ → List Deed
sleeps zero = []
sleeps (suc n) = sleep ∷ sleeps n

-- Attempts that all fail.
abbrev AllFail : List Attempt → Type 0
AllFail [] = Unit
AllFail (connected c ∷ rest) = ⊥
AllFail (_ ∷ rest) = AllFail rest

abbrev AllErrors : List (Outcome (Unit {0})) → Type 0
AllErrors [] = Unit
AllErrors (ok c ∷ rest) = ⊥
AllErrors (err e ∷ rest) = AllErrors rest

redis-errors :
    (es later : List (Outcome (Unit {0}))) (c : Unit {0})
    → AllErrors es
    → connect_redis true (es ++ ok c ∷ later) ≡ sleeps (length es) ++ redis_set ∷ []
unfolding connect_redis sleeps
redis-errors [] later c h = refl
redis-errors (ok d ∷ es) later c h = absurd h
redis-errors (err e ∷ es) later c h = ap (λ ds. sleep ∷ ds) (redis-errors es later c h)

rabbitmq-failures :
    (fs later : List Attempt) (c : Outcome (Unit {0}))
    → AllFail fs
    → connect_rabbitmq (fs ++ connected c ∷ later)
      ≡ sleeps (length fs) ++ connection_set ∷ channel_set ∷ []
unfolding connect_rabbitmq sleeps
rabbitmq-failures [] later c h = refl
rabbitmq-failures (connected d ∷ fs) later c h = absurd h
rabbitmq-failures (unreachable ∷ fs) later c h =
    ap (λ ds. sleep ∷ ds) (rabbitmq-failures fs later c h)
rabbitmq-failures (channel_fail ∷ fs) later c h =
    ap (λ ds. sleep ∷ ds) (rabbitmq-failures fs later c h)

-- The two tasks that connect sleep once for each attempt that fails, put the connection of the
-- first attempt that succeeds where the others look for it, RabbitMQ's before its channel, and end.
connect-Retried :
    (es later : List (Outcome (Unit {0}))) (c : Unit {0}) (fs after : List Attempt)
    (confirmed : Outcome (Unit {0}))
    → AllErrors es
    → AllFail fs
    → (connect_redis true (es ++ ok c ∷ later) ≡ sleeps (length es) ++ redis_set ∷ [])
      × (connect_rabbitmq (fs ++ connected confirmed ∷ after)
          ≡ sleeps (length fs) ++ connection_set ∷ channel_set ∷ [])
connect-Retried es later c fs after confirmed h k =
    (redis-errors es later c h, rabbitmq-failures fs after confirmed k)
