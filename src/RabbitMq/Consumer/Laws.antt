-- ===== src/RabbitMq/Consumer/Laws.antt =====
-- What the consumer of src/rabbitmq.rs does with the deliveries.
use sentiric_b2bua_service.Prelude.{
  String, ◌≡◌, refl, ap, Option, none, some, Option-cases, inl, true, arith, inr, List, [], ◌∷◌,
  ◌++◌,
}
use sentiric_b2bua_service.Sip.{Outcome, ok, err}
use sentiric_b2bua_service.Libraries.{Libraries}
use sentiric_b2bua_service.Engine
use sentiric_b2bua_service.Engine.{B2BuaEngine}
use sentiric_b2bua_service.Tasks.{System, Task, Steps, later, terminate, start}
use sentiric_b2bua_service.RabbitMq.Consumer.{
  Delivery, Wire, Deed, terminate_session, ack, asked, ending, consume, Round, no_connection,
  not_connected, create_channel_error, channel_created, start_termination_consumer,
}

-- The calls that were ended, and the deliveries that were acked.
pub ended : List Deed → List String
ended [] = []
ended (terminate_session id ∷ ds) = id ∷ ended ds
ended (ack d ∷ ds) = ended ds

pub acked : List Deed → List Delivery
acked [] = []
acked (terminate_session id ∷ ds) = acked ds
acked (ack d ∷ ds) = d ∷ acked ds

-- The deliveries that came without an error.
pub delivered : List (Outcome Delivery) → List Delivery
delivered [] = []
delivered (err e ∷ ds) = delivered ds
delivered (ok d ∷ ds) = d ∷ delivered ds

module _ (wire : Wire) where
  -- The calls that the deliveries ask to end.
  pub all_asked : List Delivery → List String
  all_asked [] = []
  all_asked (d ∷ ds) = elim (asked wire d) [ none ↦ all_asked ds | some id ↦ id ∷ all_asked ds ]

  consume-ended :
      (ds : List (Outcome Delivery)) → ended (consume wire ds) ≡ all_asked (delivered ds)
  unfolding consume ended all_asked delivered
  consume-ended [] = refl
  consume-ended (err e ∷ ds) = consume-ended ds
  consume-ended (ok d ∷ ds) = elim (Option-cases (asked wire d)) [
    | inl e ↦ ground (arith, e, consume-ended ds)
    | inr (id, e) ↦ ground (arith, e, consume-ended ds)
  ]

  consume-acked : (ds : List (Outcome Delivery)) → acked (consume wire ds) ≡ delivered ds
  unfolding consume acked delivered
  consume-acked [] = refl
  consume-acked (err e ∷ ds) = consume-acked ds
  consume-acked (ok d ∷ ds) = elim (Option-cases (asked wire d)) [
    | inl e ↦ rw e (ap (λ xs. d ∷ xs) (consume-acked ds))
    | inr (id, e) ↦ rw e (ap (λ xs. d ∷ xs) (consume-acked ds))
  ]

  -- The deed before.
  abbrev pub JustEnded : String → List Deed → Type 0
  JustEnded id pre = (before : List Deed) × (pre ≡ before ++ terminate_session id ∷ [])

  under : {id : String} {pre : List Deed} (x : Deed) → JustEnded id pre → JustEnded id (x ∷ pre)
  under x (before, e) = (x ∷ before, ap (λ ds. x ∷ ds) e)

  -- One delivery's deeds, before those of the rest.
  behind :
      (rest : List Deed) (d d0 : Delivery) (id : String)
      → ((pre post : List Deed) → rest ≡ pre ++ ack d ∷ post → JustEnded id pre)
      → asked wire d ≡ some id
      → (asked0 : Option String) → asked wire d0 ≡ asked0
      → (pre post : List Deed) → ending wire asked0 ++ ack d0 ∷ rest ≡ pre ++ ack d ∷ post
      → JustEnded id pre
  behind rest d d0 id ih a none f [] post e = absurd (cc (f, e, a))
  behind rest d d0 id ih a none f (x ∷ pre) post e = under x (ih pre post (cc e))
  behind rest d d0 id ih a (some i) f [] post e = absurd (cc e)
  behind rest d d0 id ih a (some i) f (x ∷ []) post e = ([], cc (f, e, a))
  behind rest d d0 id ih a (some i) f (x ∷ (y ∷ pre)) post e =
      under x (under y (ih pre post (cc e)))

  -- A delivery that asks to end a call is acked right behind the end of that call.
  pub consume-JustEnded :
      (ds : List (Outcome Delivery)) (d : Delivery) (id : String)
      → asked wire d ≡ some id
      → (pre post : List Deed) → consume wire ds ≡ pre ++ ack d ∷ post
      → JustEnded id pre
  unfolding consume
  consume-JustEnded [] d id a [] post e = absurd (cc e)
  consume-JustEnded [] d id a (x ∷ pre) post e = absurd (cc e)
  consume-JustEnded (err m ∷ ds) d id a pre post e = consume-JustEnded ds d id a pre post e
  consume-JustEnded (ok d0 ∷ ds) d id a pre post e =
      behind (consume wire ds) d d0 id (consume-JustEnded ds d id a) a (asked wire d0) refl pre post
        e

  module _ (lib : Libraries) (engine : B2BuaEngine) where
    -- The service once the calls have been ended, each by a task, the newest first.
    pub ending_tasks : List String → List Task → List Task
    ending_tasks [] ts = ts
    ending_tasks (id ∷ ids) ts =
        ending_tasks ids (start (Engine.terminate_session lib engine id) ∷ ts)

    ending-Steps :
        (ids : List String) {s u : System}
        → Steps lib engine s u
        → Steps lib engine s (record u { tasks = ending_tasks ids u.tasks })
    unfolding ending_tasks
    ending-Steps [] r = r
    ending-Steps (id ∷ ids) r = ending-Steps ids (later r (terminate id refl))

    -- The consumer ends each call that a delivery asks to end, in the order of the deliveries, and
    -- acks each delivery that came without an error, in that order; and the tasks that end these
    -- calls are steps of the running service.
    pub consume-Serves :
        (ds : List (Outcome Delivery)) {s u : System}
        → Steps lib engine s u
        → (ended (consume wire ds) ≡ all_asked (delivered ds))
          × (acked (consume wire ds) ≡ delivered ds)
          × Steps lib engine s (record u { tasks = ending_tasks (ended (consume wire ds)) u.tasks })
    consume-Serves ds r =
        (consume-ended ds, consume-acked ds, ending-Steps (ended (consume wire ds)) r)

  -- The consumer takes one channel: once a round has opened a channel and its stream has ended, or
  -- could not be started, the task has ended, and no later round makes a difference.
  pub consumer-once :
      (early others : List Round) (c : Outcome (List (Outcome Delivery)))
      → (start_termination_consumer wire (early ++ channel_created c ∷ others)
          ≡ start_termination_consumer wire (early ++ channel_created c ∷ []))
        × ((start_termination_consumer wire (early ++ channel_created c ∷ others)).1 ≡ true)
  unfolding start_termination_consumer
  consumer-once [] others (ok ds) = (refl, refl)
  consumer-once [] others (err e) = (refl, refl)
  consumer-once (channel_created (ok ds) ∷ rs) others c = (refl, refl)
  consumer-once (channel_created (err e) ∷ rs) others c = (refl, refl)
  consumer-once (no_connection ∷ rs) others c = consumer-once rs others c
  consumer-once (not_connected ∷ rs) others c = consumer-once rs others c
  consumer-once (create_channel_error ∷ rs) others c = consumer-once rs others c
