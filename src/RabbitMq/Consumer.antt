-- ===== src/RabbitMq/Consumer.antt =====
-- `start_termination_consumer` of src/rabbitmq.rs, as a function of what its rounds find.
pub mod Laws
use sentiric_b2bua_service.Prelude.{
  ℕ, String, Option, none, some, List, [], ◌∷◌, ◌++◌, Bool, true, false,
}
use sentiric_b2bua_service.Sip.{Outcome, ok, err}

-- A delivery: the tag by which it is acked, and its data.
pub record Delivery : Type 0 where
  pub tag : ℕ
  pub content : List ℕ

-- `prost` and `serde_json`: the `payload_json` of a `GenericEvent`, and what `json[key].as_str()`
-- gives.
pub record Wire : Type 0 where
  pub decode : List ℕ → Option String
  pub from_str : String → Option (String → Option String)

-- What the consumer does: ending a call (`engine.terminate_session`, to its end), acking.
pub data Deed : Type 0 where
  terminate_session : String → Deed
  ack : Delivery → Deed

-- One round of the outer loop: what it finds, down to `basic_consume` and its deliveries.
pub data Round : Type 0 where
  no_connection not_connected create_channel_error : Round
  channel_created : Outcome (List (Outcome Delivery)) → Round

module _ (wire : Wire) where
  call_id_of : Option String → Option String
  call_id_of none = none
  call_id_of (some payload_json) = elim (wire.from_str payload_json) [
    | none ↦ none
    | some json ↦ json "callId"
  ]

  -- The call that a delivery asks to end.
  unfoldable pub asked : Delivery → Option String
  unfolding call_id_of
  asked delivery = call_id_of (wire.decode delivery.content)

  abbrev pub ending : Option String → List Deed
  ending none = []
  ending (some id) = terminate_session id ∷ []

  -- `while let Some(delivery) = consumer.next().await`
  unfoldable pub consume : List (Outcome Delivery) → List Deed
  consume [] = []
  consume (err e ∷ rest) = consume rest
  consume (ok delivery ∷ rest) = ending (asked delivery) ++ ack delivery ∷ consume rest

  -- The rounds of the outer loop: what is done, and whether the task has ended.
  unfoldable pub start_termination_consumer : List Round → List Deed × Bool
  start_termination_consumer [] = ([], false)
  start_termination_consumer (channel_created (ok deliveries) ∷ rest) = (consume deliveries, true)
  start_termination_consumer (channel_created (err e) ∷ rest) = ([], true)
  start_termination_consumer (_ ∷ rest) = start_termination_consumer rest
