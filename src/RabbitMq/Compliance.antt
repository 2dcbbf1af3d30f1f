-- ===== src/RabbitMq/Compliance.antt =====
-- Publishing keeps the rules, for an event under its own type and with its call's trace id.
use sentiric_b2bua_service.Prelude.{
  ℕ, zero, suc, String, ◌≡◌, Bool, true, false, Option, none, some, refl, sym, ap, ◌∙◌,
}
use sentiric_b2bua_service.Sip.{Outcome, ok, err}
use sentiric_b2bua_service.Data.{Payload}
use sentiric_b2bua_service.Effects.{
  Op, ◌>>=◌, basic_publish, channel_status, connection_status, create_channel, channel_write,
  sleep_ms,
}
use sentiric_b2bua_service.Effects.Every.{Every, every_rules, Every-bind, Every-mono}
use sentiric_b2bua_service.Libraries.{Libraries}
use sentiric_b2bua_service.Compliance.{Complies, event_type, event_trace}
use sentiric_b2bua_service.RabbitMq.{
  restore_channel, recreate_channel, channel_or_recreate, ensure_healthy_channel, try_publish,
  max_retries, attempt, publish_loop, publish_event_bytes,
}

-- The actions of publishing one event.
abbrev pub Publishes : String → Payload → Op → Type 0
Publishes key payload (basic_publish k p) = (k ≡ key) × (p ≡ payload)
Publishes key payload channel_status = Unit
Publishes key payload connection_status = Unit
Publishes key payload create_channel = Unit
Publishes key payload channel_write = Unit
Publishes key payload (sleep_ms n) = Unit
Publishes key payload _ = ⊥

module _ (key : String) (payload : Payload) where
  restore_channel-Publishes :
      (o : Outcome (Unit {0})) → Every (Publishes key payload) (restore_channel o)
  unfolding restore_channel ◌>>=◌
  restore_channel-Publishes (err e) = search every_rules
  restore_channel-Publishes (ok u) = record { all = (tt, λ _. tt) }

  recreate_channel-Publishes :
      (o : Option Bool) → Every (Publishes key payload) (recreate_channel o)
  unfolding recreate_channel ◌>>=◌
  recreate_channel-Publishes (some true) = record {
    all = (tt, λ o. (restore_channel-Publishes o).all);
  }
  recreate_channel-Publishes (some false) = search every_rules
  recreate_channel-Publishes none = search every_rules

  channel_or_recreate-Publishes :
      (o : Option Bool) → Every (Publishes key payload) (channel_or_recreate o)
  unfolding channel_or_recreate ◌>>=◌
  channel_or_recreate-Publishes (some true) = search every_rules
  channel_or_recreate-Publishes (some false) = record {
    all = (tt, λ o. (recreate_channel-Publishes o).all);
  }
  channel_or_recreate-Publishes none = record {
    all = (tt, λ o. (recreate_channel-Publishes o).all);
  }

  ensure-Publishes : Every (Publishes key payload) ensure_healthy_channel
  unfolding ensure_healthy_channel ◌>>=◌
  ensure-Publishes = record { all = (tt, λ o. (channel_or_recreate-Publishes o).all) }

  try_publish-Publishes :
      (o : Option Bool) → Every (Publishes key payload) (try_publish key payload o)
  unfolding try_publish ◌>>=◌
  try_publish-Publishes none = search every_rules
  try_publish-Publishes (some b) = record {
    all = ((refl, refl), elim [ ok _ ↦ tt | err _ ↦ (tt, λ _. tt) ]);
  }

  attempt-Publishes : Every (Publishes key payload) (attempt key payload)
  unfolding attempt ◌>>=◌
  attempt-Publishes = Every-bind ensure_healthy_channel _ ensure-Publishes (elim [
    | err _ ↦ record { all = (tt, λ _. tt) }
    | ok _ ↦ record { all = (tt, λ o. (try_publish-Publishes o).all) }
  ])

  publish_loop-Publishes :
      (rounds : ℕ) → Every (Publishes key payload) (publish_loop rounds key payload)
  unfolding publish_loop
  publish_loop-Publishes zero = search every_rules
  publish_loop-Publishes (suc rounds) =
      Every-bind _ _ attempt-Publishes
        (elim [ some r ↦ search every_rules | none ↦ publish_loop-Publishes rounds ])

  -- Publishing does nothing but look at the channel, restore it, wait, and send this one event.
  pub publish_event_bytes-Publishes :
      Every (Publishes key payload) (publish_event_bytes key payload)
  unfolding publish_event_bytes ◌>>=◌
  publish_event_bytes-Publishes = record {
    all = (tt, elim [ none ↦ tt | some _ ↦ (publish_loop-Publishes max_retries).all ]);
  }

Publishes→Complies :
    (lib : Libraries) (L : String → Type 0) (A : Type 0) (id key : String) (payload : Payload)
    → event_type payload ≡ key
    → event_trace payload ≡ id
    → (o : Op) → Publishes key payload o
    → Complies lib L A id o
Publishes→Complies lib L A id key payload h t (basic_publish k p) (ek, ep) =
    (ap event_type ep ∙ h ∙ sym ek, ap event_trace ep ∙ t)
Publishes→Complies lib L A id key payload h t channel_status u = tt
Publishes→Complies lib L A id key payload h t connection_status u = tt
Publishes→Complies lib L A id key payload h t create_channel u = tt
Publishes→Complies lib L A id key payload h t channel_write u = tt
Publishes→Complies lib L A id key payload h t (sleep_ms n) u = tt
Publishes→Complies lib L A id key payload h t _ u = absurd u

pub publish_event_bytes-Complies :
    (lib : Libraries) (L : String → Type 0) (A : Type 0) (id key : String) (payload : Payload)
    → event_type payload ≡ key
    → event_trace payload ≡ id
    → Every (Complies lib L A id) (publish_event_bytes key payload)
publish_event_bytes-Complies lib L A id key payload h t =
    Every-mono (publish_event_bytes key payload) (Publishes→Complies lib L A id key payload h t)
      (publish_event_bytes-Publishes key payload)
