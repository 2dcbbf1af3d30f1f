-- ===== src/RabbitMq/Runs.antt =====
-- What publishing does when it runs undisturbed.
use sentiric_b2bua_service.Prelude.{
  ℕ, zero, suc, String, ◌≡◌, ◌≢◌, refl, ap, ◌∙◌, Bool, List, [], ◌∷◌, Option, none, some, ◌⊎◌, inl,
  inr, Option-cases, arith,
}
use sentiric_b2bua_service.Sip.{Outcome, ok, err}
use sentiric_b2bua_service.Data.{Payload}
use sentiric_b2bua_service.Effects.{
  Op, Answer, Event, Prog, ret, World, Env, run, respond, update, advance, ◌>>=◌, basic_publish,
  channel_status, connection_status, create_channel, channel_write, sleep_ms,
}
use sentiric_b2bua_service.Effects.Every.{Every-mono}
use sentiric_b2bua_service.Effects.Run.{
  run-bind_some, IsQuiet, SameMaps, run-SameMaps, IsUnseen, run-unseen,
}
use sentiric_b2bua_service.Ports.{released, sent}
use sentiric_b2bua_service.Redis.{removals}
use sentiric_b2bua_service.RabbitMq.{
  ensure_healthy_channel, attempt, publish_loop, publish_event_bytes, max_retries,
}
use sentiric_b2bua_service.RabbitMq.Compliance.{Publishes, publish_event_bytes-Publishes}

delivery : (o : Op) → Answer o → List Payload → List Payload
delivery (basic_publish k p) (ok _) ps = p ∷ ps
delivery (basic_publish k p) (err _) ps = ps
delivery _ a ps = ps

-- The events for which `basic_publish` gave `ok`, the newest first. That is that the client took
-- the frame for the channel: the publisher confirm that it gives is not awaited, so the broker may
-- still lose the event.
unfoldable pub accepted : List Event → List Payload
unfolding delivery
accepted [] = []
accepted (e ∷ es) = delivery e.op e.answer (accepted es)

-- Publishing `payload` from `w`: it says `ok` where `basic_publish` of the event gave `ok`, once,
-- and an error where it gave none.
pub data Published (payload : Payload) (w u : World) : Option (Outcome (Unit {0})) → Type 0 where
  taken : accepted u.trace ≡ payload ∷ accepted w.trace → Published payload w u (some (ok tt))
  given_up :
      (e : String) → accepted u.trace ≡ accepted w.trace → Published payload w u (some (err e))

Published-from :
    (payload : Payload) {w u v : World} {r : Option (Outcome (Unit {0}))}
    → accepted u.trace ≡ accepted w.trace
    → Published payload u v r
    → Published payload w v r
Published-from payload e (taken h) = taken (h ∙ ap (λ ps. payload ∷ ps) e)
Published-from payload e (given_up m h) = given_up m (h ∙ e)

module _ (env : Env) (key : String) (payload : Payload) where
  attempt_total : (w : World) → (run env (attempt key payload) w).0 ≢ none
  unfolding attempt ensure_healthy_channel run respond ◌>>=◌
  attempt_total w = ground arith

  attempt_missed :
      (w : World)
      → (run env (attempt key payload) w).0 ≡ some none
      → accepted (run env (attempt key payload) w).1.trace ≡ accepted w.trace
  unfolding attempt ensure_healthy_channel run advance respond update accepted ◌>>=◌
  attempt_missed w e = ground arith

  attempt_taken :
      (w : World) (o : Outcome (Unit {0}))
      → (run env (attempt key payload) w).0 ≡ some (some o)
      → (o ≡ ok tt)
        × (accepted (run env (attempt key payload) w).1.trace ≡ payload ∷ accepted w.trace)
  unfolding attempt ensure_healthy_channel run advance respond update accepted ◌>>=◌
  attempt_taken w o e = (ground arith, ground arith)

  abbrev loop_next : Option (Outcome (Unit {0})) → ℕ → Prog (Outcome (Unit {0}))
  loop_next (some r) rounds = ret r
  loop_next none rounds = publish_loop rounds key payload

  loop_lem :
      (rounds : ℕ) (w : World) {o : Option (Outcome (Unit {0}))}
      → (run env (attempt key payload) w).0 ≡ some o
      → run env (publish_loop (suc rounds) key payload) w
        ≡ run env (loop_next o rounds) (run env (attempt key payload) w).1
  unfolding publish_loop
  loop_lem rounds w {o = none} e = run-bind_some env (attempt key payload) _ w e
  loop_lem rounds w {o = some r} e = run-bind_some env (attempt key payload) _ w e

  publish_loop-Published :
      (rounds : ℕ) (w : World)
      → Published payload w
          (run env (publish_loop rounds key payload) w).1
          (run env (publish_loop rounds key payload) w).0
  publish_loop-Published zero w = unfold publish_loop run in given_up _ refl
  publish_loop-Published (suc rounds) w = elim (Option-cases (run env (attempt key payload) w).0) [
    | inl e ↦ absurd (attempt_total w e)
    | inr (none, e) ↦
        rw (loop_lem rounds w e)
          (Published-from payload (attempt_missed w e) (publish_loop-Published rounds _))
    | inr (some o, e) ↦
        rw (loop_lem rounds w e)
          (let (said, took) = attempt_taken w o e in unfold run in rw said (taken took))
  ]

module _ (env : Env) (key : String) (payload : Payload) (w : World) where
  abbrev after_look : Option Bool → Option (Outcome (Unit {0})) × World
  after_look channel =
      run env (elim channel [ none ↦ ret (ok tt) | some _ ↦ publish_loop max_retries key payload ])
        (advance env channel_status w)

  publish_run : run env (publish_event_bytes key payload) w ≡ after_look (env w channel_status)
  unfolding publish_event_bytes run respond ◌>>=◌
  publish_run = refl

  accepted-look : accepted (advance env channel_status w).trace ≡ accepted w.trace
  unfolding accepted advance
  accepted-look = refl

  pub publish-Published :
      ((env w channel_status ≡ none)
        × ((run env (publish_event_bytes key payload) w).0 ≡ some (ok tt))
        × (accepted (run env (publish_event_bytes key payload) w).1.trace ≡ accepted w.trace))
      ⊎ Published payload w
          (run env (publish_event_bytes key payload) w).1
          (run env (publish_event_bytes key payload) w).0
  publish-Published = elim (Option-cases (env w channel_status)) [
    | inl e ↦
        let ends = publish_run ∙ ap after_look e in
        inl (e, rw ends (unfold run in refl), rw ends (unfold run in accepted-look))
    | inr (b, e) ↦ rw (publish_run ∙ ap after_look e) (
        inr (
          Published-from payload accepted-look
            (publish_loop-Published env key payload max_retries _)))
  ]

  -- Publishing comes back, and changes no map of the store.
  Publishes→IsQuiet : (o : Op) → Publishes key payload o → IsQuiet o
  unfolding update
  Publishes→IsQuiet (basic_publish k p) h v = refl
  Publishes→IsQuiet channel_status h v = refl
  Publishes→IsQuiet connection_status h v = refl
  Publishes→IsQuiet create_channel h v = refl
  Publishes→IsQuiet channel_write h v = refl
  Publishes→IsQuiet (sleep_ms n) h v = refl
  Publishes→IsQuiet _ h v = absurd h

  pub publish-SameMaps : SameMaps w (run env (publish_event_bytes key payload) w).1
  publish-SameMaps =
      run-SameMaps env _ w
        (Every-mono _ Publishes→IsQuiet (publish_event_bytes-Publishes key payload))

  Published-returns :
      {u : World} (r : Option (Outcome (Unit {0})))
      → Published payload w u r
      → (o : Outcome (Unit {0})) × (r ≡ some o)
  Published-returns r (taken h) = (_, refl)
  Published-returns r (given_up m h) = (_, refl)

  pub publish_returns :
      (o : Outcome (Unit {0})) × ((run env (publish_event_bytes key payload) w).0 ≡ some o)
  publish_returns = elim publish-Published [ inl h ↦ (_, h.1) | inr p ↦ Published-returns _ p ]

  Publishes-unreleased : (o : Op) → Publishes key payload o → IsUnseen released o
  unfolding released
  Publishes-unreleased (basic_publish k p) h a es = refl
  Publishes-unreleased channel_status h a es = refl
  Publishes-unreleased connection_status h a es = refl
  Publishes-unreleased create_channel h a es = refl
  Publishes-unreleased channel_write h a es = refl
  Publishes-unreleased (sleep_ms n) h a es = refl
  Publishes-unreleased _ h a es = absurd h

  pub released-publish :
      released (run env (publish_event_bytes key payload) w).1.trace ≡ released w.trace
  released-publish =
      run-unseen released env _ w
        (Every-mono _ Publishes-unreleased (publish_event_bytes-Publishes key payload))

  Publishes-unsent : (o : Op) → Publishes key payload o → IsUnseen sent o
  unfolding sent
  Publishes-unsent (basic_publish k p) h a es = refl
  Publishes-unsent channel_status h a es = refl
  Publishes-unsent connection_status h a es = refl
  Publishes-unsent create_channel h a es = refl
  Publishes-unsent channel_write h a es = refl
  Publishes-unsent (sleep_ms n) h a es = refl
  Publishes-unsent _ h a es = absurd h

  Publishes-removals : (o : Op) → Publishes key payload o → IsUnseen removals o
  unfolding removals
  Publishes-removals (basic_publish k p) h a es = refl
  Publishes-removals channel_status h a es = refl
  Publishes-removals connection_status h a es = refl
  Publishes-removals create_channel h a es = refl
  Publishes-removals channel_write h a es = refl
  Publishes-removals (sleep_ms n) h a es = refl
  Publishes-removals _ h a es = absurd h

  pub removals-publish :
      removals (run env (publish_event_bytes key payload) w).1.trace ≡ removals w.trace
  removals-publish =
      run-unseen removals env _ w
        (Every-mono _ Publishes-removals (publish_event_bytes-Publishes key payload))

  pub sent-publish : sent (run env (publish_event_bytes key payload) w).1.trace ≡ sent w.trace
  sent-publish =
      run-unseen sent env _ w
        (Every-mono _ Publishes-unsent (publish_event_bytes-Publishes key payload))
