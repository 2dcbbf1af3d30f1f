-- ===== src/Handlers/Calls/Invite/Resolve.antt =====
-- How often `process_invite` asks the dialplan service, and what it gets.
use sentiric_b2bua_service.Prelude.{
  ℕ, zero, suc, ◌+◌, ◌*◌, String, ◌≡◌, refl, ap, ◌∙◌, Option, some, List, [], ◌∷◌, leb, arith,
  if◌then◌else◌,
}
use sentiric_b2bua_service.Sip.{Outcome, ok, err}
use sentiric_b2bua_service.Libraries.{Libraries}
use sentiric_b2bua_service.Effects.{
  Op, Answer, Event, Prog, ret, perform, World, Env, run, respond, update, advance, ◌>>=◌, ◌>>◌,
  resolve_dialplan, sleep_ms,
}
use sentiric_b2bua_service.Ports.Hidden.{IsHidden, Answered, run-Answered}
use sentiric_b2bua_service.Effects.Every.{Every, Every-abort, Every-ret, Every-if}
use sentiric_b2bua_service.Ports.{released, sent}
use sentiric_b2bua_service.Effects.Run.{IsUnseen}
use sentiric_b2bua_service.Handlers.Media.Runs.{allocate_port-Every}
use sentiric_b2bua_service.Effects.Retry.{Retried, RetryLoop, loop-Retried, Retried-returns}
use sentiric_b2bua_service.Data.{Resolution}
use sentiric_b2bua_service.Handlers.Media.{
  MediaManager, allocate_port, traced, max_attempts, first_backoff,
}
use sentiric_b2bua_service.Handlers.Calls.{CallHandler}
use sentiric_b2bua_service.Handlers.Calls.Invite.{resolve_loop}

answer_of : (o : Op) → Answer o → List (Outcome Resolution) → List (Outcome Resolution)
answer_of (resolve_dialplan r) a before = a ∷ before
answer_of _ a before = before

-- The answers of the dialplan service, the newest first.
unfoldable pub route_answers : List Event → List (Outcome Resolution)
unfolding answer_of
route_answers [] = []
route_answers (e ∷ es) = answer_of e.op e.answer (route_answers es)

module _ (lib : Libraries) (self : CallHandler) (env : Env) (id from_uri to_aor : String) where
  abbrev ask : Op
  ask =
      resolve_dialplan (
        traced lib id 150 (record { caller_contact_value = from_uri; destination_number = to_aor }))

  abbrev next_round : (fuel attempt backoff : ℕ) → Outcome Resolution → Prog (Outcome Resolution)
  next_round fuel attempt backoff o = elim o [
    | ok port ↦ ret (ok port)
    | err e ↦
        if leb max_attempts (attempt + 1)
        then ret (err e)
        else (perform (sleep_ms backoff)
            >> resolve_loop lib self fuel (attempt + 1) (backoff * 2) id from_uri to_aor)
  ]

  abbrev after_ask :
      (fuel attempt backoff : ℕ) → World → Outcome Resolution → Option (Outcome Resolution) × World
  after_ask fuel attempt backoff w o =
      run env (next_round fuel attempt backoff o) (advance env ask w)

  round_lem :
      (fuel attempt backoff : ℕ) (w : World)
      → run env (resolve_loop lib self (suc fuel) attempt backoff id from_uri to_aor) w
        ≡ after_ask fuel attempt backoff w (env w ask)
  unfolding resolve_loop run respond ◌>>=◌
  round_lem fuel attempt backoff w = refl

  abbrev slept : ℕ → World → World
  slept backoff w = advance env (sleep_ms backoff) (advance env ask w)

  -- A failure that is not the last.
  again_lem :
      (fuel attempt backoff : ℕ) (w : World) (m : String)
      → attempt + suc (suc fuel) ≡ max_attempts
      → after_ask (suc fuel) attempt backoff w (err m)
        ≡ run env
            (resolve_loop lib self (suc fuel) (attempt + 1) (backoff * 2) id from_uri to_aor)
            (slept backoff w)
  unfolding run respond ◌>>=◌
  again_lem fuel attempt backoff w m bound = ground arith

  last_lem :
      (attempt backoff : ℕ) (w : World) (m : String)
      → attempt + 1 ≡ max_attempts
      → after_ask 0 attempt backoff w (err m) ≡ (some (err m), advance env ask w)
  unfolding run
  last_lem attempt backoff w m bound = ground arith

  answers-ask :
      (w : World) → route_answers (advance env ask w).trace ≡ env w ask ∷ route_answers w.trace
  unfolding route_answers advance respond
  answers-ask w = refl

  answers-sleep :
      (backoff : ℕ) (w : World)
      → route_answers (advance env (sleep_ms backoff) w).trace ≡ route_answers w.trace
  unfolding route_answers advance respond
  answers-sleep backoff w = refl

  resolve-RetryLoop :
      RetryLoop env
        (λ e. e)
        (λ fuel attempt backoff. resolve_loop lib self fuel attempt backoff id from_uri to_aor)
        route_answers
  resolve-RetryLoop = record {
    reply = λ w. env w ask;
    asked = advance env ask;
    slept = λ backoff. advance env (sleep_ms backoff);
    heard = answers-ask;
    idle = answers-sleep;
    first = λ fuel attempt backoff w a e.
        round_lem fuel attempt backoff w
        ∙ ap (after_ask fuel attempt backoff w) e
        ∙ unfold run in refl;
    last = λ attempt backoff w m e bound.
        round_lem 0 attempt backoff w
        ∙ ap (after_ask 0 attempt backoff w) e
        ∙ last_lem attempt backoff w m bound;
    again = λ fuel attempt backoff w m e bound.
        round_lem (suc fuel) attempt backoff w
        ∙ ap (after_ask (suc fuel) attempt backoff w) e
        ∙ again_lem fuel attempt backoff w m bound;
  }

  -- The loop over `resolve_dialplan` returns, whatever the dialplan service answers: it asks at
  -- most three times, stops at the first decision, which is its result, and gives up, with the last
  -- error, only after the third failure.
  pub resolve_loop-Retried :
      (w : World)
      → Retried 3
          (λ e. e)
          (route_answers w.trace)
          (route_answers
            (run env
              (resolve_loop lib self max_attempts 0 first_backoff id from_uri to_aor)
              w).1.trace)
          (run env (resolve_loop lib self max_attempts 0 first_backoff id from_uri to_aor) w).0
  resolve_loop-Retried w = loop-Retried resolve-RetryLoop 2 0 first_backoff w refl

  ask-IsHidden : IsHidden ask
  unfolding update sent released
  ask-IsHidden = record { quiet = λ w. refl; unsent = λ a es. refl; unreleased = λ a es. refl }

  sleep-IsHidden : (n : ℕ) → IsHidden (sleep_ms n)
  unfolding update sent released
  sleep-IsHidden n = record { quiet = λ w. refl; unsent = λ a es. refl; unreleased = λ a es. refl }

  loop-IsHidden :
      (fuel attempt backoff : ℕ)
      → Every IsHidden (resolve_loop lib self fuel attempt backoff id from_uri to_aor)
  unfolding resolve_loop ◌>>=◌
  loop-IsHidden zero attempt backoff = Every-abort
  loop-IsHidden (suc fuel) attempt backoff = record {
    all = (
      ask-IsHidden,
      elim [
        | ok port ↦ tt
        | err e ↦
            (Every-if (leb max_attempts (attempt + 1)) _ _ (Every-ret _)
              (record { all = (sleep-IsHidden backoff, λ _. (loop-IsHidden fuel _ _).all) })).all
      ],
    );
  }

  pub resolve_loop-Answered :
      (w : World)
      → Answered w
          (run env (resolve_loop lib self max_attempts 0 first_backoff id from_uri to_aor) w)
  resolve_loop-Answered w =
      run-Answered env _ w (loop-IsHidden max_attempts 0 first_backoff)
        (Retried-returns _ (resolve_loop-Retried w))

-- A request for a port is no request for a decision.
pub allocate_port-unrouted :
    (lib : Libraries) (env : Env) (id : String) (mgr : MediaManager)
    → Every (IsUnseen route_answers) (allocate_port lib mgr id)
unfolding route_answers
allocate_port-unrouted lib env id mgr =
    allocate_port-Every lib env id (IsUnseen route_answers) mgr (λ a es. refl) (λ n a es. refl)
