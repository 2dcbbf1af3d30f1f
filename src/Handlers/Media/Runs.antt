-- ===== src/Handlers/Media/Runs.antt =====
-- How often `allocate_port` asks, and what it gives.
use Prim.Native.String
use sentiric_b2bua_service.Prelude.{
  ℕ, zero, suc, ◌+◌, ◌*◌, String, ◌≡◌, refl, ap, ◌∙◌, Option, some, List, [], ◌∷◌, leb, arith,
  if◌then◌else◌,
}
use sentiric_b2bua_service.Sip.{Outcome, ok, err}
use sentiric_b2bua_service.Libraries.{Libraries}
use sentiric_b2bua_service.Effects.{
  Op, Answer, Event, Prog, ret, perform, World, Env, run, respond, update, advance, ◌>>=◌, ◌>>◌,
  media_allocate, sleep_ms,
}
use sentiric_b2bua_service.Ports.Hidden.{IsHidden, Answered, run-Answered}
use sentiric_b2bua_service.Effects.Every.{Every, Every-abort, Every-ret, Every-if}
use sentiric_b2bua_service.Ports.{released, sent}
use sentiric_b2bua_service.Effects.Retry.{Retried, RetryLoop, loop-Retried, Retried-returns}
use sentiric_b2bua_service.Handlers.Media.{
  MediaManager, traced, max_attempts, first_backoff, allocate_loop, allocate_port,
}

answer_of : (o : Op) → Answer o → List (Outcome ℕ) → List (Outcome ℕ)
answer_of (media_allocate r) a before = a ∷ before
answer_of _ a before = before

-- The answers of the media service to requests for a port, the newest first.
unfoldable pub port_answers : List Event → List (Outcome ℕ)
unfolding answer_of
port_answers [] = []
port_answers (e ∷ es) = answer_of e.op e.answer (port_answers es)

abbrev pub unreachable : String → String
unreachable e = String.◌++◌ "Media Service erişilemez: " e

module _ (lib : Libraries) (env : Env) (id : String) where
  abbrev ask : Op
  ask = media_allocate (traced lib id 100 (record { call_id = id }))

  abbrev next_round : (fuel attempt backoff : ℕ) → Outcome ℕ → Prog (Outcome ℕ)
  next_round fuel attempt backoff o = elim o [
    | ok port ↦ ret (ok port)
    | err e ↦
        if leb max_attempts (attempt + 1)
        then ret (err (unreachable e))
        else (perform (sleep_ms backoff) >> allocate_loop lib fuel (attempt + 1) (backoff * 2) id)
  ]

  abbrev after_ask : (fuel attempt backoff : ℕ) → World → Outcome ℕ → Option (Outcome ℕ) × World
  after_ask fuel attempt backoff w o =
      run env (next_round fuel attempt backoff o) (advance env ask w)

  round_lem :
      (fuel attempt backoff : ℕ) (w : World)
      → run env (allocate_loop lib (suc fuel) attempt backoff id) w
        ≡ after_ask fuel attempt backoff w (env w ask)
  unfolding allocate_loop run respond ◌>>=◌
  round_lem fuel attempt backoff w = refl

  abbrev slept : ℕ → World → World
  slept backoff w = advance env (sleep_ms backoff) (advance env ask w)

  -- A failure that is not the last.
  again_lem :
      (fuel attempt backoff : ℕ) (w : World) (m : String)
      → attempt + suc (suc fuel) ≡ max_attempts
      → after_ask (suc fuel) attempt backoff w (err m)
        ≡ run env (allocate_loop lib (suc fuel) (attempt + 1) (backoff * 2) id) (slept backoff w)
  unfolding run respond ◌>>=◌
  again_lem fuel attempt backoff w m bound = ground arith

  last_lem :
      (attempt backoff : ℕ) (w : World) (m : String)
      → attempt + 1 ≡ max_attempts
      → after_ask 0 attempt backoff w (err m) ≡ (some (err (unreachable m)), advance env ask w)
  unfolding run
  last_lem attempt backoff w m bound = ground arith

  answers-ask :
      (w : World) → port_answers (advance env ask w).trace ≡ env w ask ∷ port_answers w.trace
  unfolding port_answers advance respond
  answers-ask w = refl

  answers-sleep :
      (backoff : ℕ) (w : World)
      → port_answers (advance env (sleep_ms backoff) w).trace ≡ port_answers w.trace
  unfolding port_answers advance respond
  answers-sleep backoff w = refl

  allocate-RetryLoop :
      RetryLoop env unreachable
        (λ fuel attempt backoff. allocate_loop lib fuel attempt backoff id)
        port_answers
  allocate-RetryLoop = record {
    reply = λ w. env w ask;
    asked = advance env ask;
    slept = λ backoff. advance env (sleep_ms backoff);
    heard = answers-ask;
    idle = answers-sleep;
    first = λ fuel attempt backoff w a e.
        round_lem fuel attempt backoff w
        ∙ ap (after_ask fuel attempt backoff w) e
        ∙ unfold run in refl;
    last = λ attempt backoff w m e bound.
        round_lem 0 attempt backoff w
        ∙ ap (after_ask 0 attempt backoff w) e
        ∙ last_lem attempt backoff w m bound;
    again = λ fuel attempt backoff w m e bound.
        round_lem (suc fuel) attempt backoff w
        ∙ ap (after_ask (suc fuel) attempt backoff w) e
        ∙ again_lem fuel attempt backoff w m bound;
  }

  -- `allocate_port` returns, whatever the media service answers: it asks at most three times, stops
  -- at the first port that it is given, which is its result, and gives up, with the last error,
  -- only after the third failure.
  pub allocate_port-Retried :
      (mgr : MediaManager) (w : World)
      → Retried 3 unreachable
          (port_answers w.trace)
          (port_answers (run env (allocate_port lib mgr id) w).1.trace)
          (run env (allocate_port lib mgr id) w).0
  unfolding allocate_port
  allocate_port-Retried mgr w = loop-Retried allocate-RetryLoop 2 0 first_backoff w refl

  ask-IsHidden : IsHidden ask
  unfolding update sent released
  ask-IsHidden = record { quiet = λ w. refl; unsent = λ a es. refl; unreleased = λ a es. refl }

  sleep-IsHidden : (n : ℕ) → IsHidden (sleep_ms n)
  unfolding update sent released
  sleep-IsHidden n = record { quiet = λ w. refl; unsent = λ a es. refl; unreleased = λ a es. refl }

  -- What neither a request for a port nor a pause shows in, the loop does not show in.
  loop-Every :
      (P : Op → Type 0)
      → P ask
      → ((n : ℕ) → P (sleep_ms n))
      → (fuel attempt backoff : ℕ) → Every P (allocate_loop lib fuel attempt backoff id)
  unfolding allocate_loop ◌>>=◌
  loop-Every P a s zero attempt backoff = Every-abort
  loop-Every P a s (suc fuel) attempt backoff = record {
    all = (
      a,
      elim [
        | ok port ↦ tt
        | err e ↦
            (Every-if (leb max_attempts (attempt + 1)) _ _ (Every-ret _)
              (record { all = (s _, λ _. (loop-Every P a s fuel _ _).all) })).all
      ],
    );
  }

  pub allocate_port-Every :
      (P : Op → Type 0) (mgr : MediaManager)
      → P ask
      → ((n : ℕ) → P (sleep_ms n))
      → Every P (allocate_port lib mgr id)
  unfolding allocate_port
  allocate_port-Every P mgr a s = loop-Every P a s max_attempts 0 first_backoff

  pub allocate_port-IsHidden : (mgr : MediaManager) → Every IsHidden (allocate_port lib mgr id)
  allocate_port-IsHidden mgr = allocate_port-Every IsHidden mgr ask-IsHidden sleep-IsHidden

pub allocate_port-Answered :
    (lib : Libraries) (env : Env) (id : String) (mgr : MediaManager) (w : World)
    → Answered w (run env (allocate_port lib mgr id) w)
allocate_port-Answered lib env id mgr w =
    run-Answered env _ w (allocate_port-IsHidden lib env id mgr)
      (Retried-returns _ (allocate_port-Retried lib env id mgr w))
