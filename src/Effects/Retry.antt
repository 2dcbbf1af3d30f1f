-- ===== src/Effects/Retry.antt =====
-- What a loop that asks again after a failure comes to.
use sentiric_b2bua_service.Prelude.{
  ℕ, zero, suc, ◌+◌, ◌*◌, ◌<◌, ap, ◌∙◌, String, ◌≡◌, refl, Option, some, List, [], ◌∷◌, ◌++◌, ◌⊎◌,
  inl, inr, arith, length, length-append,
}
use sentiric_b2bua_service.Sip.{Outcome, ok, err}
use sentiric_b2bua_service.Effects.{Event, Prog, World, Env, run}

-- Failures, the newest first, before what was answered earlier.
unfoldable pub misses : {A : Type 0} → List String → List (Outcome A) → List (Outcome A)
misses [] before = before
misses (e ∷ es) before = err e ∷ misses es before

-- Of at most `rounds` requests all but the last failed; the outcome is the last answer, an error in
-- the words of `wrap`; and it is an error only where all `rounds` requests have been made.
pub data Retried {A : Type 0} (rounds : ℕ) (wrap : String → String)
    (before after : List (Outcome A)) : Option (Outcome A) → Type 0 where
  answered :
      (a : A) (failures : List String)
      → length failures < rounds
      → after ≡ ok a ∷ misses failures before
      → Retried rounds wrap before after (some (ok a))
  gave_up :
      (e : String) (failures : List String)
      → suc (length failures) ≡ rounds
      → after ≡ err e ∷ misses failures before
      → Retried rounds wrap before after (some (err (wrap e)))

pub Outcome-cases :
    {A : Type 0} (o : Outcome A) → ((a : A) × (o ≡ ok a)) ⊎ ((e : String) × (o ≡ err e))
Outcome-cases (ok a) = inl (a, refl)
Outcome-cases (err e) = inr (e, refl)

misses-snoc :
    {A : Type 0} (es : List String) (e : String) (before : List (Outcome A))
    → misses es (err e ∷ before) ≡ misses (es ++ e ∷ []) before
unfolding misses
misses-snoc [] e before = refl
misses-snoc (x ∷ es) e before = cc (misses-snoc es e before)

-- One failure before the rest.
pub Retried-later :
    {A : Type 0} {rounds : ℕ} {wrap : String → String} {before middle after : List (Outcome A)}
    {r : Option (Outcome A)} (e : String)
    → middle ≡ err e ∷ before
    → Retried rounds wrap middle after r
    → Retried (suc rounds) wrap before after r
Retried-later {before = before} e same (answered a es lt h) =
    answered a (es ++ e ∷ []) (omega (arith, lt, length-append es (e ∷ [])))
      (cc (h, same, misses-snoc es e before))
Retried-later {before = before} e same (gave_up m es n h) =
    gave_up m (es ++ e ∷ []) (omega (arith, n, length-append es (e ∷ [])))
      (cc (h, same, misses-snoc es e before))

-- A loop that asks, at most three times in all, and sleeps between.
pub record RetryLoop {A : Type 0} (env : Env) (wrap : String → String)
    (loop : (fuel attempt backoff : ℕ) → Prog (Outcome A)) (view : List Event → List (Outcome A))
    : Type 0 where
  pub reply : World → Outcome A
  pub asked : World → World
  pub slept : ℕ → World → World
  pub heard : (w : World) → view (asked w).trace ≡ reply w ∷ view w.trace
  pub idle : (backoff : ℕ) (w : World) → view (slept backoff w).trace ≡ view w.trace
  pub first :
      (fuel attempt backoff : ℕ) (w : World) (a : A)
      → reply w ≡ ok a
      → run env (loop (suc fuel) attempt backoff) w ≡ (some (ok a), asked w)
  pub last :
      (attempt backoff : ℕ) (w : World) (e : String)
      → reply w ≡ err e
      → attempt + 1 ≡ 3
      → run env (loop 1 attempt backoff) w ≡ (some (err (wrap e)), asked w)
  pub again :
      (fuel attempt backoff : ℕ) (w : World) (e : String)
      → reply w ≡ err e
      → attempt + suc (suc fuel) ≡ 3
      → run env (loop (suc (suc fuel)) attempt backoff) w
        ≡ run env (loop (suc fuel) (attempt + 1) (backoff * 2)) (slept backoff (asked w))

module _ {A : Type 0} {env : Env} {wrap : String → String}
    {loop : (fuel attempt backoff : ℕ) → Prog (Outcome A)} {view : List Event → List (Outcome A)}
    (l : RetryLoop env wrap loop view) where
  abbrev OfRun : ℕ → World → Prog (Outcome A) → Type 0
  OfRun rounds w m = Retried rounds wrap (view w.trace) (view (run env m w).1.trace) (run env m w).0

  first-Retried :
      (fuel attempt backoff : ℕ) (w : World) (a : A)
      → l.reply w ≡ ok a
      → OfRun (suc fuel) w (loop (suc fuel) attempt backoff)
  unfolding misses
  first-Retried fuel attempt backoff w a e =
      rw (l.first fuel attempt backoff w a e)
        (answered a [] (omega arith) (l.heard w ∙ ap (λ r. r ∷ view w.trace) e))

  pub loop-Retried :
      (fuel attempt backoff : ℕ) (w : World)
      → attempt + suc fuel ≡ 3
      → OfRun (suc fuel) w (loop (suc fuel) attempt backoff)
  unfolding misses
  loop-Retried zero attempt backoff w bound = elim (Outcome-cases (l.reply w)) [
    | inl (a, e) ↦ first-Retried zero attempt backoff w a e
    | inr (m, e) ↦
        rw (l.last attempt backoff w m e bound)
          (gave_up m [] refl (l.heard w ∙ ap (λ r. r ∷ view w.trace) e))
  ]
  loop-Retried (suc fuel) attempt backoff w bound = elim (Outcome-cases (l.reply w)) [
    | inl (a, e) ↦ first-Retried (suc fuel) attempt backoff w a e
    | inr (m, e) ↦ rw (l.again fuel attempt backoff w m e bound) (
        Retried-later m (l.idle backoff (l.asked w) ∙ l.heard w ∙ ap (λ r. r ∷ view w.trace) e) (
          loop-Retried fuel (attempt + 1) (backoff * 2) (l.slept backoff (l.asked w))
            (omega (arith, bound))))
  ]

pub Retried-returns :
    {A : Type 0} {rounds : ℕ} {wrap : String → String} {before after : List (Outcome A)}
    (r : Option (Outcome A))
    → Retried rounds wrap before after r
    → (o : Outcome A) × (r ≡ some o)
Retried-returns r (answered a es lt h) = (_, refl)
Retried-returns r (gave_up e es n h) = (_, refl)

-- What was answered last.
pub record Newest {A : Type 0} (a : A) (answers : List A) : Type 0 where
  pub earlier : List A
  pub newest : answers ≡ a ∷ earlier

-- An outcome is the newest answer, an error of it in the words of `wrap`.
abbrev pub IsHeard : {A : Type 0} → (String → String) → Outcome A → List (Outcome A) → Type 0
IsHeard wrap (ok a) answers = Newest (ok a) answers
IsHeard wrap (err m) answers = (e : String) × (m ≡ wrap e) × Newest (err e) answers

pub Retried-IsHeard :
    {A : Type 0} {rounds : ℕ} {wrap : String → String} {before after : List (Outcome A)}
    {r : Option (Outcome A)} (o : Outcome A)
    → Retried rounds wrap before after r
    → r ≡ some o
    → IsHeard wrap o after
Retried-IsHeard {before = before} (ok c) (answered b es lt h) same = record {
  earlier = misses es before;
  newest = cc (h, same);
}
Retried-IsHeard (ok c) (gave_up e es n h) same = absurd (cc same)
Retried-IsHeard (err m) (answered b es lt h) same = absurd (cc same)
Retried-IsHeard {before = before} (err m) (gave_up e es n h) same =
    (e, cc same, record { earlier = misses es before; newest = h })
