-- ===== src/Effects/Run.antt =====
-- How the parts of a program run one after the other, and what a run leaves alone.
use sentiric_b2bua_service.Prelude.{◌≡◌, refl, ap, ◌∙◌, Option, none, some, List, ◌∷◌, arith}
use sentiric_b2bua_service.Effects.{
  Op, Answer, Event, Prog, ret, abort, act, ◌>>=◌, World, Env, respond, update, advance, run,
}
use sentiric_b2bua_service.Effects.Every.{Every, AllActs}

abbrev pub continue : {A B : Type 0} → Env → (A → Prog B) → Option A × World → Option B × World
continue env f (none, w) = (none, w)
continue env f (some a, w) = run env (f a) w

pub run-bind :
    {A B : Type 0} (env : Env) (m : Prog A) (f : A → Prog B) (w : World)
    → run env (m >>= f) w ≡ continue env f (run env m w)
unfolding run ◌>>=◌
run-bind env (ret a) f w = refl
run-bind env abort f w = refl
run-bind env (act o k) f w = run-bind env (k _) f _

continue-some :
    {A B : Type 0} (env : Env) (f : A → Prog B) (r : Option A × World) {a : A}
    → r.0 ≡ some a
    → continue env f r ≡ run env (f a) r.1
continue-some env f (none, w) e = absurd (cc e)
continue-some env f (some b, w) e = ground (arith, e)

-- A part that returns `a`.
pub run-bind_some :
    {A B : Type 0} (env : Env) (m : Prog A) (f : A → Prog B) (w : World) {a : A}
    → (run env m w).0 ≡ some a
    → run env (m >>= f) w ≡ run env (f a) (run env m w).1
run-bind_some env m f w e = run-bind env m f w ∙ continue-some env f (run env m w) e

-- An action that changes no map of the store.
abbrev pub IsQuiet : Op → Type 0
IsQuiet o = (w : World) → update o w ≡ w

-- The maps of the store are as they were.
pub record SameMaps (w u : World) : Type 0 where
  pub cache : u.cache ≡ w.cache
  pub early_cancelled : u.early_cancelled ≡ w.early_cancelled
  pub invites_in_flight : u.invites_in_flight ≡ w.invites_in_flight

quiet :
    {A : Type 0} (env : Env) (m : Prog A) (w : World)
    → AllActs IsQuiet m
    → SameMaps w (run env m w).1
unfolding run advance
quiet env (ret a) w h = record { cache = refl; early_cancelled = refl; invites_in_flight = refl }
quiet env abort w h = record { cache = refl; early_cancelled = refl; invites_in_flight = refl }
quiet env (act o k) w h =
    let rest = quiet env (k (respond env w o)) (advance env o w) (h.1 _) in
    record {
      cache = rest.cache ∙ ap (λ (u : World). u.cache) (h.0 w);
      early_cancelled = rest.early_cancelled ∙ ap (λ (u : World). u.early_cancelled) (h.0 w);
      invites_in_flight = rest.invites_in_flight ∙ ap (λ (u : World). u.invites_in_flight) (h.0 w);
    }

pub run-SameMaps :
    {A : Type 0} (env : Env) (m : Prog A) (w : World) → Every IsQuiet m → SameMaps w (run env m w).1
run-SameMaps env m w h = quiet env m w h.all

-- An action that `obs`, a view of the trace, does not see.
abbrev pub IsUnseen : {X : Type 0} → (List Event → X) → Op → Type 0
IsUnseen obs o =
    (a : Answer o) (es : List Event) → obs (record { op = o; answer = a } ∷ es) ≡ obs es

unseen :
    {A X : Type 0} (obs : List Event → X) (env : Env) (m : Prog A) (w : World)
    → AllActs (IsUnseen obs) m
    → obs (run env m w).1.trace ≡ obs w.trace
unfolding run advance
unseen obs env (ret a) w h = refl
unseen obs env abort w h = refl
unseen obs env (act o k) w h =
    unseen obs env (k (respond env w o)) (advance env o w) (h.1 _) ∙ h.0 (respond env w o) w.trace

pub run-unseen :
    {A X : Type 0} (obs : List Event → X) (env : Env) (m : Prog A) (w : World)
    → Every (IsUnseen obs) m
    → obs (run env m w).1.trace ≡ obs w.trace
run-unseen obs env m w h = unseen obs env m w h.all
