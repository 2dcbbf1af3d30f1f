-- ===== src/Effects/Protocol.antt =====
-- A protocol that a task keeps: a state of its own, moved by each action and its answer, with what
-- may be done in each state, and what holds of the state where the task ends.
use mathlib.Core.Path.{subst}
use sentiric_b2bua_service.Prelude.{◌≡◌, sym, Bool, true, false, if◌then◌else◌}
use sentiric_b2bua_service.Effects.{Op, Answer, Prog, ret, abort, act, ◌>>=◌}
use sentiric_b2bua_service.Effects.Every.{Every, Every-mono, AllActs}

pub record Protocol (S : Type 0) : Type 1 where
  pub allowed : S → Op → Type 0
  pub next : S → (o : Op) → Answer o → S
  pub aborted : S → Type 0

-- From `s` the program keeps the protocol, and where it returns, `Q` holds.
abbrev pub Keeps : {S A : Type 0} → Protocol S → S → Prog A → (S → A → Type 0) → Type 0
Keeps d s (ret a) Q = Q s a
Keeps d s abort Q = d.aborted s
Keeps d s (act o k) Q = d.allowed s o × ((a : Answer o) → Keeps d (d.next s o a) (k a) Q)

module _ {S : Type 0} (d : Protocol S) where
  pub Keeps-bind :
      {A B : Type 0} (s : S) (m : Prog A) (f : A → Prog B) (Q : S → B → Type 0)
      → Keeps d s m (λ s' a. Keeps d s' (f a) Q)
      → Keeps d s (m >>= f) Q
  unfolding ◌>>=◌
  Keeps-bind s (ret a) f Q h = h
  Keeps-bind s abort f Q h = h
  Keeps-bind s (act o k) f Q h = (h.0, λ a. Keeps-bind (d.next s o a) (k a) f Q (h.1 a))

  pub Keeps-mono :
      {A : Type 0} (s : S) (m : Prog A) (P Q : S → A → Type 0)
      → ((s' : S) (a : A) → P s' a → Q s' a)
      → Keeps d s m P
      → Keeps d s m Q
  Keeps-mono s (ret a) P Q i h = i s a h
  Keeps-mono s abort P Q i h = h
  Keeps-mono s (act o k) P Q i h = (h.0, λ a. Keeps-mono (d.next s o a) (k a) P Q i (h.1 a))

  -- An action that the protocol does not look at: it is allowed anywhere, and moves nothing.
  pub record Passes (o : Op) : Type 0 where
    pub free : (s : S) → d.allowed s o
    pub still : (s : S) (a : Answer o) → d.next s o a ≡ s

  -- One that is allowed in the state `s`, and leaves it.
  pub record PassesAt (s : S) (o : Op) : Type 0 where
    pub free : d.allowed s o
    pub still : (a : Answer o) → d.next s o a ≡ s

  frame :
      {A : Type 0} (s : S) (m : Prog A) (Q : S → A → Type 0)
      → AllActs (PassesAt s) m
      → d.aborted s
      → ((a : A) → Q s a)
      → Keeps d s m Q
  frame s (ret a) Q h b q = q a
  frame s abort Q h b q = b
  frame s (act o k) Q h b q = (
    h.0.free,
    λ a. subst (λ s'. Keeps d s' (k a) Q) (sym (h.0.still a)) (frame s (k a) Q (h.1 a) b q),
  )

  pub Keeps-frame_at :
      {A : Type 0} (s : S) (m : Prog A) (Q : S → A → Type 0)
      → Every (PassesAt s) m
      → d.aborted s
      → ((a : A) → Q s a)
      → Keeps d s m Q
  Keeps-frame_at s m Q h b q = frame s m Q h.all b q

  -- A program of actions that pass may stand anywhere.
  pub Keeps-frame :
      {A : Type 0} (s : S) (m : Prog A) (Q : S → A → Type 0)
      → Every Passes m
      → d.aborted s
      → ((a : A) → Q s a)
      → Keeps d s m Q
  Keeps-frame s m Q h b q =
      Keeps-frame_at s m Q
        (Every-mono m (λ o (p : Passes o). record { free = p.free s; still = p.still s }) h) b q

  pub Keeps-if :
      {A : Type 0} (s : S) (b : Bool) (m n : Prog A) (Q : S → A → Type 0)
      → Keeps d s m Q
      → Keeps d s n Q
      → Keeps d s (if b then m else n) Q
  Keeps-if s true m n Q h k = h
  Keeps-if s false m n Q h k = k
