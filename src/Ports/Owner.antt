-- ===== src/Ports/Owner.antt =====
-- The ownership of ports for tasks that may have to leave a port behind: one that panics, or finds
-- no address. It says nothing of a task once Redis could be reached, since `get` may then cache a
-- session whose port the task does not own.
use mathlib.Core.Path.{subst}
use sentiric_b2bua_service.Prelude.{
  ℕ, String, ◌≡◌, refl, sym, Bool, true, false, ◌⊎◌, inl, inr, Option, none, some, List,
}
use sentiric_b2bua_service.Libraries.{Libraries}
use sentiric_b2bua_service.Data.{CallSession}
use sentiric_b2bua_service.Effects.{
  Op, Answer, Prog, ret, abort, act, ◌>>=◌, redis_clone, World, Env, respond,
}
use sentiric_b2bua_service.Effects.Protocol.{Protocol, Keeps}
use sentiric_b2bua_service.Ports.{Port, port_step, MayGive}
use sentiric_b2bua_service.Store.{get, fetch}

-- The ports that a task owns; `none` once it has found a connection to Redis.
abbrev pub owner_next : Option (List ℕ) → (o : Op) → Answer o → Option (List ℕ)
owner_next none o a = none
owner_next (some owned) redis_clone true = none
owner_next (some owned) o a = some (port_step owned o a)

abbrev pub MayGiveYet : Option (List ℕ) → Op → Type 0
MayGiveYet none o = Unit
MayGiveYet (some owned) o = MayGive owned o

abbrev pub Owner : Protocol (Option (List ℕ))
Owner = record { allowed = MayGiveYet; next = owner_next; aborted = λ s. Unit }

-- A task that keeps the protocol from `s` on; what it still owns where it ends is left open.
abbrev pub Owns : {A : Type 0} → Option (List ℕ) → Prog A → Type 0
Owns s m = Keeps Owner s m (λ s' a. Unit)

next-cases :
    (owned : List ℕ) (o : Op) (a : Answer o)
    → (owner_next (some owned) o a ≡ none)
      ⊎ (owner_next (some owned) o a ≡ some (port_step owned o a))
next-cases owned redis_clone true = inl refl
next-cases owned redis_clone false = inr refl
next-cases owned _ a = inr refl

pub Owns-none : {A : Type 0} (m : Prog A) → Owns none m
Owns-none (ret a) = tt
Owns-none abort = tt
Owns-none (act o k) = (tt, λ a. Owns-none (k a))

-- What keeps the protocol of ports keeps this one.
pub Port→Owns :
    {A : Type 0} (owned : List ℕ) (m : Prog A) (Q : List ℕ → A → Type 0)
    → Keeps Port owned m Q
    → Owns (some owned) m
Port→Owns owned (ret a) Q h = tt
Port→Owns owned abort Q h = tt
Port→Owns owned (act o k) Q h = (
  h.0,
  λ a. elim (next-cases owned o a) [
    | inl e ↦ subst (λ s. Owns s (k a)) (sym e) (Owns-none (k a))
    | inr e ↦ subst (λ s. Owns s (k a)) (sym e) (Port→Owns (port_step owned o a) (k a) Q (h.1 a))
  ],
)

pub Port→Owns_bind :
    {A B : Type 0} (owned : List ℕ) (m : Prog A) (Q : List ℕ → A → Type 0) (f : A → Prog B)
    → Keeps Port owned m Q
    → ((ps : List ℕ) (a : A) → Q ps a → Owns (some ps) (f a))
    → Owns (some owned) (m >>= f)
unfolding ◌>>=◌
Port→Owns_bind owned (ret a) Q f h q = q owned a h
Port→Owns_bind owned abort Q f h q = tt
Port→Owns_bind owned (act o k) Q f h q = (
  h.0,
  λ a. elim (next-cases owned o a) [
    | inl e ↦ subst (λ s. Owns s (k a >>= f)) (sym e) (Owns-none (k a >>= f))
    | inr e ↦
        subst (λ s. Owns s (k a >>= f)) (sym e)
          (Port→Owns_bind (port_step owned o a) (k a) Q f (h.1 a) q)
  ],
)

-- An action of a task that does not find a connection to Redis.
pub owner_next_down :
    (env : Env) (w : World) (owned : List ℕ) (o : Op)
    → env w redis_clone ≡ false
    → owner_next (some owned) o (respond env w o) ≡ some (port_step owned o (respond env w o))
unfolding respond
owner_next_down env w owned redis_clone e = rw e refl
owner_next_down env w owned _ e = refl

look-Owns :
    {A : Type 0} (owned : List ℕ) (k : Bool → Prog A)
    → Owns (some owned) (k false)
    → Owns (some owned) (act redis_clone k)
look-Owns owned k h = (tt, elim [ true ↦ Owns-none (k true) | false ↦ h ])

module _ (lib : Libraries) (id : String) where
  fetch-Owns :
      {A : Type 0} (owned : List ℕ) (f : Option CallSession → Prog A)
      → ((r : Option CallSession) → Owns (some owned) (f r))
      → Owns (some owned) (fetch lib id >>= f)
  unfolding fetch ◌>>=◌
  fetch-Owns owned f h = look-Owns owned _ (h none)

  -- `get`, before what goes on with any session.
  pub get-Owns :
      {A : Type 0} (owned : List ℕ) (f : Option CallSession → Prog A)
      → ((r : Option CallSession) → Owns (some owned) (f r))
      → Owns (some owned) (get lib id >>= f)
  unfolding get ◌>>=◌
  get-Owns owned f h = (tt, elim [ some s ↦ h (some s) | none ↦ fetch-Owns owned f h ])
