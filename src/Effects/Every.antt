-- ===== src/Effects/Every.antt =====
-- What holds of every action that a program can take, whatever the outside and other tasks answer.
use sentiric_b2bua_service.Prelude.{Bool, true, false, if◌then◌else◌}
use sentiric_b2bua_service.Effects.{Op, Answer, Prog, ret, abort, act, perform, ◌>>=◌}

abbrev pub AllActs : {A : Type 0} → (Op → Type 0) → Prog A → Type 0
AllActs P (ret a) = Unit
AllActs P abort = Unit
AllActs P (act o k) = P o × ((a : Answer o) → AllActs P (k a))

pub record Every {A : Type 0} (P : Op → Type 0) (m : Prog A) : Type 0 where
  pub all : AllActs P m

AllActs-bind :
    {A B : Type 0} (P : Op → Type 0) (m : Prog A) (f : A → Prog B)
    → AllActs P m
    → ((a : A) → AllActs P (f a))
    → AllActs P (m >>= f)
unfolding ◌>>=◌
AllActs-bind P (ret a) f h k = k a
AllActs-bind P abort f h k = tt
AllActs-bind P (act o c) f h k = (h.0, λ a. AllActs-bind P (c a) f (h.1 a) k)

module _ {A B : Type 0} {P : Op → Type 0} where
  pub Every-bind :
      (m : Prog A) (f : A → Prog B) → Every P m → ((a : A) → Every P (f a)) → Every P (m >>= f)
  Every-bind m f h k = record { all = AllActs-bind P m f h.all (λ a. (k a).all) }

module _ {A : Type 0} {P : Op → Type 0} where
  pub Every-ret : (a : A) → Every P (ret a)
  Every-ret a = record { all = tt }

  pub Every-abort : Every {A = A} P abort
  Every-abort = record { all = tt }

  pub Every-if : (b : Bool) (m n : Prog A) → Every P m → Every P n → Every P (if b then m else n)
  Every-if true m n h k = h
  Every-if false m n h k = k

AllActs-mono :
    {A : Type 0} (P Q : Op → Type 0) (m : Prog A)
    → ((o : Op) → P o → Q o)
    → AllActs P m
    → AllActs Q m
AllActs-mono P Q (ret a) i h = tt
AllActs-mono P Q abort i h = tt
AllActs-mono P Q (act o k) i h = (i o h.0, λ a. AllActs-mono P Q (k a) i (h.1 a))

pub Every-mono :
    {A : Type 0} {P Q : Op → Type 0} (m : Prog A) → ((o : Op) → P o → Q o) → Every P m → Every Q m
Every-mono {P} {Q} m i h = record { all = AllActs-mono P Q m i h.all }

pub Every-perform : {P : Op → Type 0} (o : Op) → P o → Every P (perform o)
unfolding perform
Every-perform o h = record { all = (h, λ a. tt) }

pub ruleset every_rules = (Every-ret, Every-abort, Every-if, Every-bind, Every-perform)
