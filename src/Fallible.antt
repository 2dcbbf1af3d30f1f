-- ===== src/Fallible.antt =====
-- `anyhow::Result` in a chain of fallible steps: `?`, and the ways to make an error.
use sentiric_b2bua_service.Prelude.{String, Bool, true, false, Option, none, some}
use sentiric_b2bua_service.Sip.{Outcome, ok, err}

infixl 5 ◌>>=◌ ◌>>◌
abbrev pub ◌>>=◌ {ℓ κ} : {A : Type ℓ} {B : Type κ} → Outcome A → (A → Outcome B) → Outcome B
ok a >>= f = f a
err e >>= f = err e

abbrev pub ◌>>◌ {κ} : {B : Type κ} → Outcome (Unit {0}) → Outcome B → Outcome B
m >> k = m >>= λ _. k

-- `.context(message)?`, on a value that may be missing
abbrev pub required {ℓ} : {A : Type ℓ} → String → Option A → Outcome A
required message none = err message
required message (some a) = ok a

-- `if bad { bail!(message) }`
abbrev pub refuse_if : Bool → String → Outcome (Unit {0})
refuse_if true message = err message
refuse_if false message = ok tt
