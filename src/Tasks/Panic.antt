-- ===== src/Tasks/Panic.antt =====
-- Tasks that panic between `try_lock_invite` and `unlock_invite`.
use sentiric_b2bua_service.Prelude.{String, ◌≡◌, ◌⊎◌, true, List, [], ◌∷◌}
use sentiric_b2bua_service.Prelude.Table.{contains}
use sentiric_b2bua_service.Libraries.{Libraries}
use sentiric_b2bua_service.Effects.{abort}
use sentiric_b2bua_service.Tasks.{Task, held}

-- Some task has panicked while it held the lock of `id`.
abbrev pub HasPanicked : String → List Task → Type 0
HasPanicked id [] = ⊥
HasPanicked id (t ∷ ts) = ((t.prog ≡ abort) × (contains id (held t.log) ≡ true)) ⊎ HasPanicked id ts
