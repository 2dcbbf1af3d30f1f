-- ===== src/Tasks/Alone.antt =====
-- The newest task running for a while with no other task in between, as steps of the service.
use sentiric_b2bua_service.Prelude.{ℕ, zero, suc, List, [], ◌∷◌, refl}
use sentiric_b2bua_service.Libraries.{Libraries}
use sentiric_b2bua_service.Effects.{Prog, ret, abort, act, Event, World, Env, respond, advance}
use sentiric_b2bua_service.Engine.{B2BuaEngine}
use sentiric_b2bua_service.Tasks.{Task, System, move, Steps, later}

-- The state after `n` actions of the task, or fewer if it ends before.
unfoldable pub alone : ℕ → Env → World → Prog Unit → List Event → List Task → System
unfolding respond advance
alone zero env w m log ts = record { world = w; tasks = record { prog = m; log = log } ∷ ts }
alone (suc n) env w (ret a) log ts = record {
  world = w;
  tasks = record { prog = ret a; log = log } ∷ ts;
}
alone (suc n) env w abort log ts = record {
  world = w;
  tasks = record { prog = abort; log = log } ∷ ts;
}
alone (suc n) env w (act o k) log ts =
    alone n env (advance env o w) (k (respond env w o))
      (record { op = o; answer = respond env w o } ∷ log) ts

module _ (lib : Libraries) (engine : B2BuaEngine) {s : System} (env : Env) where
  unfoldable pub alone-Steps :
      (n : ℕ) (w : World) (m : Prog Unit) (log : List Event) (ts : List Task)
      → Steps lib engine s (record { world = w; tasks = record { prog = m; log = log } ∷ ts })
      → Steps lib engine s (alone n env w m log ts)
  unfolding alone
  alone-Steps zero w m log ts r = r
  alone-Steps (suc n) w (ret a) log ts r = r
  alone-Steps (suc n) w abort log ts r = r
  alone-Steps (suc n) w (act o k) log ts r =
      alone-Steps n _ (k (respond env w o)) _ ts (later r (move env [] _ ts o k refl refl refl))
