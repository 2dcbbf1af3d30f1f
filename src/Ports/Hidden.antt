-- ===== src/Ports/Hidden.antt =====
-- Programs that only ask: they change no map, send no message and release no port.
use sentiric_b2bua_service.Prelude.{◌≡◌, Option, some}
use sentiric_b2bua_service.Effects.{Op, Prog, World, Env, run}
use sentiric_b2bua_service.Effects.Run.{IsQuiet, SameMaps, run-SameMaps, IsUnseen, run-unseen}
use sentiric_b2bua_service.Effects.Every.{Every, Every-mono}
use sentiric_b2bua_service.Ports.{released, sent}

pub record IsHidden (o : Op) : Type 0 where
  pub quiet : IsQuiet o
  pub unsent : IsUnseen sent o
  pub unreleased : IsUnseen released o

-- The program gave an answer, and only the trace moved.
pub record Answered {A : Type 0} (w : World) (r : Option A × World) : Type 0 where
  pub answer : A
  pub result : r.0 ≡ some answer
  pub maps : SameMaps w r.1
  pub released : released r.1.trace ≡ released w.trace
  pub sent : sent r.1.trace ≡ sent w.trace

pub run-Answered :
    {A : Type 0} (env : Env) (m : Prog A) (w : World)
    → Every IsHidden m
    → (a : A) × ((run env m w).0 ≡ some a)
    → Answered w (run env m w)
run-Answered env m w hidden (a, back) = record {
  answer = a;
  result = back;
  maps = run-SameMaps env m w (Every-mono m (λ o (h : IsHidden o). h.quiet) hidden);
  released = run-unseen released env m w (Every-mono m (λ o (h : IsHidden o). h.unreleased) hidden);
  sent = run-unseen sent env m w (Every-mono m (λ o (h : IsHidden o). h.unsent) hidden);
}
