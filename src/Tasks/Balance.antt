-- ===== src/Tasks/Balance.antt =====
-- The ports of the running service, counted over its tasks.
use mathlib.Core.Path.{subst}
use sentiric_b2bua_service.Prelude.{
  ℕ, ◌+◌, ◌≤◌, ◌≡◌, refl, ap, ◌∙◌, false, Option, none, some, List, [], ◌∷◌, ◌++◌, arith,
}
use sentiric_b2bua_service.Libraries.{Libraries}
use sentiric_b2bua_service.Effects.{
  Op, Answer, Event, Prog, act, World, Env, respond, advance, redis_clone,
}
use sentiric_b2bua_service.Ports.{port_step, MayGive, released}
use sentiric_b2bua_service.Ports.Owner.{Owns, owner_next, owner_next_down}
use sentiric_b2bua_service.Ports.Balance.{count, cached, allocated, action_balance}
use sentiric_b2bua_service.Engine.{B2BuaEngine}
use sentiric_b2bua_service.Engine.Owning.{
  NoReinvite, handle_packet-Owns, terminate_session-Owns, send_outbound_invite-Owns,
}
use sentiric_b2bua_service.Tasks.{
  Task, System, Step, receive, terminate, dial, move, Steps, here, later, boot, start, step_task,
}

-- A step at which no INVITE within a dialog comes, and Redis cannot be reached.
abbrev pub IsPlain :
    {lib : Libraries} {engine : B2BuaEngine} {s u : System} → Step lib engine s u → Type 0
IsPlain {lib} (receive packet src e) = NoReinvite lib packet.method packet
IsPlain (terminate id e) = Unit
IsPlain (dial id from_uri to_uri e) = Unit
IsPlain {s = s} (move env before t after o k es ep e) = env s.world redis_clone ≡ false

abbrev pub AllPlain :
    {lib : Libraries} {engine : B2BuaEngine} {s u : System} → Steps lib engine s u → Type 0
AllPlain here = Unit
AllPlain (later r st) = AllPlain r × IsPlain st

-- The ports that a task owns, by what it has done.
pub owner_of : List Event → Option (List ℕ)
owner_of [] = some []
owner_of (e ∷ log) = owner_next (owner_of log) e.op e.answer

abbrev owned_of : Option (List ℕ) → List ℕ
owned_of none = []
owned_of (some ps) = ps

abbrev owns : ℕ → Task → ℕ
unfolding owner_of
owns p t = count p (owned_of (owner_of t.log))

all_owned : ℕ → List Task → ℕ
unfolding owns
all_owned p [] = 0
all_owned p (t ∷ ts) = owns p t + all_owned p ts

all_owned-append :
    (p : ℕ) (xs ys : List Task) → all_owned p (xs ++ ys) ≡ all_owned p xs + all_owned p ys
unfolding all_owned
all_owned-append p [] ys = omega arith
all_owned-append p (x ∷ xs) ys = omega (arith, all_owned-append p xs ys)

-- A task keeps the protocol from where it stands.
record Tended (t : Task) : Type 0 where
  ports : List ℕ
  owner : owner_of t.log ≡ some ports
  keeps : Owns (some ports) t.prog

abbrev AllTended : List Task → Type 0
AllTended [] = Unit
AllTended (t ∷ ts) = Tended t × AllTended ts

AllTended-at : (xs : List Task) (t : Task) (ys : List Task) → AllTended (xs ++ t ∷ ys) → Tended t
AllTended-at [] t ys h = h.0
AllTended-at (x ∷ xs) t ys h = AllTended-at xs t ys h.1

AllTended-set :
    (xs : List Task) (t u : Task) (ys : List Task)
    → Tended u
    → AllTended (xs ++ t ∷ ys)
    → AllTended (xs ++ u ∷ ys)
AllTended-set [] t u ys k h = (k, h.1)
AllTended-set (x ∷ xs) t u ys k h = (h.0, AllTended-set xs t u ys k h.1)

-- The ports that are given back, owned or cached, against those that were given.
record Inv (p : ℕ) (s : System) : Type 0 where
  covered :
      count p (released s.world.trace) + all_owned p s.tasks + count p (cached s.world.cache)
      ≤ count p (allocated s.world.trace)
  tended : AllTended s.tasks

spawn-Inv :
    (p : ℕ) (s : System) (m : Prog Unit)
    → Owns (some []) m
    → Inv p s
    → Inv p (record s { tasks = start m ∷ s.tasks })
unfolding all_owned count owner_of
spawn-Inv p s m k v = record {
  covered = omega (arith, v.covered);
  tended = (record { ports = []; owner = refl; keeps = k }, v.tended);
}

module _ (p : ℕ) (env : Env) (w : World) (down : env w redis_clone ≡ false) (t : Task) (o : Op)
    (k : Answer o → Prog Unit) where
  step-owner :
      (ps : List ℕ)
      → owner_of t.log ≡ some ps
      → owner_of (step_task env w t o k).log ≡ some (port_step ps o (respond env w o))
  unfolding owner_of
  step-owner ps e = ap (λ s. owner_next s o (respond env w o)) e ∙ owner_next_down env w ps o down

  step-Tended :
      (ps : List ℕ)
      → owner_of t.log ≡ some ps
      → Owns (some ps) (act o k)
      → Tended (step_task env w t o k)
  step-Tended ps e kept = record {
    ports = port_step ps o (respond env w o);
    owner = step-owner ps e;
    keeps =
        subst (λ s. Owns s (k (respond env w o))) (owner_next_down env w ps o down)
          (kept.1 (respond env w o));
  }

  move-covered :
      (before after : List Task) (ps : List ℕ)
      → owner_of t.log ≡ some ps
      → MayGive ps o
      → count p (released w.trace) + all_owned p (before ++ t ∷ after) + count p (cached w.cache)
        ≤ count p (allocated w.trace)
      → count p (released (advance env o w).trace)
          + all_owned p (before ++ step_task env w t o k ∷ after)
          + count p (cached (advance env o w).cache)
        ≤ count p (allocated (advance env o w).trace)
  unfolding advance all_owned
  move-covered before after ps e allowed le = omega (
    arith,
    le,
    all_owned-append p before (t ∷ after),
    all_owned-append p before (step_task env w t o k ∷ after),
    ap (λ s. count p (owned_of s)) e,
    ap (λ s. count p (owned_of s)) (step-owner ps e),
    action_balance p env w ps o w.trace allowed,
  )

module _ (lib : Libraries) (engine : B2BuaEngine) (p : ℕ) where
  Step-Inv : {s u : System} (st : Step lib engine s u) → IsPlain st → Inv p s → Inv p u
  Step-Inv {s} (receive packet src e) plain v =
      rw e (spawn-Inv p s _ (handle_packet-Owns lib engine packet src plain) v)
  Step-Inv {s} (terminate id e) plain v =
      rw e (spawn-Inv p s _ (terminate_session-Owns lib engine id) v)
  Step-Inv {s} (dial id from_uri to_uri e) plain v =
      rw e (spawn-Inv p s _ (send_outbound_invite-Owns lib engine id from_uri to_uri) v)
  Step-Inv {s} (move env before t after o k es ep e) plain v =
      let tended = subst AllTended es v.tended in
      let at_t = AllTended-at before t after tended in
      let kept : Owns (some at_t.ports) (act o k) =
        subst (λ m. Owns (some at_t.ports) m) ep at_t.keeps in
      rw e (record {
        covered = move-covered p env s.world plain t o k before after at_t.ports at_t.owner kept.0 (
            subst
              (λ ts.
                count p (released s.world.trace) + all_owned p ts + count p (cached s.world.cache)
                ≤ count p (allocated s.world.trace))
              es v.covered);
        tended =
            AllTended-set before t _ after
              (step-Tended p env s.world plain t o k at_t.ports at_t.owner kept) tended;
      })

  Reach-Inv : {s : System} (r : Steps lib engine boot s) → AllPlain r → Inv p s
  unfolding all_owned count released cached allocated
  Reach-Inv here plain = record { covered = omega arith; tended = tt }
  Reach-Inv (later r st) plain = Step-Inv st plain.1 (Reach-Inv r plain.0)

  -- In every state that the service can reach with no INVITE within a dialog and with Redis out of
  -- reach, however the tasks are interleaved, whichever of them panic, and whatever the outside
  -- answers otherwise: the times that a port has been given back and the sessions in which it is
  -- cached are together at most the times that the media service gave it.
  pub ports-covered :
      {s : System} (r : Steps lib engine boot s)
      → AllPlain r
      → count p (released s.world.trace) + count p (cached s.world.cache)
        ≤ count p (allocated s.world.trace)
  ports-covered {s} r plain = omega (arith, (Reach-Inv r plain).covered)
