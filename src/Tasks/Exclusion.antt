-- ===== src/Tasks/Exclusion.antt =====
-- The INVITE locks, counted over the tasks of the running service.
use mathlib.Core.Path.{subst}
use sentiric_b2bua_service.Prelude.{
  ℕ, ◌+◌, ◌≤◌, String, ◌≡◌, some, refl, ap, inl, inr, Bool-cases, Bool, true, false, List, [], ◌∷◌,
  ◌++◌, arith, eq_iff, if◌then◌else◌,
}
use sentiric_b2bua_service.Prelude.Table.{contains, contains-add, contains-discard}
use sentiric_b2bua_service.Sip.{Request}
use sentiric_b2bua_service.Data.{ResolveDialplanRequest, PlayAudioRequest}
use sentiric_b2bua_service.Libraries.{Libraries}
use sentiric_b2bua_service.Effects.{
  Op, Answer, Prog, ret, act, World, Env, respond, update, advance, inflight_insert,
  inflight_remove, resolve_dialplan, media_play,
}
use sentiric_b2bua_service.Effects.Protocol.{Keeps, Keeps-bind}
use sentiric_b2bua_service.Locks.{lock_step, MayUnlock, HasLock, Lock}
use sentiric_b2bua_service.Engine
use sentiric_b2bua_service.Engine.{B2BuaEngine}
use sentiric_b2bua_service.Engine.Locking.{
  Unlocked, handle_packet-Unlocked, terminate_session-Unlocked, send_outbound_invite-Unlocked,
}
use sentiric_b2bua_service.Tasks.{
  Task, System, Step, receive, terminate, dial, move, Steps, here, later, boot, held, start,
  step_task,
}

abbrev bit : Bool → ℕ
bit b = if b then 1 else 0

-- 1 if the task holds the lock of `id`.
abbrev holds : String → Task → ℕ
holds id t = bit (contains id (held t.log))

unfoldable pub holders : String → List Task → ℕ
holders id [] = 0
holders id (t ∷ ts) = holds id t + holders id ts

holders-append :
    (id : String) (xs ys : List Task) → holders id (xs ++ ys) ≡ holders id xs + holders id ys
unfolding holders
holders-append id [] ys = omega arith
holders-append id (x ∷ xs) ys = omega (arith, holders-append id xs ys)

-- One action moves the lock of `id` between the table and the task that acts, or leaves it.
lock_moves :
    (id : String) (env : Env) (w : World) (s : List String) (o : Op)
    → MayUnlock s o
    → bit (contains id s) ≤ bit (contains id w.invites_in_flight)
    → bit (contains id (lock_step s o (respond env w o))) + bit (contains id w.invites_in_flight)
      ≡ bit (contains id s) + bit (contains id (update o w).invites_in_flight)
unfolding respond update contains
lock_moves id env w s (inflight_insert k) h le =
    elim (Bool-cases (contains k w.invites_in_flight)) [
      | inl taken ↦ rw taken (ground (arith, eq_iff k id, contains-add k id w.invites_in_flight))
      | inr free ↦ rw free (ground (arith, eq_iff k id, contains-add k id w.invites_in_flight))
    ]
lock_moves id env w s (inflight_remove k) h le =
    ground (arith, eq_iff k id, contains-discard k id s, contains-discard k id w.invites_in_flight)
lock_moves id env w s _ h le = refl

-- Each task keeps the lock protocol from where it stands.
abbrev pub Orderly : List Task → Type 0
Orderly [] = Unit
Orderly (t ∷ ts) = Keeps Lock (held t.log) t.prog Unlocked × Orderly ts

Orderly-at :
    (xs : List Task) (t : Task) (ys : List Task)
    → Orderly (xs ++ t ∷ ys)
    → Keeps Lock (held t.log) t.prog Unlocked
Orderly-at [] t ys h = h.0
Orderly-at (x ∷ xs) t ys h = Orderly-at xs t ys h.1

Orderly-rest : (xs : List Task) (t : Task) (ys : List Task) → Orderly (xs ++ t ∷ ys) → Orderly ys
Orderly-rest [] t ys h = h.1
Orderly-rest (x ∷ xs) t ys h = Orderly-rest xs t ys h.1

Orderly-set :
    (xs : List Task) (t u : Task) (ys : List Task)
    → Keeps Lock (held u.log) u.prog Unlocked
    → Orderly (xs ++ t ∷ ys)
    → Orderly (xs ++ u ∷ ys)
Orderly-set [] t u ys k h = (k, h.1)
Orderly-set (x ∷ xs) t u ys k h = (h.0, Orderly-set xs t u ys k h.1)

-- What holds of the lock of `id` in every reachable state: the table has it exactly if one task
-- holds it.
pub record Inv (id : String) (s : System) : Type 0 where
  pub exact : holders id s.tasks ≡ bit (contains id s.world.invites_in_flight)
  pub orderly : Orderly s.tasks

spawn-Inv :
    (id : String) (s : System) (m : Prog Unit)
    → Keeps Lock [] m Unlocked
    → Inv id s
    → Inv id (record s { tasks = start m ∷ s.tasks })
unfolding holders contains
spawn-Inv id s m k v = record { exact = omega (arith, v.exact); orderly = (k, v.orderly) }

module _ (id : String) (env : Env) (w : World) (before : List Task) (t : Task) (after : List Task)
    (o : Op) (k : Answer o → Prog Unit) where
  move-holders :
      MayUnlock (held t.log) o
      → holders id (before ++ t ∷ after) ≡ bit (contains id w.invites_in_flight)
      → holders id (before ++ step_task env w t o k ∷ after)
        ≡ bit (contains id (advance env o w).invites_in_flight)
  unfolding advance holders
  move-holders allowed e = omega (
    arith,
    e,
    holders-append id before (t ∷ after),
    holders-append id before (step_task env w t o k ∷ after),
    lock_moves id env w (held t.log) o allowed
        (omega (arith, e, holders-append id before (t ∷ after))),
  )

pub Step-Inv :
    (lib : Libraries) (engine : B2BuaEngine) (id : String) {s u : System}
    → Step lib engine s u
    → Inv id s
    → Inv id u
Step-Inv lib engine id {s} (receive p a e) v =
    rw e (spawn-Inv id s _ (handle_packet-Unlocked lib engine p a) v)
Step-Inv lib engine id {s} (terminate i e) v =
    rw e (spawn-Inv id s _ (terminate_session-Unlocked lib engine i) v)
Step-Inv lib engine id {s} (dial i f t e) v = rw e (
    spawn-Inv id s _
      (Keeps-bind Lock [] (Engine.send_outbound_invite lib engine i f t) _ _
        (send_outbound_invite-Unlocked lib engine i f t))
      v)
Step-Inv lib engine id {s} (move env before t after o k es ep e) v =
    let kept : Keeps Lock (held t.log) (act o k) Unlocked =
      subst (λ m. Keeps Lock (held t.log) m Unlocked) ep
        (Orderly-at before t after (subst Orderly es v.orderly)) in
    rw e (record {
      exact =
          move-holders id env s.world before t after o k kept.0
            (subst (λ ts. holders id ts ≡ bit (contains id s.world.invites_in_flight)) es v.exact);
      orderly =
          Orderly-set before t _ after (kept.1 (respond env s.world o))
            (subst Orderly es v.orderly);
    })

pub Reach-Inv :
    (lib : Libraries) (engine : B2BuaEngine) (id : String) {s : System}
    → Steps lib engine boot s
    → Inv id s
unfolding holders contains
Reach-Inv lib engine id here = record { exact = refl; orderly = tt }
Reach-Inv lib engine id (later r st) = Step-Inv lib engine id st (Reach-Inv lib engine id r)

holders-le-one : (id : String) (s : System) → Inv id s → holders id s.tasks ≤ 1
holders-le-one id s v = ground (arith, v.exact)

-- The task is setting up an INVITE of the call `id`: it holds the lock, or it is about to ask the
-- dialplan service for the route, or the media service for the target, in the name of that call.
pub data Working (id : String) (t : Task) : Type 0 where
  holding : contains id (held t.log) ≡ true → Working id t
  asking :
      (r : Request ResolveDialplanRequest) (k : Answer (resolve_dialplan r) → Prog Unit)
      → t.prog ≡ act (resolve_dialplan r) k
      → r.trace_id ≡ some id
      → Working id t
  targeting :
      (r : Request PlayAudioRequest) (k : Answer (media_play r) → Prog Unit)
      → t.prog ≡ act (media_play r) k
      → r.trace_id ≡ some id
      → Working id t

Working-holds :
    (id : String) (t : Task)
    → Keeps Lock (held t.log) t.prog Unlocked
    → Working id t
    → contains id (held t.log) ≡ true
Working-holds id t h (holding e) = e
Working-holds id t h (asking r k at_ named) =
    subst (HasLock (held t.log)) named (subst (λ m. Keeps Lock (held t.log) m Unlocked) at_ h).0
Working-holds id t h (targeting r k at_ named) =
    subst (HasLock (held t.log)) named (subst (λ m. Keeps Lock (held t.log) m Unlocked) at_ h).0

-- In every reachable state, whatever packets, requests and answers came and however the tasks were
-- interleaved, no two tasks set up an INVITE of one call id: where one of them holds the lock of
-- the call id, or is about to ask the dialplan service for the route of the call or the media
-- service for its target (in a request with the call id as trace id), the other does none of these.
pub lock-exclusive :
    (lib : Libraries) (engine : B2BuaEngine) (id : String) {s : System}
    → Steps lib engine boot s
    → (before : List Task) (t : Task) (between : List Task) (u : Task) (after : List Task)
    → s.tasks ≡ before ++ t ∷ (between ++ u ∷ after)
    → ¬ (Working id t × Working id u)
unfolding holders
lock-exclusive lib engine id {s} r before t between u after e (x, y) =
    let v = Reach-Inv lib engine id r in
    let one : holds id t + holds id u ≤ 1 = omega (
      arith,
      holders-le-one id s v,
      ap (holders id) e,
      holders-append id before (t ∷ (between ++ u ∷ after)),
      holders-append id between (u ∷ after),
    ) in
    let first = Working-holds id t (Orderly-at before t _ (subst Orderly e v.orderly)) x in
    let second =
      Working-holds id u
        (Orderly-at between u after (Orderly-rest before t _ (subst Orderly e v.orderly))) y in
    absurd (ground (arith, one, first, second))

-- Every task has ended with its result.
abbrev pub AllReturned : List Task → Type 0
AllReturned [] = Unit
AllReturned (t ∷ ts) = (t.prog ≡ ret tt) × AllReturned ts

returned-holders : (id : String) (ts : List Task) → Orderly ts → AllReturned ts → holders id ts ≡ 0
unfolding holders contains
returned-holders id [] o r = refl
returned-holders id (t ∷ ts) o r =
    let freed : held t.log ≡ [] = subst (λ m. Keeps Lock (held t.log) m Unlocked) r.0 o.0 in
    omega
      (arith, ap (λ (s : List String). bit (contains id s)) freed, returned-holders id ts o.1 r.1)

-- In every reachable state: once every task has returned, no INVITE lock is held.
pub returned-unlocked :
    (lib : Libraries) (engine : B2BuaEngine) (id : String) {s : System}
    → Steps lib engine boot s
    → AllReturned s.tasks
    → contains id s.world.invites_in_flight ≡ false
returned-unlocked lib engine id {s} r all =
    let v : Inv id s = Reach-Inv lib engine id r in
    ground (arith, v.exact, returned-holders id s.tasks v.orderly all)
