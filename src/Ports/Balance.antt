-- ===== src/Ports/Balance.antt =====
-- The ports, counted: those given back, owned by a task, cached in a session, and given by the
-- media service.
use sentiric_b2bua_service.Prelude.{
  ℕ, ◌+◌, ◌≤◌, String, ◌≡◌, ap, true, ◌==◌, some, List, [], ◌∷◌, ◌=ℕ◌, arith, if◌then◌else◌, inl,
  inr, Option-cases, Bool-cases,
}
use sentiric_b2bua_service.Prelude.Table.{lookup, insert, erase}
use sentiric_b2bua_service.Sip.{ok, err}
use sentiric_b2bua_service.Data.{CallSession}
use sentiric_b2bua_service.Effects.{
  Op, Answer, Event, World, Env, respond, update, media_allocate, media_release, cache_insert,
  cache_set_state, cache_remove,
}
use sentiric_b2bua_service.Effects.Retry.{Outcome-cases}
use sentiric_b2bua_service.Ports.{port_of, has_port, give_port, port_step, MayGive, released}

-- 1 if the ports are the same.
abbrev pub one : ℕ → ℕ → ℕ
one q p = if q =ℕ p then 1 else 0

unfoldable pub count : ℕ → List ℕ → ℕ
count p [] = 0
count p (q ∷ qs) = one q p + count p qs

-- The ports of the cached sessions.
unfoldable pub cached : List (String × CallSession) → List ℕ
cached [] = []
cached ((k, s) ∷ m) = port_of s ∷ cached m

allocated_of : (o : Op) → Answer o → List ℕ → List ℕ
allocated_of (media_allocate r) (ok p) ps = p ∷ ps
allocated_of (media_allocate r) (err e) ps = ps
allocated_of _ a ps = ps

-- The ports that the media service gave, the newest first.
unfoldable pub allocated : List Event → List ℕ
unfolding allocated_of
allocated [] = []
allocated (e ∷ es) = allocated_of e.op e.answer (allocated es)

count-give :
    (p q : ℕ) (ps : List ℕ) → has_port q ps ≡ true → count p (give_port q ps) + one q p ≡ count p ps
unfolding count has_port give_port
count-give p q [] h = absurd (cc h)
count-give p q (r ∷ ps) h = ground (arith, h, count-give p q ps)

count-erase :
    (p : ℕ) (k : String) (m : List (String × CallSession))
    → count p (cached (erase k m)) ≤ count p (cached m)
unfolding count cached erase
count-erase p k [] = omega arith
count-erase p k ((j, s) ∷ m) = ground (arith, count-erase p k m)

count-erase_found :
    (p : ℕ) (k : String) (m : List (String × CallSession)) {s : CallSession}
    → lookup k m ≡ some s
    → count p (cached (erase k m)) + one (port_of s) p ≤ count p (cached m)
unfolding count cached erase lookup
count-erase_found p k [] e = absurd (cc e)
count-erase_found p k ((j, t) ∷ m) {s} e = elim (Bool-cases (j == k)) [
  | inl same ↦
      let found : t ≡ s = ground (arith, e, same) in
      ground (arith, same, ap (λ u. one (port_of u) p) found, count-erase p k m)
  | inr other ↦
      let rest : lookup k m ≡ some s = ground (arith, e, other) in
      ground (arith, other, count-erase_found p k m rest)
]

-- The ports that have been given back, that the task owns, and that are cached.
balance : ℕ → List Event → List ℕ → World → ℕ
balance p es owned w = count p (released es) + count p owned + count p (cached w.cache)

-- What a task may do makes no port: each of its actions adds to the ports that are given back,
-- owned or cached at most what the media service gave.
pub action_balance :
    (p : ℕ) (env : Env) (w : World) (owned : List ℕ) (o : Op) (es : List Event)
    → MayGive owned o
    → let e : Event = record { op = o; answer = respond env w o } in
      count p (released (e ∷ es))
        + count p (port_step owned o (respond env w o))
        + count p (cached (update o w).cache)
        + count p (allocated es)
      ≤ count p (released es)
        + count p owned
        + count p (cached w.cache)
        + count p (allocated (e ∷ es))
unfolding respond update count cached allocated released insert
action_balance p env w owned (media_allocate r) es h =
    elim (Outcome-cases (env w (media_allocate r))) [
      | inl (q, e) ↦ rw e (omega arith)
      | inr (m, e) ↦ rw e (omega arith)
    ]
action_balance p env w owned (cache_insert k s) es h =
    omega (arith, count-give p (port_of s) owned h, count-erase p k w.cache)
action_balance p env w owned (cache_set_state k st) es h = elim (Option-cases (lookup k w.cache)) [
  | inl e ↦ rw e (omega arith)
  | inr (s, e) ↦ rw e (omega (arith, count-erase_found p k w.cache e))
]
action_balance p env w owned (cache_remove k) es h = elim (Option-cases (lookup k w.cache)) [
  | inl e ↦ rw e (omega (arith, count-erase p k w.cache))
  | inr (s, e) ↦ rw e (omega (arith, count-erase_found p k w.cache e))
]
action_balance p env w owned (media_release r) es h =
    omega (arith, count-give p r.message.rtp_port owned h)
action_balance p env w owned _ es h = omega arith
