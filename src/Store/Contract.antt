-- ===== src/Store/Contract.antt =====
-- What `CallStore` of src/sip/store.rs promises: sessions, cancelled calls and locks by call id.
use sentiric_b2bua_service.Prelude.{
  String, ◌≡◌, refl, ap, ◌∙◌, Bool, true, false, not, Option, none, some, Option-cases, inl, inr,
  eq_iff, List, [], ◌∷◌, arith, ◌==◌, if◌then◌else◌,
}
use sentiric_b2bua_service.Prelude.Table.{
  lookup, contains, lookup-insert, lookup-erase, contains-add, contains-discard,
}
use sentiric_b2bua_service.Libraries.{Libraries}
use sentiric_b2bua_service.Data.{CallState, CallSession}
use sentiric_b2bua_service.Effects.{
  Prog, ret, ◌>>=◌, ◌>>◌, World, Env, run, respond, update, advance, with_state, redis_get,
  redis_clone, cache_get,
}
use sentiric_b2bua_service.Effects.Run.{run-bind_some}
use sentiric_b2bua_service.Store.{
  insert, update_state, get, remove, mark_early_cancelled, is_early_cancelled, try_lock_invite,
  unlock_invite, redis_key, parse_entry, write_redis, reload, fetch,
}

pub record Calls : Type 0 where
  pub session : String → Option CallSession
  pub cancelled : String → Bool
  pub locked : String → Bool

-- A call of a method of the store, and what it gives back.
pub data Command : Type 0 where
  put : CallSession → Command
  set_state : String → CallState → Command
  find take mark ask lock unlock : String → Command

pub data Reply : Type 0 where
  done : Reply
  found : Option CallSession → Reply
  flag : Bool → Reply

-- A function, changed at one key.
abbrev pub at_key : {A : Type 0} → String → A → (String → A) → String → A
at_key k a f j = if k == j then a else f j

restate : CallState → Option CallSession → Option CallSession
restate st none = none
restate st (some s) = some (with_state st s)

pub reply_of : Calls → Command → Reply
reply_of c (find k) = found (c.session k)
reply_of c (take k) = found (c.session k)
reply_of c (ask k) = flag (c.cancelled k)
reply_of c (lock k) = flag (not (c.locked k))
reply_of c _ = done

pub after : Calls → Command → Calls
unfolding restate
after c (put s) = record c { session = at_key s.session_data.call_id (some s) c.session }
after c (set_state k st) = record c { session = at_key k (restate st (c.session k)) c.session }
after c (take k) = record c {
  session = at_key k none c.session;
  cancelled = at_key k false c.cancelled;
}
after c (mark k) = record c { cancelled = at_key k true c.cancelled }
after c (lock k) = record c { locked = at_key k true c.locked }
after c (unlock k) = record c { locked = at_key k false c.locked }
after c _ = c

-- The commands one after the other: the replies, and the calls in the end.
pub answers : List Command → Calls → List Reply × Calls
answers [] c = ([], c)
answers (x ∷ xs) c = let rest = answers xs (after c x) in (reply_of c x ∷ rest.0, rest.1)

-- The calls that a world holds.
abbrev pub calls_of : World → Calls
calls_of w = record {
  session = λ k. lookup k w.cache;
  cancelled = λ k. contains k w.early_cancelled;
  locked = λ k. contains k w.invites_in_flight;
}

module _ (lib : Libraries) where
  -- The method that a command calls.
  pub method : Command → Prog Reply
  method (put s) = do insert lib s; ret done
  method (set_state k st) = do update_state lib k st; ret done
  method (find k) = do s ← get lib k; ret (found s)
  method (take k) = do s ← remove k; ret (found s)
  method (mark k) = do mark_early_cancelled k; ret done
  method (ask k) = do b ← is_early_cancelled k; ret (flag b)
  method (lock k) = do b ← try_lock_invite k; ret (flag b)
  method (unlock k) = do unlock_invite k; ret done

  pub methods : List Command → Prog (List Reply)
  unfolding method
  methods [] = ret []
  methods (x ∷ xs) = do r ← method x; rs ← methods xs; ret (r ∷ rs)

  -- No GET of Redis gives an entry that can be read; so it is where Redis cannot be reached.
  abbrev pub HasNoCopies : Env → Type 0
  HasNoCopies env =
      (w : World) (k : String) → parse_entry lib (env w (redis_get (redis_key k))) ≡ none

  record Implements (c : Command) (w : World) (r : Option Reply × World) : Type 0 where
    reply : r.0 ≡ some (reply_of (calls_of w) c)
    calls : calls_of r.1 ≡ after (calls_of w) c

  pub Calls-eq :
      (c d : Calls)
      → ((k : String) → c.session k ≡ d.session k)
      → ((k : String) → c.cancelled k ≡ d.cancelled k)
      → ((k : String) → c.locked k ≡ d.locked k)
      → c ≡ d
  Calls-eq c d s e l =
      λ i. record { session = λ k. s k i; cancelled = λ k. e k i; locked = λ k. l k i }

  module _ (env : Env) (none_kept : HasNoCopies env) where
    method-Implements : (c : Command) (w : World) → Implements c w (run env (method c) w)
    unfolding method reply_of after restate insert update_state get remove mark_early_cancelled
        is_early_cancelled try_lock_invite unlock_invite write_redis fetch reload run respond update
        advance ◌>>=◌
    method-Implements (put s) w = record {
      reply = ground arith;
      calls =
          Calls-eq _ _ (λ k. ground (arith, lookup-insert s.session_data.call_id k s w.cache))
            (λ k. ground arith) (λ k. ground arith);
    }
    method-Implements (set_state k st) w = elim (Option-cases (lookup k w.cache)) [
      | inl e ↦ record {
        reply = ground (arith, e);
        calls =
            Calls-eq _ _ (λ j. ground (arith, e, eq_iff k j)) (λ j. ground (arith, e))
              (λ j. ground (arith, e));
      }
      | inr (s, e) ↦ record {
        reply = ground (arith, e);
        calls =
            Calls-eq _ _ (λ j. ground (arith, e, lookup-insert k j (with_state st s) w.cache))
              (λ j. ground (arith, e)) (λ j. ground (arith, e));
      }
    ]
    method-Implements (find k) w = elim (Option-cases (lookup k w.cache)) [
      | inl e ↦
          let asked = advance env redis_clone (advance env (cache_get k) w) in
          let nothing = none_kept asked k in
          record {
            reply = ground (arith, e, nothing);
            calls =
                Calls-eq _ _ (λ j. ground (arith, e, nothing)) (λ j. ground (arith, e, nothing))
                  (λ j. ground (arith, e, nothing));
          }
      | inr (s, e) ↦ record {
        reply = ground (arith, e);
        calls =
            Calls-eq _ _ (λ j. ground (arith, e)) (λ j. ground (arith, e)) (λ j. ground (arith, e));
      }
    ]
    method-Implements (take k) w = record {
      reply = ground arith;
      calls =
          Calls-eq _ _ (λ j. ground (arith, lookup-erase k j w.cache))
            (λ j. ground (arith, contains-discard k j w.early_cancelled)) (λ j. ground arith);
    }
    method-Implements (mark k) w = record {
      reply = refl;
      calls = Calls-eq _ _ (λ j. refl) (λ j. contains-add k j w.early_cancelled) (λ j. refl);
    }
    method-Implements (ask k) w = record { reply = refl; calls = refl }
    method-Implements (lock k) w = record {
      reply = refl;
      calls = Calls-eq _ _ (λ j. refl) (λ j. refl) (λ j. contains-add k j w.invites_in_flight);
    }
    method-Implements (unlock k) w = record {
      reply = refl;
      calls = Calls-eq _ _ (λ j. refl) (λ j. refl) (λ j. contains-discard k j w.invites_in_flight);
    }

    -- Where no GET of Redis gives an entry that can be read, any sequence of calls of the store's
    -- methods returns, with the replies of the abstract store, and leaves the maps that hold what
    -- the abstract store holds in the end.
    pub methods-refines :
        (cs : List Command) (w : World)
        → ((run env (methods cs) w).0 ≡ some (answers cs (calls_of w)).0)
          × (calls_of (run env (methods cs) w).1 ≡ (answers cs (calls_of w)).1)
    unfolding methods answers run
    methods-refines [] w = (refl, refl)
    methods-refines (c ∷ cs) w =
        let here = method-Implements c w in
        let w1 = (run env (method c) w).1 in
        let rest = methods-refines cs w1 in
        let first =
          run-bind_some env (method c) (λ r. methods cs >>= λ rs. ret (r ∷ rs)) w here.reply in
        let second =
          run-bind_some env (methods cs) (λ rs. ret (reply_of (calls_of w) c ∷ rs)) w1 rest.0 in
        (
          ap (λ p. p.0) first
              ∙ ap (λ p. p.0) second
              ∙ ap (λ d. some (reply_of (calls_of w) c ∷ (answers cs d).0)) here.calls,
          ap (λ p. calls_of p.1) first
              ∙ ap (λ p. calls_of p.1) second
              ∙ rest.1
              ∙ ap (λ d. (answers cs d).1) here.calls,
        )
