-- ===== src/Handlers/Calls/Invite/Runs.antt =====
-- How an INVITE that has its port ends, with and without the mark of a CANCEL.
use sentiric_b2bua_service.Prelude.{
  ℕ, String, ◌≡◌, refl, ap, ◌∙◌, true, false, none, some, [], ◌∷◌, arith, ◌==◌, eq_refl, eq_iff,
  if◌then◌else◌,
}
use sentiric_b2bua_service.Prelude.Table
use sentiric_b2bua_service.Prelude.Table.{lookup, erase, contains, lookup-erase, lookup-insert}
use sentiric_b2bua_service.Sip
use sentiric_b2bua_service.Sip.{SipPacket, SocketAddr, SipTransaction, Outcome, ok, err}
use sentiric_b2bua_service.Libraries.{Libraries}
use sentiric_b2bua_service.Data.{CallSession, Resolution}
use sentiric_b2bua_service.Effects.{
  World, Env, run, respond, update, advance, ◌>>=◌, generate_tag, early_contains,
}
use sentiric_b2bua_service.Effects.Run.{run-bind_some, SameMaps}
use sentiric_b2bua_service.Ports.{released, sent}
use sentiric_b2bua_service.Handlers.Calls.Invite.Answers.{ok_message, ok_response-ok_message}
use sentiric_b2bua_service.Store
use sentiric_b2bua_service.Store.Runs.{insert-Inserted, insert-unseen}
use sentiric_b2bua_service.Effects.Retry.{Newest}
use sentiric_b2bua_service.Handlers.Calls.Invite.Announcing.{uncancelled-Report}
use sentiric_b2bua_service.Handlers.Calls.Invite.Tags.{drawn, drawn-finish}
use sentiric_b2bua_service.Handlers.Media.{set_target}
use sentiric_b2bua_service.Handlers.Calls.{CallHandler, header_or_default, open_transaction}
use sentiric_b2bua_service.Handlers.Calls.Ending.{process_cancel, terminate_session}
use sentiric_b2bua_service.Handlers.Calls.Ending.Runs.{release_for, process_cancel-Ended}
use sentiric_b2bua_service.Handlers.Calls.Ending.Terminate.{bye_message, terminate-cached}
use sentiric_b2bua_service.Handlers.Calls.Invite.Outcomes.{stored, SetUp, Abandoned}
use sentiric_b2bua_service.Handlers.Calls.Invite.{
  Incoming, finish, rtp_target, establish, ok_response, session_of,
}

-- `stored`, as `establish` puts it together.
abbrev kept :
    Libraries
    → CallHandler
    → Incoming
    → SipPacket
    → SocketAddr
    → (port : ℕ) (tag : String) → CallSession
kept lib self call req src port tag = record {
  session_data = session_of lib self call port tag src;
  active_transaction =
      some (record { request = req; responses = ok_response lib self req port tag ∷ [] });
}

module _ (lib : Libraries) (self : CallHandler) (env : Env) (call : Incoming) (req : SipPacket)
    (src : SocketAddr) (r : Resolution) (port : ℕ) where
  abbrev target : String
  target = rtp_target lib self req src

  abbrev asked : World → World
  asked w =
      advance env (generate_tag "b2bua")
        (run env (set_target lib self.media_mgr port target call.call_id) w).1

  abbrev tag : World → String
  tag w =
      env (run env (set_target lib self.media_mgr port target call.call_id) w).1
        (generate_tag "b2bua")

  abbrev session : World → CallSession
  session w = kept lib self call req src port (tag w)

  session-stored : (w : World) → session w ≡ stored lib self call req src port (tag w)
  unfolding session_of
  session-stored w =
      ap
        (λ (resp : SipPacket). record {
          session_data = session_of lib self call port (tag w) src;
          active_transaction = some (record { request = req; responses = resp ∷ [] });
        })
        (ok_response-ok_message lib self req port (tag w))

  abbrev inserted : World → World
  inserted w = (run env (Store.insert lib (session w)) (asked w)).1

  abbrev looked : World → World
  looked w = advance env (early_contains call.call_id) (inserted w)

  run-establish :
      (w : World)
      → lib.opens_transaction req ≡ true
      → run env (establish lib self call req src r port) w
        ≡ run env
            (finish lib self call
              (ok_response lib self req port (tag w))
              src
              port
              target
              r
              (contains call.call_id (inserted w).early_cancelled))
            (looked w)
  unfolding establish set_target open_transaction Store.is_early_cancelled run respond update
      advance ◌>>=◌
  run-establish w h = rw h (
      run-bind_some env (Store.insert lib (session w))
        (λ _.
          Store.is_early_cancelled call.call_id
          >>= finish lib self call (ok_response lib self req port (tag w)) src port target r)
        (asked w) (insert-Inserted lib env (session w) (asked w)).result)

  asked_maps : (w : World) → SameMaps w (asked w)
  unfolding set_target run respond update advance ◌>>=◌
  asked_maps w = record { cache = refl; early_cancelled = refl; invites_in_flight = refl }

  released-looked : (w : World) → released (looked w).trace ≡ released w.trace
  unfolding set_target run respond update advance released ◌>>=◌
  released-looked w = (insert-Inserted lib env (session w) (asked w)).released

  sent-looked : (w : World) → sent (looked w).trace ≡ sent w.trace
  unfolding set_target run respond update advance sent ◌>>=◌
  sent-looked w = (insert-Inserted lib env (session w) (asked w)).sent

  drawn-looked : (w : World) → Newest (tag w) (drawn (looked w).trace)
  unfolding set_target run respond update advance drawn ◌>>=◌
  drawn-looked w = record {
    earlier = drawn (run env (set_target lib self.media_mgr port target call.call_id) w).1.trace;
    newest =
        insert-unseen lib env drawn (session w) (asked w) (λ a es. refl) (λ a es. refl)
          (λ k j t a es. refl);
  }

  cache-looked : (w : World) → (looked w).cache ≡ Table.insert call.call_id (session w) w.cache
  unfolding advance update session_of
  cache-looked w =
      (insert-Inserted lib env (session w) (asked w)).cache
      ∙ ap (Table.insert call.call_id (session w)) (asked_maps w).cache

  early-inserted : (w : World) → (inserted w).early_cancelled ≡ w.early_cancelled
  early-inserted w =
      (insert-Inserted lib env (session w) (asked w)).early_cancelled
      ∙ (asked_maps w).early_cancelled

  early-looked : (w : World) → (looked w).early_cancelled ≡ w.early_cancelled
  unfolding advance update
  early-looked w = early-inserted w

  inflight-looked : (w : World) → (looked w).invites_in_flight ≡ w.invites_in_flight
  unfolding advance update
  inflight-looked w =
      (insert-Inserted lib env (session w) (asked w)).invites_in_flight
      ∙ (asked_maps w).invites_in_flight

  -- From the port on, where no CANCEL has left its mark: the INVITE draws a tag, caches the session
  -- of its call, with the port and that tag, answers 200 OK with the tag (unless the To has one)
  -- and the SDP of the port, and releases nothing.
  pub establish-SetUp :
      (w : World)
      → lib.opens_transaction req ≡ true
      → contains call.call_id w.early_cancelled ≡ false
      → (tag : String) × Newest tag
          (drawn (run env (establish lib self call req src r port) w).1.trace)
        × SetUp call.call_id
            (stored lib self call req src port tag)
            (ok_message lib self req port tag)
            src
            w
            (run env (establish lib self call req src r port) w)
  establish-SetUp w h free =
      let a =
        uncancelled-Report lib self env call src r port target
          (ok_response lib self req port (tag w)) (looked w) in
      (
        tag w,
        rw (run-establish w h) (
            rw (ap (contains call.call_id) (early-inserted w) ∙ free) (
              let d = drawn-looked w in
              record {
                earlier = d.earlier;
                newest =
                    drawn-finish lib self call port target r env
                      (ok_response lib self req port (tag w)) src (looked w)
                    ∙ d.newest;
              })),
        rw (run-establish w h) (
            rw (ap (contains call.call_id) (early-inserted w) ∙ free) (record {
              result = a.result;
              cache =
                  a.cache
                  ∙ cache-looked w
                  ∙ ap (λ s. Table.insert call.call_id s w.cache) (session-stored w);
              early_cancelled = a.early_cancelled ∙ early-looked w;
              invites_in_flight = a.invites_in_flight ∙ inflight-looked w;
              ports = a.ports_released ∙ released-looked w;
              said =
                  a.said
                  ∙ ap (λ ms. (ok_response lib self req port (tag w), src) ∷ ms) (sent-looked w)
                  ∙ ap (λ p. (p, src) ∷ sent w.trace)
                      (ok_response-ok_message lib self req port (tag w));
            })),
      )

  -- The cancelled branch of `establish`, as one run of `terminate_session`.
  run-cancelled :
      (w : World)
      → lib.opens_transaction req ≡ true
      → contains call.call_id w.early_cancelled ≡ true
      → run env (establish lib self call req src r port) w
        ≡ run env (terminate_session lib self call.call_id) (looked w)
  unfolding finish
  run-cancelled w h marked =
      rw (run-establish w h) (rw (ap (contains call.call_id) (early-inserted w) ∙ marked) refl)

  lookup-looked : (w : World) → lookup call.call_id (looked w).cache ≡ some (session w)
  lookup-looked w =
      ap (lookup call.call_id) (cache-looked w)
      ∙ lookup-insert call.call_id call.call_id (session w) w.cache
      ∙ ground (arith, eq_refl call.call_id)

  erase-looked :
      (w : World) (k : String)
      → lookup k (erase call.call_id (looked w).cache)
        ≡ (if call.call_id == k then none else lookup k w.cache)
  erase-looked w k =
      ap (λ m. lookup k (erase call.call_id m)) (cache-looked w)
      ∙ ground (
        arith,
        lookup-erase call.call_id k (Table.insert call.call_id (session w) w.cache),
        lookup-insert call.call_id k (session w) w.cache,
      )

  ports-looked :
      (w : World)
      → release_for (lookup call.call_id (looked w).cache) (released (looked w).trace)
        ≡ port ∷ released w.trace
  unfolding session_of
  ports-looked w =
      ap (λ o. release_for o (released (looked w).trace)) (lookup-looked w)
      ∙ ap (λ ps. port ∷ ps) (released-looked w)

  -- From the port on, where a CANCEL has left its mark: the INVITE sends no 200 OK; the session
  -- that it stores is taken out of the maps again and, where Redis can be reached, out of Redis,
  -- its port is released, once, and a BYE goes to where the INVITE came from.
  pub establish-cancelled :
      (w : World)
      → lib.opens_transaction req ≡ true
      → contains call.call_id w.early_cancelled ≡ true
      → (tag branch : String) × Abandoned call.call_id port
          (bye_message lib self call.call_id branch (stored lib self call req src port tag))
          w
          (run env (establish lib self call req src r port) w)
  unfolding session_of
  establish-cancelled w h marked =
      let (branch, t) =
        terminate-cached lib self env call.call_id (session w) (looked w) (lookup-looked w) in
      (
        tag w,
        branch,
        rw (run-cancelled w h marked) (record {
          result = t.result;
          cache = λ k. ap (lookup k) t.cache ∙ erase-looked w k;
          unmarked = t.early_cancelled call.call_id ∙ ground (arith, eq_refl call.call_id);
          invites_in_flight = t.invites_in_flight ∙ inflight-looked w;
          redis = t.redis;
          ports = t.ports ∙ ports-looked w;
          said =
              t.said
              ∙ ap (λ ms. bye_message lib self call.call_id branch (session w) ∷ ms)
                  (sent-looked w);
        }),
      )

  -- A CANCEL of the call that is handled while its INVITE waits for the dialplan or for its port
  -- does not stop the INVITE: from the port on it still caches its session and answers 200 OK, as
  -- though there had been no CANCEL. (`process_cancel` leaves no mark for `is_early_cancelled` to
  -- find.)
  pub cancel-SetUp :
      (req_cancel : SipPacket) (src_cancel : SocketAddr) (w : World)
      → lib.opens_transaction req ≡ true
      → header_or_default lib req_cancel Sip.call_id ≡ call.call_id
      → (tag : String) × SetUp call.call_id
          (stored lib self call req src port tag)
          (ok_message lib self req port tag)
          src
          (run env (process_cancel lib self req_cancel src_cancel) w).1
          (run env
            (establish lib self call req src r port)
            (run env (process_cancel lib self req_cancel src_cancel) w).1)
  cancel-SetUp req_cancel src_cancel w h same =
      let c = process_cancel-Ended lib self env req_cancel src_cancel w in
      let (tag, drawn_last, done) =
        establish-SetUp (run env (process_cancel lib self req_cancel src_cancel) w).1 h (
          c.early_cancelled call.call_id
          ∙ ground
              (arith, same, eq_iff (header_or_default lib req_cancel Sip.call_id) call.call_id)) in
      (tag, done)
