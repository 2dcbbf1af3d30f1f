-- ===== src/Handlers/Calls/Outbound/Runs.antt =====
-- What comes of a call out, when its task runs undisturbed.
use Prim.Native.String
use sentiric_b2bua_service.Prelude.{
  ℕ, String, ◌≡◌, refl, ap, ◌⊎◌, inl, inr, ◌∙◌, Option, none, some, List, [], ◌∷◌,
}
use sentiric_b2bua_service.Prelude.Table
use sentiric_b2bua_service.Sip.{SipPacket, SocketAddr, Outcome, ok, err}
use sentiric_b2bua_service.Libraries.{Libraries}
use sentiric_b2bua_service.Data.{CallSession, CallSessionData, new_session, trying}
use sentiric_b2bua_service.Effects.{
  World, Env, run, respond, update, advance, ◌>>=◌, perform, send, generate_tag, lookup_host,
}
use sentiric_b2bua_service.Effects.Run.{run-bind_some, SameMaps}
use sentiric_b2bua_service.Ports.{released, sent}
use sentiric_b2bua_service.Store
use sentiric_b2bua_service.Store.Runs.{Inserted, insert-Inserted}
use sentiric_b2bua_service.Handlers.Media.{allocate_port}
use sentiric_b2bua_service.Handlers.Media.Runs.{
  allocate_port-Answered, allocate_port-Retried, port_answers, unreachable,
}
use sentiric_b2bua_service.Effects.Retry.{Newest, IsHeard, Retried-IsHeard}
use sentiric_b2bua_service.Handlers.Calls.Outbound.Answers.{
  Heard, heard, insert-heard, insert-port_answers, invite_message, outbound_request-invite_message,
}
use sentiric_b2bua_service.Handlers.Calls.{CallHandler, contact_uri}
use sentiric_b2bua_service.Handlers.Calls.Outbound.{
  outbound_request, outbound_session, dial, call_out, process_outbound_invite,
}

-- A call out that came to nothing: no map has changed, nothing was sent, and no port released.
pub record Undone (w u : World) : Type 0 where
  pub maps : SameMaps w u
  pub ports : released u.trace ≡ released w.trace
  pub said : sent u.trace ≡ sent w.trace

-- A call out that was placed: its session is cached, and `request` has gone to the proxy.
pub record Placed (id : String) (s : CallSession) (request : SipPacket) (proxy_addr : SocketAddr)
    (w u : World) : Type 0 where
  pub cache : u.cache ≡ Table.insert id s w.cache
  pub early_cancelled : u.early_cancelled ≡ w.early_cancelled
  pub invites_in_flight : u.invites_in_flight ≡ w.invites_in_flight
  pub ports : released u.trace ≡ released w.trace
  pub said : sent u.trace ≡ (request, proxy_addr) ∷ sent w.trace

module _ (lib : Libraries) (self : CallHandler) (id from_uri to_uri : String) where
  pub data CalledOut (w u : World) : Option (Outcome (Unit {0})) → Type 0 where
    no_port :
        (e : String)
        → Newest (err e) (port_answers u.trace)
        → Undone w u
        → CalledOut w u (some (err (String.◌++◌ "Media Service erişilemez: " e)))
    no_address :
        (rtp_port : ℕ) (addresses : Option (List SocketAddr))
        → Newest (ok rtp_port) (port_answers u.trace)
        → Newest (self.config.proxy_sip_addr, addresses) (heard u.trace).addresses
        → (addresses ≡ none) ⊎ (addresses ≡ some [])
        → Undone w u
        → CalledOut w u (some (ok tt))
    placed :
        (rtp_port : ℕ) (local_tag : String) (proxy_addr : SocketAddr) (rest : List SocketAddr)
        (o : Outcome (Unit {0}))
        → Newest (ok rtp_port) (port_answers u.trace)
        → Newest (self.config.proxy_sip_addr, some (proxy_addr ∷ rest)) (heard u.trace).addresses
        → Newest local_tag (heard u.trace).tags
        → Newest o (heard u.trace).deliveries
        → Placed id
            (new_session (record {
              call_id = id;
              state = trying;
              from_uri = from_uri;
              to_uri = to_uri;
              rtp_port = rtp_port;
              local_tag = local_tag;
              caller_tag = "";
              client_contact = contact_uri self.config;
              proxy_addr = proxy_addr;
            }))
            (invite_message lib self id from_uri to_uri local_tag rtp_port)
            proxy_addr
            w
            u
        → CalledOut w u (some o)

  module _ (env : Env) where
    abbrev request : (tag : String) (port : ℕ) → SipPacket
    request tag port = outbound_request lib self id from_uri to_uri tag port

    abbrev session : (tag : String) (port : ℕ) → SocketAddr → CallSessionData
    session tag port addr = outbound_session lib self id from_uri to_uri tag port addr

    placed_run :
        (port : ℕ) (tag : String) (addr : SocketAddr) (rest : List SocketAddr) {w : World}
        (v : World)
        → Newest (ok port) (port_answers v.trace)
        → Newest (self.config.proxy_sip_addr, some (addr ∷ rest)) (heard v.trace).addresses
        → Newest tag (heard v.trace).tags
        → Undone w v
        → CalledOut w
            (run env
              (perform (send (request tag port) addr))
              (run env (Store.insert lib (new_session (session tag port addr))) v).1).1
            (run env
              (perform (send (request tag port) addr))
              (run env (Store.insert lib (new_session (session tag port addr))) v).1).0
    unfolding run respond update advance released sent perform outbound_session port_answers heard
    placed_run port tag addr rest {w} v p a g u =
        let i : Inserted (new_session (session tag port addr)) v _ =
          insert-Inserted lib env (new_session (session tag port addr)) v in
        let s = new_session (session tag port addr) in
        let h = insert-heard lib env s v in
        placed port tag addr rest _
          (record { earlier = p.earlier; newest = insert-port_answers lib env s v ∙ p.newest })
          (record { earlier = a.earlier; newest = ap (λ (x : Heard). x.addresses) h ∙ a.newest })
          (record { earlier = g.earlier; newest = ap (λ (x : Heard). x.tags) h ∙ g.newest })
          (record {
            earlier = (heard (run env (Store.insert lib s) v).1.trace).deliveries;
            newest = refl;
          })
          (record {
            cache =
                i.cache ∙ ap (Table.insert id (new_session (session tag port addr))) u.maps.cache;
            early_cancelled = i.early_cancelled ∙ u.maps.early_cancelled;
            invites_in_flight = i.invites_in_flight ∙ u.maps.invites_in_flight;
            ports = i.released ∙ u.ports;
            said =
                ap (λ ms. (request tag port, addr) ∷ ms) (i.sent ∙ u.said)
                ∙ ap (λ q. (q, addr) ∷ sent w.trace)
                    (outbound_request-invite_message lib self id from_uri to_uri tag port);
          })

    dial-CalledOut :
        (port : ℕ) (tag : String) (addrs : Option (List SocketAddr)) {w : World} (v : World)
        → Newest (ok port) (port_answers v.trace)
        → Newest (self.config.proxy_sip_addr, addrs) (heard v.trace).addresses
        → Newest tag (heard v.trace).tags
        → Undone w v
        → CalledOut w
            (run env (dial lib self (request tag port) (session tag port) addrs) v).1
            (run env (dial lib self (request tag port) (session tag port) addrs) v).0
    unfolding dial
    dial-CalledOut port tag none v p a g u = unfold run in no_address port none p a (inl refl) u
    dial-CalledOut port tag (some []) v p a g u =
        unfold run in no_address port (some []) p a (inr refl) u
    dial-CalledOut port tag (some (addr ∷ rest)) v p a g u =
        rw
          (run-bind_some env (Store.insert lib (new_session (session tag port addr)))
            (λ _. perform (send (request tag port) addr)) v
            (insert-Inserted lib env (new_session (session tag port addr)) v).result)
          (placed_run port tag addr rest v p a g u)

    call_out-CalledOut :
        (o : Outcome ℕ) {w : World} (v : World)
        → IsHeard unreachable o (port_answers v.trace)
        → Undone w v
        → CalledOut w
            (run env (call_out lib self id from_uri to_uri o) v).1
            (run env (call_out lib self id from_uri to_uri o) v).0
    unfolding call_out run respond update advance released sent port_answers heard ◌>>=◌
    call_out-CalledOut (err m) v (e, words, p) u = rw words (no_port e p u)
    call_out-CalledOut (ok port) v p u =
        dial-CalledOut port _ _
          (advance env (lookup_host self.config.proxy_sip_addr)
            (advance env (generate_tag "b2bua-out") v))
          (record { earlier = p.earlier; newest = p.newest })
          (record { earlier = (heard v.trace).addresses; newest = refl })
          (record { earlier = (heard v.trace).tags; newest = refl })
          (record {
            maps = record {
              cache = u.maps.cache;
              early_cancelled = u.maps.early_cancelled;
              invites_in_flight = u.maps.invites_in_flight;
            };
            ports = u.ports;
            said = u.said;
          })

    -- `process_outbound_invite` returns, in one of three ways: with the error that the media
    -- service answered last, and nothing done; with `ok`, and nothing done either, although the
    -- media service gave a port (the lookup of the proxy's configured name failed or gave no
    -- address); or, where the media service gave a port and the lookup an address, with what the
    -- transport answered: the session of the call is cached with that port and the tag drawn, in
    -- the state `Trying`, and the INVITE with that tag and the SDP of that port is the one message
    -- that was sent, to the first address of the lookup.
    pub process_outbound_invite-CalledOut :
        (w : World)
        → CalledOut w
            (run env (process_outbound_invite lib self id from_uri to_uri) w).1
            (run env (process_outbound_invite lib self id from_uri to_uri) w).0
    unfolding process_outbound_invite
    process_outbound_invite-CalledOut w =
        let a = allocate_port-Answered lib env id self.media_mgr w in
        rw (run-bind_some env (allocate_port lib self.media_mgr id) _ w a.result) (
          call_out-CalledOut a.answer _
            (Retried-IsHeard a.answer (allocate_port-Retried lib env id self.media_mgr w) a.result)
            (record { maps = a.maps; ports = a.released; said = a.sent }))
