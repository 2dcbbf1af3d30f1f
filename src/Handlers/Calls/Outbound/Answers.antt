-- ===== src/Handlers/Calls/Outbound/Answers.antt =====
-- What a call out hears from outside, and the INVITE that it sends.
use Prim.Native.String
use sentiric_b2bua_service.Prelude.{ℕ, String, ◌≡◌, refl, Option, List, [], ◌∷◌, ◌++◌}
use sentiric_b2bua_service.Prelude.Text.{show}
use sentiric_b2bua_service.Sip.{
  SipPacket, SocketAddr, Outcome, invite, from, to, call_id, cseq, contact, content_type,
  content_length,
}
use sentiric_b2bua_service.Libraries.{Libraries}
use sentiric_b2bua_service.Data.{CallSession}
use sentiric_b2bua_service.Effects.{
  Op, Answer, Event, World, Env, run, send, lookup_host, generate_tag,
}
use sentiric_b2bua_service.Store
use sentiric_b2bua_service.Store.Runs.{insert-unseen}
use sentiric_b2bua_service.Handlers.Media.Runs.{port_answers}
use sentiric_b2bua_service.Handlers.Media.Offer.{offer, generate_sdp-offer}
use sentiric_b2bua_service.Handlers.Calls.{CallHandler, concat, header}
use sentiric_b2bua_service.Handlers.Calls.Outbound.{outbound_request}

-- What has been heard, each list with the newest first: the addresses that lookups of a name gave,
-- the tags that were drawn, and what the transport answered.
pub record Heard : Type 0 where
  pub addresses : List (String × Option (List SocketAddr))
  pub tags : List String
  pub deliveries : List (Outcome (Unit {0}))

hear : (o : Op) → Answer o → Heard → Heard
hear (lookup_host h) a h' = record h' { addresses = (h, a) ∷ h'.addresses }
hear (generate_tag p) a h' = record h' { tags = a ∷ h'.tags }
hear (send p d) a h' = record h' { deliveries = a ∷ h'.deliveries }
hear _ a h' = h'

unfoldable pub heard : List Event → Heard
unfolding hear
heard [] = record { addresses = []; tags = []; deliveries = [] }
heard (e ∷ es) = hear e.op e.answer (heard es)

module _ (lib : Libraries) (env : Env) (s : CallSession) (w : World) where
  pub insert-heard : heard (run env (Store.insert lib s) w).1.trace ≡ heard w.trace
  unfolding heard
  insert-heard = insert-unseen lib env heard s w (λ a es. refl) (λ a es. refl) (λ k j t a es. refl)

  pub insert-port_answers :
      port_answers (run env (Store.insert lib s) w).1.trace ≡ port_answers w.trace
  unfolding port_answers
  insert-port_answers =
      insert-unseen lib env port_answers s w (λ a es. refl) (λ a es. refl) (λ k j t a es. refl)

module _ (lib : Libraries) (self : CallHandler) (id from_uri to_uri local_tag : String) where
  -- The INVITE to `to_uri` with the tag and the SDP of the port.
  abbrev pub invite_message : ℕ → SipPacket
  invite_message port =
      let sdp = offer lib self.media_mgr port in
      let packet = lib.new_request invite to_uri in
      record packet {
        headers =
            packet.headers
            ++ header from (concat ("<" ∷ from_uri ∷ ">" ∷ ";tag=" ∷ local_tag ∷ []))
              ∷ header to (concat ("<" ∷ to_uri ∷ ">" ∷ []))
              ∷ header call_id id
              ∷ header cseq "1 INVITE"
              ∷ header contact
                  (concat ("<sip:b2bua@" ∷ self.config.sbc_public_ip ∷ ":" ∷ "5060" ∷ ">" ∷ []))
              ∷ header content_type "application/sdp"
              ∷ header content_length (show (String.len sdp))
              ∷ [];
        body = sdp;
      }

  pub outbound_request-invite_message :
      (port : ℕ) → outbound_request lib self id from_uri to_uri local_tag port ≡ invite_message port
  unfolding outbound_request
  outbound_request-invite_message port = rw (generate_sdp-offer lib self.media_mgr port) refl
