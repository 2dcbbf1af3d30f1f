-- ===== src/Handlers/Calls/Invite/Answers.antt =====
-- The 200 OK to an INVITE and to a re-INVITE, described apart from the code that fills them in.
use Prim.Native.String
use sentiric_b2bua_service.Prelude.{
  ℕ, String, ◌≡◌, refl, ap, List, [], ◌∷◌, ◌++◌, inl, inr, Bool-cases, if◌then◌else◌,
}
use sentiric_b2bua_service.Prelude.Text.{contains, trim, show}
use sentiric_b2bua_service.Sip.{Header, SipPacket, ◌=ʰ◌, to, contact, content_type, content_length}
use sentiric_b2bua_service.Libraries.{Libraries}
use sentiric_b2bua_service.Data.{CallSessionData}
use sentiric_b2bua_service.Handlers.Media.Offer.{offer, generate_sdp-offer}
use sentiric_b2bua_service.Handlers.Calls.{
  CallHandler, concat, header, change_first, without_header, tag_new, tag_again, with_sdp,
}
use sentiric_b2bua_service.Handlers.Calls.Invite.{ok_response, reinvite_response}

-- The headers before the first `To`, and those from it on.
before_to : List Header → List Header
before_to [] = []
before_to (h ∷ hs) = let rest = before_to hs in if h.name =ʰ to then [] else h ∷ rest

from_to : List Header → List Header
from_to [] = []
from_to (h ∷ hs) = let rest = from_to hs in if h.name =ʰ to then h ∷ hs else rest

with_value : (String → String) → List Header → List Header
with_value f [] = []
with_value f (h ∷ hs) = record { name = h.name; value = f h.value } ∷ hs

-- The headers with the value of the first `To` changed.
unfoldable pub with_to : (String → String) → List Header → List Header
unfolding before_to from_to with_value
with_to f hs = before_to hs ++ with_value f (from_to hs)

with_to_lem : (f : String → String) (hs : List Header) → change_first to f hs ≡ with_to f hs
unfolding change_first with_to before_to from_to with_value
with_to_lem f [] = refl
with_to_lem f (h ∷ hs) = elim (Bool-cases (h.name =ʰ to)) [
  | inl e ↦ rw e refl
  | inr e ↦ rw e (ap (λ rest. h ∷ rest) (with_to_lem f hs))
]

-- The headers but any `Content-Length`.
unfoldable pub without_length : List Header → List Header
without_length [] = []
without_length (h ∷ hs) =
    let rest = without_length hs in if h.name =ʰ content_length then rest else h ∷ rest

without_length_lem : (hs : List Header) → without_header content_length hs ≡ without_length hs
unfolding without_header without_length
without_length_lem [] = refl
without_length_lem (h ∷ hs) = elim (Bool-cases (h.name =ʰ content_length)) [
  | inl e ↦ rw e (without_length_lem hs)
  | inr e ↦ rw e (ap (λ rest. h ∷ rest) (without_length_lem hs))
]

module _ (lib : Libraries) (self : CallHandler) (req : SipPacket) (port : ℕ) where
  -- The library's 200 OK with the `To` of `retag`, the service's address, and the SDP of the port.
  abbrev answer : (retag : String → String) → SipPacket
  answer retag =
      let sdp = offer lib self.media_mgr port in
      let resp = lib.create_200_ok req in
      record resp {
        headers =
            without_length (
              with_to retag resp.headers
              ++ header contact
                  (concat ("<sip:b2bua@" ∷ self.config.sbc_public_ip ∷ ":" ∷ "5060" ∷ ">" ∷ []))
                ∷ header content_type "application/sdp"
                ∷ [])
            ++ header content_length (show (String.len sdp)) ∷ [];
        body = sdp;
      }

  -- The `To` has the tag behind it, where it had none.
  abbrev pub ok_message : (local_tag : String) → SipPacket
  ok_message local_tag = answer (λ value.
      if contains (trim value) ";tag="
      then value
      else concat (trim value ∷ ";tag=" ∷ local_tag ∷ []))

  abbrev pub ok_again_message : (local_tag : String) → SipPacket
  ok_again_message local_tag = answer (λ value.
      if contains value ";tag=" then value else concat (trim value ∷ ";tag=" ∷ local_tag ∷ []))

  pub ok_response-ok_message :
      (local_tag : String) → ok_response lib self req port local_tag ≡ ok_message local_tag
  unfolding ok_response with_sdp tag_new
  ok_response-ok_message local_tag =
      rw
        (
          generate_sdp-offer lib self.media_mgr port,
          without_length_lem,
          with_to_lem (tag_new local_tag) (lib.create_200_ok req).headers,
        )
        refl

pub reinvite_response-ok_again_message :
    (lib : Libraries) (self : CallHandler) (req : SipPacket) (d : CallSessionData)
    → reinvite_response lib self req d ≡ ok_again_message lib self req d.rtp_port d.local_tag
unfolding reinvite_response with_sdp tag_again
reinvite_response-ok_again_message lib self req d =
    rw
      (
        generate_sdp-offer lib self.media_mgr d.rtp_port,
        without_length_lem,
        with_to_lem (tag_again d.local_tag) (lib.create_200_ok req).headers,
      )
      refl
