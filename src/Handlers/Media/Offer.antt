-- ===== src/Handlers/Media/Offer.antt =====
-- The SDP that `generate_sdp` writes for a port, described apart from its builder calls.
use sentiric_b2bua_service.Prelude.{
  ℕ, String, ◌≡◌, refl, ◌%◌, false, List, [], ◌∷◌, ◌++◌, inl, inr, Bool-cases, ◌==◌, if◌then◌else◌,
}
use sentiric_b2bua_service.Sip.{CodecConf}
use sentiric_b2bua_service.Libraries.{Libraries}
use sentiric_b2bua_service.Handlers.Media.{MediaManager, add_codecs, sdp_builder, generate_sdp}

append_nil : {A : Type 0} (xs : List A) → xs ++ [] ≡ xs
append_nil [] = refl
append_nil (x ∷ xs) = cc (append_nil xs)

append_assoc :
    {A : Type 0} (xs : List A) (x : A) (ys : List A) → (xs ++ x ∷ []) ++ ys ≡ xs ++ x ∷ ys
append_assoc [] x ys = refl
append_assoc (z ∷ xs) x ys = cc (append_assoc xs x ys)

module _ (lib : Libraries) where
  -- The codecs whose name is `name` in capitals, in the profile's order.
  unfoldable pub codecs_named : String → List CodecConf → List CodecConf
  codecs_named name [] = []
  codecs_named name (c ∷ cs) =
      let rest = codecs_named name cs in if lib.to_uppercase c.name == name then c ∷ rest else rest

  add_codecs_lem :
      (name : String) (cs added : List CodecConf)
      → add_codecs lib name cs added ≡ added ++ codecs_named name cs
  unfolding add_codecs codecs_named
  add_codecs_lem name [] added = cc (append_nil added)
  add_codecs_lem name (c ∷ cs) added = elim (Bool-cases (lib.to_uppercase c.name == name)) [
    | inl e ↦
        rw e (
          cc
            (add_codecs_lem name cs (added ++ c ∷ []), append_assoc added c (codecs_named name cs)))
    | inr e ↦ rw e (add_codecs_lem name cs added)
  ]

  -- The SDP at the public address for the port's low sixteen bits, with the preferred codec.
  abbrev pub offer : MediaManager → ℕ → String
  offer mgr port = lib.build_sdp (record {
    ip = mgr.config.public_ip;
    port = port % 65536;
    ptime = lib.profile.ptime;
    rtcp = false;
    codecs = codecs_named (lib.to_uppercase mgr.config.preferred_audio_codec) lib.profile.codecs;
  })

  pub generate_sdp-offer :
      (mgr : MediaManager) (port : ℕ) → generate_sdp lib mgr port ≡ offer mgr port
  unfolding generate_sdp sdp_builder
  generate_sdp-offer mgr port =
      cc (add_codecs_lem (lib.to_uppercase mgr.config.preferred_audio_codec) lib.profile.codecs [])
