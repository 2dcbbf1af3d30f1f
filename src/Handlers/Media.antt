-- ===== src/Handlers/Media.antt =====
-- src/sip/handlers/media.rs: the media service's ports, and the SDP offered for a port.
pub mod Compliance
pub mod Ports
pub mod Runs
pub mod Offer
use sentiric_b2bua_service.Prelude.{
  ℕ, zero, suc, ◌+◌, ◌*◌, ◌%◌, ◌^◌, String, false, none, some, List, [], ◌∷◌, ◌++◌, leb, ◌==◌,
  if◌then◌else◌,
}
use Prim.Native.String
use sentiric_b2bua_service.Sip.{Request, Outcome, ok, err, CodecConf, SdpBuilder}
use sentiric_b2bua_service.Libraries.{Libraries}
use sentiric_b2bua_service.Config.{AppConfig}
use sentiric_b2bua_service.Effects.{
  Prog, ret, abort, perform, ◌>>=◌, ◌>>◌, media_allocate, media_play, media_release, sleep_ms,
}

pub record MediaManager : Type 0 where
  pub config : AppConfig

abbrev pub max_attempts : ℕ
max_attempts = 3

abbrev pub first_backoff : ℕ
first_backoff = 500

module _ (lib : Libraries) where
  -- `Request::new`, `set_timeout`, and the trace id where the call id can be one
  abbrev pub traced : {A : Type 0} → String → ℕ → A → Request A
  traced call_id timeout_ms message = record {
    message = message;
    timeout_ms = timeout_ms;
    trace_id = if lib.is_metadata call_id then some call_id else none;
  }

  -- The loop of `allocate_port`. It ends in the third round at the latest.
  allocate_loop : (fuel attempt backoff : ℕ) (call_id : String) → Prog (Outcome ℕ)
  allocate_loop zero attempt backoff call_id = abort
  allocate_loop (suc fuel) attempt backoff call_id = do
    let attempt' = attempt + 1
    res ← perform (media_allocate (traced call_id 100 (record { call_id = call_id })))
    elim res [
      | ok port ↦ ret (ok port)
      | err e ↦
          if leb max_attempts attempt'
          then ret (err (String.◌++◌ "Media Service erişilemez: " e))
          else (do perform (sleep_ms backoff); allocate_loop fuel attempt' (backoff * 2) call_id)
    ]

  unfoldable pub allocate_port : MediaManager → String → Prog (Outcome ℕ)
  unfolding allocate_loop
  allocate_port mgr call_id = allocate_loop max_attempts 0 first_backoff call_id

  unfoldable pub set_target :
      MediaManager → ℕ → (rtp_target call_id : String) → Prog (Outcome (Unit {0}))
  set_target mgr rtp_port rtp_target call_id = perform (
      media_play (
        traced call_id 100 (record {
          audio_uri = "control://set_target";
          server_rtp_port = rtp_port;
          rtp_target_addr = rtp_target;
        })))

  -- The request is sent by a task of its own, which nobody waits for.
  unfoldable pub release_port : MediaManager → ℕ → String → Prog Unit
  release_port mgr port call_id =
      perform (media_release (traced call_id 100 (record { rtp_port = port })))

  unfoldable pub add_codecs : String → List CodecConf → List CodecConf → List CodecConf
  add_codecs preferred [] added = added
  add_codecs preferred (codec ∷ codecs) added =
      add_codecs preferred codecs
        (if lib.to_uppercase codec.name == preferred then added ++ codec ∷ [] else added)

  -- The builder that `generate_sdp` fills; `rtp_port as u16` drops the high half.
  unfoldable pub sdp_builder : MediaManager → ℕ → SdpBuilder
  unfolding add_codecs
  sdp_builder mgr rtp_port = record {
    ip = mgr.config.public_ip;
    port = rtp_port % 2 ^ 16;
    ptime = lib.profile.ptime;
    rtcp = false;
    codecs = add_codecs (lib.to_uppercase mgr.config.preferred_audio_codec) lib.profile.codecs [];
  }

  unfoldable pub generate_sdp : MediaManager → ℕ → String
  unfolding sdp_builder
  generate_sdp mgr rtp_port = lib.build_sdp (sdp_builder mgr rtp_port)
