-- ===== src/Handlers/Calls/Sdp.antt =====
-- `extract_rtp_target_from_sdp` of src/sip/handlers/calls.rs.
pub mod Laws
use sentiric_b2bua_service.Prelude.{
  ℕ, String, ◌≡◌, refl, Option, none, some, List, [], ◌∷◌, ltb, unwrap_or, ◌==◌, ◌&&◌, not,
  if◌then◌else◌,
}
use sentiric_b2bua_service.Prelude.Text.{
  lines, strip_prefix, starts_with, trim, split_whitespace, second, parse_u16, show,
}
use sentiric_b2bua_service.Handlers.Calls.{concat}

-- The variables `ip` and `port` of the loop.
pub record Target : Type 0 where
  pub ip : String
  pub port : ℕ

audio_port : Option String → Target → Target
unfolding parse_u16
audio_port none t = t
audio_port (some p_str) t = record t { port = unwrap_or (parse_u16 p_str) 0 }

-- One line of the SDP.
read_line : String → Target → Target
unfolding strip_prefix starts_with trim split_whitespace audio_port
read_line line t = elim (strip_prefix line "c=IN IP4 ") [
  | some stripped ↦ record t { ip = trim stripped }
  | none ↦ if starts_with line "m=audio " then audio_port (second (split_whitespace line)) t else t
]

read_lines : List String → Target → Target
unfolding read_line
read_lines [] t = t
read_lines (line ∷ rest) t = read_lines rest (read_line line t)

show_target : Target → Option String
unfolding show
show_target t =
    if not (t.ip == "") && ltb 0 t.port then some (concat (t.ip ∷ ":" ∷ show t.port ∷ [])) else none

unfoldable pub extract_rtp_target_from_sdp : String → Option String
unfolding read_lines show_target lines
extract_rtp_target_from_sdp body =
    show_target (read_lines (lines body) (record { ip = ""; port = 0 }))

offer_test :
    extract_rtp_target_from_sdp "v=0\r\nc=IN IP4 10.0.0.7\r\nm=audio 30000 RTP/AVP 8\r\n"
    ≡ some "10.0.0.7:30000"
unfolding extract_rtp_target_from_sdp
offer_test = refl

hold_test : extract_rtp_target_from_sdp "c=IN IP4 10.0.0.7\nm=audio 0 RTP/AVP 8\n" ≡ none
unfolding extract_rtp_target_from_sdp
hold_test = refl
