-- ===== src/Handlers/Calls/Sdp/Laws.antt =====
-- Which lines of an SDP `extract_rtp_target_from_sdp` of src/sip/handlers/calls.rs goes by.
use sentiric_b2bua_service.Prelude.{
  ℕ, ◌<◌, String, ◌≡◌, refl, ap, ◌∙◌, false, Option, none, some, Option-cases, inl, inr, List, [],
  ◌∷◌, ltb, unwrap_or, arith, ◌==◌, ◌&&◌, not, if◌then◌else◌,
}
use sentiric_b2bua_service.Prelude.Text.{
  lines, strip_prefix, starts_with, trim, split_whitespace, second, parse_u16, parse_u16-lt, show,
}
use sentiric_b2bua_service.Handlers.Calls.{concat}
use sentiric_b2bua_service.Handlers.Calls.Sdp.{
  Target, audio_port, read_line, read_lines, show_target, extract_rtp_target_from_sdp,
}

-- The address of a line `c=IN IP4 ...`.
pub address_in : String → Option String
address_in line = elim (strip_prefix line "c=IN IP4 ") [
  | none ↦ none
  | some rest ↦ some (trim rest)
]

-- The second word of a line `m=audio ...`, where it has one: its number, or 0 for a word that is
-- none.
pub port_in : String → Option ℕ
port_in line =
    if starts_with line "m=audio "
    then elim (second (split_whitespace line)) [
      | none ↦ none
      | some word ↦ some (unwrap_or (parse_u16 word) 0)
    ]
    else none

-- What `f` finds in the last line in which it finds something, or else `d`.
pub last_found : {A : Type 0} → (String → Option A) → A → List String → A
last_found f d [] = d
last_found f d (line ∷ rest) = last_found f (unwrap_or (f line) d) rest

pub target_of : List String → Target
target_of ls = record { ip = last_found address_in "" ls; port = last_found port_in 0 ls }

-- A line is not of both kinds.
one_kind :
    (line : String) {rest : String}
    → strip_prefix line "c=IN IP4 " ≡ some rest
    → starts_with line "m=audio " ≡ false
unfolding starts_with strip_prefix
one_kind String.[] e = refl
one_kind (String.◌∷◌ c s) e = ground (arith, e)

read_line-found :
    (line : String) (t : Target)
    → read_line line t
      ≡ record { ip = unwrap_or (address_in line) t.ip; port = unwrap_or (port_in line) t.port }
unfolding read_line audio_port address_in port_in
read_line-found line t = elim (Option-cases (strip_prefix line "c=IN IP4 ")) [
  | inr (rest, e) ↦ ground (arith, e, one_kind line e)
  | inl e ↦ ground (arith, e)
]

read_lines-found :
    (ls : List String) (t : Target)
    → read_lines ls t
      ≡ record { ip = last_found address_in t.ip ls; port = last_found port_in t.port ls }
unfolding read_lines last_found
read_lines-found [] t = refl
read_lines-found (line ∷ rest) t =
    read_lines-found rest (read_line line t)
    ∙ ap
        (λ (u : Target). record {
          ip = last_found address_in u.ip rest;
          port = last_found port_in u.port rest;
        })
        (read_line-found line t)

port_in-lt : (line : String) (d : ℕ) → d < 65536 → unwrap_or (port_in line) d < 65536
unfolding port_in
port_in-lt line d h = elim (Option-cases (second (split_whitespace line))) [
  | inl e ↦ ground (arith, e)
  | inr (word, e) ↦ elim (Option-cases (parse_u16 word)) [
    | inl f ↦ ground (arith, e, f)
    | inr (n, f) ↦ ground (arith, e, f, parse_u16-lt word f)
  ]
]

last-port_lt : (ls : List String) (d : ℕ) → d < 65536 → last_found port_in d ls < 65536
unfolding last_found
last-port_lt [] d h = h
last-port_lt (line ∷ rest) d h =
    last-port_lt rest (unwrap_or (port_in line) d) (port_in-lt line d h)

-- The target as a text, where there is one.
pub shown : Target → Option String
shown t =
    if not (t.ip == "") && ltb 0 t.port then some (concat (t.ip ∷ ":" ∷ show t.port ∷ [])) else none

-- Of an SDP, the target is the address of the last `c=IN IP4` line, trimmed, with the port of the
-- last `m=audio` line that has one, where the address is not empty and the port is not 0; else
-- there is none. The port fits sixteen bits.
pub extract-last :
    (body : String)
    → (extract_rtp_target_from_sdp body ≡ shown (target_of (lines body)))
      × ((target_of (lines body)).port < 65536)
unfolding extract_rtp_target_from_sdp target_of show_target shown
extract-last body = (
  ap show_target (read_lines-found (lines body) (record { ip = ""; port = 0 })),
  last-port_lt (lines body) 0 (omega arith),
)
