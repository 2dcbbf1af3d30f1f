-- ===== src/Ports.antt =====
-- Who has to give back an RTP port: the task that the media service gave it to, until it stores the
-- port in a session; then whoever removes that session.
pub mod Hidden
pub mod Owner
pub mod Balance
use sentiric_b2bua_service.Prelude.{
  ℕ, ◌≡◌, arith, Bool, true, false, none, some, List, [], ◌∷◌, ◌=ℕ◌, ◌||◌, if◌then◌else◌,
}
use sentiric_b2bua_service.Sip.{SipPacket, SocketAddr, ok, err}
use sentiric_b2bua_service.Data.{CallSession}
use sentiric_b2bua_service.Effects.{
  Op, Answer, Event, send, media_allocate, media_release, cache_insert, cache_remove,
}
use sentiric_b2bua_service.Effects.Protocol.{Protocol}

abbrev pub port_of : CallSession → ℕ
port_of s = s.session_data.rtp_port

pub has_port : ℕ → List ℕ → Bool
has_port p [] = false
has_port p (q ∷ qs) = q =ℕ p || has_port p qs

-- One port given away, or given back.
pub give_port : ℕ → List ℕ → List ℕ
give_port p [] = []
give_port p (q ∷ qs) = if q =ℕ p then qs else q ∷ give_port p qs

-- The ports that a task owns, moved by one action.
abbrev pub port_step : List ℕ → (o : Op) → Answer o → List ℕ
port_step owned (media_allocate r) (ok p) = p ∷ owned
port_step owned (media_allocate r) (err e) = owned
port_step owned (cache_insert k s) a = give_port (port_of s) owned
port_step owned (cache_remove k) (some s) = port_of s ∷ owned
port_step owned (cache_remove k) none = owned
port_step owned (media_release r) a = give_port r.message.rtp_port owned
port_step owned _ a = owned

-- A task stores and releases only ports that it owns.
abbrev pub MayGive : List ℕ → Op → Type 0
MayGive owned (cache_insert k s) = has_port (port_of s) owned ≡ true
MayGive owned (media_release r) = has_port r.message.rtp_port owned ≡ true
MayGive owned _ = Unit

-- A task that panics owns no port.
abbrev pub Port : Protocol (List ℕ)
Port = record { allowed = MayGive; next = port_step; aborted = λ owned. owned ≡ [] }

-- Where a task ends it owns no port.
abbrev pub Settled : {A : Type 0} → List ℕ → A → Type 0
Settled owned a = owned ≡ []

pub has_port_self : (p : ℕ) (ps : List ℕ) → has_port p (p ∷ ps) ≡ true
unfolding has_port
has_port_self p ps = ground arith

pub give_port_self : (p : ℕ) (ps : List ℕ) → give_port p (p ∷ ps) ≡ ps
unfolding give_port
give_port_self p ps = ground arith

-- The ports given back to the media service, the newest first, and what was sent to whom.
release_of : (o : Op) → Answer o → List ℕ → List ℕ
release_of (media_release r) a ps = r.message.rtp_port ∷ ps
release_of _ a ps = ps

unfoldable pub released : List Event → List ℕ
unfolding release_of
released [] = []
released (e ∷ es) = release_of e.op e.answer (released es)

send_of : (o : Op) → Answer o → List (SipPacket × SocketAddr) → List (SipPacket × SocketAddr)
send_of (send p a) r ps = (p, a) ∷ ps
send_of _ r ps = ps

unfoldable pub sent : List Event → List (SipPacket × SocketAddr)
unfolding send_of
sent [] = []
sent (e ∷ es) = send_of e.op e.answer (sent es)
