-- ===== src/Server.antt =====
-- `SipServer::run` of src/sip/server.rs: the packets that it starts a task for.
pub mod Laws
use sentiric_b2bua_service.Prelude.{
  ℕ, Bool, true, not, Option, none, some, List, [], ◌∷◌, ltb, leb, length, ◌=ℕ◌, ◌&&◌, ◌||◌,
  if◌then◌else◌,
}
use sentiric_b2bua_service.Sip.{SipPacket, SocketAddr}

abbrev pub Bytes : Type 0
Bytes = List ℕ

-- What `select!` takes in one round of the loop.
pub data Selected : Type 0 where
  shutdown : Selected
  received : Bytes → SocketAddr → Selected
  udp_error : Selected

is_filler : ℕ → Bool
is_filler b = b =ℕ 13 || b =ℕ 10 || b =ℕ 0

-- buf[..len].iter().all(...)
unfoldable pub all_filler : Bytes → Bool
unfolding is_filler
all_filler [] = true
all_filler (b ∷ bs) = is_filler b && all_filler bs

-- `parse` is `parser::parse`, of the SIP library.
module _ (parse : Bytes → Option SipPacket) where
  -- The packet of a datagram that the loop does not skip.
  unfoldable pub packet_in : Bytes → Option SipPacket
  packet_in data_ =
      let len = length data_ in
      if ltb len 4 then none else if leb len 4 && all_filler data_ then none else parse data_

  abbrev spawn :
      SocketAddr → Option SipPacket → List (SipPacket × SocketAddr) → List (SipPacket × SocketAddr)
  spawn src_addr none rest = rest
  spawn src_addr (some packet) rest = (packet, src_addr) ∷ rest

  -- The tasks that are started, in order; the loop waits where the rounds end.
  unfoldable pub run : List Selected → List (SipPacket × SocketAddr)
  unfolding packet_in
  run [] = []
  run (shutdown ∷ rest) = []
  run (received data_ src_addr ∷ rest) = spawn src_addr (packet_in data_) (run rest)
  run (udp_error ∷ rest) = run rest
