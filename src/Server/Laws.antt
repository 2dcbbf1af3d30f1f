-- ===== src/Server/Laws.antt =====
-- Which packets the listener of src/sip/server.rs gives to the engine.
use sentiric_b2bua_service.Prelude.{
  ◌≤◌, ◌≡◌, refl, sym, ◌≢◌, ◌∙◌, false, Option, none, some, Option-cases, inl, inr, List, [], ◌∷◌,
  length, arith,
}
use sentiric_b2bua_service.Sip.{SipPacket, SocketAddr}
use sentiric_b2bua_service.Libraries.{Libraries}
use sentiric_b2bua_service.Engine.{B2BuaEngine, handle_packet}
use sentiric_b2bua_service.Tasks.{System, Task, Steps, later, receive, start}
use sentiric_b2bua_service.Server.{
  Bytes, Selected, shutdown, received, udp_error, all_filler, packet_in, run,
}

module _ (parse : Bytes → Option SipPacket) where
  -- A datagram with a packet: one of four bytes or more that the parser takes, but for four bytes
  -- that are each CR, LF or NUL.
  pub record IsPacket (data_ : Bytes) (packet : SipPacket) : Type 0 where
    pub enough : 4 ≤ length data_
    pub no_filler : length data_ ≡ 4 → all_filler data_ ≡ false
    pub parsed : parse data_ ≡ some packet

  none-some : {A : Type 0} {a : A} → none ≢ some a
  none-some e = cc e

  packet_in-IsPacket :
      (data_ : Bytes) (packet : SipPacket)
      → packet_in parse data_ ≡ some packet
      → IsPacket data_ packet
  unfolding packet_in
  packet_in-IsPacket data_ packet e = record {
    enough = ground (arith, e);
    no_filler = λ four. ground (arith, e, four);
    parsed = ground (arith, e);
  }

  IsPacket-packet_in :
      (data_ : Bytes) (packet : SipPacket)
      → IsPacket data_ packet
      → packet_in parse data_ ≡ some packet
  unfolding packet_in
  IsPacket-packet_in data_ packet h = ground (arith, h.enough, h.no_filler, h.parsed)

  -- The packets that came in the rounds before the first shutdown, each with where it came from.
  pub data Listens : List Selected → List (SipPacket × SocketAddr) → Type 0 where
    waiting : Listens [] []
    closed : {rest : List Selected} → Listens (shutdown ∷ rest) []
    failed :
        {rest : List Selected} {ps : List (SipPacket × SocketAddr)}
        → Listens rest ps
        → Listens (udp_error ∷ rest) ps
    taken :
        {data_ : Bytes} {src_addr : SocketAddr} {packet : SipPacket} {rest : List Selected}
        {ps : List (SipPacket × SocketAddr)}
        → IsPacket data_ packet
        → Listens rest ps
        → Listens (received data_ src_addr ∷ rest) ((packet, src_addr) ∷ ps)
    skipped :
        {data_ : Bytes} {src_addr : SocketAddr} {rest : List Selected}
        {ps : List (SipPacket × SocketAddr)}
        → ((packet : SipPacket) → ¬ IsPacket data_ packet)
        → Listens rest ps
        → Listens (received data_ src_addr ∷ rest) ps

  run-Listens : (rounds : List Selected) → Listens rounds (run parse rounds)
  unfolding run
  run-Listens [] = waiting
  run-Listens (shutdown ∷ rest) = closed
  run-Listens (udp_error ∷ rest) = failed (run-Listens rest)
  run-Listens (received data_ src_addr ∷ rest) = elim (Option-cases (packet_in parse data_)) [
    | inl e ↦
        rw e (skipped (λ p h. none-some (sym e ∙ IsPacket-packet_in data_ p h)) (run-Listens rest))
    | inr (packet, e) ↦ rw e (taken (packet_in-IsPacket data_ packet e) (run-Listens rest))
  ]

  module _ (lib : Libraries) (engine : B2BuaEngine) where
    -- The service once the tasks have been started, the newest first.
    pub started : List (SipPacket × SocketAddr) → List Task → List Task
    started [] ts = ts
    started ((packet, src_addr) ∷ rest) ts =
        started rest (start (handle_packet lib engine packet src_addr) ∷ ts)

    started-Steps :
        (ps : List (SipPacket × SocketAddr)) {s u : System}
        → Steps lib engine s u
        → Steps lib engine s (record u { tasks = started ps u.tasks })
    unfolding started
    started-Steps [] r = r
    started-Steps ((packet, src_addr) ∷ rest) r =
        started-Steps rest (later r (receive packet src_addr refl))

    -- From the first round to the shutdown, the listener starts a task for each datagram that has a
    -- packet, in the order in which they came, and for nothing else; and those are steps of the
    -- running service, so what holds in each state that it can reach holds after them.
    pub run-starts :
        (rounds : List Selected) {s u : System}
        → Steps lib engine s u
        → Listens rounds (run parse rounds)
          × Steps lib engine s (record u { tasks = started (run parse rounds) u.tasks })
    run-starts rounds r = (run-Listens rounds, started-Steps (run parse rounds) r)
