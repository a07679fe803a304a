-- ===== src/Dump/Capture.antt =====
-- `process_packet` and `process_packet_helper` of pqcdump/src/main.rs, and the loop of `main` that
-- calls them: what a captured packet adds to the analyser's tables.
pub mod Again
pub mod Panics
pub mod Tests
pub mod Sound
use pqcscan.Base.{
  ℕ, ◌+◌, Bool, true, false, ◌&&◌, Option, none, some, List, [], ◌∷◌, Bytes, length, ltb, leb, ◌==◌,
  if◌then◌else◌, Outcome, ok, err, panic, hang, ◌>>=◌, index,
}
use pqcscan.Base.Addr.{IpAddr, ip_text}
use pqcscan.Dump.Packet.{NetSlice, ip, arp, TcpSlice, TransportSlice, tcp, udp, SlicedPacket}
use pqcscan.Dump.Tcp.{TcpFlowKey, TcpReassembler, push}
use pqcscan.Dump.Ssh.Kexinit.{ssh_msg_kexinit}
use pqcscan.Dump.Ssh.Sessions.{LinkedHashSet, Sessions, HostCaps, process_ssh}
use pqcscan.Dump.Tls.Hosts.{TlsTables, process_ssl_hello}

-- `payload.len() > 5 && payload[0] == 0x16 && payload[1] == 0x03 && payload[2] <= 4`
unfoldable pub is_hello : Bytes → Bool
is_hello (a ∷ b ∷ c ∷ rest) = ltb 5 (3 + length rest) && a == 0x16 && b == 3 && leb c 4
is_hello _ = false

module _ (sets : LinkedHashSet) where
  -- The tables that the loop of `main` fills.
  pub record Tables : Type 0 where
    pub reassembler : TcpReassembler
    pub sessions : Sessions
    pub host_caps : HostCaps sets
    pub tls : TlsTables

  abbrev pub no_tables : Tables
  no_tables = record {
    reassembler = [];
    sessions = [];
    host_caps = [];
    tls = record { tls_ciphers = []; keyshare_groups = []; tls_sessions = [] };
  }

  unfoldable pub add_ssh : SlicedPacket → Bytes → Tables → Outcome (Unit {0}) Tables
  add_ssh sliced payload s = do
    (sessions, host_caps) ← process_ssh sets sliced payload s.sessions s.host_caps
    ok (record s { sessions = sessions; host_caps = host_caps })

  unfoldable pub add_tls : SlicedPacket → Bytes → TcpSlice → Tables → Outcome (Unit {0}) Tables
  add_tls sliced payload t s = do
    tls ← process_ssl_hello sliced payload t s.tls
    ok (record s { tls = tls })

  unfoldable pub process_packet_helper :
      SlicedPacket → Bytes → TcpSlice → Tables → Outcome (Unit {0}) Tables
  process_packet_helper sliced payload t s = do
    kind ← index payload 5
    s' ← if kind == ssh_msg_kexinit then add_ssh sliced payload s else ok s
    if is_hello payload then add_tls sliced payload t s' else ok s'

  -- What the joiner hands on, after its own new state is stored.
  unfoldable pub process_joined :
      SlicedPacket → TcpSlice → Tables → TcpReassembler × Option Bytes → Outcome (Unit {0}) Tables
  process_joined sliced t s (reassembler, none) = ok (record s { reassembler = reassembler })
  process_joined sliced t s (reassembler, some joined) =
      process_packet_helper sliced joined t (record s { reassembler = reassembler })

  -- The payload itself, and then what the flow's joiner hands on.
  unfoldable pub process_tcp :
      SlicedPacket → IpAddr → IpAddr → TcpSlice → Tables → Outcome (Unit {0}) Tables
  process_tcp sliced src_addr dst_addr t s =
      let key : TcpFlowKey = record {
        src = ip_text src_addr;
        dst = ip_text dst_addr;
        sport = t.source_port;
        dport = t.destination_port;
      } in
      elim (ltb (length t.payload) 6) [
        | true ↦ ok s
        | false ↦ do
          s1 ← process_packet_helper sliced t.payload t s
          process_joined sliced t s1 (push s1.reassembler key t.sequence_number t.payload)
      ]

  -- `none` is a packet that the slicer refuses.
  unfoldable pub process_packet : Option SlicedPacket → Tables → Outcome (Unit {0}) Tables
  process_packet none s = ok s
  process_packet (some sliced) s = elim sliced.net [
    | none ↦ ok s
    | some arp ↦ ok s
    | some (ip src_addr dst_addr) ↦ elim sliced.transport [
      | none ↦ ok s
      | some udp ↦ ok s
      | some (tcp t) ↦ process_tcp sliced src_addr dst_addr t s
    ]
  ]

  -- `while let Ok(packet) = cap.next_packet()`
  unfoldable pub process_packets : List (Option SlicedPacket) → Tables → Outcome (Unit {0}) Tables
  process_packets [] s = ok s
  process_packets (p ∷ ps) s = do s' ← process_packet p s; process_packets ps s'
