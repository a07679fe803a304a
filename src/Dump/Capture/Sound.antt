-- ===== src/Dump/Capture/Sound.antt =====
-- What the analyser's tables keep true over a whole capture.
use pqcscan.Base.{
  refl, Option, none, some, List, [], ◌∷◌, Bytes, length, ltb, ◌==◌, if◌then◌else◌, Bool-cases,
  Option-cases, inl, inr, ok, Holds, Holds-bind, index, index-Holds, Outcome-cases, is_ok, is_err,
  is_panic, is_hang,
}
use pqcscan.Base.Addr.{IpAddr}
use pqcscan.Base.Dict.{lookup}
use pqcscan.Dump.Packet.{ip, arp, TcpSlice, tcp, udp, SlicedPacket}
use pqcscan.Dump.Tcp.{TcpReassembler}
use pqcscan.Dump.Ssh.Kexinit.{parse_ssh_kexinit, ssh_msg_kexinit}
use pqcscan.Dump.Ssh.Kexinit.Total.{parse_ssh_kexinit-ne-hang}
use pqcscan.Dump.Ssh.Sessions.{LinkedHashSet, Sessions, HostCaps, process_ssh}
use pqcscan.Dump.Ssh.Sessions.Invariant.{
  TableIsSettled, IsOneWay, record_kexinit-IsSettled, record_kexinit-IsOneWay,
}
use pqcscan.Dump.Tls.Hosts.{process_ssl_hello}
use pqcscan.Dump.Tls.Hosts.Groups.{GroupsAreKnown, process_ssl_hello-GroupsAreKnown}
use pqcscan.Dump.Capture.{
  Tables, no_tables, is_hello, add_ssh, add_tls, process_packet_helper, process_joined, process_tcp,
  process_packet, process_packets,
}

-- The table of SSH sessions.
pub record IsTable (table : Sessions) : Type 0 where
  pub settled : TableIsSettled table
  pub one_way : IsOneWay table

module _ (sets : LinkedHashSet) where
  pub record IsSound (s : Tables sets) : Type 0 where
    pub table : IsTable s.sessions
    pub known : GroupsAreKnown s.tls

  process_ssh-IsTable :
      (sliced : SlicedPacket) (payload : Bytes) (sessions : Sessions) (caps : HostCaps sets)
      → IsTable sessions
      → Holds (λ r. IsTable r.0) (process_ssh sets sliced payload sessions caps)
  unfolding process_ssh
  process_ssh-IsTable sliced payload sessions caps h =
      elim (Outcome-cases (parse_ssh_kexinit payload)) [
        | is_ok kex e ↦
            rw (e, process_ssh)
              (elim (Option-cases sliced.transport) [
                | inl e1 ↦ rw (e1, process_ssh) h
                | inr (udp, e1) ↦ rw (e1, process_ssh) h
                | inr (tcp t, e1) ↦
                    rw (e1, process_ssh)
                      (elim (Option-cases sliced.net) [
                        | inl e2 ↦ rw (e2, process_ssh) h
                        | inr (arp, e2) ↦ rw (e2, process_ssh) h
                        | inr (ip src dst, e2) ↦
                            rw (e2, process_ssh)
                              (record {
                                settled =
                                    record_kexinit-IsSettled sets src dst t kex sessions caps
                                      h.settled;
                                one_way =
                                    record_kexinit-IsOneWay sets src dst t kex sessions caps
                                      h.one_way;
                              })
                      ])
              ])
        | is_err u e ↦ rw (e, process_ssh) h
        | is_panic e ↦ rw (e, process_ssh) tt
        | is_hang e ↦ absurd (parse_ssh_kexinit-ne-hang payload e)
      ]

  add_ssh-IsSound :
      (sliced : SlicedPacket) (payload : Bytes) (s : Tables sets)
      → IsSound s
      → Holds IsSound (add_ssh sets sliced payload s)
  unfolding add_ssh
  add_ssh-IsSound sliced payload s h =
      Holds-bind (λ r. IsTable r.0) IsSound (process_ssh sets sliced payload s.sessions s.host_caps)
        _ (process_ssh-IsTable sliced payload s.sessions s.host_caps h.table)
        λ r fine. record { table = fine; known = h.known }

  add_tls-IsSound :
      (sliced : SlicedPacket) (payload : Bytes) (t : TcpSlice) (s : Tables sets)
      → IsSound s
      → Holds IsSound (add_tls sets sliced payload t s)
  unfolding add_tls
  add_tls-IsSound sliced payload t s h =
      Holds-bind GroupsAreKnown IsSound (process_ssl_hello sliced payload t s.tls) _
        (process_ssl_hello-GroupsAreKnown sliced payload t s.tls h.known)
        λ tls fine. record { table = h.table; known = fine }

  process_packet_helper-IsSound :
      (sliced : SlicedPacket) (payload : Bytes) (t : TcpSlice) (s : Tables sets)
      → IsSound s
      → Holds IsSound (process_packet_helper sets sliced payload t s)
  unfolding process_packet_helper
  process_packet_helper-IsSound sliced payload t s h =
      Holds-bind (λ b. Unit {0}) IsSound (index payload 5) _ (index-Holds payload 5)
        λ kind u.
          Holds-bind IsSound IsSound
            (if kind == ssh_msg_kexinit then add_ssh sets sliced payload s else ok s) _
            (elim (Bool-cases (kind == ssh_msg_kexinit)) [
              | inl ssh ↦ rw ssh (add_ssh-IsSound sliced payload s h)
              | inr other ↦ rw other h
            ])
            λ s' h'. elim (Bool-cases (is_hello payload)) [
              | inl hello ↦ rw hello (add_tls-IsSound sliced payload t s' h')
              | inr other ↦ rw other h'
            ]

  process_joined-IsSound :
      (sliced : SlicedPacket) (t : TcpSlice) (s : Tables sets) (r : TcpReassembler × Option Bytes)
      → IsSound s
      → Holds IsSound (process_joined sets sliced t s r)
  unfolding process_joined
  process_joined-IsSound sliced t s (reassembler, none) h = record {
    table = h.table;
    known = h.known;
  }
  process_joined-IsSound sliced t s (reassembler, some joined) h =
      process_packet_helper-IsSound sliced joined t (record s { reassembler = reassembler })
        (record { table = h.table; known = h.known })

  process_tcp-IsSound :
      (sliced : SlicedPacket) (src dst : IpAddr) (t : TcpSlice) (s : Tables sets)
      → IsSound s
      → Holds IsSound (process_tcp sets sliced src dst t s)
  unfolding process_tcp
  process_tcp-IsSound sliced src dst t s h = elim (Bool-cases (ltb (length t.payload) 6)) [
    | inl short ↦ rw (short, process_tcp) h
    | inr long ↦
        rw (long, process_tcp)
          (Holds-bind IsSound IsSound (process_packet_helper sets sliced t.payload t s) _
            (process_packet_helper-IsSound sliced t.payload t s h)
            λ s1 h1. process_joined-IsSound sliced t s1 _ h1)
  ]

  pub process_packet-IsSound :
      (p : Option SlicedPacket) (s : Tables sets)
      → IsSound s
      → Holds IsSound (process_packet sets p s)
  unfolding process_packet
  process_packet-IsSound none s h = h
  process_packet-IsSound (some sliced) s h = elim (Option-cases sliced.net) [
    | inl e ↦ rw (e, process_packet) h
    | inr (arp, e) ↦ rw (e, process_packet) h
    | inr (ip src dst, e) ↦
        rw (e, process_packet)
          (elim (Option-cases sliced.transport) [
            | inl e' ↦ rw (e', process_packet) h
            | inr (udp, e') ↦ rw (e', process_packet) h
            | inr (tcp t, e') ↦ rw (e', process_packet) (process_tcp-IsSound sliced src dst t s h)
          ])
  ]

  packets-IsSound :
      (ps : List (Option SlicedPacket)) (s : Tables sets)
      → IsSound s
      → Holds IsSound (process_packets sets ps s)
  unfolding process_packets
  packets-IsSound [] s h = h
  packets-IsSound (p ∷ ps) s h =
      Holds-bind IsSound IsSound (process_packet sets p s) _ (process_packet-IsSound p s h)
        λ s' h'. packets-IsSound ps s' h'

  -- The analyser's loop over a capture, from empty tables, ends with its tables or with a panic. In
  -- the tables every SSH session has negotiated what its two messages agree on, no SSH flow is
  -- there in both directions, and the group of every TLS session is among its server's groups.
  pub process_packets-IsSound :
      (ps : List (Option SlicedPacket)) → Holds IsSound (process_packets sets ps (no_tables sets))
  process_packets-IsSound ps = packets-IsSound ps (no_tables sets) (record {
    table = record {
      settled = λ flow s e. unfold lookup in cc;
      one_way = λ flow s two e. unfold lookup in refl;
    };
    known = λ key g e. unfold lookup in cc;
  })
