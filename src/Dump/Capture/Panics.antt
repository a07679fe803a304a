-- ===== src/Dump/Capture/Panics.antt =====
-- Where a panic of the capture's loop comes from.
use pqcscan.Base.{
  ℕ, ◌≤◌, ◌≡◌, ◌≢◌, refl, ap, sym, true, Option, none, some, [], ◌∷◌, ◌++◌, Bytes, length,
  length-append, ltb, ltb→le, ◌==◌, if◌then◌else◌, Bool-cases, Option-cases, inl, inr, ok, panic,
  bind-eq-panic, index, arith, Outcome-cases, is_ok, is_err, is_panic, is_hang,
}
use pqcscan.Base.Reading.{index-ne-panic}
use pqcscan.Base.Addr.{IpAddr, ip_text}
use pqcscan.Dump.Packet.{ip, arp, TcpSlice, tcp, udp, SlicedPacket}
use pqcscan.Dump.Tcp.{TcpFlowKey, TcpJoiner, TcpReassembler, joiner_push, push}
use pqcscan.Dump.Ssh.Kexinit.{ssh_msg_kexinit, parse_ssh_kexinit}
use pqcscan.Dump.Ssh.Kexinit.Total.{parse_ssh_kexinit-ne-panic}
use pqcscan.Dump.Ssh.Sessions.{LinkedHashSet, Sessions, HostCaps, process_ssh}
use pqcscan.Dump.Tls.Hosts.{TlsTables, process_ssl_hello}
use pqcscan.Dump.Capture.{
  Tables, is_hello, add_ssh, add_tls, process_packet_helper, process_joined, process_tcp,
  process_packet,
}

-- The flow of a segment.
abbrev pub flow_key : IpAddr → IpAddr → TcpSlice → TcpFlowKey
flow_key src dst t = record {
  src = ip_text src;
  dst = ip_text dst;
  sport = t.source_port;
  dport = t.destination_port;
}

-- What the joiner hands on is no shorter than the segment that it is given.
joiner_push-length :
    (j : TcpJoiner) (seq : ℕ) (payload : Bytes) {d : Bytes}
    → (joiner_push j seq payload).1 ≡ some d
    → length payload ≤ length d
unfolding joiner_push
joiner_push-length j seq [] h = absurd (cc)
joiner_push-length j seq (b ∷ payload) {d} h = elim (Bool-cases (seq == j.next_seq)) [
  | inl next ↦
      let h' = rw next at h in
      let e : j.buffer ++ (b ∷ payload) ≡ d = cc in
      omega (arith, ap length e, length-append j.buffer (b ∷ payload))
  | inr gap ↦ let h' = rw gap at h in absurd (cc)
]

module _ (sets : LinkedHashSet) where
  process_ssh-ne-panic :
      (sliced : SlicedPacket) (payload : Bytes) (sessions : Sessions) (caps : HostCaps sets)
      → process_ssh sets sliced payload sessions caps ≢ panic
  unfolding process_ssh
  process_ssh-ne-panic sliced payload sessions caps =
      elim (Outcome-cases (parse_ssh_kexinit payload)) [
        | is_ok kex e ↦
            rw (e, process_ssh)
              (elim (Option-cases sliced.transport) [
                | inl e1 ↦ rw (e1, process_ssh) (λ h. cc)
                | inr (udp, e1) ↦ rw (e1, process_ssh) (λ h. cc)
                | inr (tcp t, e1) ↦
                    rw (e1, process_ssh)
                      (elim (Option-cases sliced.net) [
                        | inl e2 ↦ rw (e2, process_ssh) (λ h. cc)
                        | inr (arp, e2) ↦ rw (e2, process_ssh) (λ h. cc)
                        | inr (ip src dst, e2) ↦ rw (e2, process_ssh) (λ h. cc)
                      ])
              ])
        | is_err u e ↦ rw (e, process_ssh) (λ h. cc)
        | is_panic e ↦ absurd (parse_ssh_kexinit-ne-panic payload e)
        | is_hang e ↦ rw (e, process_ssh) (λ h. cc)
      ]

  -- The step of a hello record panics only if the parsers of hello messages do.
  add_tls-panic :
      (sliced : SlicedPacket) (payload : Bytes) (t : TcpSlice) (s : Tables sets)
      → add_tls sets sliced payload t s ≡ panic
      → process_ssl_hello sliced payload t s.tls ≡ panic
  unfolding add_tls
  add_tls-panic sliced payload t s h =
      elim (bind-eq-panic (process_ssl_hello sliced payload t s.tls) _ h) [
        | inl e ↦ e
        | inr (tls, e, stop) ↦ absurd (cc)
      ]

  add_ssh-ne-panic :
      (sliced : SlicedPacket) (payload : Bytes) (s : Tables sets)
      → add_ssh sets sliced payload s ≢ panic
  unfolding add_ssh
  add_ssh-ne-panic sliced payload s h =
      elim (bind-eq-panic (process_ssh sets sliced payload s.sessions s.host_caps) _ h) [
        | inl e ↦ process_ssh-ne-panic sliced payload s.sessions s.host_caps e
        | inr (r, e, stop) ↦ absurd (cc)
      ]

  -- The SSH step leaves the tables of TLS alone.
  add_ssh-tls :
      (sliced : SlicedPacket) (payload : Bytes) (kind : ℕ) (s s' : Tables sets)
      → (if kind == ssh_msg_kexinit then add_ssh sets sliced payload s else ok s) ≡ ok s'
      → s'.tls ≡ s.tls
  unfolding add_ssh
  add_ssh-tls sliced payload kind s s' h = elim (Bool-cases (kind == ssh_msg_kexinit)) [
    | inr other ↦ let same = rw other at h in let e : s ≡ s' = cc in ap (λ x. x.tls) (sym e)
    | inl is_ssh ↦ elim (Outcome-cases (process_ssh sets sliced payload s.sessions s.host_caps)) [
      | is_ok r e ↦
          let same = rw (is_ssh, add_ssh, e) at h in
          let e' : record s { sessions = r.0; host_caps = r.1 } ≡ s' = cc in
          ap (λ x. x.tls) (sym e')
      | is_err u e ↦ let stop = rw (is_ssh, add_ssh, e) at h in absurd (cc)
      | is_panic e ↦ let stop = rw (is_ssh, add_ssh, e) at h in absurd (cc)
      | is_hang e ↦ let stop = rw (is_ssh, add_ssh, e) at h in absurd (cc)
    ]
  ]

  -- The data begin as a hello record does and panic the hello's step, with the tables `tls`.
  pub record PanicsOn (sliced : SlicedPacket) (t : TcpSlice) (bytes : Bytes) (tls : TlsTables)
      : Type 0 where
    pub hello : is_hello bytes ≡ true
    pub panics : process_ssl_hello sliced bytes t tls ≡ panic

  -- The payload panics the hello's step, with the tables before the packet; or the payload has been
  -- processed, the joiner of the packet's flow hands on some data, and these do, with the tables
  -- behind the payload.
  pub data PanicsOnHello (sliced : SlicedPacket) (src dst : IpAddr) (t : TcpSlice) (s : Tables sets)
      : Type 0 where
    on_payload : PanicsOn sliced t t.payload s.tls → PanicsOnHello sliced src dst t s
    on_joined :
        (s1 : Tables sets) (joined : Bytes)
        → process_packet_helper sets sliced t.payload t s ≡ ok s1
        → (push s1.reassembler (flow_key src dst t) t.sequence_number t.payload).1 ≡ some joined
        → PanicsOn sliced t joined s1.tls
        → PanicsOnHello sliced src dst t s

  process_packet_helper-panic :
      (sliced : SlicedPacket) (payload : Bytes) (t : TcpSlice) (s : Tables sets)
      → 6 ≤ length payload
      → process_packet_helper sets sliced payload t s ≡ panic
      → PanicsOn sliced t payload s.tls
  unfolding process_packet_helper
  process_packet_helper-panic sliced payload t s long h =
      elim (bind-eq-panic (index payload 5) _ h) [
        | inl e ↦ absurd (index-ne-panic payload 5 (omega (arith, long)) e)
        | inr (kind, e, h1) ↦
            elim (bind-eq-panic
              (if kind == ssh_msg_kexinit then add_ssh sets sliced payload s else ok s) _ h1) [
                | inl e1 ↦ elim (Bool-cases (kind == ssh_msg_kexinit)) [
                  | inl ssh ↦ absurd (add_ssh-ne-panic sliced payload s (rw ssh at e1))
                  | inr other ↦ let stop = rw other at e1 in absurd (cc)
                ]
                | inr (s1, e1, h2) ↦ elim (Bool-cases (is_hello payload)) [
                  | inl hello ↦
                      let stops = add_tls-panic sliced payload t s1 (rw hello at h2) in
                      record {
                        hello = hello;
                        panics = rw (add_ssh-tls sliced payload kind s s1 e1) at stops;
                      }
                  | inr other ↦ let stop = rw other at h2 in absurd (cc)
                ]
              ]
      ]

  process_joined-panic :
      (sliced : SlicedPacket) (t : TcpSlice) (s : Tables sets) (r : TcpReassembler × Option Bytes)
      → ((d : Bytes) → r.1 ≡ some d → 6 ≤ length d)
      → process_joined sets sliced t s r ≡ panic
      → (d : Bytes) × (r.1 ≡ some d) × PanicsOn sliced t d s.tls
  unfolding process_joined
  process_joined-panic sliced t s (reassembler, none) long h = absurd (cc)
  process_joined-panic sliced t s (reassembler, some joined) long h = (
    joined,
    refl,
    process_packet_helper-panic sliced joined t (record s { reassembler = reassembler })
        (long joined refl) h,
  )

  process_tcp-panic :
      (sliced : SlicedPacket) (src dst : IpAddr) (t : TcpSlice) (s : Tables sets)
      → process_tcp sets sliced src dst t s ≡ panic
      → PanicsOnHello sliced src dst t s
  unfolding process_tcp push
  process_tcp-panic sliced src dst t s h = elim (Bool-cases (ltb (length t.payload) 6)) [
    | inl short ↦ let stop = rw (short, process_tcp) at h in absurd (cc)
    | inr long ↦
        let fits = ltb→le (length t.payload) 6 long in
        elim (bind-eq-panic (process_packet_helper sets sliced t.payload t s) _
          (rw (long, process_tcp) at h)) [
            | inl e ↦ on_payload (process_packet_helper-panic sliced t.payload t s fits e)
            | inr (s1, e, h1) ↦
                let (joined, handed, panics) =
                  process_joined-panic sliced t s1 _
                    (λ d e1.
                      omega (arith, fits, joiner_push-length _ t.sequence_number t.payload e1))
                    h1 in
                on_joined s1 joined e handed panics
          ]
  ]

  -- If a packet makes the analyser panic, the packet is a TCP segment over IP, and either its payload
  -- begins as a TLS hello record does and panics the step of hello messages, with the tables as they
  -- were before the packet; or processing the payload has succeeded, and what the joiner of its flow
  -- then hands on does so, with the tables as the payload has left them. So indexing a payload at
  -- its sixth byte and the SSH step never panic.
  pub process_packet-panic :
      (p : Option SlicedPacket) (s : Tables sets)
      → process_packet sets p s ≡ panic
      → (sliced : SlicedPacket) × (src : IpAddr) × (dst : IpAddr) × (t : TcpSlice) × (p
          ≡ some sliced)
        × (sliced.net ≡ some (ip src dst))
        × (sliced.transport ≡ some (tcp t))
        × PanicsOnHello sliced src dst t s
  unfolding process_packet
  process_packet-panic none s h = absurd (cc)
  process_packet-panic (some sliced) s h = elim (Option-cases sliced.net) [
    | inl e ↦ let stop = rw (e, process_packet) at h in absurd (cc)
    | inr (arp, e) ↦ let stop = rw (e, process_packet) at h in absurd (cc)
    | inr (ip src dst, e) ↦
        let h1 = rw (e, process_packet) at h in
        elim (Option-cases sliced.transport) [
          | inl e' ↦ let stop = rw (e', process_packet) at h1 in absurd (cc)
          | inr (udp, e') ↦ let stop = rw (e', process_packet) at h1 in absurd (cc)
          | inr (tcp t, e') ↦ (
            sliced,
            src,
            dst,
            t,
            refl,
            e,
            e',
            process_tcp-panic sliced src dst t s (rw (e', process_packet) at h1),
          )
        ]
  ]
