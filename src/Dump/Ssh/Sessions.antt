-- ===== src/Dump/Ssh/Sessions.antt =====
-- `process_ssh` of pqcdump/src/ssh.rs: the table of SSH sessions and what each host supports.
pub mod Negotiate
pub mod Invariant
pub mod Hosts
pub mod Again
use pqcscan.Base.{
  ℕ, ◌≡◌, ◌↔◌, Bool, true, false, not, ◌&&◌, ◌||◌, Option, none, some, List, [], ◌∷◌, ◌++◌, Bytes,
  codes, equal, equal_iff, if◌then◌else◌, Outcome, ok, err, panic, hang, arith,
}
use pqcscan.Base.Addr.{IpAddr, ip_text}
use pqcscan.Base.Decimal.{decimal}
use pqcscan.Base.Dict.{Eq, bytes_eq, nat_eq, lookup, insert, contains}
use pqcscan.Dump.Packet.{NetSlice, ip, arp, TcpSlice, TransportSlice, tcp, udp, SlicedPacket}
use pqcscan.Dump.Ssh.Kexinit.{KexInit, parse_ssh_kexinit}

-- The set type of the crate linked_hash_set: inserting adds the element and keeps the others.
pub record LinkedHashSet : Type 1 where
  pub Set : Type 0
  pub empty : Set
  pub insert_into : Bytes → Set → Set
  pub elements : Set → List Bytes
  pub contains-empty : (b : Bytes) → contains (elements empty) b ≡ false
  pub contains-insert :
      (a b : Bytes) (s : Set)
      → contains (elements (insert_into a s)) b ≡ (equal a b || contains (elements s) b)

pub record FlowKey : Type 0 where
  pub src : Bytes
  pub dst : Bytes

abbrev pub flow_key_beq : FlowKey → FlowKey → Bool
flow_key_beq a b = equal a.src b.src && equal a.dst b.dst

pub flow_key_beq_iff : (a b : FlowKey) → (flow_key_beq a b ≡ true) ↔ (a ≡ b)
flow_key_beq_iff a b = ground (arith, equal_iff a.src b.src, equal_iff a.dst b.dst)

instance abbrev pub flow_key_eq : Eq FlowKey
flow_key_eq = record { beq = flow_key_beq; beq_iff = flow_key_beq_iff }

pub record NegotiatedAlgorithms : Type 0 where
  pub kex : Bytes

pub record SshSession : Type 0 where
  pub client_kexinit : Option KexInit
  pub server_kexinit : Option KexInit
  pub negotiated : Option NegotiatedAlgorithms

-- `SshSession::default()`
abbrev pub default_session : SshSession
default_session = record { client_kexinit = none; server_kexinit = none; negotiated = none }

unfoldable pub format_socket_addr : Bytes → ℕ → Bytes
format_socket_addr ip_ port =
    if contains ip_ b':'
    then b'[' ∷ (ip_ ++ (b']' ∷ b':' ∷ decimal port))
    else ip_ ++ (b':' ∷ decimal port)

-- The first of the client's algorithms that the server has too.
unfoldable pub negotiate : List Bytes → List Bytes → Option Bytes
negotiate [] server = none
negotiate (alg ∷ client) server = if contains server alg then some alg else negotiate client server

abbrev pub reversed : FlowKey → FlowKey
reversed flow = record { src = flow.dst; dst = flow.src }

abbrev pub Sessions : Type 0
Sessions = List (FlowKey × SshSession)

-- The flow's entry: its key, the session, and `is_forward`.
unfoldable pub find_session : FlowKey → Sessions → FlowKey × SshSession × Bool
find_session flow sessions = elim (lookup flow sessions) [
  | some s ↦ (flow, s, true)
  | none ↦ elim (lookup (reversed flow) sessions) [
    | some s ↦ (reversed flow, s, false)
    | none ↦ (flow, default_session, true)
  ]
]

-- Does the message fill a side of the session that is still empty?
unfoldable pub fills : Bool → SshSession → Bool
fills is_forward s = elim (if is_forward then s.client_kexinit else s.server_kexinit) [
  | none ↦ true
  | some _ ↦ false
]

unfoldable pub store_kexinit : Bool → SshSession → KexInit → SshSession
unfolding fills
store_kexinit is_forward s kex =
    if fills is_forward s
    then if is_forward
      then record s { client_kexinit = some kex }
      else record s { server_kexinit = some kex }
    else s

unfoldable pub agree : Option KexInit → Option KexInit → Option NegotiatedAlgorithms
agree (some client) (some server) = elim (negotiate client.kex_algorithms server.kex_algorithms) [
  | some neg ↦ some (record { kex = neg })
  | none ↦ none
]
agree _ _ = none

unfoldable pub update_negotiated : SshSession → SshSession
update_negotiated s = elim s.negotiated [
  | some _ ↦ s
  | none ↦ record s { negotiated = agree s.client_kexinit s.server_kexinit }
]

module _ (sets : LinkedHashSet) where
  abbrev pub HostCaps : Type 0
  HostCaps = List (Bytes × sets.Set)

  insert_all : List Bytes → sets.Set → sets.Set
  insert_all [] s = s
  insert_all (alg ∷ algs) s = insert_all algs (sets.insert_into alg s)

  -- `host_caps.entry(host).or_default()`
  pub capabilities : Bytes → HostCaps → sets.Set
  capabilities host caps = elim (lookup host caps) [ none ↦ sets.empty | some s ↦ s ]

  unfoldable pub update_host_caps : HostCaps → Bytes → KexInit → HostCaps
  unfolding insert_all capabilities
  update_host_caps caps host kex =
      insert host (insert_all kex.kex_algorithms (capabilities host caps)) caps

  -- What `process_ssh` does with a parsed message.
  unfoldable pub record_kexinit :
      IpAddr → IpAddr → TcpSlice → KexInit → Sessions → HostCaps → Sessions × HostCaps
  record_kexinit src_addr dst_addr t kex sessions caps =
      let src_ip = ip_text src_addr in
      let dst_ip = ip_text dst_addr in
      let flow : FlowKey = record {
        src = format_socket_addr src_ip t.source_port;
        dst = format_socket_addr dst_ip t.destination_port;
      } in
      let (key, session, is_forward) = find_session flow sessions in
      (
        insert key (update_negotiated (store_kexinit is_forward session kex)) sessions,
        if fills is_forward session then update_host_caps caps src_ip kex else caps,
      )

  -- The addresses of a TCP packet over IP; every other packet is passed over.
  unfoldable pub process_ssh :
      SlicedPacket → Bytes → Sessions → HostCaps → Outcome (Unit {0}) (Sessions × HostCaps)
  process_ssh sliced payload sessions caps = elim (parse_ssh_kexinit payload) [
    | panic ↦ panic
    | hang ↦ hang
    | err _ ↦ ok (sessions, caps)
    | ok kex ↦ elim sliced.transport [
      | some (tcp t) ↦ elim sliced.net [
        | some (ip src_addr dst_addr) ↦ ok (record_kexinit src_addr dst_addr t kex sessions caps)
        | some arp ↦ ok (sessions, caps)
        | none ↦ ok (sessions, caps)
      ]
      | some udp ↦ ok (sessions, caps)
      | none ↦ ok (sessions, caps)
    ]
  ]
