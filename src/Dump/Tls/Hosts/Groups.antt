-- ===== src/Dump/Tls/Hosts/Groups.antt =====
-- The groups of the recorded sessions against the groups of their servers.
use pqcscan.Base.{
  ℕ, ◌≡◌, ◌≢◌, refl, true, Option, none, some, List, [], ◌∷◌, ◌++◌, Bytes, Bool-cases, inl, inr,
  ◌==◌, if◌then◌else◌, Outcome, ok, err, panic, hang, Holds, Holds-bind, index, index-Holds, arith,
  equal, equal_iff, equal_refl, ==_refl,
}
use pqcscan.Base.Addr.{ip_text}
use pqcscan.Base.Decimal.{decimal}
use pqcscan.Base.Dict.{
  bytes_eq, nat_eq, lookup, insert, contains, set_insert, contains-set_insert, lookup-insert,
}
use pqcscan.Dump.Packet.{NetSlice, ip, arp, TcpSlice, SlicedPacket}
use pqcscan.Dump.Tls.ClientHello.{CryptoConfig}
use pqcscan.Dump.Tls.ClientHello.Ends.{parse_ssl_v3_client_hello-ne-hang}
use pqcscan.Dump.Tls.ServerHello.{SessionConfig}
use pqcscan.Dump.Tls.ServerHello.Ends.{parse_server_hello_v3-ne-hang}
use pqcscan.Dump.Tls.Hosts.{
  TlsSessionKey, session_key_beq, session_key_beq_iff, session_key_eq, HostSets, TlsTables, set_of,
  add_value, add_values, host_key, session_key, on_client_hello, on_server_hello, logged, on_hello,
  process_ssl_hello,
}

-- The server's text in the maps.
abbrev pub server_text : TlsSessionKey → Bytes
server_text key = ip_text key.dst_ip ++ (b':' ∷ decimal key.dst_port)

abbrev pub IsIn : ℕ → Bytes → HostSets → Type 0
IsIn g host table = contains (set_of host table) g ≡ true

-- Each session's group is among the groups of the session's server.
abbrev pub GroupsAreKnown : TlsTables → Type 0
GroupsAreKnown s =
    (key : TlsSessionKey) (g : ℕ)
    → lookup key s.tls_sessions ≡ some g
    → IsIn g (server_text key) s.keyshare_groups

set_of-insert :
    (key host : Bytes) (v : List ℕ) (table : HostSets)
    → set_of host (insert key v table) ≡ (if equal key host then v else set_of host table)
unfolding set_of
set_of-insert key host v table = elim (Bool-cases (equal key host)) [
  | inl same ↦ rw (lookup-insert key host v table, set_of, same) refl
  | inr apart ↦ rw (lookup-insert key host v table, set_of, apart) refl
]

add_value-set_of :
    (key host : Bytes) (val : ℕ) (table : HostSets)
    → set_of host (add_value key val table)
      ≡ (if equal key host then set_insert val (set_of key table) else set_of host table)
unfolding add_value
add_value-set_of key host val table =
    set_of-insert key host (set_insert val (set_of key table)) table

pub add_value-IsIn :
    (key : Bytes) (val : ℕ) (table : HostSets) → IsIn val key (add_value key val table)
add_value-IsIn key val table =
    rw
      (
        add_value-set_of key key val table,
        equal_refl key,
        contains-set_insert val val (set_of key table),
        ==_refl val,
      )
      refl

pub add_value-keeps :
    (key host : Bytes) (val g : ℕ) (table : HostSets)
    → IsIn g host table
    → IsIn g host (add_value key val table)
add_value-keeps key host val g table h = elim (Bool-cases (equal key host)) [
  | inl same ↦
      let e : key ≡ host = (equal_iff key host).0 same in
      rw (add_value-set_of key host val table, same, contains-set_insert val g (set_of key table))
        (ground (arith, rw (← e) at h))
  | inr apart ↦ rw (add_value-set_of key host val table, apart) h
]

pub add_values-keeps :
    (key host : Bytes) (vals : List ℕ) (g : ℕ) (table : HostSets)
    → IsIn g host table
    → IsIn g host (add_values key vals table)
unfolding add_values
add_values-keeps key host [] g table h = h
add_values-keeps key host (val ∷ vals) g table h =
    add_values-keeps key host vals g (add_value key val table)
      (add_value-keeps key host val g table h)

on_client_hello-Holds :
    (key : Bytes) (m : Outcome (Unit {0}) CryptoConfig) (s : TlsTables)
    → m ≢ hang
    → GroupsAreKnown s
    → Holds GroupsAreKnown (on_client_hello key m s)
unfolding on_client_hello
on_client_hello-Holds key (ok result) s fine known = λ session g e.
    add_values-keeps key (server_text session) result.keyshare_groups g s.keyshare_groups
      (known session g e)
on_client_hello-Holds key (err e) s fine known = known
on_client_hello-Holds key panic s fine known = tt
on_client_hello-Holds key hang s fine known = fine refl

on_server_hello-Holds :
    (session : TlsSessionKey) (m : Outcome (Unit {0}) SessionConfig) (s : TlsTables)
    → m ≢ hang
    → GroupsAreKnown s
    → Holds GroupsAreKnown (on_server_hello (server_text session) (some session) m s)
unfolding on_server_hello
on_server_hello-Holds session (ok result) s fine known = λ key g e.
    elim (Bool-cases (session_key_beq session key)) [
      | inl hit ↦
          let same = (session_key_beq_iff session key).0 hit in
          let group : g ≡ result.keyshare =
            ground (arith, lookup-insert session key result.keyshare s.tls_sessions) in
          rw (← same, group)
            (add_value-IsIn (server_text session) result.keyshare s.keyshare_groups)
      | inr miss ↦
          add_value-keeps (server_text session) (server_text key) result.keyshare g
            s.keyshare_groups
            (known key g (ground (arith, lookup-insert session key result.keyshare s.tls_sessions)))
    ]
on_server_hello-Holds session (err e) s fine known = known
on_server_hello-Holds session panic s fine known = tt
on_server_hello-Holds session hang s fine known = fine refl

logged-ne-hang : {E A : Type 0} (m : Outcome E A) → m ≢ hang → logged m ≢ hang
unfolding logged
logged-ne-hang (ok a) h = λ e. cc
logged-ne-hang (err e) h = λ e'. cc
logged-ne-hang panic h = λ e. cc
logged-ne-hang hang h = absurd (h refl)

-- A packet without addresses has no session to record.
unknown-Holds :
    (key : Bytes) (m : Outcome (Unit {0}) SessionConfig) (s : TlsTables)
    → m ≢ hang
    → GroupsAreKnown s
    → Holds GroupsAreKnown (on_server_hello key none m s)
unfolding on_server_hello
unknown-Holds key (ok result) s fine known = tt
unknown-Holds key (err e) s fine known = known
unknown-Holds key panic s fine known = tt
unknown-Holds key hang s fine known = fine refl

server_hello-Holds :
    (net : Option NetSlice) (t : TcpSlice) (m : Outcome (Unit {0}) SessionConfig) (s : TlsTables)
    → m ≢ hang
    → GroupsAreKnown s
    → Holds GroupsAreKnown (on_server_hello (host_key net t) (session_key net t) m s)
unfolding host_key session_key
server_hello-Holds (some (ip src_addr dst_addr)) t m s fine known =
    on_server_hello-Holds _ m s fine known
server_hello-Holds (some arp) t m s fine known = unknown-Holds _ m s fine known
server_hello-Holds none t m s fine known = unknown-Holds _ m s fine known

on_hello-Holds :
    (handshake_type : ℕ) (net : Option NetSlice) (payload : Bytes) (t : TcpSlice) (s : TlsTables)
    → GroupsAreKnown s
    → Holds GroupsAreKnown (on_hello handshake_type net payload t s)
unfolding on_hello
on_hello-Holds handshake_type net payload t s known = elim (Bool-cases (handshake_type == 1)) [
  | inl client ↦ rw client (
      on_client_hello-Holds (host_key net t) _ s
        (logged-ne-hang _ (parse_ssl_v3_client_hello-ne-hang payload)) known)
  | inr other ↦ rw other (elim (Bool-cases (handshake_type == 2)) [
    | inl server ↦ rw server (
        server_hello-Holds net t _ s (logged-ne-hang _ (parse_server_hello_v3-ne-hang payload))
          known)
    | inr neither ↦ rw neither known
  ])
]

-- A hello message leaves every session's group among the groups of its server, or panics.
pub process_ssl_hello-GroupsAreKnown :
    (sliced : SlicedPacket) (payload : Bytes) (t : TcpSlice) (s : TlsTables)
    → GroupsAreKnown s
    → Holds GroupsAreKnown (process_ssl_hello sliced payload t s)
unfolding process_ssl_hello
process_ssl_hello-GroupsAreKnown sliced payload t s known =
    Holds-bind (λ b. Unit {0}) GroupsAreKnown (index payload 5) _ (index-Holds payload 5)
      λ b u. on_hello-Holds b sliced.net payload t s known
