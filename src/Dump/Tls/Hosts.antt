-- ===== src/Dump/Tls/Hosts.antt =====
-- `process_ssl_hello` and `TlsSessionKey` of pqcdump/src/tls.rs: what the hello messages add to the
-- tables of hosts and sessions.
pub mod Again
pub mod Groups
use pqcscan.Base.{
  ℕ, ◌+◌, ◌≡◌, ◌↔◌, refl, Bool, true, false, ◌&&◌, Option, none, some, List, [], ◌∷◌, ◌++◌, Bytes,
  codes, equal, equal_iff, ◌==◌, ==_iff, if◌then◌else◌, Outcome, ok, err, panic, hang, ◌>>=◌, index,
  arith,
}
use pqcscan.Base.Addr.{IpAddr, v4, v6, ip_text}
use pqcscan.Base.Decimal.{decimal}
use pqcscan.Base.Dict.{Eq, bytes_eq, nat_eq, lookup, insert, set_insert}
use pqcscan.Dump.Packet.{NetSlice, ip, arp, TcpSlice, SlicedPacket}
use pqcscan.Dump.Tls.ClientHello.{CryptoConfig, parse_ssl_v3_client_hello}
use pqcscan.Dump.Tls.ServerHello.{SessionConfig, parse_server_hello_v3}

pub record TlsSessionKey : Type 0 where
  pub src_ip : IpAddr
  pub src_port : ℕ
  pub dst_ip : IpAddr
  pub dst_port : ℕ

abbrev pub ip_beq : IpAddr → IpAddr → Bool
ip_beq (v4 a b c d) (v4 a' b' c' d') = a == a' && b == b' && c == c' && d == d'
ip_beq (v6 ss) (v6 ss') = equal ss ss'
ip_beq (v4 _ _ _ _) (v6 _) = false
ip_beq (v6 _) (v4 _ _ _ _) = false

pub ip_beq_iff : (a b : IpAddr) → (ip_beq a b ≡ true) ↔ (a ≡ b)
ip_beq_iff (v4 a b c d) (v4 a' b' c' d') = ground arith
ip_beq_iff (v6 ss) (v6 ss') = ground (arith, equal_iff ss ss')
ip_beq_iff (v4 _ _ _ _) (v6 _) = ground arith
ip_beq_iff (v6 _) (v4 _ _ _ _) = ground arith

abbrev pub session_key_beq : TlsSessionKey → TlsSessionKey → Bool
session_key_beq a b =
    ip_beq a.src_ip b.src_ip
    && a.src_port == b.src_port
    && ip_beq a.dst_ip b.dst_ip
    && a.dst_port == b.dst_port

pub session_key_beq_iff : (a b : TlsSessionKey) → (session_key_beq a b ≡ true) ↔ (a ≡ b)
session_key_beq_iff a b = ground (arith, ip_beq_iff a.src_ip b.src_ip, ip_beq_iff a.dst_ip b.dst_ip)

instance abbrev pub session_key_eq : Eq TlsSessionKey
session_key_eq = record { beq = session_key_beq; beq_iff = session_key_beq_iff }

-- A map from a host to a set of numbers.
abbrev pub HostSets : Type 0
HostSets = List (Bytes × List ℕ)

-- The three tables that `process_ssl_hello` adds to.
pub record TlsTables : Type 0 where
  pub tls_ciphers : HostSets
  pub keyshare_groups : HostSets
  pub tls_sessions : List (TlsSessionKey × ℕ)

unfoldable pub set_of : Bytes → HostSets → List ℕ
set_of key table = elim (lookup key table) [ none ↦ [] | some s ↦ s ]

-- `table.entry(key).or_default().insert(val)`
unfoldable pub add_value : Bytes → ℕ → HostSets → HostSets
unfolding set_of
add_value key val table = insert key (set_insert val (set_of key table)) table

-- `for val in vals.iter()`
unfoldable pub add_values : Bytes → List ℕ → HostSets → HostSets
add_values key [] table = table
add_values key (val ∷ vals) table = add_values key vals (add_value key val table)

-- `format!("{}:{}", source_addr, source_port)`: an IPv6 address stands without brackets
unfoldable pub host_key : Option NetSlice → TcpSlice → Bytes
host_key (some (ip src_addr dst_addr)) t = ip_text src_addr ++ (b':' ∷ decimal t.source_port)
host_key (some arp) t = codes "unknown:0"
host_key none t = codes "unknown:0"

-- The session of a ServerHello: its receiver is the source.
unfoldable pub session_key : Option NetSlice → TcpSlice → Option TlsSessionKey
session_key (some (ip src_addr dst_addr)) t = some (record {
  src_ip = dst_addr;
  src_port = t.destination_port;
  dst_ip = src_addr;
  dst_port = t.source_port;
})
session_key (some arp) t = none
session_key none t = none

unfoldable pub on_client_hello :
    Bytes → Outcome (Unit {0}) CryptoConfig → TlsTables → Outcome (Unit {0}) TlsTables
on_client_hello key (ok result) s = ok (record s {
  tls_ciphers = add_values key result.ciphers s.tls_ciphers;
  keyshare_groups = add_values key result.keyshare_groups s.keyshare_groups;
})
on_client_hello key (err e) s = ok s
on_client_hello key panic s = panic
on_client_hello key hang s = hang

-- `session_key.expect("Key parsing failed")` is evaluated for a parsed message only.
unfoldable pub on_server_hello :
    Bytes
    → Option TlsSessionKey
    → Outcome (Unit {0}) SessionConfig
    → TlsTables
    → Outcome (Unit {0}) TlsTables
on_server_hello key (some session) (ok result) s = ok (record {
  tls_ciphers = add_values key result.ciphers s.tls_ciphers;
  keyshare_groups = add_value key result.keyshare s.keyshare_groups;
  tls_sessions = insert session result.keyshare s.tls_sessions;
})
on_server_hello key none (ok result) s = panic
on_server_hello key session (err e) s = ok s
on_server_hello key session panic s = panic
on_server_hello key session hang s = hang

-- An outcome whose error is only logged.
unfoldable pub logged : {E A : Type 0} → Outcome E A → Outcome (Unit {0}) A
logged (ok a) = ok a
logged (err e) = err tt
logged panic = panic
logged hang = hang

-- The branches on the handshake's type.
unfoldable pub on_hello :
    ℕ → Option NetSlice → Bytes → TcpSlice → TlsTables → Outcome (Unit {0}) TlsTables
unfolding on_client_hello on_server_hello
on_hello handshake_type net payload t s =
    if handshake_type == 1
    then on_client_hello (host_key net t) (logged (parse_ssl_v3_client_hello payload)) s
    else if handshake_type == 2
    then on_server_hello (host_key net t) (session_key net t)
        (logged (parse_server_hello_v3 payload)) s
    else ok s

unfoldable pub process_ssl_hello :
    SlicedPacket → Bytes → TcpSlice → TlsTables → Outcome (Unit {0}) TlsTables
process_ssl_hello sliced payload t s = do
  handshake_type ← index payload 5
  on_hello handshake_type sliced.net payload t s
