-- ===== src/Dump/Tls/Hosts/Again.antt =====
-- A hello message that is processed a second time.
use pqcscan.Base.{
  ℕ, ◌≡◌, refl, Option, none, some, List, [], ◌∷◌, Bytes, Bool-cases, Option-cases, inl, inr, ◌==◌,
  Outcome, ok, err, panic, hang, Ensures, Ensures-ok, bind-eq-ok, index, All,
}
use pqcscan.Base.Dict.{bytes_eq, nat_eq, lookup, contains, set_insert, insert-same, insert-again}
use pqcscan.Dump.Packet.{NetSlice, TcpSlice, SlicedPacket}
use pqcscan.Dump.Tls.ClientHello.{CryptoConfig}
use pqcscan.Dump.Tls.ServerHello.{SessionConfig}
use pqcscan.Dump.Tls.Hosts.{
  TlsSessionKey, session_key_eq, HostSets, TlsTables, set_of, add_value, add_values, host_key,
  session_key, on_client_hello, on_server_hello, on_hello, process_ssl_hello,
}
use pqcscan.Dump.Tls.Hosts.Groups.{IsIn, add_value-IsIn, add_values-keeps}

IsIn-lookup :
    (val : ℕ) (key : Bytes) (table : HostSets)
    → IsIn val key table
    → lookup key table ≡ some (set_of key table)
unfolding set_of
IsIn-lookup val key table h = elim (Option-cases (lookup key table)) [
  | inl missing ↦ let h' = rw (missing, set_of) at h in unfold contains in absurd (cc)
  | inr (s, found) ↦ rw (found, set_of) refl
]

add_value-same :
    (key : Bytes) (val : ℕ) (table : HostSets)
    → IsIn val key table
    → add_value key val table ≡ table
unfolding add_value set_insert
add_value-same key val table h =
    rw h (insert-same key (set_of key table) table (IsIn-lookup val key table h))

add_values-IsIn :
    (key : Bytes) (vals : List ℕ) (table : HostSets)
    → All (λ v. IsIn v key (add_values key vals table)) vals
unfolding add_values
add_values-IsIn key [] table = tt
add_values-IsIn key (val ∷ vals) table = (
  add_values-keeps key key vals val (add_value key val table) (add_value-IsIn key val table),
  add_values-IsIn key vals (add_value key val table),
)

add_values-same :
    (key : Bytes) (vals : List ℕ) (table : HostSets)
    → All (λ v. IsIn v key table) vals
    → add_values key vals table ≡ table
unfolding add_values
add_values-same key [] table h = refl
add_values-same key (val ∷ vals) table h =
    rw (add_value-same key val table h.0) (add_values-same key vals table h.1)

add_values-again :
    (key : Bytes) (vals : List ℕ) (table : HostSets)
    → add_values key vals (add_values key vals table) ≡ add_values key vals table
add_values-again key vals table =
    add_values-same key vals (add_values key vals table) (add_values-IsIn key vals table)

add_value-again :
    (key : Bytes) (val : ℕ) (table : HostSets)
    → add_value key val (add_value key val table) ≡ add_value key val table
add_value-again key val table =
    add_value-same key val (add_value key val table) (add_value-IsIn key val table)

-- The step gives its result again from its result.
abbrev Settles : (TlsTables → Outcome (Unit {0}) TlsTables) → TlsTables → Type 0
Settles step s = Ensures (λ s'. step s' ≡ ok s') (step s)

on_client_hello-Settles :
    (key : Bytes) (m : Outcome (Unit {0}) CryptoConfig) (s : TlsTables)
    → Settles (on_client_hello key m) s
unfolding on_client_hello
on_client_hello-Settles key (ok result) s =
    rw
      (
        add_values-again key result.ciphers s.tls_ciphers,
        add_values-again key result.keyshare_groups s.keyshare_groups,
      )
      refl
on_client_hello-Settles key (err e) s = refl
on_client_hello-Settles key panic s = tt
on_client_hello-Settles key hang s = tt

on_server_hello-Settles :
    (key : Bytes) (session : Option TlsSessionKey) (m : Outcome (Unit {0}) SessionConfig)
    (s : TlsTables)
    → Settles (on_server_hello key session m) s
unfolding on_server_hello
on_server_hello-Settles key (some session) (ok result) s =
    rw
      (
        add_values-again key result.ciphers s.tls_ciphers,
        add_value-again key result.keyshare s.keyshare_groups,
        insert-again session result.keyshare s.tls_sessions,
      )
      refl
on_server_hello-Settles key none (ok result) s = tt
on_server_hello-Settles key none (err e) s = refl
on_server_hello-Settles key (some session) (err e) s = refl
on_server_hello-Settles key none panic s = tt
on_server_hello-Settles key (some session) panic s = tt
on_server_hello-Settles key none hang s = tt
on_server_hello-Settles key (some session) hang s = tt

on_hello-Settles :
    (handshake_type : ℕ) (net : Option NetSlice) (payload : Bytes) (t : TcpSlice) (s : TlsTables)
    → Settles (on_hello handshake_type net payload t) s
unfolding on_hello
on_hello-Settles handshake_type net payload t s = elim (Bool-cases (handshake_type == 1)) [
  | inl client ↦ rw client (on_client_hello-Settles (host_key net t) _ s)
  | inr other ↦ rw other (elim (Bool-cases (handshake_type == 2)) [
    | inl server ↦ rw server (on_server_hello-Settles (host_key net t) (session_key net t) _ s)
    | inr neither ↦ rw neither refl
  ])
]

-- A hello message that is processed again changes nothing in the tables.
pub process_ssl_hello-again :
    (sliced : SlicedPacket) (payload : Bytes) (t : TcpSlice) (s s' : TlsTables)
    → process_ssl_hello sliced payload t s ≡ ok s'
    → process_ssl_hello sliced payload t s' ≡ ok s'
unfolding process_ssl_hello
process_ssl_hello-again sliced payload t s s' h =
    let (kind, e, h') = bind-eq-ok (index payload 5) _ h in
    rw e (
      Ensures-ok (λ u. on_hello kind sliced.net payload t u ≡ ok u) _
        (on_hello-Settles kind sliced.net payload t s) h')
