-- ===== src/Scanner/Net.antt =====
-- `socket_create_and_connect` of pqcscan/src/utils.rs. The resolver and the sockets are parameters:
-- their answers are values of the types below, and each scan says what its streams are.
use pqcscan.Base.{
  ℕ, Bool, true, List, [], ◌∷◌, ◌++◌, Bytes, codes, Outcome, ok, err, panic, hang, ◌>>=◌,
  bind-ne-hang, ◌≡◌, refl, ◌≢◌, if◌then◌else◌, Bool-cases, inl, inr,
}
use pqcscan.Base.Decimal.{decimal}
use pqcscan.Scanner.Target.{Target}

-- `TcpSocket::connect` under the timeout
pub data Connect (Stream : Type 0) : Type 0 where
  connected : Stream → Connect Stream
  refused connect_timed_out : Connect Stream

module _ (SocketAddr : Type 0) where
  -- `lookup_host` under the timeout
  pub data Lookup : Type 0 where
    lookup_timed_out lookup_failed : Lookup
    resolved : List SocketAddr → Lookup

module _ (SocketAddr Stream : Type 0) where
  -- The answers in one attempt to connect; `opens` is false where the socket cannot be created.
  pub record Network : Type 0 where
    pub lookup_host : Bytes → Lookup SocketAddr
    pub opens : SocketAddr → Bool
    pub connect : SocketAddr → Connect Stream

  -- The name resolves, first to `addr`, and the connection to it is `stream`.
  pub record Connects (net : Network) (target : Target) (addr : SocketAddr) (stream : Stream)
      : Type 0 where
    pub others : List SocketAddr
    pub resolves :
        net.lookup_host (pqcscan.Scanner.Target.display target) ≡ resolved (addr ∷ others)
    pub opens : net.opens addr ≡ true
    pub connects : net.connect addr ≡ connected stream

-- "Could not resolve {}"
abbrev not_resolved : Target → Bytes
not_resolved target = codes "Could not resolve " ++ target.host

module _ (SocketAddr : Type 0) (display : SocketAddr → Bytes) (Stream : Type 0) where
  -- The first address that the name resolves to.
  unfoldable pub first_address : Target → Lookup SocketAddr → Outcome Bytes SocketAddr
  first_address target lookup_timed_out = err (not_resolved target)
  first_address target lookup_failed = err (not_resolved target)
  first_address target (resolved []) = err (not_resolved target)
  first_address target (resolved (addr ∷ _)) = ok addr

  unfoldable pub connection : SocketAddr → ℕ → Connect Stream → Outcome Bytes (SocketAddr × Stream)
  connection addr timeout (connected stream) = ok (addr, stream)
  connection addr timeout refused = err (codes "Could not connect to " ++ display addr)
  connection addr timeout connect_timed_out =
      err (
        codes "Timed out after " ++ (decimal timeout ++ (codes "s connecting to " ++ display addr)))

  -- The text of an address to look up, "{host}:{port}", is `Target`'s.
  unfoldable pub socket_create_and_connect :
      Network SocketAddr Stream → Target → ℕ → Outcome Bytes (SocketAddr × Stream)
  socket_create_and_connect net target timeout = do
    addr ← first_address target (net.lookup_host (pqcscan.Scanner.Target.display target))
    if net.opens addr then connection addr timeout (net.connect addr) else panic

  first_address-ne-hang :
      (target : Target) (found : Lookup SocketAddr) → first_address target found ≢ hang
  unfolding first_address
  first_address-ne-hang target lookup_timed_out = λ h. cc
  first_address-ne-hang target lookup_failed = λ h. cc
  first_address-ne-hang target (resolved []) = λ h. cc
  first_address-ne-hang target (resolved (addr ∷ _)) = λ h. cc

  connection-ne-hang :
      (addr : SocketAddr) (timeout : ℕ) (answer : Connect Stream)
      → connection addr timeout answer ≢ hang
  unfolding connection
  connection-ne-hang addr timeout (connected stream) = λ h. cc
  connection-ne-hang addr timeout refused = λ h. cc
  connection-ne-hang addr timeout connect_timed_out = λ h. cc

  pub socket_create_and_connect-ne-hang :
      (net : Network SocketAddr Stream) (target : Target) (timeout : ℕ)
      → socket_create_and_connect net target timeout ≢ hang
  unfolding socket_create_and_connect
  socket_create_and_connect-ne-hang net target timeout =
      bind-ne-hang (first_address target (net.lookup_host _)) _ (first_address-ne-hang target _)
        λ addr e. elim (Bool-cases (net.opens addr)) [
          | inl opens ↦ rw opens (connection-ne-hang addr timeout (net.connect addr))
          | inr closed ↦ rw closed (λ h. cc)
        ]

  pub socket_create_and_connect-Connects :
      (net : Network SocketAddr Stream) (target : Target) (addr : SocketAddr) (stream : Stream)
      (timeout : ℕ)
      → Connects SocketAddr Stream net target addr stream
      → socket_create_and_connect net target timeout ≡ ok (addr, stream)
  unfolding socket_create_and_connect first_address connection
  socket_create_and_connect-Connects net target addr stream timeout c =
      rw (c.resolves, c.opens, c.connects) refl
