-- ===== src/Scanner/Ssh/Scan.antt =====
-- `ssh_recv_kexinit`, `ssh_echoback_idstring` and `ssh_scan_target` of pqcscan/src/ssh.rs. A wait
-- for a stream is a recursion on the stream's events; where they end, its timeout has run out.
pub mod Classified
pub mod Reported
pub mod Lost
use pqcscan.Base.{
  ℕ, Bool, true, false, not, ◌||◌, Option, none, some, List, [], ◌∷◌, ◌++◌, Bytes, codes, length,
  take, ltb, equal, if◌then◌else◌, Outcome, ok, err, panic, hang, ◌>>=◌,
}
use pqcscan.Base.Dict.{bytes_eq, lookup}
use pqcscan.Scanner.Target.{Target}
use pqcscan.Scanner.Report.{Finding, ScanResult, ssh_result}
use pqcscan.Scanner.Ssh.Kexinit.{KexError, KexInitMsg, parse_ssh_msg_kexinit}
use pqcscan.Scanner.Net.{Network, socket_create_and_connect}

-- One round of a loop that waits for the stream to become readable and tries to read: the bytes of
-- `received` are those of one `try_read`, none of them at the end of the stream.
pub data Event : Type 0 where
  not_readable read_failed : Bytes → Event
  would_block : Event
  received : Bytes → Event

-- `writable` and `try_write`
pub data Written : Type 0 where
  not_writable write_failed : Bytes → Written
  written : ℕ → Written

-- What happens on a stream. A wait behind the last event ends by its timeout.
pub record Stream : Type 0 where
  pub events : List Event
  pub write : Written

pub record KexAlgo : Type 0 where
  pub pqc : Bool
  pub broken : Bool
  pub hybrid : Option Bool
  pub desc : Option Bytes
  pub href : Option Bytes

pub data RecvError : Type 0 where
  recv_not_readable recv_read_failed : Bytes → RecvError
  recv_closed recv_timeout : RecvError
  recv_kexinit : KexError → RecvError

-- The parser's result, with its error as one of receiving.
unfoldable pub as_received : Outcome KexError KexInitMsg → Outcome RecvError KexInitMsg
as_received (ok msg) = ok msg
as_received (err e) = err (recv_kexinit e)
as_received panic = panic
as_received hang = hang

unfoldable pub ssh_recv_kexinit : List Event → Outcome RecvError KexInitMsg
ssh_recv_kexinit [] = err recv_timeout
ssh_recv_kexinit (not_readable e ∷ _) = err (recv_not_readable e)
ssh_recv_kexinit (read_failed e ∷ _) = err (recv_read_failed e)
ssh_recv_kexinit (would_block ∷ events) = ssh_recv_kexinit events
ssh_recv_kexinit (received [] ∷ _) = err recv_closed
ssh_recv_kexinit (received (b ∷ buf) ∷ _) = as_received (parse_ssh_msg_kexinit (b ∷ buf))

-- `n < 4 || !buf.starts_with(b"SSH-")`
unfoldable pub not_ssh : Bytes → Bool
not_ssh buf = ltb (length buf) 4 || not (equal (take 4 buf) (codes "SSH-"))

-- The answer to the identification string; `events` are those behind it.
unfoldable pub echo_back : Bytes → Written → List Event → Outcome Bytes (List Event)
echo_back buf write events =
    if not_ssh buf
    then err (codes "Not an SSH server - identification string does not start with 'SSH-'")
    else elim write [
      | not_writable e ↦ err (codes "Stream not writable: " ++ e)
      | write_failed e ↦ err (codes "Write failed: " ++ e)
      | written _ ↦ ok events
    ]

-- Returns the events that are left.
unfoldable pub ssh_echoback_idstring : List Event → Written → Outcome Bytes (List Event)
ssh_echoback_idstring [] write = err (codes "Timeout waiting for SSH identification string")
ssh_echoback_idstring (not_readable _ ∷ _) write = err (codes "Stream not readable")
ssh_echoback_idstring (read_failed e ∷ _) write = err (codes "Read error: " ++ e)
ssh_echoback_idstring (would_block ∷ events) write = ssh_echoback_idstring events write
ssh_echoback_idstring (received [] ∷ _) write = err (codes "Connection closed")
ssh_echoback_idstring (received (b ∷ buf) ∷ events) write = echo_back (b ∷ buf) write events

-- The variables of the loop over the server's algorithms.
pub record Algos : Type 0 where
  pub pqc_supported : Bool
  pub pqc_algos : List Bytes
  pub nonpqc_algos : List Bytes

abbrev pub no_algos : Algos
no_algos = record { pqc_supported = false; pqc_algos = []; nonpqc_algos = [] }

-- One algorithm of the server.
unfoldable pub add_algo : List (Bytes × KexAlgo) → Bytes → Algos → Algos
add_algo kex_algos k s = elim (lookup k kex_algos) [
  | none ↦ s
  | some a ↦
      if a.pqc
      then record s { pqc_supported = true; pqc_algos = s.pqc_algos ++ (k ∷ []) }
      else record s { nonpqc_algos = s.nonpqc_algos ++ (k ∷ []) }
]

-- `for k in ki.kex_algos`
unfoldable pub add_algos : List (Bytes × KexAlgo) → List Bytes → Algos → Algos
unfolding add_algo
add_algos kex_algos [] s = s
add_algos kex_algos (k ∷ ks) s = add_algos kex_algos ks (add_algo kex_algos k s)

-- The result with an error.
abbrev pub failed : Target → Option Bytes → Bytes → ScanResult
failed target addr e = ssh_result (record {
  targetspec = target;
  addr = addr;
  error = some e;
  pqc_supported = false;
  pqc_algos = none;
  hybrid_algos = none;
  nonpqc_algos = none;
})

abbrev pub finished : Target → Bytes → Algos → ScanResult
finished target addr s = ssh_result (record {
  targetspec = target;
  addr = some addr;
  error = none;
  pqc_supported = s.pqc_supported;
  pqc_algos = some s.pqc_algos;
  hybrid_algos = none;
  nonpqc_algos = some s.nonpqc_algos;
})

-- What the scan does with the message that it receives, or with the error in its place.
unfoldable pub classify :
    List (Bytes × KexAlgo) → Outcome RecvError KexInitMsg → Outcome (Unit {0}) Algos
unfolding add_algos
classify kex_algos (ok ki) = ok (add_algos kex_algos ki.kex_algos no_algos)
classify kex_algos (err e) = ok no_algos
classify kex_algos panic = panic
classify kex_algos hang = hang

-- The scan of a connected stream.
unfoldable pub ssh_scan_stream :
    List (Bytes × KexAlgo) → Target → Bytes → Stream → Outcome (Unit {0}) ScanResult
unfolding classify
ssh_scan_stream kex_algos target addr stream =
    elim (ssh_echoback_idstring stream.events stream.write) [
      | err e ↦ ok (failed target (some addr) (codes "Failed to exchange SSH ID string: " ++ e))
      | ok events ↦ do s ← classify kex_algos (ssh_recv_kexinit events); ok (finished target addr s)
      | panic ↦ panic
      | hang ↦ hang
    ]

module _ (SocketAddr : Type 0) (display : SocketAddr → Bytes) where
  unfoldable pub ssh_scan_target :
      List (Bytes × KexAlgo)
      → ℕ
      → Network SocketAddr Stream
      → Target
      → Outcome (Unit {0}) ScanResult
  unfolding ssh_scan_stream
  ssh_scan_target kex_algos timeout net target =
      elim (socket_create_and_connect SocketAddr display Stream net target timeout) [
        | err e ↦ ok (failed target none e)
        | ok (addr, stream) ↦ ssh_scan_stream kex_algos target (display addr) stream
        | panic ↦ panic
        | hang ↦ hang
      ]
