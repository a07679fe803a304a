-- ===== src/Scanner/Ssh/Scan/Lost.antt =====
-- A scan for SSH that receives no key exchange message, and what a report makes of its result.
use pqcscan.Base.{
  ℕ, suc, ap, false, ◌||◌, length, le→ltb, arith, ◌≡◌, refl, none, some, List, [], ◌∷◌, ◌++◌, Bytes,
  codes, ok, err, equal,
}
use pqcscan.Base.Dict.{bytes_eq}
use pqcscan.Scanner.Target.{Target}
use pqcscan.Scanner.Report.{Finding, ssh_result, Tally, add_result, is_none}
use pqcscan.Scanner.Net.{Network, Connects, socket_create_and_connect-Connects}
use pqcscan.Scanner.Ssh.Kexinit.{KexError, parse_ssh_msg_kexinit}
use pqcscan.Scanner.Ssh.Scan.{
  written, Event, received, would_block, not_readable, read_failed, KexAlgo, recv_kexinit,
  RecvError, classify, not_ssh, as_received, echo_back, ssh_recv_kexinit, ssh_echoback_idstring,
  ssh_scan_stream, ssh_scan_target, Stream,
}

-- After some waiting, the server sends a text that begins with "SSH-"; `rest` is what comes behind.
pub data Greets (rest : List Event) : List Event → Type 0 where
  greets : (id : Bytes) → Greets rest (received (codes "SSH-" ++ id) ∷ rest)
  greets_later : {events : List Event} → Greets rest events → Greets rest (would_block ∷ events)

-- After some waiting, no message comes: the timeout runs out, the stream breaks or is closed, or the
-- bytes of the read are no key exchange message.
pub data IsLost : List Event → Type 0 where
  timed_out : IsLost []
  unreadable : (e : Bytes) (events : List Event) → IsLost (not_readable e ∷ events)
  broken : (e : Bytes) (events : List Event) → IsLost (read_failed e ∷ events)
  closed : (events : List Event) → IsLost (received [] ∷ events)
  refused :
      (b : ℕ) (packet : Bytes) (e : KexError) (events : List Event)
      → parse_ssh_msg_kexinit (b ∷ packet) ≡ err e
      → IsLost (received (b ∷ packet) ∷ events)
  lost_later : {events : List Event} → IsLost events → IsLost (would_block ∷ events)

not_ssh-greeting : (id : Bytes) → not_ssh (codes "SSH-" ++ id) ≡ false
unfolding not_ssh equal
not_ssh-greeting id = ap (λ b. b || false) (le→ltb (length (codes "SSH-" ++ id)) 4 (omega arith))

echo-Greets :
    (n : ℕ) {rest events : List Event}
    → Greets rest events
    → ssh_echoback_idstring events (written n) ≡ ok rest
unfolding ssh_echoback_idstring echo_back
echo-Greets n (greets id) = rw (not_ssh-greeting id, echo_back) refl
echo-Greets n (greets_later g) = echo-Greets n g

recv-IsLost :
    {events : List Event} → IsLost events → (e : RecvError) × (ssh_recv_kexinit events ≡ err e)
unfolding ssh_recv_kexinit as_received
recv-IsLost timed_out = (_, refl)
recv-IsLost (unreadable e events) = (_, refl)
recv-IsLost (broken e events) = (_, refl)
recv-IsLost (closed events) = (_, refl)
recv-IsLost (refused b packet e events h) = (recv_kexinit e, rw (h, as_received) refl)
recv-IsLost (lost_later l) = recv-IsLost l

module _ (SocketAddr : Type 0) (display : SocketAddr → Bytes) where
  -- If a scan connects, the server sends an identification string, possibly after some waiting, which
  -- is written back, and then, possibly after some waiting again, the timeout runs out, the stream
  -- breaks or is closed, or a packet is read that the parser refuses, then the result has the
  -- address, no error and two empty lists, and a report counts it as a success and not as
  -- post-quantum support.
  pub ssh_scan_target-lost :
      (kex_algos : List (Bytes × KexAlgo)) (timeout n : ℕ) (net : Network SocketAddr Stream)
      (target : Target) (addr : SocketAddr) (rest events : List Event)
      → Connects SocketAddr Stream net target addr (record { events = events; write = written n })
      → Greets rest events
      → IsLost rest
      → (x : Finding) × (ssh_scan_target SocketAddr display kex_algos timeout net target
          ≡ ok (ssh_result x))
        × (x.addr ≡ some (display addr))
        × (x.error ≡ none)
        × (x.pqc_algos ≡ some [])
        × (x.nonpqc_algos ≡ some [])
        × ((t : Tally)
            → ((add_result x t).success_count ≡ suc t.success_count)
              × ((add_result x t).pqc_supported_count ≡ t.pqc_supported_count))
  unfolding ssh_scan_target ssh_scan_stream classify add_result is_none
  ssh_scan_target-lost kex_algos timeout n net target addr rest events c g l =
      let (e, lost) = recv-IsLost l in
      let stream : Stream = record { events = events; write = written n } in
      let x : Finding = record {
        targetspec = target;
        addr = some (display addr);
        error = none;
        pqc_supported = false;
        pqc_algos = some [];
        hybrid_algos = none;
        nonpqc_algos = some [];
      } in
      (
        x,
        rw
            (
              socket_create_and_connect-Connects SocketAddr display Stream net target addr stream
                  timeout c,
              ssh_scan_target,
              echo-Greets n g,
              ssh_scan_stream,
              lost,
            )
            refl,
        refl,
        refl,
        refl,
        refl,
        λ t. (refl, refl),
      )
