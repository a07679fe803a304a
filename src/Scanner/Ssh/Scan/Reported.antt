-- ===== src/Scanner/Ssh/Scan/Reported.antt =====
-- The results that a scan can end with, whatever the network does.
use pqcscan.Base.{
  ℕ, refl, Option, some, none, List, [], ◌∷◌, Bytes, inl, inr, Bool-cases, Outcome, ok, err, panic,
  hang, ◌>>=◌, Returns, Returns-cases, Outcome-cases, is_ok, is_err, is_panic, is_hang, ◌≢◌,
}
use pqcscan.Scanner.Target.{Target}
use pqcscan.Scanner.Report.{ScanResult}
use pqcscan.Scanner.Net.{Network, socket_create_and_connect, socket_create_and_connect-ne-hang}
use pqcscan.Scanner.Ssh.Kexinit.{KexError, parse_ssh_msg_kexinit, KexInitMsg}
use pqcscan.Scanner.Ssh.Kexinit.Ends.{parse_ssh_msg_kexinit-ne-hang}
use pqcscan.Scanner.Ssh.Scan.{
  Written, not_writable, write_failed, written, Event, received, would_block, not_readable,
  read_failed, KexAlgo, RecvError, no_algos, classify, not_ssh, as_received, echo_back,
  ssh_recv_kexinit, ssh_echoback_idstring, ssh_scan_stream, ssh_scan_target, Stream, failed,
  finished,
}
use pqcscan.Scanner.Ssh.Scan.Classified.{sorted, add_algos-sorted}

-- Either an error stands alone, or there is none and the lists are those of the names `ks` sorted
-- by the table.
pub data Reported (kex_algos : List (Bytes × KexAlgo)) (target : Target) : ScanResult → Type 0 where
  with_error : (addr : Option Bytes) (e : Bytes) → Reported kex_algos target (failed target addr e)
  with_lists :
      (addr : Bytes) (ks : List Bytes)
      → Reported kex_algos target (finished target addr (sorted kex_algos ks))

abbrev pub Reports : List (Bytes × KexAlgo) → Target → Outcome (Unit {0}) ScanResult → Type 0
Reports kex_algos target (ok r) = Reported kex_algos target r
Reports kex_algos target (err _) = ⊥
Reports kex_algos target panic = Unit
Reports kex_algos target hang = ⊥

-- Neither the loops nor the parser runs for ever, and a stream is read without a panic.
echo_back-Returns :
    (buf : Bytes) (write : Written) (events : List Event) → Returns (echo_back buf write events)
unfolding echo_back
echo_back-Returns buf (not_writable e) events = elim (Bool-cases (not_ssh buf)) [
  | inl other ↦ rw other tt
  | inr is_ssh ↦ rw is_ssh tt
]
echo_back-Returns buf (write_failed e) events = elim (Bool-cases (not_ssh buf)) [
  | inl other ↦ rw other tt
  | inr is_ssh ↦ rw is_ssh tt
]
echo_back-Returns buf (written n) events = elim (Bool-cases (not_ssh buf)) [
  | inl other ↦ rw other tt
  | inr is_ssh ↦ rw is_ssh tt
]

ssh_echoback_idstring-Returns :
    (events : List Event) (write : Written) → Returns (ssh_echoback_idstring events write)
unfolding ssh_echoback_idstring
ssh_echoback_idstring-Returns [] write = tt
ssh_echoback_idstring-Returns (not_readable _ ∷ _) write = tt
ssh_echoback_idstring-Returns (read_failed e ∷ _) write = tt
ssh_echoback_idstring-Returns (would_block ∷ events) write =
    ssh_echoback_idstring-Returns events write
ssh_echoback_idstring-Returns (received [] ∷ _) write = tt
ssh_echoback_idstring-Returns (received (b ∷ buf) ∷ events) write =
    echo_back-Returns (b ∷ buf) write events

as_received-ne-hang : (m : Outcome KexError KexInitMsg) → m ≢ hang → as_received m ≢ hang
unfolding as_received
as_received-ne-hang (ok a) h = λ e. cc
as_received-ne-hang (err e) h = λ e. cc
as_received-ne-hang panic h = λ e. cc
as_received-ne-hang hang h = absurd (h refl)

ssh_recv_kexinit-ne-hang : (events : List Event) → ssh_recv_kexinit events ≢ hang
unfolding ssh_recv_kexinit
ssh_recv_kexinit-ne-hang [] = λ h. cc
ssh_recv_kexinit-ne-hang (not_readable _ ∷ _) = λ h. cc
ssh_recv_kexinit-ne-hang (read_failed e ∷ _) = λ h. cc
ssh_recv_kexinit-ne-hang (would_block ∷ events) = ssh_recv_kexinit-ne-hang events
ssh_recv_kexinit-ne-hang (received [] ∷ _) = λ h. cc
ssh_recv_kexinit-ne-hang (received (b ∷ buf) ∷ _) =
    as_received-ne-hang (parse_ssh_msg_kexinit (b ∷ buf)) (parse_ssh_msg_kexinit-ne-hang (b ∷ buf))

scan_received :
    (kex_algos : List (Bytes × KexAlgo)) (target : Target) (addr : Bytes)
    (m : Outcome RecvError KexInitMsg)
    → m ≢ hang
    → Reports kex_algos target (classify kex_algos m >>= λ s. ok (finished target addr s))
unfolding classify
scan_received kex_algos target addr (ok ki) h =
    rw (add_algos-sorted kex_algos ki.kex_algos no_algos) (with_lists addr ki.kex_algos)
scan_received kex_algos target addr (err e) h = with_lists addr []
scan_received kex_algos target addr panic h = tt
scan_received kex_algos target addr hang h = h refl

ssh_scan_stream-Reports :
    (kex_algos : List (Bytes × KexAlgo)) (target : Target) (addr : Bytes) (stream : Stream)
    → Reports kex_algos target (ssh_scan_stream kex_algos target addr stream)
unfolding ssh_scan_stream
ssh_scan_stream-Reports kex_algos target addr stream =
    elim (Returns-cases (ssh_echoback_idstring stream.events stream.write)
      (ssh_echoback_idstring-Returns stream.events stream.write)) [
        | inl (events, e) ↦
            rw (e, ssh_scan_stream)
              (scan_received kex_algos target addr (ssh_recv_kexinit events)
                (ssh_recv_kexinit-ne-hang events))
        | inr (text, e) ↦ rw (e, ssh_scan_stream) (with_error (some addr) _)
      ]

module _ (SocketAddr : Type 0) (display : SocketAddr → Bytes) where
  -- On every target and every network, a scan ends with a result or with a panic. A result either
  -- has an error, no lists and `pqc_supported` false, or has no error, the address, and the lists
  -- that sorting some names by the table gives, where `pqc_supported` is true when the post-quantum
  -- list is not empty and false otherwise.
  pub ssh_scan_target-Reports :
      (kex_algos : List (Bytes × KexAlgo)) (timeout : ℕ) (net : Network SocketAddr Stream)
      (target : Target)
      → Reports kex_algos target (ssh_scan_target SocketAddr display kex_algos timeout net target)
  unfolding ssh_scan_target
  ssh_scan_target-Reports kex_algos timeout net target =
      elim (Outcome-cases
        (socket_create_and_connect SocketAddr display Stream net target timeout)) [
          | is_ok r e ↦
              rw (e, ssh_scan_target) (ssh_scan_stream-Reports kex_algos target (display r.0) r.1)
          | is_err e e' ↦ rw (e', ssh_scan_target) (with_error none e)
          | is_panic e ↦ rw (e, ssh_scan_target) tt
          | is_hang e ↦
              absurd
                (socket_create_and_connect-ne-hang SocketAddr display Stream net target timeout e)
        ]
