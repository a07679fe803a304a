-- ===== src/Scanner/Ssh/Scan/Classified.antt =====
-- How a scan sorts the algorithms that a server offers.
use pqcscan.Base.{
  ℕ, zero, suc, ◌≡◌, refl, ◌∙◌, Bool, true, false, not, ◌||◌, none, some, List, [], ◌∷◌, ◌++◌,
  append-nil, append_assoc, Bytes, if◌then◌else◌, Option-cases, Bool-cases, inl, inr, ok, arith,
  replicate,
}
use pqcscan.Base.Dict.{bytes_eq, lookup}
use pqcscan.Scanner.Target.{Target}
use pqcscan.Scanner.Ssh.Kexinit.{KexInitMsg, parse_ssh_msg_kexinit}
use pqcscan.Scanner.Net.{Network, Connects, socket_create_and_connect-Connects}
use pqcscan.Scanner.Ssh.Scan.{
  Event, would_block, received, Written, written, KexAlgo, Algos, no_algos, add_algo, add_algos,
  classify, ssh_recv_kexinit, as_received, not_ssh, echo_back, ssh_echoback_idstring,
  ssh_scan_stream, ssh_scan_target, finished, Stream,
}

abbrev pub select : (Bytes → Bool) → List Bytes → List Bytes
select test [] = []
select test (k ∷ ks) = if test k then k ∷ select test ks else select test ks

abbrev pub is_empty : List Bytes → Bool
is_empty [] = true
is_empty (k ∷ ks) = false

-- Is the algorithm in the table, with this value of `pqc`?
abbrev pub is_listed : List (Bytes × KexAlgo) → Bool → Bytes → Bool
is_listed kex_algos pqc k = elim (lookup k kex_algos) [
  | none ↦ false
  | some a ↦ if pqc then a.pqc else not a.pqc
]

-- The algorithms sorted by the table.
abbrev pub sorted : List (Bytes × KexAlgo) → List Bytes → Algos
sorted kex_algos ks = record {
  pqc_supported = not (is_empty (select (is_listed kex_algos true) ks));
  pqc_algos = select (is_listed kex_algos true) ks;
  nonpqc_algos = select (is_listed kex_algos false) ks;
}

abbrev joined : Algos → Algos → Algos
joined s t = record {
  pqc_supported = s.pqc_supported || t.pqc_supported;
  pqc_algos = s.pqc_algos ++ t.pqc_algos;
  nonpqc_algos = s.nonpqc_algos ++ t.nonpqc_algos;
}

pub add_algos-sorted :
    (kex_algos : List (Bytes × KexAlgo)) (ks : List Bytes) (s : Algos)
    → add_algos kex_algos ks s ≡ joined s (sorted kex_algos ks)
unfolding add_algos add_algo
add_algos-sorted kex_algos [] s =
    rw (append-nil s.pqc_algos, append-nil s.nonpqc_algos) (ground arith)
add_algos-sorted kex_algos (k ∷ ks) s = elim (Option-cases (lookup k kex_algos)) [
  | inl unknown ↦ rw (unknown, add_algo, is_listed) (add_algos-sorted kex_algos ks s)
  | inr (a, known) ↦ elim (Bool-cases a.pqc) [
    | inl pqc ↦
        rw
          (
            known,
            add_algo,
            is_listed,
            pqc,
            add_algos-sorted kex_algos ks _,
            append_assoc s.pqc_algos (k ∷ []) (select (is_listed kex_algos true) ks),
          )
          (ground arith)
    | inr not_pqc ↦
        rw
          (
            known,
            add_algo,
            is_listed,
            not_pqc,
            add_algos-sorted kex_algos ks _,
            append_assoc s.nonpqc_algos (k ∷ []) (select (is_listed kex_algos false) ks),
          )
          refl
  ]
]

-- A stream that blocks some times before it gives its next event.
abbrev pub after_blocks : ℕ → List Event → List Event
after_blocks n events = replicate n would_block ++ events

ssh_echoback_idstring-after_blocks :
    (n : ℕ) (events : List Event) (write : Written)
    → ssh_echoback_idstring (after_blocks n events) write ≡ ssh_echoback_idstring events write
unfolding ssh_echoback_idstring
ssh_echoback_idstring-after_blocks zero events write = refl
ssh_echoback_idstring-after_blocks (suc n) events write =
    ssh_echoback_idstring-after_blocks n events write

ssh_recv_kexinit-after_blocks :
    (n : ℕ) (events : List Event)
    → ssh_recv_kexinit (after_blocks n events) ≡ ssh_recv_kexinit events
unfolding ssh_recv_kexinit
ssh_recv_kexinit-after_blocks zero events = refl
ssh_recv_kexinit-after_blocks (suc n) events = ssh_recv_kexinit-after_blocks n events

ssh_echoback_idstring-received :
    (id : Bytes) (events : List Event) (n : ℕ)
    → not_ssh id ≡ false
    → ssh_echoback_idstring (received id ∷ events) (written n) ≡ ok events
unfolding ssh_echoback_idstring echo_back
ssh_echoback_idstring-received [] events n h = unfold not_ssh in cc
ssh_echoback_idstring-received (b ∷ id) events n h = rw h refl

ssh_recv_kexinit-received :
    (buf : Bytes) (events : List Event) (msg : KexInitMsg)
    → parse_ssh_msg_kexinit buf ≡ ok msg
    → ssh_recv_kexinit (received buf ∷ events) ≡ ok msg
unfolding ssh_recv_kexinit as_received
ssh_recv_kexinit-received [] events msg h = unfold parse_ssh_msg_kexinit in cc
ssh_recv_kexinit-received (b ∷ buf) events msg h = rw h refl

module _ (SocketAddr : Type 0) (display : SocketAddr → Bytes) where
  -- A scan that connects, reads an identification string that begins with "SSH-", writes it back
  -- and then reads a packet that the parser accepts has a result without an error. However often
  -- the stream blocks in between, the result sorts the packet's key exchange algorithms by the
  -- table, keeps their order and leaves out those that the table does not have; `pqc_supported`
  -- says whether there is a post-quantum one among them.
  pub ssh_scan_target-sorted :
      (kex_algos : List (Bytes × KexAlgo)) (timeout : ℕ) (net : Network SocketAddr Stream)
      (target : Target) (addr : SocketAddr) (stream : Stream) (m n w : ℕ) (id buf : Bytes)
      (later : List Event) (msg : KexInitMsg)
      → Connects SocketAddr Stream net target addr stream
      → stream.events ≡ after_blocks m (received id ∷ after_blocks n (received buf ∷ later))
      → stream.write ≡ written w
      → not_ssh id ≡ false
      → parse_ssh_msg_kexinit buf ≡ ok msg
      → ssh_scan_target SocketAddr display kex_algos timeout net target
        ≡ ok (finished target (display addr) (sorted kex_algos msg.kex_algos))
  unfolding ssh_scan_target
  ssh_scan_target-sorted kex_algos timeout net target addr stream m n w id buf later msg c events
        write is_ssh parses =
      let rest = after_blocks n (received buf ∷ later) in
      let echoed : ssh_echoback_idstring stream.events stream.write ≡ ok rest =
        rw (events, write)
          (ssh_echoback_idstring-after_blocks m (received id ∷ rest) (written w)
            ∙ ssh_echoback_idstring-received id rest w is_ssh) in
      let received_ : ssh_recv_kexinit rest ≡ ok msg =
        ssh_recv_kexinit-after_blocks n (received buf ∷ later)
        ∙ ssh_recv_kexinit-received buf later msg parses in
      rw
        (
          socket_create_and_connect-Connects SocketAddr display Stream net target addr stream
              timeout c,
          ssh_scan_target,
          echoed,
          ssh_scan_stream,
          received_,
        )
        (unfold classify in rw (add_algos-sorted kex_algos msg.kex_algos no_algos) refl)
