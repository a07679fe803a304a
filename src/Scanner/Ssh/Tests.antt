-- ===== src/Scanner/Ssh/Tests.antt =====
-- Runs of the scanner's SSH part.
use pqcscan.Base.{
  suc, some, ◌≡◌, refl, true, false, none, [], ◌∷◌, arith, Bytes, List, replicate, codes, ok, panic,
  equal,
}
use pqcscan.Base.Dict.{bytes_eq, lookup}
use pqcscan.Base.Split.{join}
use pqcscan.Base.Utf8.{is_utf8}
use pqcscan.Wire.{kexinit_message, packet, kexinit_tail, AreNames, IsListText}
use pqcscan.Scanner.Target.{Target}
use pqcscan.Scanner.Net.{Connects, Network, connected, resolved}
use pqcscan.Scanner.Ssh.Kexinit.{parse_ssh_msg_kexinit}
use pqcscan.Scanner.Ssh.Kexinit.RoundTrip.{parse-packet}
use pqcscan.Scanner.Ssh.Kexinit.Panics.{parse_ssh_msg_kexinit-short}
use pqcscan.Scanner.Ssh.Scan.{
  Stream, Event, received, would_block, written, KexAlgo, not_ssh, ssh_scan_target, finished,
}
use pqcscan.Scanner.Ssh.Scan.Classified.{ssh_scan_target-sorted}
use pqcscan.Scanner.Ssh.Scan.Reported.{Reports, ssh_scan_target-Reports}
use pqcscan.Scanner.Ssh.Scan.Lost.{ssh_scan_target-lost, greets, greets_later, closed, lost_later}
use pqcscan.Scanner.Report.{Finding, ssh_result, Tally, add_result}

abbrev names : List Bytes
names = codes "p" ∷ codes "q" ∷ codes "r" ∷ []

names-AreNames : AreNames names
unfolding is_utf8 join
names-AreNames = record {
  some_name = λ e. absurd (cc);
  no_commas = (
    ((λ e. omega (arith, e)), tt),
    (((λ e. omega (arith, e)), tt), (((λ e. omega (arith, e)), tt), tt)),
  );
  text = record { fits = omega arith; utf8 = refl };
}

empty-IsListText : IsListText []
unfolding is_utf8
empty-IsListText = record { fits = omega arith; utf8 = refl }

abbrev kexinit : Bytes
kexinit =
    packet
      (kexinit_message (replicate 16 0) names (join b',' names ∷ replicate 8 []) (kexinit_tail 0))
      (replicate 4 0)

parse-packet_example :
    parse_ssh_msg_kexinit kexinit ≡ ok (record { kex_algos = names; host_key_algos = names })
unfolding join
parse-packet_example =
    let e = empty-IsListText in
    parse-packet (replicate 16 0) (replicate 4 0) names names (replicate 8 []) 0 refl names-AreNames
      names-AreNames refl (e, (e, (e, (e, (e, (e, (e, (e, tt)))))))) (omega arith)

parse_ssh_msg_kexinit-short_example :
    parse_ssh_msg_kexinit (0 ∷ 0 ∷ 0 ∷ 3 ∷ 0 ∷ 20 ∷ replicate 16 9) ≡ panic
parse_ssh_msg_kexinit-short_example =
    parse_ssh_msg_kexinit-short 0 0 0 3 0 (replicate 16 9) (omega arith) (omega arith)

-- A table with one post-quantum algorithm and one other.
abbrev algo : KexAlgo
algo = record { pqc = true; broken = false; hybrid = none; desc = none; href = none }

abbrev table : List (Bytes × KexAlgo)
table = (codes "q", algo) ∷ (codes "r", record algo { pqc = false }) ∷ []

abbrev target : Target
target = record { host = codes "h"; port = 22 }

abbrev stream : Stream
stream = record {
  events = received (codes "SSH-2.0-x") ∷ would_block ∷ received kexinit ∷ [];
  write = written 9;
}

-- One address, with the bytes of its text.
abbrev display : Bytes → Bytes
display addr = addr

abbrev net : Stream → Network Bytes Stream
net s = record {
  lookup_host = λ text. resolved (codes "10.0.0.1:22" ∷ []);
  opens = λ addr. true;
  connect = λ addr. connected s;
}

net-Connects : (s : Stream) → Connects Bytes Stream (net s) target (codes "10.0.0.1:22") s
net-Connects s = record { others = []; resolves = refl; opens = refl; connects = refl }

ssh_scan_target-sorted_example :
    ssh_scan_target Bytes display table 10 (net stream) target
    ≡ ok (
        finished target (codes "10.0.0.1:22") (record {
          pqc_supported = true;
          pqc_algos = codes "q" ∷ [];
          nonpqc_algos = codes "r" ∷ [];
        }))
unfolding not_ssh lookup equal
ssh_scan_target-sorted_example =
    ssh_scan_target-sorted Bytes display table 10 (net stream) target (codes "10.0.0.1:22") stream 0
      1 9 (codes "SSH-2.0-x") kexinit [] (record { kex_algos = names; host_key_algos = names })
      (net-Connects stream) refl refl refl parse-packet_example

ssh_scan_target-Reports_example :
    Reports table target (ssh_scan_target Bytes display table 10 (net stream) target)
ssh_scan_target-Reports_example = ssh_scan_target-Reports Bytes display table 10 (net stream) target

-- The server waits, greets, waits again and closes the connection.
abbrev closing : List Event
closing = would_block ∷ received [] ∷ []

abbrev greeting : List Event
greeting = would_block ∷ received (codes "SSH-2.0-x") ∷ closing

abbrev leaving : Stream
leaving = record { events = greeting; write = written 9 }

ssh_scan_target-lost_example :
    (x : Finding) × (ssh_scan_target Bytes display table 10 (net leaving) target
      ≡ ok (ssh_result x))
    × (x.addr ≡ some (codes "10.0.0.1:22"))
    × (x.error ≡ none)
    × (x.pqc_algos ≡ some [])
    × (x.nonpqc_algos ≡ some [])
    × ((t : Tally)
        → ((add_result x t).success_count ≡ suc t.success_count)
          × ((add_result x t).pqc_supported_count ≡ t.pqc_supported_count))
ssh_scan_target-lost_example =
    ssh_scan_target-lost Bytes display table 10 9 (net leaving) target (codes "10.0.0.1:22") closing
      greeting (net-Connects leaving) (greets_later (greets (codes "2.0-x")))
      (lost_later (closed []))
