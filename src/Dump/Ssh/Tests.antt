-- ===== src/Dump/Ssh/Tests.antt =====
-- Runs of the SSH part of the analyser.
use pqcscan.Base.{
  ◌≡◌, ◌≢◌, refl, some, [], ◌∷◌, arith, Bytes, List, replicate, codes, ok, panic, equal,
}
use pqcscan.Base.Addr.{IpAddr, v4}
use pqcscan.Base.Dict.{bytes_eq, lookup}
use pqcscan.Base.Split.{join}
use pqcscan.Base.Utf8.{is_utf8}
use pqcscan.Wire.{kexinit_message, AreNames, IsListText}
use pqcscan.Dump.Packet.{TcpSlice}
use pqcscan.Dump.Ssh.Kexinit.{KexInit, parse_ssh_kexinit}
use pqcscan.Dump.Ssh.Kexinit.Total.{parse_ssh_kexinit-ne-panic}
use pqcscan.Dump.Ssh.Kexinit.RoundTrip.{parse-kexinit_message}
use pqcscan.Dump.Ssh.Sets.{list_sets}
use pqcscan.Dump.Ssh.Sessions.{
  FlowKey, flow_key_eq, SshSession, negotiate, default_session, record_kexinit,
}
use pqcscan.Dump.Ssh.Sessions.Negotiate.{IsChoice, negotiate-IsChoice}
use pqcscan.Dump.Ssh.Sessions.Invariant.{Extends, record_kexinit-Extends}

abbrev client : IpAddr
client = v4 10 0 0 1

abbrev server : IpAddr
server = v4 10 0 0 2

abbrev packet : TcpSlice
packet = record { source_port = 40000; destination_port = 22; sequence_number = 1; payload = [] }

abbrev offer : KexInit
offer = record { kex_algorithms = codes "a" ∷ codes "b" ∷ [] }

parse_ssh_kexinit-ne-panic_example : parse_ssh_kexinit (0 ∷ 0 ∷ 0 ∷ 1 ∷ 4 ∷ 20 ∷ []) ≢ panic
parse_ssh_kexinit-ne-panic_example = parse_ssh_kexinit-ne-panic (0 ∷ 0 ∷ 0 ∷ 1 ∷ 4 ∷ 20 ∷ [])

abbrev names : List Bytes
names = codes "a" ∷ codes "b" ∷ []

names-AreNames : AreNames names
unfolding is_utf8 join
names-AreNames = record {
  some_name = λ e. absurd (cc);
  no_commas = (((λ e. omega (arith, e)), tt), (((λ e. omega (arith, e)), tt), tt));
  text = record { fits = omega arith; utf8 = refl };
}

empty-IsListText : IsListText []
unfolding is_utf8
empty-IsListText = record { fits = omega arith; utf8 = refl }

parse-kexinit_message_example :
    parse_ssh_kexinit
      (0 ∷ 0 ∷ 0 ∷ 70 ∷ 4 ∷ kexinit_message (replicate 16 0) names (replicate 9 []) (replicate 5 0))
    ≡ ok (record { kex_algorithms = names })
parse-kexinit_message_example =
    parse-kexinit_message 0 0 0 70 4 (replicate 16 0) (replicate 5 0) names (replicate 9 []) refl
      names-AreNames refl
      (
        empty-IsListText,
        (
          empty-IsListText,
          (
            empty-IsListText,
            (
              empty-IsListText,
              (
                empty-IsListText,
                (empty-IsListText, (empty-IsListText, (empty-IsListText, (empty-IsListText, tt)))),
              ),
            ),
          ),
        ),
      )

negotiate-IsChoice_example : IsChoice names (codes "b" ∷ []) (negotiate names (codes "b" ∷ []))
negotiate-IsChoice_example = negotiate-IsChoice names (codes "b" ∷ [])

abbrev old_flow : FlowKey
old_flow = record { src = codes "10.0.0.1:40000"; dst = codes "10.0.0.2:22" }

record_kexinit-Extends_example :
    (s' : SshSession) × (lookup old_flow
        (record_kexinit list_sets client server packet offer
          ((old_flow, default_session) ∷ [])
          []).0
      ≡ some s')
    × Extends default_session s'
unfolding lookup equal
record_kexinit-Extends_example =
    record_kexinit-Extends list_sets client server packet offer ((old_flow, default_session) ∷ [])
      [] old_flow default_session refl
