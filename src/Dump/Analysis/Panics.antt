-- ===== src/Dump/Analysis/Panics.antt =====
-- A host whose text is no socket address makes the whole analysis panic.
use pqcscan.Base.{
  ℕ, ◌≡◌, refl, Option, none, some, List, [], Bytes, length, ok, panic, Holds-panic, arith,
}
use pqcscan.Base.Dict.{bytes_eq, lookup}
use pqcscan.Dump.Packet.{SlicedPacket}
use pqcscan.Dump.Ssh.Sessions.{LinkedHashSet}
use pqcscan.Dump.Algorithms.{KexAlgo, TlsGroup}
use pqcscan.Dump.Capture.{no_tables}
use pqcscan.Dump.Report.Panics.{gather_hosts-panic}
use pqcscan.Dump.Report.Sessions.{SocketAddr, no_sessions, add_ssh_sessions}
use pqcscan.Dump.Report.Sessions.Counts.{Counts, add_ssh_sessions-Counts}
use pqcscan.Dump.Analysis.{
  Progress, read_capture, load_groups, load_cipher_suites, gather, analyse, no_hosts, ip_of,
}

module _ (Time : Type 0) (sets : LinkedHashSet) (parse : Bytes → Option SocketAddr)
    (kex_algos : List (Bytes × KexAlgo)) (groups_by_name : List (Bytes × TlsGroup))
    (suites_by_name : List (Bytes × ℕ)) where
  gather-panic :
      (name : Option Bytes) (now : Time) (s : Progress Time sets) (key : Bytes) (ids : List ℕ)
      → lookup key s.tables.tls.tls_ciphers ≡ some ids
      → parse key ≡ none
      → gather Time sets parse kex_algos groups_by_name suites_by_name name now s ≡ panic
  unfolding gather
  gather-panic name now s key ids h bad =
      Holds-panic (Counts (length s.tables.sessions))
        (add_ssh_sessions parse kex_algos s.tables.sessions no_sessions) _
        (add_ssh_sessions-Counts parse kex_algos s.tables.sessions no_sessions 0 _ (omega arith)
          (omega arith))
        λ ssh.
          rw
            (gather_hosts-panic sets (λ k. ip_of (parse k)) kex_algos
              (load_cipher_suites suites_by_name []) (load_groups groups_by_name [])
              s.tables.host_caps s.tables.tls.tls_ciphers s.tables.tls.keyshare_groups no_hosts key
              ids h (rw bad))
            refl

  -- If the packet loop leaves a host in the table of TLS ciphers whose text the parser of socket
  -- addresses refuses, then the analysis panics, whatever else was captured and whatever the embedded
  -- tables are, and there are no results.
  pub analyse-panic :
      (name : Option Bytes) (before behind : Time) (packets : List (Option SlicedPacket × Time))
      (s : Progress Time sets) (key : Bytes) (ids : List ℕ)
      → read_capture Time sets packets (record {
        tables = no_tables sets;
        packet_count = 0;
        start_time = none;
        end_time = before;
      })
        ≡ ok s
      → lookup key s.tables.tls.tls_ciphers ≡ some ids
      → parse key ≡ none
      → analyse Time sets parse kex_algos groups_by_name suites_by_name name before behind packets
        ≡ panic
  unfolding analyse
  analyse-panic name before behind packets s key ids e h bad =
      rw e (gather-panic name behind s key ids h bad)
