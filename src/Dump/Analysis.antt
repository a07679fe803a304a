-- ===== src/Dump/Analysis.antt =====
-- `main` of pqcdump/src/main.rs from the packet loop to the results that are handed to the report.
-- The capture is the list of its packets with their times; the embedded tables, the clock and the
-- parser of socket addresses are parameters.
pub mod HostSets
pub mod Counted
pub mod Panics
pub mod Tests
use pqcscan.Base.{
  ℕ, ◌+◌, Option, none, some, List, [], ◌∷◌, Bytes, length, Outcome, ok, err, panic, hang, ◌>>=◌,
}
use pqcscan.Base.Dict.{bytes_eq, nat_eq, insert}
use pqcscan.Dump.Packet.{SlicedPacket}
use pqcscan.Dump.Ssh.Sessions.{LinkedHashSet}
use pqcscan.Dump.Algorithms.{KexAlgo, TlsGroup, AlgorithmDetails}
use pqcscan.Dump.Capture.{Tables, no_tables, process_packet}
use pqcscan.Dump.Report.{HostTables, Capabilities, gather_hosts}
use pqcscan.Dump.Report.Sessions.{
  SocketAddr, SessionResult, SessionTables, no_sessions, add_ssh_sessions, add_tls_sessions,
}

-- `load_groups`: the groups by their numbers, with the names that they are listed under
unfoldable pub load_groups : List (Bytes × TlsGroup) → List (ℕ × TlsGroup) → List (ℕ × TlsGroup)
load_groups [] groups_by_id = groups_by_id
load_groups ((name, group) ∷ rest) groups_by_id =
    load_groups rest (insert group.group_id (record group { name = name }) groups_by_id)

-- `load_cipher_suites`; of a suite, its number and its name are used
unfoldable pub load_cipher_suites : List (Bytes × ℕ) → List (ℕ × Bytes) → List (ℕ × Bytes)
load_cipher_suites [] suites_by_id = suites_by_id
load_cipher_suites ((name, cipher_suite_id) ∷ rest) suites_by_id =
    load_cipher_suites rest (insert cipher_suite_id name suites_by_id)

-- The tables of `main` before it gathers the hosts.
abbrev pub no_hosts : HostTables
no_hosts = record {
  hosts = [];
  pqc_hosts = [];
  ssh_hosts = [];
  ssh_hosts_pqc = [];
  ssh_hosts_pqc_algos = [];
  tls_hosts = [];
  tls_hosts_pqc = [];
  tls_hosts_ciphers = [];
  tls_host_capabilities = [];
}

abbrev pub ip_of : Option SocketAddr → Option Bytes
ip_of none = none
ip_of (some addr) = some addr.ip_

module _ (Time : Type 0) where
  pub record ReportResults : Type 0 where
    pub filename : Bytes
    pub total_count : ℕ
    pub pqc_count : ℕ
    pub ssh_hosts_count : ℕ
    pub ssh_sessions_count : ℕ
    pub ssh_pqc_supported_count : ℕ
    pub tls_hosts_count : ℕ
    pub tls_sessions_count : ℕ
    pub tls_pqc_supported_count : ℕ
    pub packet_count : ℕ
    pub start_time : Time
    pub end_time : Time
    pub ssh_host_capabilities : Capabilities
    pub ssh_hosts : List Bytes
    pub ssh_hosts_pqc : List (Bytes × Bytes)
    pub ssh_sessions_results : List (Bytes × List SessionResult)
    pub tls_hosts : List Bytes
    pub tls_hosts_pqc : List (Bytes × Bytes)
    pub tls_host_capabilities : Capabilities
    pub tls_sessions_results : List (Bytes × List SessionResult)

  -- `unwrap_or`
  abbrev pub time_or : Time → Option Time → Time
  time_or now none = now
  time_or now (some t) = t

  module _ (sets : LinkedHashSet) where
    -- The variables of the packet loop.
    pub record Progress : Type 0 where
      pub tables : Tables sets
      pub packet_count : ℕ
      pub start_time : Option Time
      pub end_time : Time

    -- `while let Ok(packet) = cap.next_packet()`
    unfoldable pub read_capture :
        List (Option SlicedPacket × Time) → Progress → Outcome (Unit {0}) Progress
    read_capture [] s = ok s
    read_capture ((packet, ts) ∷ packets) s = do
      tables ← process_packet sets packet s.tables
      read_capture packets (record {
        tables = tables;
        packet_count = s.packet_count + 1;
        start_time = some (time_or ts s.start_time);
        end_time = ts;
      })

    -- The file's name, or the panic of a path without one.
    unfoldable pub file_name : Option Bytes → Outcome (Unit {0}) Bytes
    file_name none = panic
    file_name (some name) = ok name

    module _ (parse : Bytes → Option SocketAddr) (kex_algos : List (Bytes × KexAlgo))
        (groups_by_name : List (Bytes × TlsGroup)) (suites_by_name : List (Bytes × ℕ)) where
      -- The SSH hosts, gathered with those of TLS, do not depend on the sessions.
      unfoldable pub gather : Option Bytes → Time → Progress → Outcome (Unit {0}) ReportResults
      unfolding file_name load_groups load_cipher_suites
      gather name now s = do
        let groups = load_groups groups_by_name []
        let suites = load_cipher_suites suites_by_name []
        ssh ← add_ssh_sessions parse kex_algos s.tables.sessions no_sessions
        h ←
            gather_hosts sets (λ key. ip_of (parse key)) kex_algos suites groups s.tables.host_caps
              s.tables.tls.tls_ciphers s.tables.tls.keyshare_groups no_hosts
        let tls = add_tls_sessions groups s.tables.tls.tls_sessions no_sessions
        filename ← file_name name
        ok (record {
          filename = filename;
          total_count = length h.hosts;
          pqc_count = length h.pqc_hosts;
          ssh_hosts_count = length h.ssh_hosts;
          ssh_sessions_count = length s.tables.sessions;
          ssh_pqc_supported_count = ssh.pqc_supported_count;
          tls_hosts_count = length h.tls_hosts;
          tls_sessions_count = length s.tables.tls.tls_sessions;
          tls_pqc_supported_count = tls.pqc_supported_count;
          packet_count = s.packet_count;
          start_time = time_or now s.start_time;
          end_time = s.end_time;
          ssh_host_capabilities = h.ssh_hosts_pqc_algos;
          ssh_hosts = h.ssh_hosts;
          ssh_hosts_pqc = h.ssh_hosts_pqc;
          ssh_sessions_results = ssh.results;
          tls_hosts = h.tls_hosts;
          tls_hosts_pqc = h.tls_hosts_pqc;
          tls_host_capabilities = h.tls_host_capabilities;
          tls_sessions_results = tls.results;
        })

      -- The clock is read before the loop and behind it.
      unfoldable pub analyse :
          Option Bytes
          → Time
          → Time
          → List (Option SlicedPacket × Time)
          → Outcome (Unit {0}) ReportResults
      unfolding gather
      analyse name before behind packets = do
        s ← read_capture packets (record {
          tables = no_tables sets;
          packet_count = 0;
          start_time = none;
          end_time = before;
        })
        gather name behind s
