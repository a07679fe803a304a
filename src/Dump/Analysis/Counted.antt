-- ===== src/Dump/Analysis/Counted.antt =====
-- The numbers in the results of an analysis.
use pqcscan.Base.{
  ok, map, ◌>>=◌, Outcome-cases, is_ok, is_err, is_panic, is_hang, ℕ, ◌+◌, ◌≤◌, ◌≡◌, refl, Option,
  none, some, List, [], ◌∷◌, Bytes, length, Holds, Holds-bind, Holds-map, arith,
}
use pqcscan.Base.Dict.{bytes_eq}
use pqcscan.Base.Sets.{length-Within}
use pqcscan.Dump.Packet.{SlicedPacket}
use pqcscan.Dump.Ssh.Sessions.{LinkedHashSet}
use pqcscan.Dump.Algorithms.{KexAlgo, TlsGroup}
use pqcscan.Dump.Capture.{no_tables, process_packet, process_packets}
use pqcscan.Dump.Capture.Sound.{IsSound, process_packet-IsSound, process_packets-IsSound}
use pqcscan.Dump.Report.{gather_hosts}
use pqcscan.Dump.Report.Hosts.{gather_hosts-Holds}
use pqcscan.Dump.Report.Sessions.{SocketAddr, no_sessions, add_ssh_sessions}
use pqcscan.Dump.Report.Sessions.Counts.{Counts, add_ssh_sessions-Counts, add_tls_sessions-Counts}
use pqcscan.Dump.Analysis.HostSets.{IsCounted, IsCounted-IsKept, no_hosts-IsCounted}
use pqcscan.Dump.Analysis.{
  ReportResults, Progress, read_capture, file_name, load_groups, load_cipher_suites, gather,
  analyse, no_hosts, time_or, ip_of,
}

module _ (Time : Type 0) where
  -- The times of a capture's first and last packet, or else the given time.
  abbrev pub first_time : Time → List (Option SlicedPacket × Time) → Time
  first_time now [] = now
  first_time now ((p, ts) ∷ packets) = ts

  abbrev pub last_time : Time → List (Option SlicedPacket × Time) → Time
  last_time now [] = now
  last_time now ((p, ts) ∷ packets) = last_time ts packets

  -- The results of an analysis of some packets: the counts of packets, hosts and sessions and the
  -- times fit together.
  pub record IsConsistent (packets : List (Option SlicedPacket × Time)) (before behind : Time)
      (r : ReportResults Time) : Type 0 where
    pub packet_count : r.packet_count ≡ length packets
    pub start_time : r.start_time ≡ first_time behind packets
    pub end_time : r.end_time ≡ last_time before packets
    pub pqc_count : r.pqc_count ≤ r.total_count
    pub ssh_hosts_count : r.ssh_hosts_count ≤ r.total_count
    pub ssh_pqc_supported_count : r.ssh_pqc_supported_count ≤ r.ssh_sessions_count
    pub tls_pqc_supported_count : r.tls_pqc_supported_count ≤ r.tls_sessions_count

  module _ (sets : LinkedHashSet) where
    file_name-Holds : (name : Option Bytes) → Holds (λ n. Unit {0}) (file_name Time sets name)
    unfolding file_name
    file_name-Holds none = tt
    file_name-Holds (some n) = tt

    -- The loop fills its tables as if it did not count.
    pub read_capture-process_packets :
        (packets : List (Option SlicedPacket × Time)) (s : Progress Time sets)
        → (read_capture Time sets packets s >>= λ s'. ok s'.tables)
          ≡ process_packets sets (map (λ p. p.0) packets) s.tables
    unfolding read_capture process_packets
    read_capture-process_packets [] s = refl
    read_capture-process_packets ((p, ts) ∷ packets) s =
        elim (Outcome-cases (process_packet sets p s.tables)) [
          | is_ok tables e ↦ rw e (read_capture-process_packets packets _)
          | is_err u e ↦ rw e refl
          | is_panic e ↦ rw e refl
          | is_hang e ↦ rw e refl
        ]

    -- What the loop knows behind the packets, from what it knew before them.
    record HasRead (packets : List (Option SlicedPacket × Time)) (s s' : Progress Time sets)
        : Type 0 where
      sound : IsSound sets s'.tables
      packet_count : s'.packet_count ≡ s.packet_count + length packets
      start_time :
          (now : Time)
          → time_or Time now s'.start_time ≡ time_or Time (first_time now packets) s.start_time
      end_time : s'.end_time ≡ last_time s.end_time packets

    read_capture-HasRead :
        (packets : List (Option SlicedPacket × Time)) (s : Progress Time sets)
        → IsSound sets s.tables
        → Holds (HasRead packets s) (read_capture Time sets packets s)
    unfolding read_capture
    read_capture-HasRead [] s h = record {
      sound = h;
      packet_count = omega arith;
      start_time = λ now. refl;
      end_time = refl;
    }
    read_capture-HasRead ((p, ts) ∷ packets) s h =
        Holds-bind (IsSound sets) (HasRead ((p, ts) ∷ packets) s) (process_packet sets p s.tables) _
          (process_packet-IsSound sets p s.tables h)
          λ tables fine.
            let s1 : Progress Time sets = record {
              tables = tables;
              packet_count = s.packet_count + 1;
              start_time = some (time_or Time ts s.start_time);
              end_time = ts;
            } in
            Holds-map (HasRead packets s1) (HasRead ((p, ts) ∷ packets) s)
              (read_capture Time sets packets s1) (read_capture-HasRead packets s1 fine)
              λ s' r. record {
                sound = r.sound;
                packet_count = omega (arith, r.packet_count);
                start_time = r.start_time;
                end_time = r.end_time;
              }

    module _ (parse : Bytes → Option SocketAddr) (kex_algos : List (Bytes × KexAlgo))
        (groups_by_name : List (Bytes × TlsGroup)) (suites_by_name : List (Bytes × ℕ)) where
      gather-IsConsistent :
          (name : Option Bytes) (before behind : Time) (packets : List (Option SlicedPacket × Time))
          (s : Progress Time sets)
          → s.packet_count ≡ length packets
          → time_or Time behind s.start_time ≡ first_time behind packets
          → s.end_time ≡ last_time before packets
          → Holds
              (IsConsistent packets before behind)
              (gather Time sets parse kex_algos groups_by_name suites_by_name name behind s)
      unfolding gather
      gather-IsConsistent name before behind packets s count start stop =
          let groups = load_groups groups_by_name [] in
          let suites = load_cipher_suites suites_by_name [] in
          Holds-bind (Counts (length s.tables.sessions)) (IsConsistent packets before behind)
            (add_ssh_sessions parse kex_algos s.tables.sessions no_sessions) _
            (add_ssh_sessions-Counts parse kex_algos s.tables.sessions no_sessions 0 _ (omega arith)
              (omega arith))
            λ ssh counted.
              Holds-bind IsCounted (IsConsistent packets before behind)
                (gather_hosts sets (λ key. ip_of (parse key)) kex_algos suites groups
                  s.tables.host_caps s.tables.tls.tls_ciphers s.tables.tls.keyshare_groups no_hosts)
                _
                (gather_hosts-Holds IsCounted IsCounted-IsKept sets (λ key. ip_of (parse key))
                  kex_algos suites groups s.tables.host_caps s.tables.tls.tls_ciphers
                  s.tables.tls.keyshare_groups no_hosts no_hosts-IsCounted)
                λ h c.
                  Holds-bind (λ n. Unit {0}) (IsConsistent packets before behind)
                    (file_name Time sets name) _ (file_name-Holds name)
                    λ filename u. record {
                      packet_count = count;
                      start_time = start;
                      end_time = stop;
                      pqc_count = length-Within h.pqc_hosts h.hosts c.pqc_distinct c.pqc_within;
                      ssh_hosts_count =
                          length-Within h.ssh_hosts h.hosts c.ssh_distinct c.ssh_within;
                      ssh_pqc_supported_count = counted;
                      tls_pqc_supported_count =
                          add_tls_sessions-Counts groups s.tables.tls.tls_sessions no_sessions 0 _
                            (omega arith) (omega arith);
                    }

      -- An analysis of a capture ends with its results or with a panic. In the results, the packets
      -- are counted and the times are those of the first and the last packet, or else the clock's;
      -- there are at most as many hosts with post-quantum support as hosts, as SSH hosts among
      -- hosts, and as supported sessions as sessions, for SSH and for TLS.
      pub analyse-IsConsistent :
          (name : Option Bytes) (before behind : Time) (packets : List (Option SlicedPacket × Time))
          → Holds (IsConsistent packets before behind) (
              analyse Time sets parse kex_algos groups_by_name suites_by_name name before behind
                packets)
      unfolding analyse process_packets
      analyse-IsConsistent name before behind packets =
          let s0 : Progress Time sets = record {
            tables = no_tables sets;
            packet_count = 0;
            start_time = none;
            end_time = before;
          } in
          Holds-bind (HasRead packets s0) (IsConsistent packets before behind)
            (read_capture Time sets packets s0) _
            (read_capture-HasRead packets s0 (process_packets-IsSound sets []))
            λ s r.
              gather-IsConsistent name before behind packets s (omega (arith, r.packet_count))
                (r.start_time behind) r.end_time
