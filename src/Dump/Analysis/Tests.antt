-- ===== src/Dump/Analysis/Tests.antt =====
-- Runs of the analyser from a capture to its results.
use pqcscan.Base.{
  ℕ, ◌≡◌, refl, Option, none, some, List, [], ◌∷◌, ◌++◌, Bytes, codes, ok, panic, replicate, Holds,
  equal, index, index16, slice,
}
use pqcscan.Base.Addr.{v6, ip_text}
use pqcscan.Base.Decimal.{decimal}
use pqcscan.Base.Dict.{bytes_eq, nat_eq, lookup, insert, set_insert, contains}
use pqcscan.Dump.Packet.{ip, tcp, SlicedPacket}
use pqcscan.Dump.Ssh.Sets.{list_sets}
use pqcscan.Dump.Tls.ServerHello.{
  parse_server_hello_v3, read_keyshare, parse_extensions, read_server_extensions, or_zero,
  only_group,
}
use pqcscan.Dump.Tls.Hosts.{
  process_ssl_hello, on_hello, on_server_hello, logged, host_key, session_key, add_value,
  add_values,
}
use pqcscan.Dump.Capture.{
  process_packet, process_tcp, process_joined, process_packet_helper, is_hello, add_tls, no_tables,
}
use pqcscan.Dump.Capture.Tests.{packet, kexinit, segment}
use pqcscan.Dump.Tcp.{push, joiner_push, stream_of}
use pqcscan.Dump.Report.Sessions.{SocketAddr}
use pqcscan.Dump.Analysis.{Progress, analyse, read_capture}
use pqcscan.Dump.Analysis.Counted.{IsConsistent, analyse-IsConsistent}
use pqcscan.Dump.Analysis.Panics.{analyse-panic}

abbrev parse : Bytes → Option SocketAddr
parse text = none

abbrev packets : List (Option SlicedPacket × ℕ)
packets = (some (packet kexinit), 7) ∷ (none, 9) ∷ []

analyse-IsConsistent_example :
    Holds
      (IsConsistent ℕ packets 1 10)
      (analyse ℕ list_sets parse [] [] [] (some (codes "a.pcap")) 1 10 packets)
analyse-IsConsistent_example =
    analyse-IsConsistent ℕ list_sets parse [] [] [] (some (codes "a.pcap")) 1 10 packets

-- A ServerHello of TLS 1.2 with no extensions but their length.
abbrev server_hello : Bytes
server_hello =
    (22 ∷ 3 ∷ 3 ∷ 0 ∷ 44 ∷ 2 ∷ 0 ∷ 0 ∷ 40 ∷ 3 ∷ 3 ∷ replicate 32 0)
    ++ (0 ∷ 192 ∷ 47 ∷ 0 ∷ 0 ∷ 0 ∷ [])

abbrev packet6 : SlicedPacket
packet6 = record {
  net = some (ip (v6 (8193 ∷ 3512 ∷ replicate 5 0 ++ (1 ∷ []))) (v6 (replicate 7 0 ++ (1 ∷ []))));
  transport = some (tcp (segment server_hello));
}

abbrev start : Progress ℕ list_sets
start = record { tables = no_tables list_sets; packet_count = 0; start_time = none; end_time = 1 }

abbrev behind : Progress ℕ list_sets
behind = record {
  tables = record {
    reassembler =
        (
          record { src = codes "2001:db8::1"; dst = codes "::1"; sport = 443; dport = 40000 },
          record { next_seq = 50; buffer = [] },
        )
        ∷ [];
    sessions = [];
    host_caps = [];
    tls = record {
      tls_ciphers = (codes "2001:db8::1:443", 49199 ∷ []) ∷ [];
      keyshare_groups = (codes "2001:db8::1:443", 0 ∷ []) ∷ [];
      tls_sessions =
          (
            record {
              src_ip = v6 (replicate 7 0 ++ (1 ∷ []));
              src_port = 40000;
              dst_ip = v6 (8193 ∷ 3512 ∷ replicate 5 0 ++ (1 ∷ []));
              dst_port = 443;
            },
            0,
          )
          ∷ [];
    };
  };
  packet_count = 1;
  start_time = some 7;
  end_time = 7;
}

read_packet6 : read_capture ℕ list_sets ((some packet6, 7) ∷ []) start ≡ ok behind
unfolding read_capture process_packet process_tcp process_joined process_packet_helper is_hello
    add_tls process_ssl_hello on_hello on_server_hello logged host_key session_key add_value
    add_values index index16 slice parse_server_hello_v3 read_keyshare push joiner_push stream_of
    parse_extensions read_server_extensions or_zero only_group lookup insert set_insert contains
    equal ip_text decimal
read_packet6 = refl

analyse-panic_example :
    analyse ℕ list_sets parse [] [] [] (some (codes "a.pcap")) 1 10 ((some packet6, 7) ∷ []) ≡ panic
unfolding lookup equal
analyse-panic_example =
    analyse-panic ℕ list_sets parse [] [] [] (some (codes "a.pcap")) 1 10 ((some packet6, 7) ∷ [])
      behind (codes "2001:db8::1:443") (49199 ∷ []) read_packet6 refl refl
