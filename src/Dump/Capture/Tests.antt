-- ===== src/Dump/Capture/Tests.antt =====
-- Runs of the analyser's loop.
use pqcscan.Base.{
  ◌≡◌, refl, none, some, [], ◌∷◌, Bytes, replicate, codes, ok, Holds, equal, index, index16, slice,
}
use pqcscan.Base.Addr.{IpAddr, v4, ip_text}
use pqcscan.Base.Decimal.{decimal}
use pqcscan.Base.Dict.{bytes_eq, contains, set_insert, lookup, insert}
use pqcscan.Base.Split.{join, split}
use pqcscan.Base.Utf8.{is_utf8}
use pqcscan.Wire.{kexinit_message}
use pqcscan.Dump.Packet.{ip, TcpSlice, tcp, SlicedPacket}
use pqcscan.Dump.Ssh.Kexinit.{
  parse_ssh_kexinit, not_kexinit, read_name_list_owned, read_u32, from_be_bytes, skip_name_lists,
}
use pqcscan.Dump.Ssh.Sets.{list_sets}
use pqcscan.Dump.Ssh.Sessions.{
  process_ssh, record_kexinit, find_session, store_kexinit, fills, update_negotiated, agree,
  update_host_caps, format_socket_addr, default_session,
}
use pqcscan.Dump.Tls.ServerHello.{parse_server_hello_v3, read_keyshare}
use pqcscan.Dump.Tls.Hosts.{process_ssl_hello, on_hello, on_server_hello, logged}
use pqcscan.Dump.Capture.{
  Tables, no_tables, is_hello, add_ssh, add_tls, process_packet_helper, process_tcp, process_packet,
  process_packets,
}
use pqcscan.Dump.Capture.Sound.{IsSound, process_packets-IsSound}
use pqcscan.Dump.Capture.Again.{process_packet_helper-again}
use pqcscan.Dump.Capture.Panics.{PanicsOnHello, process_packet-panic}

abbrev pub segment : Bytes → TcpSlice
segment payload = record {
  source_port = 443;
  destination_port = 40000;
  sequence_number = 1;
  payload = payload;
}

abbrev pub packet : Bytes → SlicedPacket
packet payload = record {
  net = some (ip (v4 10 0 0 1) (v4 10 0 0 2));
  transport = some (tcp (segment payload));
}

abbrev pub kexinit : Bytes
kexinit =
    0
    ∷ 0
    ∷ 0
    ∷ 70
    ∷ 4
    ∷ kexinit_message (replicate 16 0) (codes "a" ∷ []) (replicate 9 []) (replicate 5 0)

-- A ServerHello of TLS 1.2 that ends with the compression method.
abbrev short_server_hello : Bytes
short_server_hello = 22 ∷ 3 ∷ 3 ∷ 0 ∷ 42 ∷ 2 ∷ replicate 41 0

abbrev empty_tables : Tables list_sets
empty_tables = no_tables list_sets

process_packets-IsSound_example : Holds (IsSound list_sets) (
    process_packets list_sets
      (some (packet kexinit) ∷ none ∷ some (packet short_server_hello) ∷ [])
      (no_tables list_sets))
process_packets-IsSound_example =
    process_packets-IsSound list_sets
      (some (packet kexinit) ∷ none ∷ some (packet short_server_hello) ∷ [])

process_packet-panic_example :
    (sliced : SlicedPacket) × (src : IpAddr) × (dst : IpAddr) × (t : TcpSlice) × (some
        (packet short_server_hello)
      ≡ some sliced)
    × (sliced.net ≡ some (ip src dst))
    × (sliced.transport ≡ some (tcp t))
    × PanicsOnHello list_sets sliced src dst t (no_tables list_sets)
unfolding process_packet process_tcp process_packet_helper is_hello add_tls process_ssl_hello
    on_hello on_server_hello logged index index16 parse_server_hello_v3 read_keyshare
process_packet-panic_example =
    process_packet-panic list_sets (some (packet short_server_hello)) (no_tables list_sets) refl

-- The tables with the first message of a server.
abbrev greeted : Tables list_sets
greeted = record empty_tables {
  sessions =
      (
        record { src = codes "10.0.0.1:443"; dst = codes "10.0.0.2:40000" },
        record default_session {
          client_kexinit = some (record { kex_algorithms = codes "a" ∷ [] });
        },
      )
      ∷ [];
  host_caps = (codes "10.0.0.1", codes "a" ∷ []) ∷ [];
}

process_packet_helper-again_example :
    process_packet_helper list_sets (packet kexinit) kexinit (segment kexinit) greeted ≡ ok greeted
unfolding process_packet_helper is_hello add_ssh process_ssh record_kexinit find_session
    store_kexinit fills update_negotiated agree update_host_caps format_socket_addr index lookup
    insert contains set_insert ip_text decimal join split parse_ssh_kexinit not_kexinit
    read_name_list_owned read_u32 from_be_bytes skip_name_lists slice is_utf8 equal
process_packet_helper-again_example =
    process_packet_helper-again list_sets (packet kexinit) kexinit (segment kexinit) empty_tables
      greeted refl
