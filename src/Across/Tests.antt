-- ===== src/Across/Tests.antt =====
-- Messages of the scanner, read by the analyser.
use pqcscan.Base.{codes, ◌≡◌, refl, [], ◌∷◌, arith, Bytes, replicate, ok, err, panic, hang, ◌++◌}
use pqcscan.Scanner.Hello.{
  Build, ClientHelloBuilder, new_builder, add_cipher_suite, into_buf, hello_body, write_extensions,
  to_u16, to_u8, write_u16s, server_name, extension, supported_versions, signature_algorithms,
  status_request, supported_groups, key_share, write_key_shares, record_size_limit,
  signed_certificate_timestamp, extended_master_secret, compress_certificate, renegotiation_info,
  add_compression_method, add_extension, ec_point_formats, empty_extension, key_shares_len,
}
use pqcscan.Scanner.Hello.Config.{probe_builder, probe_hello, with_extension, with_cipher_suites}
use pqcscan.Dump.Tls.ClientHello.{parse_ssl_v3_client_hello}
use pqcscan.Base.Split.{split, join}
use pqcscan.Base.Utf8.{is_utf8}
use pqcscan.Wire.{kexinit_message, packet, kexinit_tail}
use pqcscan.Scanner.Ssh.Kexinit
use pqcscan.Scanner.Ssh.Kexinit.{
  KexInitMsg, read_u8, read_exact, seek, unwrap, parse_ssh_name_list, parse_name_lists, parse_lists,
  parse_ssh_msg_kexinit, u32_of,
}
use pqcscan.Dump.Ssh.Kexinit.{parse_ssh_kexinit}
use pqcscan.Across.Kexinit.{parse_ssh_kexinit-parse_ssh_msg_kexinit}
use pqcscan.Across.Hello.{nil}
use pqcscan.Across.Hello.Message.{IsBuilder, parse-into_buf}
use pqcscan.Across.Hello.Probe.{parse-probe_hello}

abbrev builder : ClientHelloBuilder
builder = record (new_builder (replicate 32 9) []) { cipher_suites = 0x1301 ∷ [] }

builder-IsBuilder : IsBuilder builder []
unfolding write_extensions
builder-IsBuilder = record {
  random_len = refl;
  suites_fit = (omega arith, tt);
  offers = nil;
  total = refl;
}

parse-into_buf_example :
    parse_ssl_v3_client_hello (
      22
      ∷ 3
      ∷ 1
      ∷ 0
      ∷ 46
      ∷ 1
      ∷ 0
      ∷ 0
      ∷ 42
      ∷ 3
      ∷ 3
      ∷ (replicate 32 9 ++ (0 ∷ 0 ∷ 2 ∷ 19 ∷ 1 ∷ 0 ∷ 0 ∷ 0 ∷ [])))
    ≡ ok (record { ciphers = 0x1301 ∷ []; keyshare_groups = [] })
unfolding into_buf hello_body write_extensions to_u16 to_u8 write_u16s
parse-into_buf_example = parse-into_buf builder [] builder-IsBuilder refl

abbrev bytes_of : Build Bytes → Bytes
bytes_of (ok out) = out
bytes_of (err e) = []
bytes_of panic = []
bytes_of hang = []

abbrev probe : Build Bytes
probe = probe_hello (replicate 32 9) [] (0x1301 ∷ []) (0x0804 ∷ []) (b'h' ∷ []) 0x11ec

probe-ok : probe ≡ ok (bytes_of probe)
unfolding probe_hello probe_builder with_extension with_cipher_suites to_u16 to_u8 write_u16s
    write_extensions hello_body into_buf add_cipher_suite server_name extension supported_versions
    signature_algorithms status_request supported_groups key_share write_key_shares
    record_size_limit signed_certificate_timestamp extended_master_secret compress_certificate
    renegotiation_info add_compression_method add_extension ec_point_formats empty_extension
    key_shares_len
probe-ok = refl

parse-probe_hello_example :
    parse_ssl_v3_client_hello (bytes_of probe)
    ≡ ok (record { ciphers = 0x1301 ∷ []; keyshare_groups = [] })
parse-probe_hello_example =
    parse-probe_hello (replicate 32 9) [] (0x1301 ∷ []) (0x0804 ∷ []) (b'h' ∷ []) 0x11ec refl
      (omega arith, tt) probe-ok

abbrev kexinit : Bytes
kexinit =
    packet (kexinit_message (replicate 16 0) (codes "a" ∷ []) (replicate 9 []) (kexinit_tail 0))
      (replicate 4 0)

abbrev read_kexinit : KexInitMsg
read_kexinit = record { kex_algos = codes "a" ∷ []; host_key_algos = [] ∷ [] }

parse_ssh_kexinit-parse_ssh_msg_kexinit_example :
    parse_ssh_kexinit kexinit ≡ ok (record { kex_algorithms = codes "a" ∷ [] })
unfolding parse_ssh_msg_kexinit Kexinit.read_u32 u32_of read_u8 seek parse_lists parse_ssh_name_list
    unwrap read_exact split join is_utf8 parse_name_lists
parse_ssh_kexinit-parse_ssh_msg_kexinit_example =
    parse_ssh_kexinit-parse_ssh_msg_kexinit kexinit read_kexinit refl
