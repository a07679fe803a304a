-- ===== src/Scanner/Tls/Tests.antt =====
-- Runs of the scanner's TLS part.
use pqcscan.Base.{
  ℕ, zero, suc, ◌<◌, ◌≡◌, ◌↔◌, refl, Bool, true, false, some, [], ◌∷◌, arith, Bytes, replicate,
  codes, ok,
}
use pqcscan.Scanner.Target.{Target}
use pqcscan.Scanner.Net.{
  Network, Connects, resolved, connected, refused, socket_create_and_connect, first_address,
  connection,
}
use pqcscan.Scanner.Hello.{
  to_u16, to_u8, write_u16s, server_name, extension, supported_versions, signature_algorithms,
  status_request, supported_groups, key_share, write_key_shares, record_size_limit,
  signed_certificate_timestamp, extended_master_secret, compress_certificate, renegotiation_info,
  add_compression_method, add_extension, ec_point_formats, empty_extension, key_shares_len,
  add_cipher_suite, into_buf, hello_body, write_extensions,
}
use pqcscan.Scanner.Hello.Config.{probe_hello, probe_builder, with_extension, with_cipher_suites}
use pqcscan.Scanner.Tls.Response.{
  answered, byte_at, read_handshake, read_response, built, on_answer, tls_connect_with_group,
}
use pqcscan.Scanner.Tls.Response.Accepted.{StartsServerHello, read_response-StartsServerHello}
use pqcscan.Scanner.Tls.Scan.{
  TlsGroup, TlsConfig, TlsStream, probe, groups_to_test, is_tested, tls_scan_target, failed,
  finished,
}
use pqcscan.Scanner.Tls.Scan.Sorted.{tls_scan_target-sorted}
use pqcscan.Scanner.Tls.Scan.Failed.{tls_scan_target-failed}

-- A ServerHello's first eleven bytes.
abbrev hello : Bytes
hello = 0x16 ∷ 3 ∷ 3 ∷ 0 ∷ 44 ∷ 2 ∷ 0 ∷ 0 ∷ 40 ∷ 3 ∷ 3 ∷ []

read_response-StartsServerHello_example : (read_response hello ≡ ok tt) ↔ StartsServerHello hello
read_response-StartsServerHello_example = read_response-StartsServerHello hello

abbrev target : Target
target = record { host = codes "h"; port = 443 }

abbrev group : ℕ → Bool → Bool → TlsGroup
group id pqc hybrid = record {
  group_id = id;
  pqc = pqc;
  hybrid = hybrid;
  obsolete = false;
  insecure = false;
  desc = [];
  href = [];
}

abbrev config : TlsConfig
config = record {
  default_port = 443;
  groups =
      (codes "x25519", group 29 false false)
      ∷ (codes "mlkem", group 513 true false)
      ∷ (codes "x25519mlkem", group 4588 true true)
      ∷ [];
  cipher_suites = [];
  sig_schemes = [];
}

-- A server that greets every message.
abbrev stream : TlsStream
stream = record {
  blocking = true;
  random = replicate 32 7;
  session_id = replicate 32 8;
  peer = λ sent. answered hello;
}

abbrev display : Bytes → Bytes
display addr = addr

abbrev net : ℕ → Network Bytes TlsStream
net n = record {
  lookup_host = λ text. resolved (codes "10.0.0.1:443" ∷ []);
  opens = λ addr. true;
  connect = λ addr. connected stream;
}

net-Connects : (k : ℕ) → Connects Bytes TlsStream (net k) target (codes "10.0.0.1:443") stream
net-Connects k = record { others = []; resolves = refl; opens = refl; connects = refl }

tls_scan_target-sorted_example :
    tls_scan_target Bytes display config 5 net target false false
    ≡ ok (
        finished target (record {
          addr = some (codes "10.0.0.1:443");
          pqc_supported = true;
          pqc_algos = codes "mlkem" ∷ [];
          hybrid_algos = codes "x25519mlkem" ∷ [];
          nonpqc_algos = [];
        }))
unfolding probe tls_connect_with_group built on_answer read_response read_handshake byte_at
    probe_hello probe_builder with_extension with_cipher_suites into_buf hello_body write_extensions
    to_u16 to_u8 write_u16s server_name extension supported_versions signature_algorithms
    status_request supported_groups key_share write_key_shares record_size_limit
    signed_certificate_timestamp extended_master_secret compress_certificate renegotiation_info
    add_compression_method add_extension ec_point_formats empty_extension key_shares_len
    add_cipher_suite
tls_scan_target-sorted_example =
    tls_scan_target-sorted Bytes display config 5 net target (λ k. codes "10.0.0.1:443")
      (λ k. stream) net-Connects (λ k. refl) false false

-- The same network, whose second connection is refused.
abbrev breaking : ℕ → Network Bytes TlsStream
breaking zero = net 0
breaking (suc n) = record (net n) { connect = λ addr. refused }

breaking-Connects :
    (k : ℕ) → k < 1 → Connects Bytes TlsStream (breaking k) target (codes "10.0.0.1:443") stream
breaking-Connects k h = let first : k ≡ 0 = omega (arith, h) in rw first (net-Connects 0)

tls_scan_target-failed_example :
    tls_scan_target Bytes display config 5 breaking target false false
    ≡ ok (failed target (codes "Could not connect to 10.0.0.1:443"))
unfolding groups_to_test is_tested socket_create_and_connect first_address connection
tls_scan_target-failed_example =
    tls_scan_target-failed Bytes display config 5 breaking target (λ k. codes "10.0.0.1:443")
      (λ k. stream) 1 breaking-Connects (λ k h. refl) (codes "Could not connect to 10.0.0.1:443")
      refl false false ((codes "mlkem", group 513 true false) ∷ [])
      (codes "x25519mlkem", group 4588 true true) [] refl refl
