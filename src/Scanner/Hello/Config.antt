-- ===== src/Scanner/Hello/Config.antt =====
-- The ClientHello of one probe: what `tls_connect_with_group` of pqcscan/src/tls.rs builds for a
-- host and a group before it sends it.
use pqcscan.Base.{ℕ, List, [], ◌∷◌, Bytes, ok, ◌>>=◌}
use pqcscan.Scanner.Hello.{
  Build, Extension, ClientHelloBuilder, new_builder, add_extension, add_compression_method,
  add_cipher_suite, server_name, supported_versions, signature_algorithms, status_request,
  supported_groups, key_share, record_size_limit, signed_certificate_timestamp,
  extended_master_secret, compress_certificate, renegotiation_info, ec_point_formats, into_buf,
}

-- `chb.add_extension(e?)`
unfoldable pub with_extension : ClientHelloBuilder → Build Extension → Build ClientHelloBuilder
with_extension b m = do e ← m; ok (add_extension b e)

-- `for cipher in ciphers { chb.add_cipher_suite(cipher); }`
unfoldable pub with_cipher_suites : ClientHelloBuilder → List ℕ → ClientHelloBuilder
with_cipher_suites b [] = b
with_cipher_suites b (c ∷ cs) = with_cipher_suites (add_cipher_suite b c) cs

unfoldable pub probe_builder :
    Bytes → Bytes → List ℕ → List ℕ → Bytes → ℕ → Build ClientHelloBuilder
probe_builder random session_id ciphers sigschemes host group = do
  let chb = add_compression_method (with_cipher_suites (new_builder random session_id) ciphers) 0
  b1 ← with_extension chb (server_name host)
  b2 ← with_extension b1 supported_versions
  b3 ← with_extension b2 (signature_algorithms sigschemes)
  b4 ← with_extension b3 status_request
  b5 ← with_extension b4 (supported_groups (group ∷ []))
  b6 ← with_extension b5 (key_share [])
  b7 ← with_extension b6 (record_size_limit 16385)
  b8 ← with_extension b7 signed_certificate_timestamp
  b9 ← with_extension b8 extended_master_secret
  b10 ← with_extension b9 compress_certificate
  b11 ← with_extension b10 renegotiation_info
  with_extension b11 ec_point_formats

-- The bytes that are written to the socket.
unfoldable pub probe_hello : Bytes → Bytes → List ℕ → List ℕ → Bytes → ℕ → Build Bytes
probe_hello random session_id ciphers sigschemes host group = do
  chb ← probe_builder random session_id ciphers sigschemes host group
  into_buf chb
