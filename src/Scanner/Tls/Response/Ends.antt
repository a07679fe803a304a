-- ===== src/Scanner/Tls/Response/Ends.antt =====
-- A probe ends with a verdict or an error: neither the builder nor the reader panics.
use pqcscan.Base.{
  ℕ, ◌+◌, ◌*◌, Bool, ◌>>=◌, true, false, not, List, Bytes, length, ltb, ◌==◌, Bool-cases, inl, inr,
  ok, err, panic, hang, refuse, Returns, Returns-bind,
}
use pqcscan.Scanner.Hello.{
  Build, Extension, ClientHelloBuilder, to_u16, to_u8, extension, server_name, signature_algorithms,
  supported_groups, key_share, supported_versions, status_request, record_size_limit,
  signed_certificate_timestamp, extended_master_secret, empty_extension, compress_certificate,
  renegotiation_info, ec_point_formats, into_buf, hello_body,
}
use pqcscan.Scanner.Hello.Config.{with_extension, probe_builder, probe_hello}
use pqcscan.Scanner.Tls.Response.{
  short_handshake, short_alert, bad_version, not_server_hello, bad_length, alert_length,
  alert_level, byte_at, u16_at, u24_at, read_handshake, read_alert, read_response, on_answer,
  Answer, no_write, no_read, answered, built, tls_connect_with_group,
}

to_u16-Returns : (n : ℕ) → Returns (to_u16 n)
unfolding to_u16
to_u16-Returns n = elim (Bool-cases (ltb n 65536)) [ inl e ↦ rw e tt | inr e ↦ rw e tt ]

to_u8-Returns : (n : ℕ) → Returns (to_u8 n)
unfolding to_u8
to_u8-Returns n = elim (Bool-cases (ltb n 256)) [ inl e ↦ rw e tt | inr e ↦ rw e tt ]

refuse-Returns : {E : Type 0} (b : Bool) (e : E) → Returns (refuse b e)
refuse-Returns true e = tt
refuse-Returns false e = tt

extension-Returns : (ext_type : ℕ) (buf : Bytes) → Returns (extension ext_type buf)
unfolding extension
extension-Returns ext_type buf =
    Returns-bind (to_u16 (length buf)) _ (to_u16-Returns (length buf)) λ n. tt

-- An extension whose payload begins with a length.
sized-Returns :
    (n ext_type : ℕ) (f : ℕ → Bytes) → Returns (to_u16 n >>= λ len. extension ext_type (f len))
sized-Returns n ext_type f =
    Returns-bind (to_u16 n) _ (to_u16-Returns n) λ len. extension-Returns ext_type (f len)

server_name-Returns : (host : Bytes) → Returns (server_name host)
unfolding server_name
server_name-Returns host = sized-Returns (length host) 0 _

with_extension-Returns :
    (b : ClientHelloBuilder) (m : Build Extension) → Returns m → Returns (with_extension b m)
unfolding with_extension
with_extension-Returns b m h = Returns-bind m _ h λ e. tt

probe_builder-Returns :
    (random session_id : Bytes) (ciphers sigschemes : List ℕ) (host : Bytes) (group : ℕ)
    → Returns (probe_builder random session_id ciphers sigschemes host group)
unfolding probe_builder supported_versions signature_algorithms status_request supported_groups
    key_share record_size_limit signed_certificate_timestamp extended_master_secret empty_extension
    compress_certificate renegotiation_info ec_point_formats
probe_builder-Returns random session_id ciphers sigschemes host group =
    Returns-bind _ _ (with_extension-Returns _ _ (server_name-Returns host)) λ b1.
      Returns-bind _ _ (with_extension-Returns b1 _ tt) λ b2.
        Returns-bind _ _ (with_extension-Returns b2 _ (sized-Returns (length sigschemes * 2) 13 _))
          λ b3. Returns-bind _ _ (with_extension-Returns b3 _ tt) λ b4.
            Returns-bind _ _ (with_extension-Returns b4 _ (sized-Returns 2 10 _)) λ b5.
              Returns-bind _ _ (with_extension-Returns b5 _ (extension-Returns 51 _)) λ b6.
                Returns-bind _ _ (with_extension-Returns b6 _ tt) λ b7.
                  Returns-bind _ _ (with_extension-Returns b7 _ tt) λ b8.
                    Returns-bind _ _ (with_extension-Returns b8 _ tt) λ b9.
                      Returns-bind _ _ (with_extension-Returns b9 _ (extension-Returns 27 _)) λ b10.
                        Returns-bind _ _ (with_extension-Returns b10 _ (extension-Returns 65281 _))
                          λ b11. with_extension-Returns b11 _ (extension-Returns 11 _)

into_buf-Returns : (b : ClientHelloBuilder) → Returns (into_buf b)
unfolding into_buf
into_buf-Returns b = Returns-bind _ _ (to_u8-Returns (length b.session_id)) λ sid.
    Returns-bind _ _ (to_u16-Returns (length b.cipher_suites * 2)) λ cs.
      Returns-bind _ _ (to_u8-Returns (length b.compression_methods))
        λ cm. Returns-bind _ _ (to_u16-Returns (length (hello_body b sid cs cm))) λ len. tt

built-Returns : (m : Build Bytes) → Returns m → Returns (built m)
unfolding built
built-Returns (ok hello) h = tt
built-Returns (err e) h = tt
built-Returns panic h = h
built-Returns hang h = h

read_handshake-Returns : (got : Bytes) → Returns (read_handshake got)
unfolding read_handshake
read_handshake-Returns got =
    Returns-bind _ _ (refuse-Returns (ltb (length got) 5) short_handshake) λ u1.
      Returns-bind _ _ (refuse-Returns (not (u16_at got 1 == 0x0303)) bad_version) λ u2.
        Returns-bind _ _ (refuse-Returns (not (byte_at got 5 == 2)) not_server_hello) λ u3.
          Returns-bind _ _ (refuse-Returns (not (u24_at got 6 + 4 == u16_at got 3)) bad_length)
            λ u4.
              Returns-bind _ _ (refuse-Returns (not (u16_at got 9 == 0x0303)) bad_version) λ u5. tt

read_alert-Returns : (got : Bytes) → Returns (read_alert got)
unfolding read_alert
read_alert-Returns got = Returns-bind _ _ (refuse-Returns (ltb (length got) 5) short_alert) λ u1.
    Returns-bind _ _ (refuse-Returns (not (u16_at got 1 == 0x0303)) bad_version) λ u2.
      Returns-bind _ _ (refuse-Returns (not (u16_at got 3 == 2)) alert_length)
        λ u3. Returns-bind _ _ (refuse-Returns (not (byte_at got 5 == 2)) alert_level) λ u4. tt

read_response-Returns : (got : Bytes) → Returns (read_response got)
unfolding read_response
read_response-Returns got = elim (Bool-cases (byte_at got 0 == 0x16)) [
  | inl handshake ↦ rw handshake (read_handshake-Returns got)
  | inr other ↦ rw other (elim (Bool-cases (byte_at got 0 == 0x15)) [
    | inl is_alert ↦ rw is_alert (read_alert-Returns got)
    | inr neither ↦ rw neither tt
  ])
]

on_answer-Returns : (answer : Answer) → Returns (on_answer answer)
unfolding on_answer
on_answer-Returns (no_write e) = tt
on_answer-Returns (no_read e) = tt
on_answer-Returns (answered got) = read_response-Returns got

-- For every host, group, table of ciphers and answer of the server, a probe returns a verdict or an
-- error.
pub tls_connect_with_group-Returns :
    (random session_id : Bytes) (ciphers sigschemes : List ℕ) (host : Bytes) (group : ℕ)
    (peer : Bytes → Answer)
    → Returns (tls_connect_with_group random session_id ciphers sigschemes host group peer)
unfolding tls_connect_with_group probe_hello
tls_connect_with_group-Returns random session_id ciphers sigschemes host group peer =
    Returns-bind _ _
      (built-Returns (probe_hello random session_id ciphers sigschemes host group) (
        Returns-bind (probe_builder random session_id ciphers sigschemes host group) _
          (probe_builder-Returns random session_id ciphers sigschemes host group) into_buf-Returns))
      λ hello. on_answer-Returns (peer hello)
