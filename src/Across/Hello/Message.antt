-- ===== src/Across/Hello/Message.antt =====
-- A whole ClientHello: what the scanner's builder writes, the analyser reads back.
use pqcscan.Base.{
  ℕ, suc, ◌+◌, ◌*◌, ◌/◌, ◌%◌, ◌<◌, ◌≡◌, refl, ap, List, [], ◌∷◌, ◌++◌, append-nil, Bytes, u16_bytes,
  length, length-append, le→ltb, lt→leb, ok, arith, All,
}
use pqcscan.Base.Reading.{At, At-start, At-move, At-length, index-At}
use pqcscan.Dump.Tls.ClientHello.{read_suites, read_groups, parse_ssl_v3_client_hello}
use pqcscan.Scanner.Hello.{
  ClientHelloBuilder, write_u16s, write_extensions, hello_body, into_buf, to_u16, to_u8, add16,
}
use pqcscan.Across.Hello.{
  IsU16, index16-u16_bytes, length-write_u16s, read_ciphers-At, Offers, read_extensions-At,
}

-- What `ClientHelloBuilder` keeps true: 32 random bytes, 16-bit suites, and `extensions_len` the
-- length of the extensions as a `u16`.
pub record IsBuilder (b : ClientHelloBuilder) (groups : List ℕ) : Type 0 where
  pub random_len : length b.random ≡ 32
  pub suites_fit : All IsU16 b.cipher_suites
  pub offers : Offers b.extensions groups
  pub total : b.extensions_len ≡ length (write_extensions b.extensions) % 65536

read_suites-At :
    (cs : List ℕ) (bytes rest : Bytes) (off : ℕ)
    → All IsU16 cs
    → length cs * 2 < 65536
    → At bytes off (u16_bytes (length cs * 2) ++ (write_u16s cs ++ rest))
    → read_suites bytes off ≡ ok (cs, off + 2 + length cs * 2)
unfolding read_suites
read_suites-At cs bytes rest off h fits at =
    let at1 = At-move (u16_bytes (length cs * 2)) (off + 2) at refl in
    let n = length-write_u16s cs in
    let total = At-length at1 in
    let parts = length-append (write_u16s cs) rest in
    let rounds : (length cs * 2 + 1) / 2 ≡ length cs = omega arith in
    rw
      (
        le→ltb (length bytes) (off + 2) (omega (arith, total)),
        index16-u16_bytes (length cs * 2) fits at,
        le→ltb (length bytes) (off + 2 + length cs * 2) (omega (arith, total, parts, n)),
        rounds,
      )
      (read_ciphers-At cs bytes rest (off + 2) [] h at1)

read_groups-At :
    (cms : Bytes) (b : ClientHelloBuilder) (bytes : Bytes) (groups : List ℕ) (off : ℕ)
    → IsBuilder b groups
    → length (write_extensions b.extensions) < 65536
    → At bytes off
        (length cms ∷ (cms ++ (u16_bytes b.extensions_len ++ write_extensions b.extensions)))
    → read_groups bytes off ≡ ok groups
unfolding read_groups
read_groups-At cms b bytes groups off good short at =
    let exts = write_extensions b.extensions in
    let at1 = At-move (length cms ∷ []) (off + 1) at refl in
    let at2 = At-move cms (off + (1 + length cms)) at1 (omega arith) in
    let at3 = At-move (u16_bytes b.extensions_len) (off + (1 + length cms) + 2) at2 refl in
    let at4 : At bytes (off + (1 + length cms) + 2) (exts ++ []) = rw append-nil at3 in
    let exact : b.extensions_len ≡ length exts = omega (arith, good.total) in
    let total = At-length at3 in
    rw
      (
        lt→leb (length bytes) off (omega (arith, total)),
        index-At at,
        le→ltb (length bytes) (off + (1 + length cms) + 2) (omega (arith, total)),
      )
      (rw
        (
          index16-u16_bytes b.extensions_len (omega arith) at2,
          le→ltb (length bytes) (off + (1 + length cms) + 2 + b.extensions_len)
              (omega (arith, total, exact)),
        )
        (read_extensions-At (suc b.extensions_len) bytes [] _ _ [] good.offers at4
          (omega (arith, exact)) (omega (arith, exact))))

-- The nine bytes of the record's and the handshake's headers.
abbrev headers : ℕ → Bytes
headers n = 22 ∷ 3 ∷ 1 ∷ (u16_bytes (add16 n 4) ++ (1 ∷ 0 ∷ u16_bytes n))

-- What `into_buf` has written when it succeeds.
record Written (b : ClientHelloBuilder) (body out : Bytes) : Type 0 where
  body_is :
      body
      ≡ hello_body b
          (length b.session_id)
          (length b.cipher_suites * 2)
          (length b.compression_methods)
  out_is : out ≡ headers (length body) ++ body
  suites_short : length b.cipher_suites * 2 < 65536
  body_short : length body < 65536

into_buf_ok :
    (b : ClientHelloBuilder) (body : Bytes) {out : Bytes}
    → body
      ≡ hello_body b
          (length b.session_id)
          (length b.cipher_suites * 2)
          (length b.compression_methods)
    → into_buf b ≡ ok out
    → Written b body out
unfolding into_buf to_u16 to_u8
into_buf_ok b body e h = ground arith

-- For a builder whose random part has 32 bytes, whose suites fit 16 bits, whose extensions are well
-- formed and offer keys in certain groups, and whose count of their length is right: whenever it
-- makes a message, the analyser reads the message back, with the cipher suites as they were added
-- and with these groups.
pub parse-into_buf :
    (b : ClientHelloBuilder) (groups : List ℕ) {out : Bytes}
    → IsBuilder b groups
    → into_buf b ≡ ok out
    → parse_ssl_v3_client_hello out
      ≡ ok (record { ciphers = b.cipher_suites; keyshare_groups = groups })
unfolding parse_ssl_v3_client_hello hello_body
parse-into_buf b groups {out} good h =
    let sid = b.session_id in
    let cms = b.compression_methods in
    let exts = write_extensions b.extensions in
    let groups_part = length cms ∷ (cms ++ (u16_bytes b.extensions_len ++ exts)) in
    let suites_part =
      u16_bytes (length b.cipher_suites * 2) ++ (write_u16s b.cipher_suites ++ groups_part) in
    let body : Bytes = hello_body b (length sid) (length b.cipher_suites * 2) (length cms) in
    let w = into_buf_ok b body refl h in
    let at0 : At out 0 (
        (headers (length body) ++ u16_bytes b.legacy_version)
        ++ (b.random ++ (length sid ∷ (sid ++ suites_part)))) =
      rw (← w.out_is) (At-start out) in
    let at1 = At-move (headers (length body) ++ u16_bytes b.legacy_version) 11 at0 refl in
    let at2 = At-move b.random 43 at1 (omega (arith, good.random_len)) in
    let at3 = At-move (length sid ∷ []) 44 at2 refl in
    let at4 = At-move sid (44 + length sid) at3 refl in
    let behind = 44 + length sid + 2 + length b.cipher_suites * 2 in
    let n = length-write_u16s b.cipher_suites in
    let at5 : At out behind groups_part =
      At-move (u16_bytes (length b.cipher_suites * 2) ++ write_u16s b.cipher_suites) behind at4
        (omega (arith, n)) in
    let total = At-length at4 in
    let whole : length out ≡ 9 + length body = omega (arith, ap length w.out_is) in
    let short : length exts < 65536 = omega (
      arith,
      At-length at5,
      length-append cms (u16_bytes b.extensions_len ++ exts),
      whole,
      w.body_short,
    ) in
    rw
      (
        le→ltb (length out) 34 (omega (arith, total)),
        lt→leb (length out) 43 (omega (arith, total)),
        index-At at2,
      )
      (rw
        (
          le→ltb (length out) (44 + length sid) (omega (arith, total)),
          read_suites-At b.cipher_suites out groups_part (44 + length sid) good.suites_fit
              w.suites_short at4,
        )
        (rw (read_groups-At cms b out groups behind good short at5)))
