-- ===== src/Scanner/Hello.antt =====
-- The ClientHello that the scanner sends: `Extension`, `KeyShareEntry` and `ClientHelloBuilder` of
-- pqcscan/src/tls.rs. `try_into()?` on a length is the error `too_long`; `u16` additions wrap
-- around, as in a release build.
pub mod Config
use pqcscan.Base.{
  ℕ, ◌+◌, ◌*◌, ◌%◌, List, [], ◌∷◌, ◌++◌, Bytes, u16_bytes, length, ltb, if◌then◌else◌, Outcome, ok,
  err, ◌>>=◌,
}

pub data BuildError : Type 0 where
  too_long : BuildError

abbrev pub Build : Type 0 → Type 0
Build A = Outcome BuildError A

-- `n.try_into()?` from `usize` to `u16`, and to `u8`
unfoldable pub to_u16 : ℕ → Build ℕ
to_u16 n = if ltb n 65536 then ok n else err too_long

unfoldable pub to_u8 : ℕ → Build ℕ
to_u8 n = if ltb n 256 then ok n else err too_long

-- `a + b` on `u16`
abbrev pub add16 : ℕ → ℕ → ℕ
add16 a b = (a + b) % 65536

pub record Extension : Type 0 where
  pub ext_type : ℕ
  pub ext_len : ℕ
  pub payload : Bytes

pub record KeyShareEntry : Type 0 where
  pub group : ℕ
  pub exchange_len : ℕ
  pub exchange : Bytes

-- `KeyShareEntry::new`
abbrev pub key_share_entry : ℕ → Bytes → KeyShareEntry
key_share_entry group exchange = record {
  group = group;
  exchange_len = length exchange % 65536;
  exchange = exchange;
}

-- `for x in xs { buf.write_u16::<NetworkEndian>(x)? }`
unfoldable pub write_u16s : List ℕ → Bytes
write_u16s [] = []
write_u16s (x ∷ xs) = u16_bytes x ++ write_u16s xs

-- The end of most constructors: `ext_len: buf.len().try_into()?`.
unfoldable pub extension : ℕ → Bytes → Build Extension
unfolding to_u16
extension ext_type buf = do
  ext_len ← to_u16 (length buf)
  ok (record { ext_type = ext_type; ext_len = ext_len; payload = buf })

unfoldable pub server_name : Bytes → Build Extension
server_name hostname = do
  hblen ← to_u16 (length hostname)
  extension 0 (u16_bytes (add16 hblen 3) ++ (0 ∷ (u16_bytes hblen ++ hostname)))

unfoldable pub supported_versions : Build Extension
supported_versions = ok (record { ext_type = 43; ext_len = 3; payload = 2 ∷ u16_bytes 0x304 })

unfoldable pub record_size_limit : ℕ → Build Extension
record_size_limit limit = ok (record { ext_type = 28; ext_len = 2; payload = u16_bytes limit })

unfoldable pub supported_groups : List ℕ → Build Extension
supported_groups groups = do
  g_len ← to_u16 (length groups * 2)
  extension 10 (u16_bytes g_len ++ write_u16s groups)

unfoldable pub signature_algorithms : List ℕ → Build Extension
signature_algorithms algos = do
  ha_len ← to_u16 (length algos * 2)
  extension 13 (u16_bytes ha_len ++ write_u16s algos)

unfoldable pub empty_extension : ℕ → Build Extension
empty_extension ext_type = ok (record { ext_type = ext_type; ext_len = 0; payload = [] })

unfoldable pub signed_certificate_timestamp : Build Extension
unfolding empty_extension
signed_certificate_timestamp = empty_extension 18

unfoldable pub extended_master_secret : Build Extension
unfolding empty_extension
extended_master_secret = empty_extension 23

unfoldable pub compress_certificate : Build Extension
compress_certificate = extension 27 (6 ∷ (u16_bytes 1 ++ (u16_bytes 2 ++ u16_bytes 3)))

unfoldable pub renegotiation_info : Build Extension
renegotiation_info = extension 65281 (0 ∷ [])

unfoldable pub ec_point_formats : Build Extension
ec_point_formats = extension 11 (1 ∷ 0 ∷ [])

unfoldable pub status_request : Build Extension
status_request = ok (record { ext_type = 5; ext_len = 5; payload = 1 ∷ 0 ∷ 0 ∷ 0 ∷ 0 ∷ [] })

-- `for keyshare in keyshares { keyshare_len = keyshare_len + keyshare.exchange_len + 4; }`
unfoldable pub key_shares_len : ℕ → List KeyShareEntry → ℕ
key_shares_len len [] = len
key_shares_len len (k ∷ ks) = key_shares_len (add16 (add16 len k.exchange_len) 4) ks

unfoldable pub write_key_shares : List KeyShareEntry → Bytes
write_key_shares [] = []
write_key_shares (k ∷ ks) =
    u16_bytes k.group ++ (u16_bytes k.exchange_len ++ (k.exchange ++ write_key_shares ks))

unfoldable pub key_share : List KeyShareEntry → Build Extension
key_share keyshares =
    extension 51 (u16_bytes (key_shares_len 0 keyshares) ++ write_key_shares keyshares)

pub record ClientHelloBuilder : Type 0 where
  pub legacy_version : ℕ
  pub random : Bytes
  pub session_id : Bytes
  pub cipher_suites : List ℕ
  pub compression_methods : Bytes
  pub extensions_len : ℕ
  pub extensions : List Extension

-- `ClientHelloBuilder::new`, on the bytes that the random number generator gives
abbrev pub new_builder : Bytes → Bytes → ClientHelloBuilder
new_builder random session_id = record {
  legacy_version = 0x303;
  random = random;
  session_id = session_id;
  cipher_suites = [];
  compression_methods = [];
  extensions_len = 0;
  extensions = [];
}

unfoldable pub add_extension : ClientHelloBuilder → Extension → ClientHelloBuilder
add_extension b e = record b {
  extensions_len = add16 (add16 b.extensions_len e.ext_len) 4;
  extensions = b.extensions ++ (e ∷ []);
}

unfoldable pub add_compression_method : ClientHelloBuilder → ℕ → ClientHelloBuilder
add_compression_method b method = record b {
  compression_methods = b.compression_methods ++ (method ∷ []);
}

unfoldable pub add_cipher_suite : ClientHelloBuilder → ℕ → ClientHelloBuilder
add_cipher_suite b cipher_suite = record b {
  cipher_suites = b.cipher_suites ++ (cipher_suite ∷ []);
}

unfoldable pub write_extensions : List Extension → Bytes
write_extensions [] = []
write_extensions (e ∷ es) =
    u16_bytes e.ext_type ++ (u16_bytes e.ext_len ++ (e.payload ++ write_extensions es))

-- The message's body: what `into_buf` writes into `buf`.
unfoldable pub hello_body : ClientHelloBuilder → ℕ → ℕ → ℕ → Bytes
hello_body b sid_len cslen cm_len =
    u16_bytes b.legacy_version
    ++ (b.random
        ++ (sid_len
            ∷ (b.session_id
                ++ (u16_bytes cslen
                    ++ (write_u16s b.cipher_suites
                        ++ (cm_len
                            ∷ (b.compression_methods
                                ++ (u16_bytes b.extensions_len
                                    ++ write_extensions b.extensions))))))))

-- `ClientHelloBuilder::into_buf`: the body behind the record's and the handshake's headers
unfoldable pub into_buf : ClientHelloBuilder → Build Bytes
into_buf b = do
  sid_len ← to_u8 (length b.session_id)
  cslen ← to_u16 (length b.cipher_suites * 2)
  cm_len ← to_u8 (length b.compression_methods)
  let buf = hello_body b sid_len cslen cm_len
  buflen ← to_u16 (length buf)
  ok (22 ∷ (u16_bytes 0x301 ++ (u16_bytes (add16 buflen 4) ++ (1 ∷ 0 ∷ (u16_bytes buflen ++ buf)))))
