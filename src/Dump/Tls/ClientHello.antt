-- ===== src/Dump/Tls/ClientHello.antt =====
-- `parse_ssl_v3_client_hello` of pqcdump/src/tls.rs. An index out of bounds is a panic. The two
-- `while` loops take fuel, and `hang` when it runs out.
pub mod Ends
pub mod Panics
use pqcscan.Base.{
  ℕ, zero, suc, ◌+◌, ◌/◌, Bool, true, false, List, [], ◌∷◌, ◌++◌, Bytes, length, ltb, leb, ◌==◌,
  if◌then◌else◌, Outcome, ok, hang, ◌>>=◌, ◌>>◌, refuse, index, index16,
}

pub data HelloError : Type 0 where
  no_version no_session_id_len no_session_id no_cipher_suites_len no_cipher_suites : HelloError
  no_compression no_extensions_len no_extensions extension_too_long : HelloError
  key_share_too_short key_exchange_too_short : HelloError

pub record CryptoConfig : Type 0 where
  pub ciphers : List ℕ
  pub keyshare_groups : List ℕ

-- `for _i in (0..cipher_suites_len).step_by(2)`: the suites, and the offset behind them
unfoldable pub read_ciphers : ℕ → Bytes → ℕ → List ℕ → Outcome HelloError (List ℕ × ℕ)
read_ciphers zero bytes offset suites = ok (suites, offset)
read_ciphers (suc n) bytes offset suites = do
  cs ← index16 bytes offset
  read_ciphers n bytes (offset + 2) (suites ++ (cs ∷ []))

-- `while ks_offset + 4 <= offset + ext_len`
unfoldable pub read_key_shares : ℕ → Bytes → ℕ → ℕ → List ℕ → Outcome HelloError (List ℕ)
read_key_shares zero bytes ks_offset end groups = hang
read_key_shares (suc fuel) bytes ks_offset end groups = elim (leb (ks_offset + 4) end) [
  | true ↦ do
    group ← index16 bytes ks_offset
    key_exchange_len ← index16 bytes (ks_offset + 2)
    refuse (ltb end (ks_offset + 4 + key_exchange_len)) key_exchange_too_short
    read_key_shares fuel bytes (ks_offset + 4 + key_exchange_len) end (groups ++ (group ∷ []))
  | false ↦ ok groups
]

-- `if ext_type == 0x0033 { … }`
unfoldable pub key_share_extension : ℕ → Bytes → ℕ → ℕ → ℕ → List ℕ → Outcome HelloError (List ℕ)
key_share_extension fuel bytes ext_type offset ext_len groups =
    if ext_type == 0x33
    then (do
      refuse (ltb ext_len 2) key_share_too_short
      read_key_shares fuel bytes (offset + 2) (offset + ext_len) groups)
    else ok groups

-- `while offset + 4 <= extensions_end`
unfoldable pub read_extensions : ℕ → Bytes → ℕ → ℕ → List ℕ → Outcome HelloError (List ℕ)
read_extensions zero bytes offset extensions_end groups = hang
read_extensions (suc fuel) bytes offset extensions_end groups =
    elim (leb (offset + 4) extensions_end) [
      | true ↦ do
        ext_type ← index16 bytes offset
        ext_len ← index16 bytes (offset + 2)
        refuse (ltb extensions_end (offset + 4 + ext_len)) extension_too_long
        groups' ← key_share_extension (suc ext_len) bytes ext_type (offset + 4) ext_len groups
        read_extensions fuel bytes (offset + 4 + ext_len) extensions_end groups'
      | false ↦ ok groups
    ]

-- The suites behind the session id, and the offset behind them.
unfoldable pub read_suites : Bytes → ℕ → Outcome HelloError (List ℕ × ℕ)
read_suites bytes offset = do
  refuse (ltb (length bytes) (offset + 2)) no_cipher_suites_len
  cipher_suites_len ← index16 bytes offset
  refuse (ltb (length bytes) (offset + 2 + cipher_suites_len)) no_cipher_suites
  read_ciphers ((cipher_suites_len + 1) / 2) bytes (offset + 2) []

-- The groups of the key shares, from the compression methods on.
unfoldable pub read_groups : Bytes → ℕ → Outcome HelloError (List ℕ)
read_groups bytes offset = do
  refuse (leb (length bytes) offset) no_compression
  comp_len ← index bytes offset
  let exts = offset + (1 + comp_len)
  refuse (ltb (length bytes) (exts + 2)) no_extensions_len
  extensions_len ← index16 bytes exts
  refuse (ltb (length bytes) (exts + 2 + extensions_len)) no_extensions
  read_extensions (suc extensions_len) bytes (exts + 2) (exts + 2 + extensions_len) []

unfoldable pub parse_ssl_v3_client_hello : Bytes → Outcome HelloError CryptoConfig
parse_ssl_v3_client_hello bytes = do
  refuse (ltb (length bytes) 34) no_version
  refuse (leb (length bytes) 43) no_session_id_len
  session_id_len ← index bytes 43
  refuse (ltb (length bytes) (44 + session_id_len)) no_session_id
  (ciphers, offset) ← read_suites bytes (44 + session_id_len)
  keyshare_groups ← read_groups bytes offset
  ok (record { ciphers = ciphers; keyshare_groups = keyshare_groups })
