-- ===== src/Dump/Tls/ClientHello/Ends.antt =====
-- The loops of the parser end: the fuel that is given suffices.
use pqcscan.Base.{
  ℕ, zero, suc, ◌+◌, ◌-◌, ◌/◌, ◌<◌, ◌≢◌, List, Bytes, length, ltb, leb, leb→le, ◌==◌, Bool-cases,
  inl, inr, hang, refuse, index, index16, bind-ne-hang, refuse-ne-hang, index-ne-hang, arith,
}
use pqcscan.Base.Reading.{index16-ne-hang}
use pqcscan.Dump.Tls.ClientHello.{
  read_ciphers, read_key_shares, key_share_extension, read_extensions, read_suites, read_groups,
  parse_ssl_v3_client_hello, key_exchange_too_short, extension_too_long, key_share_too_short,
  no_version, no_session_id_len, no_session_id, no_cipher_suites_len, no_cipher_suites,
  no_compression, no_extensions_len, no_extensions,
}

read_ciphers-ne-hang :
    (n : ℕ) (bytes : Bytes) (offset : ℕ) (suites : List ℕ)
    → read_ciphers n bytes offset suites ≢ hang
unfolding read_ciphers
read_ciphers-ne-hang zero bytes offset suites = λ e. cc
read_ciphers-ne-hang (suc n) bytes offset suites =
    bind-ne-hang (index16 bytes offset) _ (index16-ne-hang bytes offset)
      λ cs e. read_ciphers-ne-hang n bytes (offset + 2) _

read_key_shares-ne-hang :
    (fuel : ℕ) (bytes : Bytes) (offset end : ℕ) (groups : List ℕ)
    → end - offset < fuel
    → read_key_shares fuel bytes offset end groups ≢ hang
unfolding read_key_shares
read_key_shares-ne-hang zero bytes offset end groups h = elim h [ ]
read_key_shares-ne-hang (suc fuel) bytes offset end groups h =
    elim (Bool-cases (leb (offset + 4) end)) [
      | inl more ↦
          rw (more, read_key_shares)
            (bind-ne-hang (index16 bytes offset) _ (index16-ne-hang bytes offset) λ g e.
              bind-ne-hang (index16 bytes (offset + 2)) _ (index16-ne-hang bytes _) λ k e.
                bind-ne-hang (refuse (ltb end (offset + 4 + k)) key_exchange_too_short) _
                  (refuse-ne-hang _ _)
                  λ u e.
                    read_key_shares-ne-hang fuel bytes (offset + 4 + k) end _
                      (omega (arith, leb→le _ _ more)))
      | inr done ↦ rw (done, read_key_shares) (λ e. cc)
    ]

key_share_extension-ne-hang :
    (bytes : Bytes) (ext_type offset ext_len : ℕ) (groups : List ℕ)
    → key_share_extension (suc ext_len) bytes ext_type offset ext_len groups ≢ hang
unfolding key_share_extension
key_share_extension-ne-hang bytes ext_type offset ext_len groups =
    elim (Bool-cases (ext_type == 0x33)) [
      | inl yes_ ↦ rw yes_ (
          bind-ne-hang (refuse (ltb ext_len 2) key_share_too_short) _ (refuse-ne-hang _ _) λ u e.
            read_key_shares-ne-hang (suc ext_len) bytes (offset + 2) (offset + ext_len) groups
              (omega arith))
      | inr other ↦ rw other (λ e. cc)
    ]

read_extensions-ne-hang :
    (fuel : ℕ) (bytes : Bytes) (offset end : ℕ) (groups : List ℕ)
    → end - offset < fuel
    → read_extensions fuel bytes offset end groups ≢ hang
unfolding read_extensions
read_extensions-ne-hang zero bytes offset end groups h = elim h [ ]
read_extensions-ne-hang (suc fuel) bytes offset end groups h =
    elim (Bool-cases (leb (offset + 4) end)) [
      | inl more ↦
          rw (more, read_extensions)
            (bind-ne-hang (index16 bytes offset) _ (index16-ne-hang bytes offset) λ t e.
              bind-ne-hang (index16 bytes (offset + 2)) _ (index16-ne-hang bytes _) λ n e.
                bind-ne-hang (refuse (ltb end (offset + 4 + n)) extension_too_long) _
                  (refuse-ne-hang _ _)
                  λ u e.
                    bind-ne-hang (key_share_extension (suc n) bytes t (offset + 4) n groups) _
                      (key_share_extension-ne-hang bytes t (offset + 4) n groups)
                      λ g e.
                        read_extensions-ne-hang fuel bytes (offset + 4 + n) end g
                          (omega (arith, leb→le _ _ more)))
      | inr done ↦ rw (done, read_extensions) (λ e. cc)
    ]

read_suites-ne-hang : (bytes : Bytes) (offset : ℕ) → read_suites bytes offset ≢ hang
unfolding read_suites
read_suites-ne-hang bytes offset =
    bind-ne-hang (refuse (ltb (length bytes) (offset + 2)) no_cipher_suites_len) _
      (refuse-ne-hang _ _)
      λ u e. bind-ne-hang (index16 bytes offset) _ (index16-ne-hang bytes offset) λ n e.
        bind-ne-hang (refuse (ltb (length bytes) (offset + 2 + n)) no_cipher_suites) _
          (refuse-ne-hang _ _) λ u e. read_ciphers-ne-hang ((n + 1) / 2) bytes (offset + 2) _

read_groups-ne-hang : (bytes : Bytes) (offset : ℕ) → read_groups bytes offset ≢ hang
unfolding read_groups
read_groups-ne-hang bytes offset =
    bind-ne-hang (refuse (leb (length bytes) offset) no_compression) _ (refuse-ne-hang _ _) λ u e.
      bind-ne-hang (index bytes offset) _ (index-ne-hang bytes offset) λ c e.
        let exts = offset + (1 + c) in
        bind-ne-hang (refuse (ltb (length bytes) (exts + 2)) no_extensions_len) _
          (refuse-ne-hang _ _)
          λ u e. bind-ne-hang (index16 bytes exts) _ (index16-ne-hang bytes exts) λ n e.
            bind-ne-hang (refuse (ltb (length bytes) (exts + 2 + n)) no_extensions) _
              (refuse-ne-hang _ _)
              λ u e. read_extensions-ne-hang (suc n) bytes (exts + 2) (exts + 2 + n) _ (omega arith)

-- On every input the parser comes to an end: each round of its two loops moves at least four bytes
-- on, so the fuel, one more than the length of the block that the loop is in, suffices.
pub parse_ssl_v3_client_hello-ne-hang : (bytes : Bytes) → parse_ssl_v3_client_hello bytes ≢ hang
unfolding parse_ssl_v3_client_hello
parse_ssl_v3_client_hello-ne-hang bytes =
    bind-ne-hang (refuse (ltb (length bytes) 34) no_version) _ (refuse-ne-hang _ _) λ u e.
      bind-ne-hang (refuse (leb (length bytes) 43) no_session_id_len) _ (refuse-ne-hang _ _) λ u e.
        bind-ne-hang (index bytes 43) _ (index-ne-hang bytes 43) λ s e.
          bind-ne-hang (refuse (ltb (length bytes) (44 + s)) no_session_id) _ (refuse-ne-hang _ _)
            λ u e.
              bind-ne-hang (read_suites bytes (44 + s)) _ (read_suites-ne-hang bytes (44 + s))
                λ r e.
                  bind-ne-hang (read_groups bytes r.1) _ (read_groups-ne-hang bytes r.1)
                    λ g e. λ h. cc
