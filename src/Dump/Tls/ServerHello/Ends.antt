-- ===== src/Dump/Tls/ServerHello/Ends.antt =====
-- The loops of the ServerHello parser end: the fuel that is given suffices.
use pqcscan.Base.{
  ℕ, zero, suc, ◌+◌, ◌-◌, ◌<◌, ◌≢◌, not, List, [], Bytes, length, ltb, leb, leb→le, ◌==◌,
  Bool-cases, inl, inr, hang, refuse, index, slice, index16, bind-ne-hang, refuse-ne-hang,
  index-ne-hang, arith,
}
use pqcscan.Base.Reading.{index16-ne-hang}
use pqcscan.Dump.Tls.ServerHello.{
  KeyShareEntry, payload_too_short, not_server_hello, session_id_too_short, read_entries,
  parse_key_share, read_sig_algs, parse_signature_algorithms, on_key_share, on_signature_algorithms,
  read_server_extensions, parse_extensions, read_keyshare, parse_server_hello_v3,
}

slice-ne-hang : {E : Type 0} (bytes : Bytes) (from to : ℕ) → slice {E = E} bytes from to ≢ hang
unfolding slice
slice-ne-hang bytes from to = ground arith

read_entries-ne-hang :
    (fuel : ℕ) (bytes : Bytes) (offset : ℕ) (entries : List KeyShareEntry)
    → length bytes - offset < fuel
    → read_entries fuel bytes offset entries ≢ hang
unfolding read_entries
read_entries-ne-hang zero bytes offset entries h = elim h [ ]
read_entries-ne-hang (suc fuel) bytes offset entries h =
    elim (Bool-cases (leb (offset + 4) (length bytes))) [
      | inl more ↦
          rw (more, read_entries)
            (bind-ne-hang (index16 bytes offset) _ (index16-ne-hang bytes offset) λ g e.
              bind-ne-hang (index16 bytes (offset + 2)) _ (index16-ne-hang bytes _) λ k e.
                elim (Bool-cases (ltb (length bytes) (offset + 4 + k))) [
                  | inl beyond ↦ rw beyond (λ e. cc)
                  | inr within ↦ rw within (
                      bind-ne-hang (slice bytes (offset + 4) (offset + 4 + k)) _
                        (slice-ne-hang bytes _ _)
                        λ x e.
                          read_entries-ne-hang fuel bytes (offset + 4 + k) _
                            (omega (arith, leb→le _ _ more)))
                ])
      | inr over ↦ rw (over, read_entries) (λ e. cc)
    ]

parse_key_share-ne-hang : (bytes : Bytes) → parse_key_share bytes ≢ hang
unfolding parse_key_share
parse_key_share-ne-hang bytes = elim (Bool-cases (ltb (length bytes) 2)) [
  | inl short ↦ rw short (λ e. cc)
  | inr long ↦ rw long (read_entries-ne-hang (suc (length bytes)) bytes 0 [] (omega arith))
]

read_sig_algs-ne-hang :
    (fuel : ℕ) (bytes : Bytes) (pos end : ℕ)
    → end - pos < fuel
    → read_sig_algs fuel bytes pos end ≢ hang
unfolding read_sig_algs
read_sig_algs-ne-hang zero bytes pos end h = elim h [ ]
read_sig_algs-ne-hang (suc fuel) bytes pos end h = elim (Bool-cases (leb (pos + 2) end)) [
  | inl more ↦
      rw (more, read_sig_algs)
        (bind-ne-hang (index16 bytes pos) _ (index16-ne-hang bytes pos)
          λ s e. read_sig_algs-ne-hang fuel bytes (pos + 2) end (omega (arith, leb→le _ _ more)))
  | inr over ↦ rw (over, read_sig_algs) (λ e. cc)
]

parse_signature_algorithms-ne-hang : (bytes : Bytes) → parse_signature_algorithms bytes ≢ hang
unfolding parse_signature_algorithms
parse_signature_algorithms-ne-hang bytes = elim (Bool-cases (ltb (length bytes) 2)) [
  | inl short ↦ rw (short, parse_signature_algorithms) (λ e. cc)
  | inr long ↦
      rw (long, parse_signature_algorithms)
        (bind-ne-hang (index16 bytes 0) _ (index16-ne-hang bytes 0) λ n e.
          elim (Bool-cases (ltb (length bytes) (2 + n))) [
            | inl beyond ↦ rw beyond (λ e. cc)
            | inr within ↦ rw within (read_sig_algs-ne-hang (suc n) bytes 2 (2 + n) (omega arith))
          ])
]

on_key_share-ne-hang :
    (bytes : Bytes) (ext_type pos ext_len : ℕ) (entries : List KeyShareEntry)
    → on_key_share bytes ext_type pos ext_len entries ≢ hang
unfolding on_key_share
on_key_share-ne-hang bytes ext_type pos ext_len entries = elim (Bool-cases (ext_type == 0x33)) [
  | inl hit ↦
      rw (hit, on_key_share)
        (bind-ne-hang (slice bytes pos (pos + ext_len)) _ (slice-ne-hang bytes _ _)
          λ p e. parse_key_share-ne-hang p)
  | inr other ↦ rw (other, on_key_share) (λ e. cc)
]

on_signature_algorithms-ne-hang :
    (bytes : Bytes) (ext_type pos ext_len : ℕ)
    → on_signature_algorithms bytes ext_type pos ext_len ≢ hang
unfolding on_signature_algorithms
on_signature_algorithms-ne-hang bytes ext_type pos ext_len = elim (Bool-cases (ext_type == 0xd)) [
  | inl hit ↦
      rw (hit, on_signature_algorithms)
        (bind-ne-hang (slice bytes pos (pos + ext_len)) _ (slice-ne-hang bytes _ _)
          λ p e. parse_signature_algorithms-ne-hang p)
  | inr other ↦ rw (other, on_signature_algorithms) (λ e. cc)
]

read_server_extensions-ne-hang :
    (fuel : ℕ) (bytes : Bytes) (pos : ℕ) (entries : List KeyShareEntry)
    → length bytes - pos < fuel
    → read_server_extensions fuel bytes pos entries ≢ hang
unfolding read_server_extensions
read_server_extensions-ne-hang zero bytes pos entries h = elim h [ ]
read_server_extensions-ne-hang (suc fuel) bytes pos entries h =
    elim (Bool-cases (leb (pos + 4) (length bytes))) [
      | inl more ↦
          rw (more, read_server_extensions)
            (bind-ne-hang (index16 bytes pos) _ (index16-ne-hang bytes pos) λ t e.
              bind-ne-hang (index16 bytes (pos + 2)) _ (index16-ne-hang bytes _) λ n e.
                bind-ne-hang (on_key_share bytes t (pos + 4) n entries) _
                  (on_key_share-ne-hang bytes _ _ _ _)
                  λ k e.
                    bind-ne-hang (on_signature_algorithms bytes t (pos + 4) n) _
                      (on_signature_algorithms-ne-hang bytes _ _ _)
                      λ u e.
                        read_server_extensions-ne-hang fuel bytes (pos + 4 + n) k
                          (omega (arith, leb→le _ _ more)))
      | inr over ↦ rw (over, read_server_extensions) (λ e. cc)
    ]

read_keyshare-ne-hang : (payload : Bytes) (pos : ℕ) → read_keyshare payload pos ≢ hang
unfolding read_keyshare parse_extensions
read_keyshare-ne-hang payload pos =
    bind-ne-hang (index16 payload pos) _ (index16-ne-hang payload pos) λ n e.
      elim (Bool-cases (ltb (length payload) (pos + 2 + n))) [
        | inl beyond ↦ rw beyond (λ e. cc)
        | inr within ↦ rw within (
            bind-ne-hang (slice payload (pos + 2) (pos + 2 + n)) _ (slice-ne-hang payload _ _)
              λ x e.
                bind-ne-hang (parse_extensions x) _
                  (read_server_extensions-ne-hang (suc (length x)) x 0 [] (omega arith))
                  λ k e. λ z. cc)
      ]

-- On every input the parser of ServerHello messages comes to an end, that of its extensions, key
-- shares and signature algorithms included: each round of the loops moves on, so the fuel, one more
-- than the bytes that the loop walks through, suffices.
pub parse_server_hello_v3-ne-hang : (payload : Bytes) → parse_server_hello_v3 payload ≢ hang
unfolding parse_server_hello_v3
parse_server_hello_v3-ne-hang payload =
    bind-ne-hang (refuse (ltb (length payload) 47) payload_too_short) _ (refuse-ne-hang _ _) λ u e.
      bind-ne-hang (index payload 5) _ (index-ne-hang payload 5) λ h e.
        bind-ne-hang (refuse (not (h == 2)) not_server_hello) _ (refuse-ne-hang _ _) λ u e.
          bind-ne-hang (index payload 43) _ (index-ne-hang payload 43) λ s e.
            bind-ne-hang (refuse (ltb (length payload) (44 + s + 3)) session_id_too_short) _
              (refuse-ne-hang _ _)
              λ u e. bind-ne-hang (index16 payload (44 + s)) _ (index16-ne-hang payload _) λ c e.
                bind-ne-hang (read_keyshare payload (44 + s + 3)) _
                  (read_keyshare-ne-hang payload _) λ k e. λ z. cc
