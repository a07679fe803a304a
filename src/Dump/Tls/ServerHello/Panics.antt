-- ===== src/Dump/Tls/ServerHello/Panics.antt =====
-- A ServerHello without extensions, and the key share parser, which is safe.
use pqcscan.Base.{
  ℕ, zero, suc, ◌+◌, ◌<◌, ◌≤◌, ◌≡◌, ◌≢◌, List, [], Bytes, length, ltb, leb, leb→le, ltb→le, ltb→lt,
  be16, le→ltb, Bool-cases, inl, inr, ok, panic, index, index16, bind-ne-panic, arith,
}
use pqcscan.Base.Reading.{index16-ne-panic, index-le, index-lt, slice-le}
use pqcscan.Dump.Tls.ServerHello.{
  ServerHelloError, KeyShareEntry, read_entries, parse_key_share, read_keyshare,
  parse_server_hello_v3,
}

read_entries-ne-panic :
    (fuel : ℕ) (bytes : Bytes) (offset : ℕ) (entries : List KeyShareEntry)
    → read_entries fuel bytes offset entries ≢ panic
unfolding read_entries
read_entries-ne-panic zero bytes offset entries = λ e. cc
read_entries-ne-panic (suc fuel) bytes offset entries =
    elim (Bool-cases (leb (offset + 4) (length bytes))) [
      | inl more ↦
          let room = leb→le _ _ more in
          rw (more, read_entries)
            (bind-ne-panic (index16 bytes offset) _ (index16-ne-panic bytes offset (omega arith))
              λ g e.
                bind-ne-panic (index16 bytes (offset + 2)) _
                  (index16-ne-panic bytes _ (omega arith))
                  λ k e. elim (Bool-cases (ltb (length bytes) (offset + 4 + k))) [
                    | inl beyond ↦ rw beyond (λ e. cc)
                    | inr within ↦ rw within (
                        rw
                          (slice-le bytes (offset + 4) (offset + 4 + k) (omega arith)
                            (ltb→le _ _ within))
                          (read_entries-ne-panic fuel bytes (offset + 4 + k) _))
                  ])
      | inr over ↦ rw (over, read_entries) (λ e. cc)
    ]

-- The parser of key shares does not panic, whatever the bytes of the extension are.
pub parse_key_share-ne-panic : (bytes : Bytes) → parse_key_share bytes ≢ panic
unfolding parse_key_share
parse_key_share-ne-panic bytes = elim (Bool-cases (ltb (length bytes) 2)) [
  | inl short ↦ rw short (λ e. cc)
  | inr long ↦ rw long (read_entries-ne-panic (suc (length bytes)) bytes 0 [])
]

index16-panic :
    (bytes : Bytes) (i : ℕ) → length bytes ≤ i + 1 → index16 {E = ServerHelloError} bytes i ≡ panic
unfolding index16
index16-panic bytes i h = elim (Bool-cases (ltb i (length bytes))) [
  | inl lt ↦
      let (a, p) = index-lt {E = ServerHelloError} bytes i (ltb→lt _ _ lt) in
      rw (p, index-le {E = ServerHelloError} bytes (i + 1) h)
  | inr ge ↦ rw (index-le {E = ServerHelloError} bytes i (ltb→le _ _ ge))
]

index16-ok :
    (bytes : Bytes) (i : ℕ)
    → i + 1 < length bytes
    → (n : ℕ) × (index16 {E = ServerHelloError} bytes i ≡ ok n)
unfolding index16
index16-ok bytes i h =
    let (a, p) = index-lt {E = ServerHelloError} bytes i (omega arith) in
    let (b, q) = index-lt {E = ServerHelloError} bytes (i + 1) h in (be16 a b, rw (p, q))

-- A ServerHello that ends with the compression method, or one byte behind it, is not refused: it
-- makes the parser panic at the length of the extensions.
pub parse_server_hello_v3-panic :
    (payload : Bytes) (s : ℕ)
    → index {E = ServerHelloError} payload 5 ≡ ok 2
    → index {E = ServerHelloError} payload 43 ≡ ok s
    → 47 + s ≤ length payload
    → length payload ≤ 48 + s
    → parse_server_hello_v3 payload ≡ panic
unfolding parse_server_hello_v3 read_keyshare
parse_server_hello_v3-panic payload s kind sid long short =
    let (n, suite) = index16-ok payload (44 + s) (omega arith) in
    rw (le→ltb (length payload) 47 (omega arith), kind)
      (rw sid (
        rw (
          le→ltb (length payload) (44 + s + 3) (omega arith),
          suite,
          index16-panic payload (44 + s + 3) (omega arith),
        )))
