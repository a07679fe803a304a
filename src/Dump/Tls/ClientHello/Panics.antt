-- ===== src/Dump/Tls/ClientHello/Panics.antt =====
-- When the parser of ClientHello messages panics.
use pqcscan.Base.{
  ℕ, zero, suc, ◌+◌, ◌*◌, ◌/◌, ◌%◌, ◌≤◌, ◌≡◌, ◌≢◌, List, [], Bytes, le→ltb, lt→leb, length, ltb,
  leb, leb→le, leb→lt, ltb→le, ◌==◌, Bool-cases, inl, inr, ok, panic, refuse, refuse-ok, index,
  index16, bind-ne-panic, bind-eq-panic, refuse-ne-panic, arith, ◌↔◌,
}
use pqcscan.Base.Reading.{index-ne-panic, index16-ne-panic, index-lt, index-le}
use pqcscan.Dump.Tls.ClientHello.{
  HelloError, read_ciphers, read_key_shares, key_share_extension, read_extensions, read_suites,
  read_groups, parse_ssl_v3_client_hello, key_exchange_too_short, extension_too_long,
  key_share_too_short, no_version, no_session_id_len, no_session_id, no_cipher_suites_len,
  no_cipher_suites, no_compression, no_extensions_len, no_extensions,
}

read_ciphers-ne-panic :
    (n : ℕ) (bytes : Bytes) (offset : ℕ) (suites : List ℕ)
    → offset + 2 * n ≤ length bytes
    → read_ciphers n bytes offset suites ≢ panic
unfolding read_ciphers
read_ciphers-ne-panic zero bytes offset suites h = λ e. cc
read_ciphers-ne-panic (suc n) bytes offset suites h =
    bind-ne-panic (index16 bytes offset) _ (index16-ne-panic bytes offset (omega arith))
      λ cs e. read_ciphers-ne-panic n bytes (offset + 2) _ (omega arith)

read_key_shares-ne-panic :
    (fuel : ℕ) (bytes : Bytes) (offset end : ℕ) (groups : List ℕ)
    → end ≤ length bytes
    → read_key_shares fuel bytes offset end groups ≢ panic
unfolding read_key_shares
read_key_shares-ne-panic zero bytes offset end groups h = λ e. cc
read_key_shares-ne-panic (suc fuel) bytes offset end groups h =
    elim (Bool-cases (leb (offset + 4) end)) [
      | inl more ↦
          let room = leb→le _ _ more in
          rw (more, read_key_shares)
            (bind-ne-panic (index16 bytes offset) _ (index16-ne-panic bytes offset (omega arith))
              λ g e.
                bind-ne-panic (index16 bytes (offset + 2)) _
                  (index16-ne-panic bytes _ (omega arith))
                  λ k e.
                    bind-ne-panic (refuse (ltb end (offset + 4 + k)) key_exchange_too_short) _
                      (refuse-ne-panic _ _)
                      λ u e. read_key_shares-ne-panic fuel bytes (offset + 4 + k) end _ h)
      | inr done ↦ rw (done, read_key_shares) (λ e. cc)
    ]

key_share_extension-ne-panic :
    (fuel : ℕ) (bytes : Bytes) (ext_type offset ext_len : ℕ) (groups : List ℕ)
    → offset + ext_len ≤ length bytes
    → key_share_extension fuel bytes ext_type offset ext_len groups ≢ panic
unfolding key_share_extension
key_share_extension-ne-panic fuel bytes ext_type offset ext_len groups h =
    elim (Bool-cases (ext_type == 0x33)) [
      | inl hit ↦ rw hit (
          bind-ne-panic (refuse (ltb ext_len 2) key_share_too_short) _ (refuse-ne-panic _ _)
            λ u e. read_key_shares-ne-panic fuel bytes (offset + 2) (offset + ext_len) groups h)
      | inr other ↦ rw other (λ e. cc)
    ]

read_extensions-ne-panic :
    (fuel : ℕ) (bytes : Bytes) (offset end : ℕ) (groups : List ℕ)
    → end ≤ length bytes
    → read_extensions fuel bytes offset end groups ≢ panic
unfolding read_extensions
read_extensions-ne-panic zero bytes offset end groups h = λ e. cc
read_extensions-ne-panic (suc fuel) bytes offset end groups h =
    elim (Bool-cases (leb (offset + 4) end)) [
      | inl more ↦
          let room = leb→le _ _ more in
          rw (more, read_extensions)
            (bind-ne-panic (index16 bytes offset) _ (index16-ne-panic bytes offset (omega arith))
              λ t e.
                bind-ne-panic (index16 bytes (offset + 2)) _
                  (index16-ne-panic bytes _ (omega arith))
                  λ n e.
                    bind-ne-panic (refuse (ltb end (offset + 4 + n)) extension_too_long) _
                      (refuse-ne-panic _ _)
                      λ u fits.
                        bind-ne-panic (key_share_extension (suc n) bytes t (offset + 4) n groups) _
                          (key_share_extension-ne-panic (suc n) bytes t (offset + 4) n groups
                            (omega (arith, ltb→le _ _ (refuse-ok _ _ fits))))
                          λ g e. read_extensions-ne-panic fuel bytes (offset + 4 + n) end g h)
      | inr done ↦ rw (done, read_extensions) (λ e. cc)
    ]

-- From the compression methods on, every read is in bounds.
read_groups-ne-panic : (bytes : Bytes) (offset : ℕ) → read_groups bytes offset ≢ panic
unfolding read_groups
read_groups-ne-panic bytes offset =
    bind-ne-panic (refuse (leb (length bytes) offset) no_compression) _ (refuse-ne-panic _ _) λ u p.
      bind-ne-panic (index bytes offset) _
        (index-ne-panic bytes offset (leb→lt _ _ (refuse-ok _ _ p)))
        λ c e.
          let exts = offset + (1 + c) in
          bind-ne-panic (refuse (ltb (length bytes) (exts + 2)) no_extensions_len) _
            (refuse-ne-panic _ _)
            λ u q.
              bind-ne-panic (index16 bytes exts) _
                (index16-ne-panic bytes exts (omega (arith, ltb→le _ _ (refuse-ok _ _ q))))
                λ n e.
                  bind-ne-panic (refuse (ltb (length bytes) (exts + 2 + n)) no_extensions) _
                    (refuse-ne-panic _ _)
                    λ u r.
                      read_extensions-ne-panic (suc n) bytes (exts + 2) (exts + 2 + n) _
                        (ltb→le _ _ (refuse-ok _ _ r))

-- The cipher suites' length, read at the offset, is odd, and the suites end the data.
pub record Overruns (bytes : Bytes) (offset : ℕ) : Type 0 where
  pub len : ℕ
  pub reads : index16 {E = HelloError} bytes offset ≡ ok len
  pub odd : len % 2 ≡ 1
  pub ends : offset + 2 + len ≡ length bytes

read_ciphers-panic :
    (n : ℕ) (bytes : Bytes) (offset : ℕ) (suites : List ℕ)
    → offset + 2 * suc n ≡ length bytes + 1
    → read_ciphers (suc n) bytes offset suites ≡ panic
unfolding read_ciphers index16
read_ciphers-panic zero bytes offset suites h =
    let (a, p) = index-lt {E = HelloError} bytes offset (omega arith) in
    rw (p, index-le {E = HelloError} bytes (offset + 1) (omega arith))
read_ciphers-panic (suc n) bytes offset suites h =
    let (a, p) = index-lt {E = HelloError} bytes offset (omega arith) in
    let (b, q) = index-lt {E = HelloError} bytes (offset + 1) (omega arith) in
    rw (p, q) (read_ciphers-panic n bytes (offset + 2) _ (omega arith))

Overruns-panic :
    (bytes : Bytes) (offset : ℕ) → Overruns bytes offset → read_suites bytes offset ≡ panic
unfolding read_suites
Overruns-panic bytes offset o =
    let rounds : (o.len + 1) / 2 ≡ suc (o.len / 2) = omega (arith, o.odd) in
    rw (le→ltb (length bytes) (offset + 2) (omega (arith, o.ends)), o.reads)
      (rw (le→ltb (length bytes) (offset + 2 + o.len) (omega (arith, o.ends)), rounds)
        (read_ciphers-panic (o.len / 2) bytes (offset + 2) [] (omega (arith, o.odd, o.ends))))

panic-Overruns :
    (bytes : Bytes) (offset : ℕ) → read_suites bytes offset ≡ panic → Overruns bytes offset
unfolding read_suites
panic-Overruns bytes offset h =
    elim (bind-eq-panic (refuse (ltb (length bytes) (offset + 2)) no_cipher_suites_len) _ h) [
      | inl e ↦ absurd (refuse-ne-panic _ _ e)
      | inr (u, e, h') ↦ elim (bind-eq-panic (index16 bytes offset) _ h') [
        | inl p ↦
            absurd (index16-ne-panic bytes offset (omega (arith, ltb→le _ _ (refuse-ok _ _ e))) p)
        | inr (n, r, h'') ↦
            elim (bind-eq-panic (refuse (ltb (length bytes) (offset + 2 + n)) no_cipher_suites) _
              h'') [
                | inl q ↦ absurd (refuse-ne-panic _ _ q)
                | inr (v, q, s) ↦
                    let fits = ltb→le _ _ (refuse-ok _ _ q) in
                    let over : ¬ (offset + 2 + 2 * ((n + 1) / 2) ≤ length bytes) =
                      λ k. read_ciphers-ne-panic ((n + 1) / 2) bytes (offset + 2) [] k s in
                    record {
                      len = n;
                      reads = r;
                      odd = omega (arith, fits, over);
                      ends = omega (arith, fits, over);
                    }
              ]
      ]
    ]

-- The parser panics exactly on the data that end with cipher suites of odd length: it reads two
-- bytes for the last, odd one.
pub parse_ssl_v3_client_hello-panic_iff :
    (bytes : Bytes)
    → (parse_ssl_v3_client_hello bytes ≡ panic)
      ↔ ((s : ℕ) × (index {E = HelloError} bytes 43 ≡ ok s) × Overruns bytes (44 + s))
unfolding parse_ssl_v3_client_hello
parse_ssl_v3_client_hello-panic_iff bytes = (to, from)
  where
    to :
        parse_ssl_v3_client_hello bytes ≡ panic
        → (s : ℕ) × (index {E = HelloError} bytes 43 ≡ ok s) × Overruns bytes (44 + s)
    to h = elim (bind-eq-panic (refuse (ltb (length bytes) 34) no_version) _ h) [
      | inl e ↦ absurd (refuse-ne-panic _ _ e)
      | inr (u, _, h) ↦
          elim (bind-eq-panic (refuse (leb (length bytes) 43) no_session_id_len) _ h) [
            | inl e ↦ absurd (refuse-ne-panic _ _ e)
            | inr (u, e, h) ↦ elim (bind-eq-panic (index bytes 43) _ h) [
              | inl p ↦ absurd (index-ne-panic bytes 43 (leb→lt _ _ (refuse-ok _ _ e)) p)
              | inr (s, r, h) ↦
                  elim (bind-eq-panic (refuse (ltb (length bytes) (44 + s)) no_session_id) _ h) [
                    | inl e ↦ absurd (refuse-ne-panic _ _ e)
                    | inr (u, e, h) ↦ elim (bind-eq-panic (read_suites bytes (44 + s)) _ h) [
                      | inl p ↦ (s, r, panic-Overruns bytes (44 + s) p)
                      | inr (c, e, h) ↦ elim (bind-eq-panic (read_groups bytes c.1) _ h) [
                        | inl p ↦ absurd (read_groups-ne-panic bytes c.1 p)
                        | inr (g, e, h) ↦ absurd (cc)
                      ]
                    ]
                  ]
            ]
          ]
    ]

    from :
        (s : ℕ) × (index {E = HelloError} bytes 43 ≡ ok s) × Overruns bytes (44 + s)
        → parse_ssl_v3_client_hello bytes ≡ panic
    from (s, r, o) =
        rw
          (
            le→ltb (length bytes) 34 (omega (arith, o.ends)),
            lt→leb (length bytes) 43 (omega (arith, o.ends)),
          )
          (rw (r) (
            rw (
              le→ltb (length bytes) (44 + s) (omega (arith, o.ends)),
              Overruns-panic bytes (44 + s) o,
            )))
