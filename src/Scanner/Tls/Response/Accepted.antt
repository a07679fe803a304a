-- ===== src/Scanner/Tls/Response/Accepted.antt =====
-- Which answers `tls_connect_with_group` takes for the acceptance of a group.
use pqcscan.Base.{
  ℕ, ◌+◌, ◌≤◌, ◌≡◌, ◌↔◌, refl, ap, true, not, [], ◌∷◌, Bytes, be16, be24, length, ltb, ◌==◌,
  Bool-cases, inl, inr, ok, refuse-next, ==_iff, le→ltb, arith,
}
use pqcscan.Scanner.Tls.Response.{
  short_handshake, bad_version, not_server_hello, bad_length, short_alert, alert_length,
  alert_level, byte_at, u16_at, u24_at, read_handshake, read_alert, read_response,
}

-- The start of a handshake record that holds one ServerHello.
pub record StartsServerHello (got : Bytes) : Type 0 where
  pub major : ℕ
  pub minor : ℕ
  pub hi : ℕ
  pub lo : ℕ
  pub len0 : ℕ
  pub len1 : ℕ
  pub len2 : ℕ
  pub legacy_major : ℕ
  pub legacy_minor : ℕ
  pub rest : Bytes
  pub here :
      got
      ≡ 0x16 ∷ major ∷ minor ∷ hi ∷ lo ∷ 2 ∷ len0 ∷ len1 ∷ len2 ∷ legacy_major ∷ legacy_minor ∷ rest
  pub version : be16 major minor ≡ 0x0303
  pub lengths : be24 len0 len1 len2 + 4 ≡ be16 hi lo
  pub legacy_version : be16 legacy_major legacy_minor ≡ 0x0303

-- The checks that the branch of a handshake record makes, in their order.
record Checks (got : Bytes) : Type 0 where
  version_ok : u16_at got 1 ≡ 0x0303
  is_server_hello : byte_at got 5 ≡ 2
  lengths_ok : u24_at got 6 + 4 ≡ u16_at got 3
  legacy_ok : u16_at got 9 ≡ 0x0303

checked : (got : Bytes) → read_handshake got ≡ ok tt → Checks got
unfolding read_handshake
checked got h =
    let (_, h1) = refuse-next (ltb (length got) 5) short_handshake _ h in
    let (version, h2) = refuse-next (not (u16_at got 1 == 0x0303)) bad_version _ h1 in
    let (kind, h3) = refuse-next (not (byte_at got 5 == 2)) not_server_hello _ h2 in
    let (lengths, h4) = refuse-next (not (u24_at got 6 + 4 == u16_at got 3)) bad_length _ h3 in
    let (legacy, _) = refuse-next (not (u16_at got 9 == 0x0303)) bad_version _ h4 in
    record {
      version_ok = ground (arith, version);
      is_server_hello = ground (arith, kind);
      lengths_ok = ground (arith, lengths);
      legacy_ok = ground (arith, legacy);
    }

-- A byte that is not zero was read.
start_of : (got : Bytes) → byte_at got 0 ≡ 0x16 → Checks got → StartsServerHello got
unfolding byte_at
start_of [] first c = absurd (omega (arith, c.legacy_ok))
start_of (x0 ∷ []) first c = absurd (omega (arith, c.legacy_ok))
start_of (x0 ∷ x1 ∷ []) first c = absurd (omega (arith, c.legacy_ok))
start_of (x0 ∷ x1 ∷ x2 ∷ []) first c = absurd (omega (arith, c.legacy_ok))
start_of (x0 ∷ x1 ∷ x2 ∷ x3 ∷ []) first c = absurd (omega (arith, c.legacy_ok))
start_of (x0 ∷ x1 ∷ x2 ∷ x3 ∷ x4 ∷ []) first c = absurd (omega (arith, c.legacy_ok))
start_of (x0 ∷ x1 ∷ x2 ∷ x3 ∷ x4 ∷ x5 ∷ []) first c = absurd (omega (arith, c.legacy_ok))
start_of (x0 ∷ x1 ∷ x2 ∷ x3 ∷ x4 ∷ x5 ∷ x6 ∷ []) first c = absurd (omega (arith, c.legacy_ok))
start_of (x0 ∷ x1 ∷ x2 ∷ x3 ∷ x4 ∷ x5 ∷ x6 ∷ x7 ∷ []) first c = absurd (omega (arith, c.legacy_ok))
start_of (x0 ∷ x1 ∷ x2 ∷ x3 ∷ x4 ∷ x5 ∷ x6 ∷ x7 ∷ x8 ∷ []) first c =
    absurd (omega (arith, c.legacy_ok))
start_of (x0 ∷ x1 ∷ x2 ∷ x3 ∷ x4 ∷ x5 ∷ x6 ∷ x7 ∷ x8 ∷ x9 ∷ []) first c =
    absurd (omega (arith, c.legacy_ok))
start_of (x0 ∷ x1 ∷ x2 ∷ x3 ∷ x4 ∷ x5 ∷ x6 ∷ x7 ∷ x8 ∷ x9 ∷ x10 ∷ rest) first c = record {
  major = x1;
  minor = x2;
  hi = x3;
  lo = x4;
  len0 = x6;
  len1 = x7;
  len2 = x8;
  legacy_major = x9;
  legacy_minor = x10;
  rest = rest;
  here = rw (first, c.is_server_hello) refl;
  version = c.version_ok;
  lengths = c.lengths_ok;
  legacy_version = c.legacy_ok;
}

read_alert-ne-ok : (got : Bytes) → ¬ (read_alert got ≡ ok tt)
unfolding read_alert
read_alert-ne-ok got h =
    let (_, h1) = refuse-next (ltb (length got) 5) short_alert _ h in
    let (_, h2) = refuse-next (not (u16_at got 1 == 0x0303)) bad_version _ h1 in
    let (_, h3) = refuse-next (not (u16_at got 3 == 2)) alert_length _ h2 in
    let (_, h4) = refuse-next (not (byte_at got 5 == 2)) alert_level _ h3 in absurd (cc)

equals : {a b : ℕ} → a ≡ b → (a == b) ≡ true
equals {a} {b} e = (==_iff a b).1 e

-- An answer is taken for acceptance exactly if it has at least eleven bytes and these begin a
-- handshake record of version 0x0303 with a ServerHello of the version 0x0303 that fills it, by the
-- lengths in both headers. Nothing behind these eleven bytes is looked at, neither the group that
-- the server chose nor whether it is the scanner's.
pub read_response-StartsServerHello :
    (got : Bytes) → (read_response got ≡ ok tt) ↔ StartsServerHello got
unfolding read_response
read_response-StartsServerHello got = (
  λ h. elim (Bool-cases (byte_at got 0 == 0x16)) [
    | inl handshake ↦
        start_of got (ground (arith, handshake)) (checked got (let h' = rw handshake at h in h'))
    | inr other ↦
        let h' = rw other at h in
        elim (Bool-cases (byte_at got 0 == 0x15)) [
          | inl is_alert ↦ absurd (read_alert-ne-ok got (rw is_alert at h'))
          | inr neither ↦ let h'' = rw neither at h' in absurd (cc)
        ]
  ],
  λ s. rw s.here (
      unfold byte_at read_handshake in
      rw
        (
          le→ltb (length (0 ∷ 0 ∷ 0 ∷ 0 ∷ 0 ∷ 0 ∷ 0 ∷ 0 ∷ 0 ∷ 0 ∷ 0 ∷ s.rest)) 5 (omega arith),
          equals s.version,
          equals s.lengths,
          equals s.legacy_version,
        )
        refl),
)

-- An answer that is taken for acceptance has at least eleven bytes: the zeros in the buffer behind
-- a shorter answer never complete one.
pub read_response-length : (got : Bytes) → read_response got ≡ ok tt → 11 ≤ length got
read_response-length got h =
    let s = (read_response-StartsServerHello got).0 h in omega (arith, ap length s.here)
