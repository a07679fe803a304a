-- ===== src/Base/Addr.antt =====
-- `Ipv4Addr` and `Ipv6Addr` of Rust's standard library, and how they are printed.
use mathlib.Core.Path.{◌≡◌, refl}
use mathlib.Core.List.{List, [], ◌∷◌, ◌++◌, map}
use Prim.Native.Nat.{ℕ, ◌+◌, ◌-◌, ◌/◌, ◌%◌}
use pqcscan.Base.Tests.{ltb, ◌==◌, if◌then◌else◌}
use pqcscan.Base.Lists.{take, drop}
use pqcscan.Base.Octets.{Bytes, codes, equal}
use pqcscan.Base.Split.{join}
use pqcscan.Base.Decimal.{decimal}

pub data IpAddr : Type 0 where
  v4 : ℕ → ℕ → ℕ → ℕ → IpAddr
  -- eight 16-bit segments
  v6 : List ℕ → IpAddr

hex_digit : ℕ → ℕ
hex_digit d = if ltb d 10 then b'0' + d else b'a' + (d - 10)

-- A segment in lower-case hexadecimal, with no leading zeros.
hex : ℕ → Bytes
unfolding hex_digit
hex n =
    if ltb n 16
    then hex_digit n ∷ []
    else if ltb n 256
    then hex_digit (n / 16) ∷ hex_digit (n % 16) ∷ []
    else if ltb n 4096
    then hex_digit (n / 256) ∷ hex_digit (n / 16 % 16) ∷ hex_digit (n % 16) ∷ []
    else hex_digit (n / 4096)
      ∷ hex_digit (n / 256 % 16)
      ∷ hex_digit (n / 16 % 16)
      ∷ hex_digit (n % 16)
      ∷ []

segments_text : List ℕ → Bytes
unfolding hex join
segments_text ss = join b':' (map hex ss)

pub record Span : Type 0 where
  pub start : ℕ
  pub len : ℕ

-- The first of the longest runs of zero segments: `current` is the run under way at segment `i`.
longest_zeros : ℕ → Span → Span → List ℕ → Span
longest_zeros i current longest [] = longest
longest_zeros i current longest (s ∷ ss) =
    let first = if current.len == 0 then i else current.start in
    let current' : Span =
      if s == 0
      then record { start = first; len = current.len + 1 }
      else record { start = 0; len = 0 } in
    longest_zeros (i + 1) current' (if ltb longest.len current'.len then current' else longest) ss

v4_text : ℕ → ℕ → ℕ → ℕ → Bytes
v4_text a b c d = join b'.' (decimal a ∷ decimal b ∷ decimal c ∷ decimal d ∷ [])

-- The last two segments of a mapped address, as an IPv4 address.
mapped_text : List ℕ → Bytes
unfolding v4_text
mapped_text (x ∷ y ∷ _) = v4_text (x / 256) (x % 256) (y / 256) (y % 256)
mapped_text _ = []

v6_text : List ℕ → Bytes
unfolding longest_zeros segments_text mapped_text
v6_text ss =
    let none_yet : Span = record { start = 0; len = 0 } in
    let zeros = longest_zeros 0 none_yet none_yet ss in
    let mapped = equal (take 6 ss) (0 ∷ 0 ∷ 0 ∷ 0 ∷ 0 ∷ 0xffff ∷ []) in
    if mapped
    then codes "::ffff:" ++ mapped_text (drop 6 ss)
    else if ltb 1 zeros.len
    then segments_text (take zeros.start ss)
      ++ (codes "::" ++ segments_text (drop (zeros.start + zeros.len) ss))
    else segments_text ss

-- `addr.to_string()`
unfoldable pub ip_text : IpAddr → Bytes
unfolding v4_text v6_text
ip_text (v4 a b c d) = v4_text a b c d
ip_text (v6 segments) = v6_text segments

ip_texts :
    (ip_text (v4 192 0 2 1) ≡ codes "192.0.2.1")
    × (ip_text (v6 (0x2001 ∷ 0xdb8 ∷ 0 ∷ 0 ∷ 1 ∷ 0 ∷ 0 ∷ 1 ∷ [])) ≡ codes "2001:db8::1:0:0:1")
    × (ip_text (v6 (0 ∷ 0 ∷ 0 ∷ 0 ∷ 0 ∷ 0 ∷ 0 ∷ 1 ∷ [])) ≡ codes "::1")
    × (ip_text (v6 (0 ∷ 0 ∷ 0 ∷ 0 ∷ 0 ∷ 0xffff ∷ 0xc000 ∷ 0x201 ∷ [])) ≡ codes "::ffff:192.0.2.1")
    × (ip_text (v6 (1 ∷ 0 ∷ 2 ∷ 3 ∷ 4 ∷ 5 ∷ 6 ∷ 7 ∷ [])) ≡ codes "1:0:2:3:4:5:6:7")
unfolding ip_text decimal equal
ip_texts = (refl, refl, refl, refl, refl)
