-- ===== src/Base/Decimal.antt =====
-- Decimal printing of unsigned integers and `str::parse::<u16>`, of Rust's standard library.
use mathlib.Core.Path.{◌≡◌, refl}
use mathlib.Core.Bool.{◌||◌}
use mathlib.Core.Option.{Option, none, some}
use mathlib.Core.List.{[], ◌∷◌}
use Prim.Native.Nat.{ℕ, zero, suc, ◌+◌, ◌-◌, ◌*◌, ◌/◌, ◌%◌, ◌^◌, ◌<◌, ◌≤◌}
use native.Mathlib.Nat.{pow-suc}
use native.Mathlib.Omega.{arith}
use mathlib.Core.Logic.{inl, inr}
use pqcscan.Base.Tests.{ltb, ◌==◌, Bool-cases, if◌then◌else◌}
use pqcscan.Base.Lists.{All}
use pqcscan.Base.Octets.{Bytes}

-- At most `f` digits of `n`, in front of `out`.
digits : ℕ → ℕ → Bytes → Bytes
digits zero n out = out
digits (suc f) n out =
    let rest = digits f (n / 10) ((b'0' + n % 10) ∷ out) in
    if ltb n 10 then (b'0' + n) ∷ out else rest

-- `n.to_string()`; a `usize` has at most 20 digits
unfoldable pub decimal : ℕ → Bytes
unfolding digits
decimal n = digits 20 n []

scan_u16 : ℕ → Bytes → Option ℕ
scan_u16 n [] = some n
scan_u16 n (c ∷ s) =
    let m = n * 10 + (c - b'0') in
    if ltb c b'0' || ltb b'9' c then none else if ltb 65535 m then none else scan_u16 m s

some_digits : Bytes → Option ℕ
some_digits [] = none
some_digits (c ∷ s) = scan_u16 0 (c ∷ s)

-- `s.parse::<u16>().ok()`: a `+` may stand in front, and every overflow is refused
unfoldable pub parse_u16 : Bytes → Option ℕ
unfolding scan_u16 some_digits
parse_u16 [] = none
parse_u16 (c ∷ s) = if c == b'+' then some_digits s else some_digits (c ∷ s)

abbrev pub IsDigit : ℕ → Type 0
IsDigit c = (b'0' ≤ c) × (c ≤ b'9')

scan_digit :
    (n d : ℕ) (out : Bytes)
    → d < 10
    → n * 10 + d ≤ 65535
    → scan_u16 n ((b'0' + d) ∷ out) ≡ scan_u16 (n * 10 + d) out
unfolding scan_u16
scan_digit n d out h fits = ground arith

scan_u16-digits :
    (f n : ℕ) (out : Bytes) → n < 10 ^ f → n ≤ 65535 → scan_u16 0 (digits f n out) ≡ scan_u16 n out
unfolding digits
scan_u16-digits zero n out h fits = let e : n ≡ 0 = omega (arith, h) in rw e
scan_u16-digits (suc f) n out h fits = ground (
  arith,
  pow-suc 10 f,
  scan_digit 0 n out,
  scan_digit (n / 10) (n % 10) out,
  scan_u16-digits f (n / 10) ((b'0' + n % 10) ∷ out),
)

digits-IsDigit : (f n : ℕ) (out : Bytes) → All IsDigit out → All IsDigit (digits f n out)
unfolding digits
digits-IsDigit zero n out h = h
digits-IsDigit (suc f) n out h = ground (arith, digits-IsDigit f (n / 10) ((b'0' + n % 10) ∷ out))

pub decimal-IsDigit : (n : ℕ) → All IsDigit (decimal n)
unfolding decimal
decimal-IsDigit n = digits-IsDigit 20 n [] tt

digits-cons :
    (f n : ℕ) (c : ℕ) (out : Bytes) → (d : ℕ) × (s : Bytes) × (digits f n (c ∷ out) ≡ d ∷ s)
unfolding digits
digits-cons zero n c out = (c, out, refl)
digits-cons (suc f) n c out = elim (Bool-cases (ltb n 10)) [
  | inl small ↦ (b'0' + n, c ∷ out, rw small)
  | inr large ↦ rw large (digits-cons f (n / 10) (b'0' + n % 10) (c ∷ out))
]

pub decimal-cons : (n : ℕ) → (d : ℕ) × (s : Bytes) × (decimal n ≡ d ∷ s)
unfolding decimal
decimal-cons n = elim (Bool-cases (ltb n 10)) [
  | inl small ↦ (b'0' + n, [], rw small)
  | inr large ↦ rw large (digits-cons 19 (n / 10) (b'0' + n % 10) [])
]

-- A printed `u16` is read back.
pub parse_u16-decimal : (n : ℕ) → n ≤ 65535 → parse_u16 (decimal n) ≡ some n
unfolding parse_u16
parse_u16-decimal n fits =
    let (d, s, e) = decimal-cons n in
    let all = decimal-IsDigit n in
    let all' : All IsDigit (d ∷ s) = rw e at all in
    let scanned : scan_u16 0 (decimal n) ≡ some n =
      unfold decimal in scan_u16-digits 20 n [] (omega arith) fits in
    let scanned' : scan_u16 0 (d ∷ s) ≡ some n = rw e at scanned in
    rw e (ground (arith, scanned', all'.0))
