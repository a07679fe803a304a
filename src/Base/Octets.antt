-- ===== src/Base/Octets.antt =====
-- Byte strings. A Rust `String` is its UTF-8 bytes, and so a list of numbers below 256.
use Prim.Native.Char.{code}
use Prim.Native.String.{String}
use Prim.Native.Nat.{ℕ, ◌+◌, ◌*◌, ◌/◌, ◌%◌, ◌<◌}
use mathlib.Core.Path.{◌≡◌, refl}
use mathlib.Core.Logic.{◌↔◌}
use mathlib.Core.Bool.{Bool, true, false, ◌&&◌}
use mathlib.Core.List.{List, [], ◌∷◌}
use native.Mathlib.Omega.{arith}
use pqcscan.Base.Tests.{◌==◌}
use pqcscan.Base.Results.{Outcome, ok, ◌>>=◌, index}

abbrev pub Bytes : Type 0
Bytes = List ℕ

-- The code points of a literal; these are its bytes when the text is ASCII.
abbrev pub codes : String → Bytes
codes String.[] = []
codes (String.◌∷◌ c s) = code c ∷ codes s

abbrev pub IsByte : ℕ → Type 0
IsByte b = b < 256

-- `==` on byte strings
unfoldable pub equal : Bytes → Bytes → Bool
equal [] [] = true
equal (x ∷ xs) (y ∷ ys) = x == y && equal xs ys
equal _ _ = false

pub equal_iff : (xs ys : Bytes) → (equal xs ys ≡ true) ↔ (xs ≡ ys)
unfolding equal
equal_iff [] [] = ground arith
equal_iff [] (y ∷ ys) = ground arith
equal_iff (x ∷ xs) [] = ground arith
equal_iff (x ∷ xs) (y ∷ ys) = ground (arith, equal_iff xs ys)

pub equal_refl : (a : Bytes) → equal a a ≡ true
equal_refl a = (equal_iff a a).1 refl

-- `u16::from_be_bytes`, also written `((a as u16) << 8) | b as u16` on bytes
abbrev pub be16 : ℕ → ℕ → ℕ
be16 a b = a * 256 + b

abbrev pub be24 : ℕ → ℕ → ℕ → ℕ
be24 a b c = be16 a b * 256 + c

abbrev pub be32 : ℕ → ℕ → ℕ → ℕ → ℕ
be32 a b c d = be24 a b c * 256 + d

-- `write_u16::<BigEndian>`
abbrev pub u16_bytes : ℕ → Bytes
u16_bytes n = n / 256 % 256 ∷ n % 256 ∷ []

-- `write_u32::<BigEndian>`
abbrev pub u32_bytes : ℕ → Bytes
u32_bytes n = n / 16777216 % 256 ∷ n / 65536 % 256 ∷ n / 256 % 256 ∷ n % 256 ∷ []

pub be16-u16_bytes : (n : ℕ) → n < 65536 → be16 (n / 256 % 256) (n % 256) ≡ n
be16-u16_bytes n h = omega arith

pub be32-u32_bytes :
    (n : ℕ)
    → n < 4294967296
    → be32 (n / 16777216 % 256) (n / 65536 % 256) (n / 256 % 256) (n % 256) ≡ n
be32-u32_bytes n h = omega arith

-- `((buf[i] as u16) << 8) | buf[i + 1] as u16`, also written `u16::from_be_bytes([buf[i], buf[i + 1]])`
unfoldable pub index16 : {E : Type 0} → Bytes → ℕ → Outcome E ℕ
index16 buf i = do hi ← index buf i; lo ← index buf (i + 1); ok (be16 hi lo)
