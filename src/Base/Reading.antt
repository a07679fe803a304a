-- ===== src/Base/Reading.antt =====
-- Reading a buffer by offsets: `At buf off rest` says that the offset is in bounds and that `rest`
-- is what the buffer holds from there.
use mathlib.Core.Path.{◌≡◌, refl, ap, ◌∙◌}
use mathlib.Core.List.{List, [], ◌∷◌, ◌++◌}
use mathlib.Core.Path.{sym}
use mathlib.Core.Logic.{◌≢◌}
use mathlib.Core.List.{append_assoc}
use mathlib.Core.Option.{some}
use Prim.Native.Nat.{ℕ, zero, suc, ◌+◌, ◌-◌, ◌≤◌, ◌<◌}
use native.Mathlib.Omega.{arith}
use pqcscan.Base.Tests.{le→ltb}
use pqcscan.Base.Lists.{
  length, take, drop, get_elem?, length-append, length-drop, take-length_append, drop-length_append,
}
use pqcscan.Base.Results.{ok, panic, hang, index, slice, index-ne-hang}
use pqcscan.Base.Octets.{Bytes, be16, index16}

module _ {ℓ} {A : Type ℓ} where
  pub record At (buf : List A) (off : ℕ) (rest : List A) : Type ℓ where
    pub read : List A
    pub splits : buf ≡ read ++ rest
    pub here : off ≡ length read

  get_elem?-append :
      (read rest : List A) (x : A) → get_elem? (read ++ (x ∷ rest)) (length read) ≡ some x
  get_elem?-append [] rest x = refl
  get_elem?-append (y ∷ read) rest x = get_elem?-append read rest x

module _ {ℓ} {A : Type ℓ} {buf : List A} {off : ℕ} where
  pub At-move :
      (xs : List A) {rest : List A} (to : ℕ)
      → At buf off (xs ++ rest)
      → to ≡ off + length xs
      → At buf to rest
  At-move xs {rest} to a e = record {
    read = a.read ++ xs;
    splits = a.splits ∙ sym (append_assoc a.read xs rest);
    here = omega (arith, length-append a.read xs, a.here);
  }

  pub At-length : {rest : List A} → At buf off rest → length buf ≡ off + length rest
  At-length {rest} a = omega (arith, ap length a.splits, length-append a.read rest, a.here)

  pub index-At :
      {E : Type 0} {x : A} {rest : List A} → At buf off (x ∷ rest) → index {E = E} buf off ≡ ok x
  unfolding index
  index-At {x} {rest} a = rw (a.splits, a.here, index) (rw (get_elem?-append a.read rest x, index))

  pub slice-At :
      {E : Type 0} (xs rest : List A) (to : ℕ)
      → At buf off (xs ++ rest)
      → to ≡ off + length xs
      → slice {E = E} buf off to ≡ ok xs
  unfolding slice
  slice-At xs rest to a e =
      let n : to - off ≡ length xs = omega arith in
      let fits : to ≤ length buf = omega (arith, At-length a, length-append xs rest) in
      let d : drop off buf ≡ xs ++ rest = rw (a.splits, a.here) (drop-length_append a.read _) in
      rw
        (le→ltb to off (omega arith), le→ltb (length buf) to fits, n, d, take-length_append xs rest)

pub At-start {ℓ} : {A : Type ℓ} (buf : List A) → At buf 0 buf
At-start buf = record { read = []; splits = refl; here = refl }

module _ {ℓ} {E : Type 0} {A : Type ℓ} where
  pub index-lt : (buf : List A) (i : ℕ) → i < length buf → (b : A) × (index {E = E} buf i ≡ ok b)
  unfolding index
  index-lt [] i h = elim h [ ]
  index-lt (b ∷ buf) zero h = (b, refl)
  index-lt (b ∷ buf) (suc i) h = index-lt buf i (omega arith)

  pub index-ne-panic : (buf : List A) (i : ℕ) → i < length buf → index {E = E} buf i ≢ panic
  index-ne-panic buf i h e = let (b, r) = index-lt buf i h in cc

  pub slice-le :
      (buf : List A) (from to : ℕ)
      → from ≤ to
      → to ≤ length buf
      → slice {E = E} buf from to ≡ ok (take (to - from) (drop from buf))
  unfolding slice
  slice-le buf from to h k = rw (le→ltb to from h, le→ltb (length buf) to k)

module _ {ℓ} {A : Type ℓ} {buf : List A} where
  pub At-drop : {off : ℕ} {rest : List A} → At buf off rest → drop off buf ≡ rest
  At-drop a = rw (a.splits, a.here) (drop-length_append a.read _)

  -- Two pieces of a buffer, the second behind the first, are one piece.
  pub At-join :
      (xs ys after rest : List A) {off : ℕ} (to : ℕ)
      → At buf off (xs ++ after)
      → At buf to (ys ++ rest)
      → to ≡ off + length xs
      → At buf off ((xs ++ ys) ++ rest)
  At-join xs ys after rest to a b e =
      let same : after ≡ ys ++ rest = sym (At-drop (At-move xs to a e)) ∙ At-drop b in
      rw (append_assoc xs ys rest, ← same) a

take-all {ℓ} : {A : Type ℓ} (xs : List A) → take (length xs) xs ≡ xs
take-all [] = refl
take-all (x ∷ xs) = ap (◌∷◌ x) (take-all xs)

module _ {ℓ} {E : Type 0} {A : Type ℓ} (buf : List A) (n : ℕ) (fits : n ≤ length buf) where
  -- `&buf[..n]`
  pub slice-take : slice {E = E} buf 0 n ≡ ok (take n buf)
  slice-take = let e : n - 0 ≡ n = omega arith in rw (slice-le buf 0 n (omega arith) fits, e)

  -- `&buf[n..]`
  pub slice-drop : slice {E = E} buf n (length buf) ≡ ok (drop n buf)
  slice-drop =
      let e : length buf - n ≡ length (drop n buf) = omega (arith, length-drop n buf) in
      rw (slice-le buf n (length buf) fits (omega arith), e, take-all (drop n buf))

module _ {E : Type 0} (buf : Bytes) where
  pub index16-ne-panic : (i : ℕ) → i + 1 < length buf → index16 {E = E} buf i ≢ panic
  unfolding index16
  index16-ne-panic i h e =
      let (a, p) = index-lt {E = E} buf i (omega arith) in
      let (b, q) = index-lt {E = E} buf (i + 1) h in ground (arith, p, q)

  pub index16-ne-hang : (i : ℕ) → index16 {E = E} buf i ≢ hang
  unfolding index16
  index16-ne-hang i e =
      ground (arith, index-ne-hang {E = E} buf i, index-ne-hang {E = E} buf (i + 1))

  pub index16-At :
      {off : ℕ} {rest : Bytes} (a b : ℕ)
      → At buf off (a ∷ b ∷ rest)
      → index16 {E = E} buf off ≡ ok (be16 a b)
  unfolding index16
  index16-At {off} a b at = rw (index-At at, index-At (At-move (a ∷ []) (off + 1) at refl))

module _ {ℓ} {E : Type 0} {A : Type ℓ} where
  pub index-le : (buf : List A) (i : ℕ) → length buf ≤ i → index {E = E} buf i ≡ panic
  unfolding index
  index-le [] i h = refl
  index-le (b ∷ buf) zero h = absurd (omega arith)
  index-le (b ∷ buf) (suc i) h = index-le buf i (omega arith)
