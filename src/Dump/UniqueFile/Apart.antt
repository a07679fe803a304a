-- ===== src/Dump/UniqueFile/Apart.antt =====
-- The names that are tried are all different.
use pqcscan.Base.{
  ℕ, zero, suc, ◌≢◌, ◌+◌, ◌/◌, ◌%◌, ◌<◌, ◌≡◌, refl, ap, Option-cases, inl, inr, [], ◌∷◌, Bytes,
  length, drop, drop-length_append, arith,
}
use pqcscan.Dump.UniqueFile.{PathParts, candidate_name}

abbrev elem : ℕ → Bytes → ℕ
elem i [] = 0
elem zero (x ∷ xs) = x
elem (suc i) (x ∷ xs) = elem i xs

-- The two digits of the number, in a name.
candidate_name-digits :
    (parts : PathParts) (n : ℕ)
    → (elem 1 (drop (length parts.stem) (candidate_name parts n)) ≡ b'0' + n / 10)
      × (elem 2 (drop (length parts.stem) (candidate_name parts n)) ≡ b'0' + n % 10)
unfolding candidate_name
candidate_name-digits parts n = elim (Option-cases parts.ext) [
  | inl e ↦ rw (e, candidate_name) (rw (drop-length_append parts.stem _) (refl, refl))
  | inr (ext, e) ↦ rw (e, candidate_name) (rw (drop-length_append parts.stem _) (refl, refl))
]

-- Two different numbers below 100 give different names, so that no name is tried twice.
pub candidate_name-apart :
    (parts : PathParts) (m n : ℕ)
    → m < 100
    → n < 100
    → m ≢ n
    → candidate_name parts m ≢ candidate_name parts n
candidate_name-apart parts m n hm hn apart e =
    let (tens, ones) = candidate_name-digits parts m in
    let (tens', ones') = candidate_name-digits parts n in
    let same1 = ap (λ s. elem 1 (drop (length parts.stem) s)) e in
    let same2 = ap (λ s. elem 2 (drop (length parts.stem) s)) e in
    apart (omega (arith, tens, ones, tens', ones', same1, same2))
