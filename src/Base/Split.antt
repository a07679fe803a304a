-- ===== src/Base/Split.antt =====
-- `str::split` at a one-byte separator, and `join`, of Rust's standard library.
use mathlib.Core.Path.{◌≡◌, refl}
use mathlib.Core.Logic.{◌≢◌}
use mathlib.Core.Bool.{true, false}
use mathlib.Core.List.{List, [], ◌∷◌, ◌++◌, append-nil, append_assoc}
use Prim.Native.Nat.{ℕ}
use native.Mathlib.Omega.{arith}
use pqcscan.Base.Tests.{◌==◌, ==_refl}
use pqcscan.Base.Lists.{All}
use pqcscan.Base.Octets.{Bytes}

-- The separator does not occur.
abbrev pub Lacks : ℕ → Bytes → Type 0
Lacks b = All (λ c. c ≢ b)

-- The part under way, then the parts of what follows.
split_from : ℕ → Bytes → Bytes → List Bytes
split_from sep cur [] = cur ∷ []
split_from sep cur (c ∷ s) = elim (c == sep) [
  | true ↦ cur ∷ split_from sep [] s
  | false ↦ split_from sep (cur ++ (c ∷ [])) s
]

-- `s.split(sep)`: at least one part, empty parts kept
unfoldable pub split : ℕ → Bytes → List Bytes
unfolding split_from
split sep s = split_from sep [] s

behind : ℕ → List Bytes → Bytes
behind sep [] = []
behind sep (p ∷ ps) = sep ∷ (p ++ behind sep ps)

-- `parts.join(sep)`
unfoldable pub join : ℕ → List Bytes → Bytes
unfolding behind
join sep [] = []
join sep (p ∷ ps) = p ++ behind sep ps

module _ (sep : ℕ) where
  split_from-append :
      (p rest cur : Bytes)
      → Lacks sep p
      → split_from sep cur (p ++ rest) ≡ split_from sep (cur ++ p) rest
  unfolding split_from
  split_from-append [] rest cur h = rw append-nil
  split_from-append (c ∷ p) rest cur h =
      ground (arith, split_from-append p rest (cur ++ (c ∷ [])) h.1, append_assoc cur (c ∷ []) p)

  split_from-sep : (s cur : Bytes) → split_from sep cur (sep ∷ s) ≡ cur ∷ split_from sep [] s
  unfolding split_from
  split_from-sep s cur = ground (arith, ==_refl sep)

  split_from-behind :
      (ps : List Bytes) (cur : Bytes)
      → All (Lacks sep) ps
      → split_from sep cur (behind sep ps) ≡ cur ∷ ps
  unfolding behind
  split_from-behind [] cur h = unfold split_from in refl
  split_from-behind (p ∷ ps) cur h =
      rw (split_from-sep, split_from-append p _ [] h.0, split_from-behind ps p h.1)

  pub split-join : (ps : List Bytes) → ps ≢ [] → All (Lacks sep) ps → split sep (join sep ps) ≡ ps
  unfolding split join
  split-join [] h a = absurd (h refl)
  split-join (p ∷ ps) h a = rw (split_from-append p _ [] a.0) (split_from-behind ps p a.1)
