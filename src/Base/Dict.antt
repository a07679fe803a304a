-- ===== src/Base/Dict.antt =====
-- `HashMap` and `HashSet` as association lists, over an interface for equality of keys. A map's
-- keys keep the order of their first insertion; the program's iteration order is unspecified.
use Prim.Native.Nat.{ℕ}
use mathlib.Core.Path.{◌≡◌, refl}
use mathlib.Core.Logic.{◌↔◌, inl, inr, ◌≢◌}
use mathlib.Core.Bool.{Bool, true, false, ◌||◌}
use mathlib.Core.Option.{Option, none, some}
use mathlib.Core.List.{List, [], ◌∷◌, ◌++◌}
use native.Mathlib.Omega.{arith}
use pqcscan.Base.Tests.{if◌then◌else◌, ◌==◌, ==_iff, Bool-cases}
use pqcscan.Base.Octets.{Bytes, equal, equal_iff}

pub record Eq {ℓ} (A : Type ℓ) : Type ℓ where
  pub beq : A → A → Bool
  pub beq_iff : (a b : A) → (beq a b ≡ true) ↔ (a ≡ b)

instance abbrev pub nat_eq : Eq ℕ
nat_eq = record { beq = ◌==◌; beq_iff = ==_iff }

instance abbrev pub bytes_eq : Eq Bytes
bytes_eq = record { beq = equal; beq_iff = equal_iff }

module _ {ℓ κ} {K : Type ℓ} {V : Type κ} ⦃e : Eq K⦄ where
  unfoldable pub lookup : K → List (K × V) → Option V
  lookup k [] = none
  lookup k ((j, v) ∷ m) = if e.beq j k then some v else lookup k m

  -- `HashMap::insert`: replaces the value of a key that is there
  unfoldable pub insert : K → V → List (K × V) → List (K × V)
  insert k v [] = (k, v) ∷ []
  insert k v ((j, w) ∷ m) = if e.beq j k then (j, v) ∷ m else (j, w) ∷ insert k v m

  pub lookup-insert :
      (k j : K) (v : V) (m : List (K × V))
      → lookup j (insert k v m) ≡ (if e.beq k j then some v else lookup j m)
  unfolding lookup insert
  lookup-insert k j v [] = refl
  lookup-insert k j v ((i, w) ∷ m) =
      ground (arith, e.beq_iff k j, e.beq_iff i k, e.beq_iff i j, lookup-insert k j v m)

  pub lookup-insert_self : (k : K) (v : V) (m : List (K × V)) → lookup k (insert k v m) ≡ some v
  lookup-insert_self k v m = ground (arith, lookup-insert k k v m, e.beq_iff k k)

  pub lookup-insert_ne :
      (k j : K) (v : V) (m : List (K × V)) → k ≢ j → lookup j (insert k v m) ≡ lookup j m
  lookup-insert_ne k j v m h = ground (arith, lookup-insert k j v m, e.beq_iff k j)

  -- Writing the value that is there changes nothing.
  pub insert-same : (k : K) (v : V) (m : List (K × V)) → lookup k m ≡ some v → insert k v m ≡ m
  unfolding lookup insert
  insert-same k v [] h = absurd (cc)
  insert-same k v ((j, w) ∷ m) h = elim (Bool-cases (e.beq j k)) [
    | inl hit ↦ let old : w ≡ v = ground (arith, h) in rw (hit, old) refl
    | inr miss ↦ rw (miss, insert-same k v m (rw miss at h)) refl
  ]

  pub insert-again : (k : K) (v : V) (m : List (K × V)) → insert k v (insert k v m) ≡ insert k v m
  insert-again k v m = insert-same k v (insert k v m) (lookup-insert_self k v m)

module _ {ℓ} {A : Type ℓ} ⦃e : Eq A⦄ where
  -- `contains`, of a vector or a set
  unfoldable pub contains : List A → A → Bool
  contains [] a = false
  contains (x ∷ xs) a = e.beq x a || contains xs a

  -- `HashSet::insert`, and `LinkedHashSet::insert` up to the order of its elements
  unfoldable pub set_insert : A → List A → List A
  set_insert a xs = if contains xs a then xs else xs ++ (a ∷ [])

  pub contains-nil : (a : A) → contains [] a ≡ false
  unfolding contains
  contains-nil a = refl

  pub contains-append :
      (xs ys : List A) (a : A) → contains (xs ++ ys) a ≡ (contains xs a || contains ys a)
  unfolding contains
  contains-append [] ys a = refl
  contains-append (x ∷ xs) ys a = ground (arith, contains-append xs ys a)

  pub contains-set_insert :
      (a b : A) (xs : List A) → contains (set_insert a xs) b ≡ (e.beq a b || contains xs b)
  unfolding set_insert
  contains-set_insert a b xs = elim (Bool-cases (contains xs a)) [
    | inl old ↦ rw old (ground (arith, e.beq_iff a b, old))
    | inr new ↦ rw (new, contains-append) (unfold contains in ground arith)
  ]
