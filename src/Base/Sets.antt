-- ===== src/Base/Sets.antt =====
-- Lists without repetition, as sets that are counted.
use Prim.Native.Nat.{◌≤◌, suc}
use mathlib.Core.Path.{◌≡◌, refl, ◌∙◌}
use mathlib.Core.Logic.{inl, inr}
use mathlib.Core.Bool.{true, false}
use mathlib.Core.List.{List, [], ◌∷◌, ◌++◌}
use native.Mathlib.Omega.{arith}
use pqcscan.Base.Tests.{Bool-cases}
use pqcscan.Base.Lists.{length}
use pqcscan.Base.Dict.{Eq, contains, set_insert, contains-append, contains-set_insert}

module _ {ℓ} {A : Type ℓ} ⦃e : Eq A⦄ where
  -- No element occurs twice.
  abbrev pub Distinct : List A → Type 0
  Distinct [] = Unit {0}
  Distinct (x ∷ xs) = (contains xs x ≡ false) × Distinct xs

  -- Every element of the first list is in the second.
  abbrev pub Within : List A → List A → Type ℓ
  Within xs ys = (a : A) → contains xs a ≡ true → contains ys a ≡ true

  without : A → List A → List A
  without a [] = []
  without a (x ∷ xs) = elim (e.beq x a) [ true ↦ xs | false ↦ x ∷ without a xs ]

  length-without :
      (a : A) (xs : List A) → contains xs a ≡ true → length xs ≡ suc (length (without a xs))
  unfolding without contains
  length-without a [] h = absurd (cc)
  length-without a (x ∷ xs) h = elim (Bool-cases (e.beq x a)) [
    | inl hit ↦ rw (hit, without) (omega arith)
    | inr miss ↦ rw (miss, without) (omega (arith, length-without a xs (rw miss at h)))
  ]

  contains-without :
      (a b : A) (xs : List A)
      → e.beq a b ≡ false
      → contains xs b ≡ true
      → contains (without a xs) b ≡ true
  unfolding without contains
  contains-without a b [] d h = h
  contains-without a b (x ∷ xs) d h = elim (Bool-cases (e.beq x a)) [
    | inl hit ↦ rw (hit, without) (ground (arith, e.beq_iff x a, e.beq_iff x b, e.beq_iff a b))
    | inr miss ↦
        rw (miss, without)
          (elim (Bool-cases (e.beq x b)) [
            | inl here ↦ rw here refl
            | inr there ↦ rw there (contains-without a b xs d (rw there at h))
          ])
  ]

  beq-false :
      (x a : A) (xs : List A) → contains xs x ≡ false → contains xs a ≡ true → e.beq x a ≡ false
  beq-false x a xs h k = ground (arith, e.beq_iff x a)

  -- A list without repetition whose elements are in another is no longer than that.
  pub length-Within : (xs ys : List A) → Distinct xs → Within xs ys → length xs ≤ length ys
  unfolding contains
  length-Within [] ys d h = omega arith
  length-Within (x ∷ xs) ys d h =
      let found : contains ys x ≡ true = h x (ground (arith, e.beq_iff x x)) in
      let rest : Within xs (without x ys) =
        λ a k. contains-without x a ys (beq-false x a xs d.0 k) (h a (ground (arith, k))) in
      omega (arith, length-without x ys found, length-Within xs (without x ys) d.1 rest)

  Distinct-append :
      (xs : List A) (a : A) → Distinct xs → contains xs a ≡ false → Distinct (xs ++ (a ∷ []))
  unfolding contains
  Distinct-append [] a d h = (refl, tt)
  Distinct-append (x ∷ xs) a d h = (
    contains-append xs (a ∷ []) x ∙ ground (arith, d.0, e.beq_iff x a, e.beq_iff a x),
    Distinct-append xs a d.1 (ground (arith, h)),
  )

  pub set_insert-Distinct : (a : A) (xs : List A) → Distinct xs → Distinct (set_insert a xs)
  unfolding set_insert
  set_insert-Distinct a xs d = elim (Bool-cases (contains xs a)) [
    | inl old ↦ rw old d
    | inr new ↦ rw new (Distinct-append xs a d new)
  ]

  -- An element that joins both sets, or the larger one only.
  pub Within-both :
      (a : A) (xs ys : List A) → Within xs ys → Within (set_insert a xs) (set_insert a ys)
  Within-both a xs ys h b k =
      ground (arith, contains-set_insert a b xs, contains-set_insert a b ys, h b)

  pub Within-larger : (a : A) (xs ys : List A) → Within xs ys → Within xs (set_insert a ys)
  Within-larger a xs ys h b k = ground (arith, contains-set_insert a b ys, h b k)
