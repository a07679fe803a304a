-- ===== src/Scanner/Target/RoundTrip.antt =====
-- Printed targets are read back, and what the parser accepts.
use pqcscan.Base.{
  ℕ, ◌≤◌, ◌≡◌, refl, ap, Option, none, some, [], ◌∷◌, ◌++◌, Bytes, ◌==◌, ==_refl, ==_iff,
  Bool-cases, inl, inr, ok, err, Outcome, arith, if◌then◌else◌, All, Option-cases,
}
use pqcscan.Base.Split.{Lacks}
use pqcscan.Base.Decimal.{decimal, parse_u16, parse_u16-decimal, decimal-IsDigit, IsDigit}
use pqcscan.Scanner.Target.{
  Target, display, rsplit, TargetError, no_port, invalid_port, parse_single_target,
}

rsplit-Lacks : (sep : ℕ) (s : Bytes) → Lacks sep s → rsplit sep s ≡ none
unfolding rsplit
rsplit-Lacks sep [] h = refl
rsplit-Lacks sep (c ∷ s) h = rw (rsplit-Lacks sep s h.1, rsplit) (ground arith)

rsplit-append :
    (sep : ℕ) (before after : Bytes)
    → Lacks sep after
    → rsplit sep (before ++ (sep ∷ after)) ≡ some (before, after)
unfolding rsplit
rsplit-append sep [] after h = rw (rsplit-Lacks sep after h, rsplit) (rw (==_refl sep))
rsplit-append sep (c ∷ before) after h = rw (rsplit-append sep before after h, rsplit)

digits-Lacks : (s : Bytes) → All IsDigit s → Lacks b':' s
digits-Lacks [] h = tt
digits-Lacks (c ∷ s) h = (omega arith, digits-Lacks s h.1)

-- Every target is read back from its print, also if its host holds colons.
pub parse-display :
    (t : Target) (default_port : Option ℕ)
    → t.port ≤ 65535
    → parse_single_target (display t) default_port ≡ ok t
unfolding parse_single_target display
parse-display t default_port h =
    rw
      (
        rsplit-append b':' t.host (decimal t.port) (digits-Lacks _ (decimal-IsDigit t.port)),
        parse_single_target,
      )
      (rw (parse_u16-decimal t.port h, parse_single_target))

-- What an accepted input is: a host with no colon, and the default port; or a host, a colon and a
-- port with no colon.
pub data Accepts (input : Bytes) (default_port : Option ℕ) (t : Target) : Type 0 where
  bare :
      Lacks b':' input → t.host ≡ input → default_port ≡ some t.port → Accepts input default_port t
  with_port :
      (after : Bytes)
      → input ≡ t.host ++ (b':' ∷ after)
      → Lacks b':' after
      → parse_u16 after ≡ some t.port
      → Accepts input default_port t

-- What `rsplit` returns for a text.
abbrev AsSplit : ℕ → Bytes → Option (Bytes × Bytes) → Type 0
AsSplit sep s none = Lacks sep s
AsSplit sep s (some p) = (s ≡ p.0 ++ (sep ∷ p.1)) × Lacks sep p.1

rsplit-AsSplit : (sep : ℕ) (s : Bytes) → AsSplit sep s (rsplit sep s)
unfolding rsplit
rsplit-AsSplit sep [] = tt
rsplit-AsSplit sep (c ∷ s) = step c s (rsplit sep s) (rsplit-AsSplit sep s)
  where
    step :
        (c : ℕ) (s : Bytes) (o : Option (Bytes × Bytes))
        → AsSplit sep s o
        → AsSplit sep (c ∷ s) (elim o [
          | some (before, after) ↦ some (c ∷ before, after)
          | none ↦ if c == sep then some ([], s) else none
        ])
    step c s (some p) (e, h) = (ap (◌∷◌ c) e, h)
    step c s none h = elim (Bool-cases (c == sep)) [
      | inl hit ↦ rw hit (ap (λ x. x ∷ s) ((==_iff c sep).0 hit), h)
      | inr miss ↦ rw miss ((λ e. cc ((==_iff c sep).1 e)), h)
    ]

-- The parser accepts only inputs of those two forms.
pub parse_single_target-Accepts :
    (input : Bytes) (default_port : Option ℕ) (t : Target)
    → parse_single_target input default_port ≡ ok t
    → Accepts input default_port t
unfolding parse_single_target
parse_single_target-Accepts input default_port t h =
    go (rsplit b':' input) (rsplit-AsSplit b':' input) default_port h
  where
    go :
        (o : Option (Bytes × Bytes))
        → AsSplit b':' input o
        → (default_port : Option ℕ)
        → elim o as (λ x. Outcome TargetError Target) [
          | none ↦ elim default_port [
            | some port ↦ ok (record { host = input; port = port })
            | none ↦ err no_port
          ]
          | some (before, after) ↦ elim (parse_u16 after) [
            | none ↦ err invalid_port
            | some port ↦ ok (record { host = before; port = port })
          ]
        ]
          ≡ ok t
        → Accepts input default_port t
    go none s none h = absurd (cc)
    go none s (some d) h = bare s (cc) (cc)
    go (some (before, after)) (e, last) d h = elim (Option-cases (parse_u16 after)) [
      | inl p ↦ absurd (ground (arith, p, h))
      | inr (port, p) ↦ with_port after (ground (arith, p, h, e)) last (ground (arith, p, h))
    ]
