-- ===== src/Scanner/Target/Lines.antt =====
-- The list of targets in a file: which line an error names.
use pqcscan.Base.{
  ℕ, ◌+◌, ◌≡◌, Option, none, some, List, ◌∷◌, ◌++◌, Bytes, false, ok, err, length, All,
}
use pqcscan.Scanner.Target.{Target, TargetError, parse_single_target, is_skipped}

-- A line that the loop passes: it is skipped, or it is a target.
abbrev pub Passes : Option ℕ → Option Bytes → Type 0
Passes default_port none = ⊥
Passes default_port (some line) =
    (is_skipped line ≡ false) → (t : Target) × (parse_single_target line default_port ≡ ok t)

-- The line that fails, with what is in front of it.
pub record FailsAt (lines : List (Option Bytes)) (default_port : Option ℕ) (line_no : ℕ)
    (e : TargetError) : Type 0 where
  pub before : List (Option Bytes)
  pub after : List (Option Bytes)
  pub line : Bytes
  pub splits : lines ≡ before ++ (some line ∷ after)
  pub passes : All (Passes default_port) before
  pub counted : is_skipped line ≡ false
  pub fails : parse_single_target line default_port ≡ err e
  pub number : line_no ≡ length before + 1

-- The number is counted from `line_no`.
abbrev Numbered : ℕ → ℕ → List (Option Bytes) → Option ℕ → TargetError → Type 0
Numbered line_no k lines default_port e =
    (m : ℕ) × (k ≡ line_no + m) × FailsAt lines default_port m e
