-- ===== src/Scanner/Target.antt =====
-- pqcscan/src/utils.rs: targets, how they are printed and parsed. (The list of targets in a file is
-- read by `get_targets` of pqcscan/src/main.rs, at the end.)
pub mod RoundTrip
pub mod Lines
use pqcscan.Base.{
  ℕ, ◌+◌, Option, none, some, List, [], ◌∷◌, ◌++◌, Bytes, ◌==◌, if◌then◌else◌, Bool, true, false,
  Outcome, ok, err, panic, hang, ◌>>=◌,
}
use pqcscan.Base.Decimal.{decimal, parse_u16}

pub record Target : Type 0 where
  pub host : Bytes
  pub port : ℕ

-- `impl fmt::Display for Target`
unfoldable pub display : Target → Bytes
display t = t.host ++ (b':' ∷ decimal t.port)

-- `input.rfind(sep)`, as the text in front of the last `sep` and the text behind it
unfoldable pub rsplit : ℕ → Bytes → Option (Bytes × Bytes)
rsplit sep [] = none
rsplit sep (c ∷ s) = elim (rsplit sep s) [
  | some (before, after) ↦ some (c ∷ before, after)
  | none ↦ if c == sep then some ([], s) else none
]

pub data TargetError : Type 0 where
  no_port invalid_port no_option io_error : TargetError
  -- the line's number, from one
  line_failed : ℕ → TargetError → TargetError

unfoldable pub parse_single_target : Bytes → Option ℕ → Outcome TargetError Target
parse_single_target input default_port = elim (rsplit b':' input) [
  | none ↦ elim default_port [
    | some port ↦ ok (record { host = input; port = port })
    | none ↦ err no_port
  ]
  | some (before, after) ↦ elim (parse_u16 after) [
    | none ↦ err invalid_port
    | some port ↦ ok (record { host = before; port = port })
  ]
]

-- `line.is_empty() || line.starts_with('#')`
unfoldable pub is_skipped : Bytes → Bool
is_skipped [] = true
is_skipped (c ∷ line) = c == b'#'

-- The loop of `get_targets` over the lines of the file, of which `line_no` came before; `none` is a
-- line that cannot be read.
unfoldable pub read_targets :
    ℕ → List (Option Bytes) → Option ℕ → List Target → Outcome TargetError (List Target)
read_targets line_no [] default_port targets = ok targets
read_targets line_no (none ∷ lines) default_port targets = err io_error
read_targets line_no (some line ∷ lines) default_port targets =
    let skip = read_targets (line_no + 1) lines default_port targets in
    elim (is_skipped line) [
      | true ↦ skip
      | false ↦ elim (parse_single_target line default_port) [
        | ok t ↦ read_targets (line_no + 1) lines default_port (targets ++ (t ∷ []))
        | err e ↦ err (line_failed (line_no + 1) e)
        | panic ↦ panic
        | hang ↦ hang
      ]
    ]

-- The options `-t` and `-T`; a file that cannot be opened has no lines to read.
pub record TargetArgs : Type 0 where
  pub target : Option Bytes
  pub target_list : Option (Option (List (Option Bytes)))

unfoldable pub get_targets : TargetArgs → Option ℕ → Outcome TargetError (List Target)
get_targets args default_port = elim args.target [
  | some t ↦ do one ← parse_single_target t default_port; ok (one ∷ [])
  | none ↦ elim args.target_list [
    | none ↦ err no_option
    | some none ↦ err io_error
    | some (some lines) ↦ read_targets 0 lines default_port []
  ]
]
