-- ===== src/Dump/UniqueFile.antt =====
-- `create_unique_file` of pqcdump/src/report.rs. The file system's answer to `create_new` is a
-- parameter, as are the parts of the path and the joining of a directory and a name, which are
-- those of `std::path`.
pub mod FirstFree
pub mod Apart
pub mod Tests
use pqcscan.Base.{
  ℕ, zero, suc, ◌+◌, ◌/◌, ◌%◌, Option, none, some, List, [], ◌∷◌, ◌++◌, Bytes, Outcome, ok, err,
}

-- The answer to `OpenOptions::new().write(true).create_new(true).open(path)`.
pub data Opened : Type 0 where
  created already_exists : Opened
  open_failed : Bytes → Opened

pub data IoError : Type 0 where
  io_failed : Bytes → IoError
  no_free_name : Bytes → IoError

-- `parent()`, `file_stem()` and `extension()` of the path
pub record PathParts : Type 0 where
  pub parent : Bytes
  pub stem : Bytes
  pub ext : Option Bytes

abbrev pub max_unique_attempts : ℕ
max_unique_attempts = 99

-- `{n:02}` for a number below 100
abbrev pub two_digits : ℕ → Bytes
two_digits n = (b'0' + n / 10) ∷ (b'0' + n % 10) ∷ []

unfoldable pub candidate_name : PathParts → ℕ → Bytes
candidate_name parts n = elim parts.ext [
  | some ext ↦ parts.stem ++ (b'-' ∷ (two_digits n ++ (b'.' ∷ ext)))
  | none ↦ parts.stem ++ (b'-' ∷ two_digits n)
]

module _ (join : Bytes → Bytes → Bytes) (open_new : Bytes → Opened) where
  -- The next name is tried if the one before is taken.
  unfoldable pub or_else : Bytes → Opened → Outcome IoError Bytes → Outcome IoError Bytes
  or_else path created next = ok path
  or_else path already_exists next = next
  or_else path (open_failed e) next = err (io_failed e)

  -- `for n in 1..=MAX_UNIQUE_ATTEMPTS`, from `n` on, with `k` numbers to go.
  unfoldable pub try_candidates : Bytes → PathParts → ℕ → ℕ → Outcome IoError Bytes
  unfolding or_else
  try_candidates path parts n zero = err (no_free_name path)
  try_candidates path parts n (suc k) =
      let candidate = join parts.parent (candidate_name parts n) in
      or_else candidate (open_new candidate) (try_candidates path parts (n + 1) k)

  -- The path of the file that was created.
  unfoldable pub create_unique_file : Bytes → PathParts → Outcome IoError Bytes
  unfolding or_else try_candidates
  create_unique_file path parts =
      or_else path (open_new path) (try_candidates path parts 1 max_unique_attempts)
