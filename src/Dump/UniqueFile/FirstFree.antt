-- ===== src/Dump/UniqueFile/FirstFree.antt =====
-- The file that is created is the first one of a fixed list of names that is free.
use pqcscan.Base.{ℕ, zero, suc, ◌+◌, ◌≡◌, refl, List, [], ◌∷◌, Bytes, Outcome, ok, err}
use pqcscan.Dump.UniqueFile.{
  Opened, created, already_exists, open_failed, IoError, io_failed, no_free_name, PathParts,
  candidate_name, or_else, try_candidates, create_unique_file,
}

module _ (open_new : Bytes → Opened) (path : Bytes) where
  -- The outcome of asking for each of some names in turn: the first that is free is created, the
  -- first answer that is neither ends the search, and so does the end of the names.
  pub data FirstFree : List Bytes → Outcome IoError Bytes → Type 0 where
    free : (p : Bytes) (ps : List Bytes) → open_new p ≡ created → FirstFree (p ∷ ps) (ok p)
    taken :
        (p : Bytes) (ps : List Bytes) (o : Outcome IoError Bytes)
        → open_new p ≡ already_exists
        → FirstFree ps o
        → FirstFree (p ∷ ps) o
    broken :
        (p : Bytes) (ps : List Bytes) (e : Bytes)
        → open_new p ≡ open_failed e
        → FirstFree (p ∷ ps) (err (io_failed e))
    none_free : FirstFree [] (err (no_free_name path))

module _ (join : Bytes → Bytes → Bytes) where
  -- The names with the numbers from `n` on.
  abbrev pub candidates : PathParts → ℕ → ℕ → List Bytes
  candidates parts n zero = []
  candidates parts n (suc k) =
      join parts.parent (candidate_name parts n) ∷ candidates parts (n + 1) k

module _ (join : Bytes → Bytes → Bytes) (open_new : Bytes → Opened) (path : Bytes)
    (parts : PathParts) where
  or_else-FirstFree :
      (p : Bytes) (answer : Opened) (ps : List Bytes) (o : Outcome IoError Bytes)
      → open_new p ≡ answer
      → FirstFree open_new path ps o
      → FirstFree open_new path (p ∷ ps) (or_else join open_new p answer o)
  unfolding or_else
  or_else-FirstFree p created ps o e rest = free p ps e
  or_else-FirstFree p already_exists ps o e rest = taken p ps o e rest
  or_else-FirstFree p (open_failed why) ps o e rest = broken p ps why e

  try_candidates-FirstFree :
      (n k : ℕ)
      → FirstFree open_new path
          (candidates join parts n k)
          (try_candidates join open_new path parts n k)
  unfolding try_candidates
  try_candidates-FirstFree n zero = none_free
  try_candidates-FirstFree n (suc k) =
      or_else-FirstFree _ (open_new _) (candidates join parts (n + 1) k) _ refl
        (try_candidates-FirstFree (n + 1) k)

  -- Of the path itself and then its numbered names from 01 to 99, the first one that is free is
  -- created and returned: every earlier one existed, and no existing file is opened. An answer
  -- other than that the name exists ends the search with its error, and with all of the hundred
  -- names taken the result is an error.
  pub create_unique_file-FirstFree :
      FirstFree open_new path
        (path ∷ candidates join parts 1 99)
        (create_unique_file join open_new path parts)
  unfolding create_unique_file
  create_unique_file-FirstFree =
      or_else-FirstFree path (open_new path) (candidates join parts 1 99) _ refl
        (try_candidates-FirstFree 1 99)
