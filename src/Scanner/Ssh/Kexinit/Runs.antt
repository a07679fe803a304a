-- ===== src/Scanner/Ssh/Kexinit/Runs.antt =====
-- Successful runs of the list parser, forwards and backwards.
use pqcscan.Base.{
  ℕ, ◌+◌, ◌≤◌, ◌≡◌, ap, ◌∙◌, List, [], ◌∷◌, ◌++◌, Bytes, u32_bytes, be32-u32_bytes, length,
  length-append, take-length_append, drop-length_append, le→ltb, ok, arith, All,
}
use pqcscan.Base.Split.{split}
use pqcscan.Wire.{name_lists, IsListText}
use pqcscan.Scanner.Ssh.Kexinit.{
  Cursor, read_u32, read_exact, unwrap, parse_ssh_name_list, parse_name_lists,
}

abbrev pub cursor : ℕ → Bytes → Cursor
cursor position remaining = record { position = position; remaining = remaining }

pub parse_ssh_name_list-append :
    (p : ℕ) (s rest : Bytes)
    → IsListText s
    → parse_ssh_name_list (cursor p (u32_bytes (length s) ++ (s ++ rest)))
      ≡ ok (split b',' s, cursor (p + 4 + length s) rest)
unfolding parse_ssh_name_list unwrap read_u32 read_exact
parse_ssh_name_list-append p s rest h =
    let fits : length s ≤ length (s ++ rest) = omega (arith, length-append s rest) in
    rw (be32-u32_bytes (length s) h.fits) (
      rw (
        le→ltb (length (s ++ rest)) (length s) fits,
        take-length_append s rest,
        drop-length_append s rest,
        h.utf8,
      ))

-- The bytes of name-lists.
abbrev pub size : List Bytes → ℕ
size [] = 0
size (s ∷ ss) = 4 + length s + size ss

pub parse_name_lists-append :
    (p : ℕ) (ss : List Bytes) (rest : Bytes)
    → All IsListText ss
    → parse_name_lists (length ss) (cursor p (name_lists ss rest)) ≡ ok (cursor (p + size ss) rest)
unfolding parse_name_lists
parse_name_lists-append p [] rest h = let e : p + 0 ≡ p = omega arith in rw e
parse_name_lists-append p (s ∷ ss) rest h =
    let e : p + 4 + length s + size ss ≡ p + (4 + length s + size ss) = omega arith in
    rw (parse_ssh_name_list-append p s (name_lists ss rest) h.0)
      (parse_name_lists-append (p + 4 + length s) ss rest h.1 ∙ ap (λ n. ok (cursor n rest)) e)

pub length-name_lists :
    (ss : List Bytes) (rest : Bytes) → length (name_lists ss rest) ≡ size ss + length rest
length-name_lists [] rest = omega arith
length-name_lists (s ∷ ss) rest =
    omega (arith, length-append s (name_lists ss rest), length-name_lists ss rest)
