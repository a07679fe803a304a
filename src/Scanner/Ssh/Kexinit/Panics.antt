-- ===== src/Scanner/Ssh/Kexinit/Panics.antt =====
-- A key exchange message that is cut off in front of its first name-list panics the parser:
-- `parse_ssh_name_list` unwraps the length that it reads.
use pqcscan.Base.{
  ℕ, ◌+◌, ◌-◌, ◌%◌, ◌^◌, ◌<◌, ◌≤◌, ◌≡◌, refl, [], ◌∷◌, Bytes, be32, length, length-drop, le→ltb,
  err, panic, arith,
}
use pqcscan.Scanner.Ssh.Kexinit.{
  Cursor, unexpected_eof, read_u8, read_u32, u32_of, seek, unwrap, parse_ssh_name_list, parse_lists,
  parse_ssh_msg_kexinit,
}

u32_of-short : (p : ℕ) (rest : Bytes) → length rest < 4 → u32_of p rest ≡ err unexpected_eof
unfolding u32_of
u32_of-short p [] h = refl
u32_of-short p (a ∷ []) h = refl
u32_of-short p (a ∷ b ∷ []) h = refl
u32_of-short p (a ∷ b ∷ c ∷ []) h = refl
u32_of-short p (a ∷ b ∷ c ∷ d ∷ rest) h = absurd (omega (arith, h))

pub parse_lists-short :
    (bl padding_len : ℕ) (c : Cursor)
    → length c.remaining < 4
    → parse_lists bl padding_len c ≡ panic
unfolding parse_lists parse_ssh_name_list read_u32 unwrap
parse_lists-short bl padding_len c h = rw (u32_of-short c.position c.remaining h) refl

-- A packet that announces no more bytes than it has, is of the kind of a key exchange message and
-- ends in the cookie or within the four bytes behind it makes the parser panic. The parser returns
-- no error for it.
pub parse_ssh_msg_kexinit-short :
    (a b c d padding_len : ℕ) (body : Bytes)
    → length body < 20
    → be32 a b c d ≤ 2 + length body
    → parse_ssh_msg_kexinit (a ∷ b ∷ c ∷ d ∷ padding_len ∷ 20 ∷ body) ≡ panic
unfolding parse_ssh_msg_kexinit read_u32 u32_of read_u8 seek
parse_ssh_msg_kexinit-short a b c d padding_len body short fits =
    let whole : length (a ∷ b ∷ c ∷ d ∷ padding_len ∷ 20 ∷ body) % 2 ^ 32 ≡ 6 + length body =
      omega (arith, short) in
    rw whole (
      rw
        (
          le→ltb (6 + length body) 4 (omega arith),
          le→ltb (6 + length body - 4) (be32 a b c d) (omega (arith, fits)),
        )
        (parse_lists-short (6 + length body) padding_len _
          (omega (arith, short, length-drop 16 body))))
