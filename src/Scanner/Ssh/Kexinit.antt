-- ===== src/Scanner/Ssh/Kexinit.antt =====
-- `parse_ssh_msg_kexinit` and `parse_ssh_name_list` of pqcscan/src/ssh.rs. Reading past the end of
-- a cursor is the error `unexpected_eof`; `unwrap` makes a panic of it.
pub mod Runs
pub mod RoundTrip
pub mod Panics
pub mod Ends
use pqcscan.Base.{
  ℕ, zero, suc, ◌+◌, ◌-◌, ◌%◌, ◌^◌, Bool, true, false, not, List, [], ◌∷◌, Bytes, be32, length,
  take, drop, ltb, ◌==◌, if◌then◌else◌, Outcome, ok, err, panic, hang, ◌>>=◌, ◌>>◌, refuse,
}
use pqcscan.Base.Split.{split}
use pqcscan.Base.Utf8.{is_utf8}

pub data KexError : Type 0 where
  unexpected_eof not_utf8 : KexError
  less_than_4_bytes invalid_length invalid_type invalid_packet : KexError

abbrev pub Reads : Type 0 → Type 0
Reads A = Outcome KexError A

pub record KexInitMsg : Type 0 where
  pub kex_algos : List Bytes
  pub host_key_algos : List Bytes

-- `std::io::Cursor`: the position, and the bytes from there on.
pub record Cursor : Type 0 where
  pub position : ℕ
  pub remaining : Bytes

-- `read_u8`
unfoldable pub read_u8 : Cursor → Reads (ℕ × Cursor)
read_u8 c = elim c.remaining [
  | [] ↦ err unexpected_eof
  | b ∷ rest ↦ ok (b, record { position = c.position + 1; remaining = rest })
]

-- `u32::from_be_bytes` on the bytes of `read_u32`
unfoldable pub u32_of : ℕ → Bytes → Reads (ℕ × Cursor)
u32_of position (a ∷ b ∷ c ∷ d ∷ rest) =
    ok (be32 a b c d, record { position = position + 4; remaining = rest })
u32_of position _ = err unexpected_eof

-- `read_u32::<BigEndian>`
unfoldable pub read_u32 : Cursor → Reads (ℕ × Cursor)
unfolding u32_of
read_u32 c = u32_of c.position c.remaining

-- `read_exact` into a buffer of `n` bytes
unfoldable pub read_exact : ℕ → Cursor → Reads (Bytes × Cursor)
read_exact n c =
    if ltb (length c.remaining) n
    then err unexpected_eof
    else ok
        (take n c.remaining, record { position = c.position + n; remaining = drop n c.remaining })

-- `seek(SeekFrom::Current(n))`, which may leave the buffer
unfoldable pub seek : ℕ → Cursor → Cursor
seek n c = record { position = c.position + n; remaining = drop n c.remaining }

-- `.unwrap()`
unfoldable pub unwrap : {A : Type 0} → Reads A → Reads A
unwrap (ok a) = ok a
unwrap (err e) = panic
unwrap panic = panic
unwrap hang = hang

unfoldable pub parse_ssh_name_list : Cursor → Reads (List Bytes × Cursor)
parse_ssh_name_list c = do
  (sz, c') ← unwrap (read_u32 c)
  (buf, c'') ← read_exact sz c'
  refuse (not (is_utf8 buf)) not_utf8
  ok (split b',' buf, c'')

-- Lists that are read and not kept.
unfoldable pub parse_name_lists : ℕ → Cursor → Reads Cursor
parse_name_lists zero c = ok c
parse_name_lists (suc n) c = do (_, c') ← parse_ssh_name_list c; parse_name_lists n c'

-- The ten lists, and the check of the packet's end.
unfoldable pub parse_lists : ℕ → ℕ → Cursor → Reads KexInitMsg
parse_lists bl padding_len c = do
  (kex_algos, c1) ← parse_ssh_name_list c
  (srv_host_key_algos, c2) ← parse_ssh_name_list c1
  c10 ← parse_name_lists 8 c2
  refuse (not (bl == c10.position + padding_len + 5)) invalid_packet
  ok (record { kex_algos = kex_algos; host_key_algos = srv_host_key_algos })

unfoldable pub parse_ssh_msg_kexinit : Bytes → Reads KexInitMsg
parse_ssh_msg_kexinit buf = do
  let bl = length buf % 2 ^ 32
  refuse (ltb bl 4) less_than_4_bytes
  (pkt_size, c) ← read_u32 (record { position = 0; remaining = buf })
  refuse (ltb (bl - 4) pkt_size) invalid_length
  (padding_len, c') ← read_u8 c
  (msg_type, c'') ← read_u8 c'
  refuse (not (msg_type == 20)) invalid_type
  parse_lists bl padding_len (seek 16 c'')
