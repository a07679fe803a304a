-- ===== src/Dump/Ssh/Kexinit.antt =====
-- `parse_ssh_kexinit` of pqcdump/src/ssh.rs. `None` is `err tt`; a slice out of bounds is a panic.
-- A function on `&mut &[u8]` returns what is left of the slice.
pub mod Total
pub mod RoundTrip
use pqcscan.Base.{
  ℕ, zero, suc, ◌-◌, Bool, true, false, not, List, [], ◌∷◌, Bytes, be32, length, ltb, ◌==◌,
  if◌then◌else◌, Outcome, ok, err, panic, ◌>>=◌, ◌>>◌, refuse, index, slice,
}
use pqcscan.Base.Split.{split}
use pqcscan.Base.Utf8.{is_utf8}

pub record KexInit : Type 0 where
  pub kex_algorithms : List Bytes

abbrev pub ssh_msg_kexinit : ℕ
ssh_msg_kexinit = 20

-- `u32::from_be_bytes(s.try_into().unwrap())`
unfoldable pub from_be_bytes : Bytes → Outcome (Unit {0}) ℕ
from_be_bytes (a ∷ b ∷ c ∷ d ∷ []) = ok (be32 a b c d)
from_be_bytes _ = panic

unfoldable pub read_u32 : Bytes → Outcome (Unit {0}) (ℕ × Bytes)
unfolding from_be_bytes
read_u32 bytes = do
  refuse (ltb (length bytes) 4) tt
  four ← slice bytes 0 4
  val ← from_be_bytes four
  rest ← slice bytes 4 (length bytes)
  ok (val, rest)

unfoldable pub read_name_list_owned : Bytes → Outcome (Unit {0}) (List Bytes × Bytes)
read_name_list_owned bytes = do
  (len, bytes') ← read_u32 bytes
  refuse (ltb (length bytes') len) tt
  list_bytes ← slice bytes' 0 len
  rest ← slice bytes' len (length bytes')
  refuse (not (is_utf8 list_bytes)) tt
  ok (split b',' list_bytes, rest)

-- `for _ in 0..n { read_name_list_owned(&mut data)?; }`
unfoldable pub skip_name_lists : ℕ → Bytes → Outcome (Unit {0}) Bytes
skip_name_lists zero bytes = ok bytes
skip_name_lists (suc n) bytes = do (_, rest) ← read_name_list_owned bytes; skip_name_lists n rest

-- `payload.len() < 6 || payload[5] != SSH_MSG_KEXINIT`
unfoldable pub not_kexinit : Bytes → Outcome (Unit {0}) Bool
not_kexinit payload =
    if ltb (length payload) 6
    then ok true
    else do kind ← index payload 5; ok (not (kind == ssh_msg_kexinit))

unfoldable pub parse_ssh_kexinit : Bytes → Outcome (Unit {0}) KexInit
parse_ssh_kexinit payload = do
  skip ← not_kexinit payload
  refuse skip tt
  body ← slice payload 6 (length payload)
  refuse (ltb (length body) 16) tt
  lists ← slice body 16 (length body)
  (kex_algorithms, rest) ← read_name_list_owned lists
  _ ← skip_name_lists 9 rest
  ok (record { kex_algorithms = kex_algorithms })
