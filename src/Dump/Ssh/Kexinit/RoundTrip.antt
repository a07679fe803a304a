-- ===== src/Dump/Ssh/Kexinit/RoundTrip.antt =====
-- The parser reads back every well-formed key exchange message.
use pqcscan.Base.{
  ℕ, ◌≤◌, ◌≡◌, refl, false, index, List, [], ◌∷◌, ◌++◌, Bytes, u32_bytes, be32-u32_bytes, length,
  length-append, take-length_append, drop-length_append, le→ltb, ok, arith, All,
}
use pqcscan.Base.Reading.{slice-take, slice-drop}
use pqcscan.Base.Split.{split, split-join, join}
use pqcscan.Wire.{name_lists, IsListText, AreNames, kexinit_message}
use pqcscan.Dump.Ssh.Kexinit.{read_name_list_owned, skip_name_lists, not_kexinit, parse_ssh_kexinit}
use pqcscan.Dump.Ssh.Kexinit.Total.{read_u32-cons}

read_name_list_owned-append :
    (s rest : Bytes)
    → IsListText s
    → read_name_list_owned (u32_bytes (length s) ++ (s ++ rest)) ≡ ok (split b',' s, rest)
unfolding read_name_list_owned
read_name_list_owned-append s rest h =
    let fits : length s ≤ length (s ++ rest) = omega (arith, length-append s rest) in
    rw (read_u32-cons _ _ _ _ (s ++ rest), be32-u32_bytes (length s) h.fits)
      (rw (
        le→ltb (length (s ++ rest)) (length s) fits,
        slice-take (s ++ rest) (length s) fits,
        slice-drop (s ++ rest) (length s) fits,
        take-length_append s rest,
        drop-length_append s rest,
        h.utf8,
      ))

skip_name_lists-append :
    (ss : List Bytes) (rest : Bytes)
    → All IsListText ss
    → skip_name_lists (length ss) (name_lists ss rest) ≡ ok rest
unfolding skip_name_lists
skip_name_lists-append [] rest h = refl
skip_name_lists-append (s ∷ ss) rest h =
    rw (read_name_list_owned-append s (name_lists ss rest) h.0) (skip_name_lists-append ss rest h.1)

not_kexinit-message :
    (a b c d padding : ℕ) (rest : Bytes)
    → not_kexinit (a ∷ b ∷ c ∷ d ∷ padding ∷ 20 ∷ rest) ≡ ok false
unfolding not_kexinit index
not_kexinit-message a b c d padding rest =
    rw (le→ltb (length (a ∷ b ∷ c ∷ d ∷ padding ∷ 20 ∷ rest)) 6 (omega arith)) refl

-- A well-formed key exchange message in an unencrypted packet is read, and the algorithms are the
-- names in its first list, in their order.
pub parse-kexinit_message :
    (a b c d padding : ℕ) (cookie tail : Bytes) (names others : List Bytes)
    → length cookie ≡ 16
    → AreNames names
    → length others ≡ 9
    → All IsListText others
    → parse_ssh_kexinit (a ∷ b ∷ c ∷ d ∷ padding ∷ kexinit_message cookie names others tail)
      ≡ ok (record { kex_algorithms = names })
unfolding parse_ssh_kexinit
parse-kexinit_message a b c d padding cookie tail names others sixteen good nine fine =
    let lists = name_lists (join b',' names ∷ others) tail in
    let rest = name_lists others tail in
    let payload = a ∷ b ∷ c ∷ d ∷ padding ∷ 20 ∷ (cookie ++ lists) in
    let long : 16 ≤ length (cookie ++ lists) = omega (arith, length-append cookie lists, sixteen) in
    let skipped : skip_name_lists 9 rest ≡ ok tail =
      rw (← nine) (skip_name_lists-append others tail fine) in
    rw (not_kexinit-message a b c d padding (cookie ++ lists)) (
      rw (slice-drop payload 6 (omega arith), le→ltb _ 16 long)
        (rw (slice-drop (cookie ++ lists) 16 long, ← sixteen)
          (rw (drop-length_append cookie lists) (
            rw (
              read_name_list_owned-append (join b',' names) rest good.text,
              skipped,
              split-join b',' names good.some_name good.no_commas,
            )))))
