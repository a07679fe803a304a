-- ===== src/Scanner/Ssh/Kexinit/RoundTrip.antt =====
-- The parser reads back every well-formed key exchange packet.
use pqcscan.Base.{
  ℕ, ◌+◌, ◌-◌, ◌<◌, ◌≡◌, refl, ap, ◌∙◌, List, [], ◌∷◌, ◌++◌, Bytes, u32_bytes, be32-u32_bytes,
  length, ==_refl, ◌%◌, ◌^◌, length-append, drop-length_append, append_assoc, drop, le→ltb, ok,
  arith, All,
}
use pqcscan.Base.Split.{split-join, join}
use pqcscan.Wire.{name_lists, IsListText, AreNames, kexinit_message, packet, kexinit_tail}
use pqcscan.Scanner.Ssh.Kexinit.{
  read_u8, read_u32, seek, parse_name_lists, parse_lists, parse_ssh_msg_kexinit,
}
use pqcscan.Scanner.Ssh.Kexinit.Runs.{
  cursor, parse_ssh_name_list-append, size, parse_name_lists-append, length-name_lists,
}

parse_lists-append :
    (bl padding p : ℕ) (names host_keys others : List Bytes) (rest : Bytes)
    → AreNames names
    → AreNames host_keys
    → length others ≡ 8
    → All IsListText others
    → bl ≡ p + size (join b',' names ∷ join b',' host_keys ∷ others) + padding + 5
    → parse_lists bl padding
        (cursor p (name_lists (join b',' names ∷ join b',' host_keys ∷ others) rest))
      ≡ ok (record { kex_algos = names; host_key_algos = host_keys })
unfolding parse_lists
parse_lists-append bl padding p names host_keys others rest good keys eight fine e =
    let first = join b',' names in
    let second = join b',' host_keys in
    let p1 = p + 4 + length first in
    let p2 = p1 + 4 + length second in
    let lists : parse_name_lists 8 (cursor p2 (name_lists others rest))
        ≡ ok (cursor (p2 + size others) rest) =
      rw (← eight) (parse_name_lists-append p2 others rest fine) in
    let ends : bl ≡ p2 + size others + padding + 5 = omega (arith, e) in
    rw (parse_ssh_name_list-append p first (name_lists (second ∷ others) rest) good.text) (
      rw (parse_ssh_name_list-append p1 second (name_lists others rest) keys.text) (
        rw (lists, ends)
          (rw (
            ==_refl (p2 + size others + padding + 5),
            split-join b',' names good.some_name good.no_commas,
            split-join b',' host_keys keys.some_name keys.no_commas,
          ))))

name_lists-tail :
    (ss : List Bytes) (tail padding : Bytes)
    → name_lists ss tail ++ padding ≡ name_lists ss (tail ++ padding)
name_lists-tail [] tail padding = refl
name_lists-tail (s ∷ ss) tail padding =
    ap (λ r. u32_bytes (length s) ++ r)
      (append_assoc s (name_lists ss tail) padding ∙ ap (◌++◌ s) (name_lists-tail ss tail padding))

-- The parser accepts a packet that holds a well-formed key exchange message of ten lists and is
-- shorter than 2^32 bytes. The key exchange and the host key algorithms are the names in the first
-- and in the second list, in their order.
pub parse-packet :
    (cookie padding : Bytes) (names host_keys others : List Bytes) (follows : ℕ)
    → length cookie ≡ 16
    → AreNames names
    → AreNames host_keys
    → length others ≡ 8
    → All IsListText others
    → length (
        packet
          (kexinit_message cookie names (join b',' host_keys ∷ others) (kexinit_tail follows))
          padding)
      < 4294967296
    → parse_ssh_msg_kexinit (
        packet
          (kexinit_message cookie names (join b',' host_keys ∷ others) (kexinit_tail follows))
          padding)
      ≡ ok (record { kex_algos = names; host_key_algos = host_keys })
unfolding parse_ssh_msg_kexinit read_u32 read_u8 seek
parse-packet cookie padding names host_keys others follows sixteen good keys eight fine short =
    let texts = join b',' names ∷ join b',' host_keys ∷ others in
    let tail = kexinit_tail follows in
    let lists = name_lists texts tail in
    let message = 20 ∷ (cookie ++ lists) in
    let size_of = 1 + length message + length padding in
    let inside : drop 16 ((cookie ++ lists) ++ padding) ≡ name_lists texts (tail ++ padding) =
      rw (append_assoc cookie lists padding, ← sixteen)
        (drop-length_append cookie (lists ++ padding) ∙ name_lists-tail texts tail padding) in
    let total : length (message ++ padding) ≡ 17 + size texts + 5 + length padding = omega (
      arith,
      length-append (20 ∷ (cookie ++ lists)) padding,
      length-append cookie lists,
      length-name_lists texts tail,
      sixteen,
    ) in
    let bl : length (packet message padding) % 2 ^ 32 ≡ 22 + size texts + length padding + 5 =
      omega (arith, total, short) in
    rw bl (
      rw
        (
          le→ltb (22 + size texts + length padding + 5) 4 (omega arith),
          be32-u32_bytes size_of (omega (arith, total, short, length-append message padding)),
        )
        (rw
          (le→ltb (22 + size texts + length padding + 5 - 4) size_of
            (omega (arith, total, length-append message padding)))
          (rw inside (
            parse_lists-append _ (length padding) 22 names host_keys others (tail ++ padding) good
              keys eight fine (omega arith)))))
