-- ===== src/Wire.antt =====
-- The SSH key exchange message, written out from RFC 4253 as a description independent of the two
-- programs' parsers.
use pqcscan.Base.{ℕ, ◌+◌, ◌<◌, ◌≡◌, ◌≢◌, true, List, [], ◌∷◌, ◌++◌, Bytes, u32_bytes, length, All}
use pqcscan.Base.Split.{Lacks, join}
use pqcscan.Base.Utf8.{is_utf8}

-- Name-lists, one behind the other, in front of what follows them.
abbrev pub name_lists : List Bytes → Bytes → Bytes
name_lists [] rest = rest
name_lists (s ∷ ss) rest = u32_bytes (length s) ++ (s ++ name_lists ss rest)

-- A text that fits into a name-list.
pub record IsListText (s : Bytes) : Type 0 where
  pub fits : length s < 4294967296
  pub utf8 : is_utf8 s ≡ true

-- Names that a name-list can hold: at least one, and no comma in any.
pub record AreNames (names : List Bytes) : Type 0 where
  pub some_name : names ≢ []
  pub no_commas : All (Lacks b',') names
  pub text : IsListText (join b',' names)

-- The message of a key exchange: its kind, a 16-byte cookie, the ten name-lists, and a tail.
abbrev pub kexinit_message : Bytes → List Bytes → List Bytes → Bytes → Bytes
kexinit_message cookie names others tail =
    20 ∷ (cookie ++ name_lists (join b',' names ∷ others) tail)

-- The unencrypted binary packet of a message: its length, the padding's length, the message and the
-- padding.
abbrev pub packet : Bytes → Bytes → Bytes
packet message padding =
    u32_bytes (1 + length message + length padding) ++ (length padding ∷ (message ++ padding))

-- The tail of a key exchange message: `first_kex_packet_follows`, and a reserved number.
abbrev pub kexinit_tail : ℕ → Bytes
kexinit_tail follows = follows ∷ u32_bytes 0
