-- ===== src/Dump/Tls/ServerHello.antt =====
-- `parse_server_hello_v3` of pqcdump/src/tls.rs with the parsers of its extensions. An index or a
-- slice out of bounds is a panic. The `while` loops take fuel, and `hang` when it runs out.
pub mod Ends
pub mod Panics
use pqcscan.Base.{
  ℕ, zero, suc, ◌+◌, Bool, true, false, not, Option, none, some, List, [], ◌∷◌, ◌++◌, Bytes, length,
  ltb, leb, ◌==◌, if◌then◌else◌, Outcome, ok, hang, ◌>>=◌, ◌>>◌, refuse, index, slice, index16,
}

pub data ServerHelloError : Type 0 where
  payload_too_short not_server_hello session_id_too_short : ServerHelloError

abbrev pub Reads : Type 0 → Type 0
Reads A = Outcome ServerHelloError A

pub record KeyShareEntry : Type 0 where
  pub group : ℕ
  pub key_exchange : Bytes

pub record SessionConfig : Type 0 where
  pub ciphers : List ℕ
  pub keyshare : ℕ

-- `while offset + 4 <= data.len()`
unfoldable pub read_entries : ℕ → Bytes → ℕ → List KeyShareEntry → Reads (List KeyShareEntry)
read_entries zero bytes offset entries = hang
read_entries (suc fuel) bytes offset entries = elim (leb (offset + 4) (length bytes)) [
  | true ↦ do
    group ← index16 bytes offset
    key_len ← index16 bytes (offset + 2)
    let to = offset + 4 + key_len
    elim (ltb (length bytes) to) [
      | true ↦ ok entries
      | false ↦ do
        key_exchange ← slice bytes (offset + 4) to
        read_entries fuel bytes to
            (entries ++ (record { group = group; key_exchange = key_exchange } ∷ []))
    ]
  | false ↦ ok entries
]

unfoldable pub parse_key_share : Bytes → Reads (List KeyShareEntry)
parse_key_share bytes =
    if ltb (length bytes) 2 then ok [] else read_entries (suc (length bytes)) bytes 0 []

-- `while pos + 2 <= 2 + list_len`, whose body logs the algorithm
unfoldable pub read_sig_algs : ℕ → Bytes → ℕ → ℕ → Reads (Unit {0})
read_sig_algs zero bytes pos end = hang
read_sig_algs (suc fuel) bytes pos end = elim (leb (pos + 2) end) [
  | true ↦ do sig_alg ← index16 bytes pos; read_sig_algs fuel bytes (pos + 2) end
  | false ↦ ok tt
]

unfoldable pub parse_signature_algorithms : Bytes → Reads (Unit {0})
parse_signature_algorithms bytes = elim (ltb (length bytes) 2) [
  | true ↦ ok tt
  | false ↦ do
    list_len ← index16 bytes 0
    elim (ltb (length bytes) (2 + list_len)) [
      | true ↦ ok tt
      | false ↦ read_sig_algs (suc list_len) bytes 2 (2 + list_len)
    ]
]

-- `if ext_type == 0x0033 { … }`
unfoldable pub on_key_share : Bytes → ℕ → ℕ → ℕ → List KeyShareEntry → Reads (List KeyShareEntry)
on_key_share bytes ext_type pos ext_len entries = elim (ext_type == 0x33) [
  | true ↦ do part ← slice bytes pos (pos + ext_len); parse_key_share part
  | false ↦ ok entries
]

-- `if ext_type == 0x000d { … }`
unfoldable pub on_signature_algorithms : Bytes → ℕ → ℕ → ℕ → Reads (Unit {0})
on_signature_algorithms bytes ext_type pos ext_len = elim (ext_type == 0xd) [
  | true ↦ do part ← slice bytes pos (pos + ext_len); parse_signature_algorithms part
  | false ↦ ok tt
]

-- `while pos + 4 <= extensions.len()`; a wrong length is only logged
unfoldable pub read_server_extensions :
    ℕ → Bytes → ℕ → List KeyShareEntry → Reads (List KeyShareEntry)
read_server_extensions zero bytes pos entries = hang
read_server_extensions (suc fuel) bytes pos entries = elim (leb (pos + 4) (length bytes)) [
  | true ↦ do
    ext_type ← index16 bytes pos
    ext_len ← index16 bytes (pos + 2)
    entries' ← on_key_share bytes ext_type (pos + 4) ext_len entries
    _ ← on_signature_algorithms bytes ext_type (pos + 4) ext_len
    read_server_extensions fuel bytes (pos + 4 + ext_len) entries'
  | false ↦ ok entries
]

unfoldable pub parse_extensions : Bytes → Reads (List KeyShareEntry)
parse_extensions extensions = read_server_extensions (suc (length extensions)) extensions 0 []

-- `match key_share_entries.as_slice()`
unfoldable pub only_group : List KeyShareEntry → Option ℕ
only_group [] = none
only_group (entry ∷ []) = some entry.group
only_group (entry ∷ _ ∷ _) = none

unfoldable pub or_zero : Option ℕ → ℕ
or_zero none = 0
or_zero (some n) = n

-- From the extensions' length on: the group of the key share.
unfoldable pub read_keyshare : Bytes → ℕ → Reads (Option ℕ)
read_keyshare payload pos = do
  extensions_len ← index16 payload pos
  let end = pos + 2 + extensions_len
  elim (ltb (length payload) end) [
    | true ↦ ok none
    | false ↦ do
      extensions ← slice payload (pos + 2) end
      key_share_entries ← parse_extensions extensions
      ok (only_group key_share_entries)
  ]

unfoldable pub parse_server_hello_v3 : Bytes → Reads SessionConfig
parse_server_hello_v3 payload = do
  refuse (ltb (length payload) 47) payload_too_short
  handshake_type ← index payload 5
  refuse (not (handshake_type == 2)) not_server_hello
  session_id_len ← index payload 43
  refuse (ltb (length payload) (44 + session_id_len + 3)) session_id_too_short
  cipher_code ← index16 payload (44 + session_id_len)
  keyshare ← read_keyshare payload (44 + session_id_len + 3)
  ok (record { ciphers = cipher_code ∷ []; keyshare = or_zero keyshare })
