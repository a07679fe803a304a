-- ===== src/Across/Hello.antt =====
-- The analyser's parser of ClientHello messages on what the scanner's builder writes: the loops of
-- the parser, each on the bytes of one part of the message.
pub mod Message
pub mod Extensions
pub mod Probe
use pqcscan.Base.{
  ℕ, zero, suc, ◌+◌, ◌*◌, ◌≤◌, ◌<◌, ◌≡◌, ◌≢◌, refl, sym, ap, ◌∙◌, List, [], ◌∷◌, ◌++◌, append-nil,
  append_assoc, Bytes, u16_bytes, be16-u16_bytes, length, length-append, map, ltb, leb, le→ltb,
  le→leb, lt→leb, ◌==◌, Bool-cases, true, false, inl, inr, ok, err, refuse, index16, arith, All,
  if◌then◌else◌,
}
use pqcscan.Base.Reading.{At, At-move, index16-At}
use pqcscan.Dump.Tls.ClientHello.{
  HelloError, read_ciphers, read_key_shares, key_share_extension, read_extensions,
}
use pqcscan.Scanner.Hello.{
  Extension, KeyShareEntry, write_u16s, write_key_shares, write_extensions, key_shares_len,
  key_share, extension, to_u16,
}

abbrev pub IsU16 : ℕ → Type 0
IsU16 n = n < 65536

pub index16-u16_bytes :
    {bytes rest : Bytes} {off : ℕ} (n : ℕ)
    → IsU16 n
    → At bytes off (u16_bytes n ++ rest)
    → index16 {E = HelloError} bytes off ≡ ok n
index16-u16_bytes {bytes} n h at = index16-At bytes _ _ at ∙ ap ok (be16-u16_bytes n h)

pub length-write_u16s : (cs : List ℕ) → length (write_u16s cs) ≡ length cs * 2
unfolding write_u16s
length-write_u16s [] = refl
length-write_u16s (c ∷ cs) = omega (arith, length-write_u16s cs)

pub read_ciphers-At :
    (cs : List ℕ) (bytes rest : Bytes) (off : ℕ) (acc : List ℕ)
    → All IsU16 cs
    → At bytes off (write_u16s cs ++ rest)
    → read_ciphers (length cs) bytes off acc ≡ ok (acc ++ cs, off + length cs * 2)
unfolding read_ciphers write_u16s
read_ciphers-At [] bytes rest off acc h at =
    let e : off + 0 ≡ off = omega arith in rw (append-nil, e)
read_ciphers-At (c ∷ cs) bytes rest off acc h at =
    let e : off + 2 + length cs * 2 ≡ off + suc (length cs) * 2 = omega arith in
    rw (index16-u16_bytes c h.0 at) (
      read_ciphers-At cs bytes rest (off + 2) _ h.1 (At-move (u16_bytes c) (off + 2) at refl)
      ∙ rw (append_assoc, e))

-- The entry's length is that of its key, and both numbers are 16-bit.
pub record IsShare (k : KeyShareEntry) : Type 0 where
  pub group_fits : IsU16 k.group
  pub exact : k.exchange_len ≡ length k.exchange
  pub len_fits : IsU16 k.exchange_len

abbrev pub groups_of : List KeyShareEntry → List ℕ
groups_of = map (λ k. k.group)

read_key_shares-At :
    (ks : List KeyShareEntry) (fuel : ℕ) (bytes rest : Bytes) (off end : ℕ) (acc : List ℕ)
    → All IsShare ks
    → At bytes off (write_key_shares ks ++ rest)
    → end ≡ off + length (write_key_shares ks)
    → length (write_key_shares ks) < fuel
    → read_key_shares fuel bytes off end acc ≡ ok (acc ++ groups_of ks)
unfolding read_key_shares write_key_shares
read_key_shares-At ks zero bytes rest off end acc h at e f = elim f [ ]
read_key_shares-At [] (suc fuel) bytes rest off end acc h at e f =
    rw (lt→leb (off + 4) end (omega arith), read_key_shares) (rw append-nil)
read_key_shares-At (k ∷ ks) (suc fuel) bytes rest off end acc h at e f =
    let tail = write_key_shares ks in
    let at1 = At-move (u16_bytes k.group) (off + 2) at refl in
    let at2 : At bytes (off + 4) (k.exchange ++ (tail ++ rest)) =
      rw (← append_assoc k.exchange tail rest)
        (At-move (u16_bytes k.exchange_len) (off + 4) at1 (omega arith)) in
    let at3 = At-move k.exchange (off + 4 + k.exchange_len) at2 (omega (arith, h.0.exact)) in
    let total = length-append k.exchange tail in
    let exact = h.0.exact in
    rw (le→leb (off + 4) end (omega (arith, e)), read_key_shares)
      (rw
        (
          index16-u16_bytes k.group h.0.group_fits at,
          index16-u16_bytes k.exchange_len h.0.len_fits at1,
          le→ltb end (off + 4 + k.exchange_len) (omega (arith, e, total, exact)),
        )
        (read_key_shares-At ks fuel bytes rest _ end _ h.1 at3 (omega (arith, e, total, exact))
            (omega (arith, f, total))
          ∙ rw append_assoc))

-- The extension's two numbers are 16-bit, and its length is that of its payload.
pub record IsExtension (e : Extension) : Type 0 where
  pub type_fits : IsU16 e.ext_type
  pub exact : e.ext_len ≡ length e.payload
  pub len_fits : IsU16 e.ext_len

-- The extensions offer keys in these groups: those of each `key_share` among them.
pub data Offers : List Extension → List ℕ → Type 0 where
  nil : Offers [] []
  plain :
      {e : Extension} {es : List Extension} {gs : List ℕ}
      → IsExtension e
      → e.ext_type ≢ 51
      → Offers es gs
      → Offers (e ∷ es) gs
  shares :
      {e : Extension} {es : List Extension} {gs : List ℕ} (ks : List KeyShareEntry)
      → All IsShare ks
      → key_share ks ≡ ok e
      → Offers es gs
      → Offers (e ∷ es) (groups_of ks ++ gs)

pub extension-ok :
    (ext_type : ℕ) (buf : Bytes) {e : Extension}
    → IsU16 ext_type
    → extension ext_type buf ≡ ok e
    → IsExtension e × (e.ext_type ≡ ext_type) × (e.payload ≡ buf)
unfolding extension
extension-ok ext_type buf t h = ground arith

-- One round of the loop over the extensions.
read_extensions_step :
    (e : Extension) (fuel : ℕ) (bytes rest : Bytes) (off end : ℕ) (acc groups : List ℕ)
    → IsExtension e
    → At bytes off (u16_bytes e.ext_type ++ (u16_bytes e.ext_len ++ rest))
    → off + 4 + e.ext_len ≤ end
    → key_share_extension (suc e.ext_len) bytes e.ext_type (off + 4) e.ext_len acc ≡ ok groups
    → read_extensions (suc fuel) bytes off end acc
      ≡ read_extensions fuel bytes (off + 4 + e.ext_len) end groups
unfolding read_extensions
read_extensions_step e fuel bytes rest off end acc groups h at fits k =
    let at1 = At-move (u16_bytes e.ext_type) (off + 2) at refl in
    rw (le→leb (off + 4) end (omega (arith, fits)), read_extensions)
      (rw
        (
          index16-u16_bytes e.ext_type h.type_fits at,
          index16-u16_bytes e.ext_len h.len_fits at1,
          le→ltb end (off + 4 + e.ext_len) fits,
        )
        (rw k))

not_key_share :
    (fuel : ℕ) (bytes : Bytes) (ext_type off len : ℕ) (acc : List ℕ)
    → ext_type ≢ 51
    → key_share_extension fuel bytes ext_type off len acc ≡ ok acc
unfolding key_share_extension
not_key_share fuel bytes ext_type off len acc h = ground arith

key_share-At :
    (ks : List KeyShareEntry) (e : Extension) (bytes rest : Bytes) (off : ℕ) (acc : List ℕ)
    → All IsShare ks
    → key_share ks ≡ ok e
    → At bytes off (e.payload ++ rest)
    → key_share_extension (suc e.ext_len) bytes e.ext_type off e.ext_len acc
      ≡ ok (acc ++ groups_of ks)
unfolding key_share_extension key_share
key_share-At ks e bytes rest off acc h made at =
    let (x, t, p) = extension-ok 51 _ (omega arith) made in
    let at0 = rw p at at in
    let at1 = At-move (u16_bytes (key_shares_len 0 ks)) (off + 2) at0 refl in
    let len : e.ext_len ≡ 2 + length (write_key_shares ks) = omega (arith, x.exact, ap length p) in
    rw (t, le→ltb e.ext_len 2 (omega (arith, len)))
      (read_key_shares-At ks (suc e.ext_len) bytes rest (off + 2) (off + e.ext_len) acc h at1
        (omega (arith, len)) (omega (arith, len)))

-- The payload of the first extension, and where the next one begins.
payload-At :
    (x : Extension) (es : List Extension) {bytes : Bytes} (rest : Bytes) {off : ℕ}
    → IsExtension x
    → At bytes off (write_extensions (x ∷ es) ++ rest)
    → At bytes off (
        u16_bytes x.ext_type
        ++ (u16_bytes x.ext_len ++ (x.payload ++ (write_extensions es ++ rest))))
      × At bytes (off + 4) (x.payload ++ (write_extensions es ++ rest))
      × At bytes (off + 4 + x.ext_len) (write_extensions es ++ rest)
      × (length (write_extensions (x ∷ es)) ≡ 4 + x.ext_len + length (write_extensions es))
unfolding write_extensions
payload-At x es {bytes} rest {off} h at =
    let tail = write_extensions es in
    let header = u16_bytes x.ext_type ++ u16_bytes x.ext_len in
    let there : At bytes (off + 4) (x.payload ++ (tail ++ rest)) =
      rw (← append_assoc x.payload tail rest) (At-move header (off + 4) at refl) in
    (
      rw (← append_assoc x.payload tail rest) at,
      there,
      At-move x.payload (off + 4 + x.ext_len) there (omega (arith, h.exact)),
      omega (arith, length-append x.payload tail, h.exact),
    )

pub read_extensions-At :
    {es : List Extension} {gs : List ℕ} (fuel : ℕ) (bytes rest : Bytes) (off end : ℕ) (acc : List ℕ)
    → Offers es gs
    → At bytes off (write_extensions es ++ rest)
    → end ≡ off + length (write_extensions es)
    → length (write_extensions es) < fuel
    → read_extensions fuel bytes off end acc ≡ ok (acc ++ gs)
read_extensions-At zero bytes rest off end acc o at e f = elim f [ ]
read_extensions-At (suc fuel) bytes rest off end acc nil at e f =
    unfold read_extensions write_extensions in
    rw (lt→leb (off + 4) end (omega arith), read_extensions) (rw append-nil)
read_extensions-At (suc fuel) bytes rest off end acc (plain {e = x} {es} h ne o) at e f =
    let (header, _, next, total) = payload-At x es rest h at in
    read_extensions_step x fuel bytes _ off end acc acc h header (omega (arith, e, total))
      (not_key_share _ bytes x.ext_type (off + 4) x.ext_len acc ne)
    ∙ read_extensions-At fuel bytes rest (off + 4 + x.ext_len) end acc o next
        (omega (arith, e, total)) (omega (arith, f, total))
read_extensions-At (suc fuel) bytes rest off end acc (shares {e = x} {es} {gs} ks h made o) at e f =
    let is_extension = share_extension ks made in
    let (header, there, next, total) = payload-At x es rest is_extension at in
    read_extensions_step x fuel bytes _ off end acc (acc ++ groups_of ks) is_extension header
      (omega (arith, e, total)) (key_share-At ks x bytes _ (off + 4) acc h made there)
    ∙ read_extensions-At fuel bytes rest (off + 4 + x.ext_len) end (acc ++ groups_of ks) o next
        (omega (arith, e, total)) (omega (arith, f, total))
    ∙ rw append_assoc
  where
    share_extension : (ks : List KeyShareEntry) → key_share ks ≡ ok x → IsExtension x
    share_extension ks made = unfold key_share in (extension-ok 51 _ (omega arith) made).0
