-- ===== src/Scanner/Xml/Decoded.antt =====
-- What `xml_escape` of pqcscan/src/main.rs writes is decoded again, and closes no tag or value.
use pqcscan.Base.{
  Bool, arith, ◌&&◌, ℕ, ◌≡◌, refl, ap, ◌∙◌, inl, inr, true, false, none, some, [], ◌∷◌, ◌++◌, All,
  All-append, Bytes, codes, equal, ltb, ◌==◌, ==_iff, Bool-cases,
}
use pqcscan.Scanner.Xml.{xml_escape}
use pqcscan.Scanner.Xml.Entities.{entity, entities, xml_escape-entities}
use pqcscan.Scanner.Xml.Reader.{decode, prepend, is_char}

-- How a character is written.
data Written (c : ℕ) (e : Bytes) : Type 0 where
  amp : c ≡ b'&' → e ≡ codes "&amp;" → Written c e
  lt : c ≡ b'<' → e ≡ codes "&lt;" → Written c e
  gt : c ≡ b'>' → e ≡ codes "&gt;" → Written c e
  quot : c ≡ b'"' → e ≡ codes "&quot;" → Written c e
  apos : c ≡ b'\'' → e ≡ codes "&apos;" → Written c e
  itself :
      (c == b'&') ≡ false
      → (c == b'<') ≡ false
      → (c == b'>') ≡ false
      → (c == b'"') ≡ false
      → e ≡ c ∷ []
      → Written c e

code_eq : (a b : ℕ) → (a == b) ≡ true → a ≡ b
code_eq a b e = (==_iff a b).0 e

entity-Written : (c : ℕ) → Written c (entity c)
entity-Written c = elim (Bool-cases (c == b'&')) [
  | inl e ↦ amp (code_eq c b'&' e) (rw (e, entity) refl)
  | inr a ↦ elim (Bool-cases (c == b'<')) [
    | inl e ↦ lt (code_eq c b'<' e) (rw (a, entity) (rw (e, entity) refl))
    | inr l ↦ elim (Bool-cases (c == b'>')) [
      | inl e ↦ gt (code_eq c b'>' e) (rw (a, entity) (rw (l, entity) (rw (e, entity) refl)))
      | inr g ↦ elim (Bool-cases (c == b'"')) [
        | inl e ↦
            quot (code_eq c b'"' e)
              (rw (a, entity) (rw (l, entity) (rw (g, entity) (rw (e, entity) refl))))
        | inr q ↦ elim (Bool-cases (c == b'\'')) [
          | inl e ↦ apos (code_eq c b'\'' e) (
              rw (a, entity)
                (rw (l, entity) (rw (g, entity) (rw (q, entity) (rw (e, entity) refl)))))
          | inr p ↦ itself a l g q (
              rw (a, entity)
                (rw (l, entity) (rw (g, entity) (rw (q, entity) (rw (p, entity) refl)))))
        ]
      ]
    ]
  ]
]

decode-written :
    (c : ℕ) (e s : Bytes) → Written c e → decode none (e ++ s) ≡ prepend (c ∷ []) (decode none s)
unfolding equal
decode-written c e s (amp h k) = rw (h, k) refl
decode-written c e s (lt h k) = rw (h, k) refl
decode-written c e s (gt h k) = rw (h, k) refl
decode-written c e s (quot h k) = rw (h, k) refl
decode-written c e s (apos h k) = rw (h, k) refl
decode-written c e s (itself a _ _ _ k) = rw k (rw (a, decode) refl)

decode-entities : (v : Bytes) → decode none (entities v) ≡ some v
decode-entities [] = refl
decode-entities (c ∷ v) =
    decode-written c (entity c) (entities v) (entity-Written c)
    ∙ ap (prepend (c ∷ [])) (decode-entities v)

-- Escaped text is read as the text that it was made of.
pub decode-xml_escape : (v : Bytes) → decode none (xml_escape v) ≡ some v
decode-xml_escape v = rw xml_escape-entities (decode-entities v)

-- A character that ends no text, tag or value.
abbrev pub IsInner : ℕ → Type 0
IsInner c = ((c == b'<') ≡ false) × ((c == b'>') ≡ false) × ((c == b'"') ≡ false)

abbrev pub is_chars : Bytes → Bool
is_chars [] = true
is_chars (c ∷ s) = is_char c && is_chars s

-- A character that the reader takes in text.
abbrev pub IsText : ℕ → Type 0
IsText c = is_char c ≡ true

pub is_chars-IsText : (s : Bytes) → is_chars s ≡ true → All IsText s
is_chars-IsText [] h = tt
is_chars-IsText (c ∷ s) h = (ground arith, is_chars-IsText s (ground arith))

-- One that it takes in an attribute's value.
abbrev pub IsPrinted : ℕ → Type 0
IsPrinted c = ltb c 32 ≡ false

module _ (P : ℕ → Type 0) (q : (d : ℕ) → (ltb d 32 ≡ false) → P d) where
  written-All : (c : ℕ) (e : Bytes) → Written c e → P c → All P e
  written-All c e (amp _ k) p = rw k (q _ refl, (q _ refl, (q _ refl, (q _ refl, (q _ refl, tt)))))
  written-All c e (lt _ k) p = rw k (q _ refl, (q _ refl, (q _ refl, (q _ refl, tt))))
  written-All c e (gt _ k) p = rw k (q _ refl, (q _ refl, (q _ refl, (q _ refl, tt))))
  written-All c e (quot _ k) p =
      rw k (q _ refl, (q _ refl, (q _ refl, (q _ refl, (q _ refl, (q _ refl, tt))))))
  written-All c e (apos _ k) p =
      rw k (q _ refl, (q _ refl, (q _ refl, (q _ refl, (q _ refl, (q _ refl, tt))))))
  written-All c e (itself _ _ _ _ k) p = rw k (p, tt)

  entities-All : (v : Bytes) → All P v → All P (entities v)
  entities-All [] h = tt
  entities-All (c ∷ v) h =
      All-append P (entity c) (entities v) (written-All c (entity c) (entity-Written c) h.0)
        (entities-All v h.1)

  -- Escaping adds no control characters.
  pub xml_escape-All : (v : Bytes) → All P v → All P (xml_escape v)
  xml_escape-All v h = rw xml_escape-entities (entities-All v h)

written-Inner : (c : ℕ) (e : Bytes) → Written c e → All IsInner e
written-Inner c e (amp _ k) = rw k (
  (refl, refl, refl),
  ((refl, refl, refl), ((refl, refl, refl), ((refl, refl, refl), ((refl, refl, refl), tt)))),
)
written-Inner c e (lt _ k) =
    rw k ((refl, refl, refl), ((refl, refl, refl), ((refl, refl, refl), ((refl, refl, refl), tt))))
written-Inner c e (gt _ k) =
    rw k ((refl, refl, refl), ((refl, refl, refl), ((refl, refl, refl), ((refl, refl, refl), tt))))
written-Inner c e (quot _ k) = rw k (
  (refl, refl, refl),
  (
    (refl, refl, refl),
    ((refl, refl, refl), ((refl, refl, refl), ((refl, refl, refl), ((refl, refl, refl), tt)))),
  ),
)
written-Inner c e (apos _ k) = rw k (
  (refl, refl, refl),
  (
    (refl, refl, refl),
    ((refl, refl, refl), ((refl, refl, refl), ((refl, refl, refl), ((refl, refl, refl), tt)))),
  ),
)
written-Inner c e (itself _ l g q k) = rw k ((l, g, q), tt)

entities-Inner : (v : Bytes) → All IsInner (entities v)
entities-Inner [] = tt
entities-Inner (c ∷ v) =
    All-append IsInner (entity c) (entities v) (written-Inner c (entity c) (entity-Written c))
      (entities-Inner v)

-- Escaped text holds no `<`, `>` or `"`.
pub xml_escape-IsInner : (v : Bytes) → All IsInner (xml_escape v)
xml_escape-IsInner v = rw xml_escape-entities (entities-Inner v)
