-- ===== src/Scanner/Xml/Attributes.antt =====
-- The reader on an attribute's value: numbers, words and escaped texts.
use pqcscan.Base.{
  ℕ, ◌≡◌, refl, ◌∙◌, false, none, some, [], ◌∷◌, ◌++◌, append-nil, append_assoc, arith, All,
  All-append, Bytes, ◌==◌,
}
use pqcscan.Base.Decimal.{decimal, decimal-IsDigit, IsDigit}
use pqcscan.Scanner.Report.{ScanType, ssh, tls}
use pqcscan.Scanner.Xml.{xml_escape, scan_type_name}
use pqcscan.Scanner.Xml.Decoded.{
  IsInner, IsPrinted, decode-xml_escape, xml_escape-All, xml_escape-IsInner,
}
use pqcscan.Scanner.Xml.Reader.{Attributes, decode, read_tag, in_value, behind_value}
use pqcscan.Scanner.Xml.Steps.{IsMarkup}

-- A character that stands for itself in a value.
abbrev pub IsValue : ℕ → Type 0
IsValue c = IsInner c × IsPrinted c

value_step :
    (a name : Bytes) (attrs : Attributes) (text : Bytes) (c : ℕ) (s : Bytes)
    → IsValue c
    → read_tag (in_value a) name attrs text (c ∷ s)
      ≡ read_tag (in_value a) name attrs (text ++ (c ∷ [])) s
value_step a name attrs text c s h = rw (h.0.2, read_tag) (rw (h.1, read_tag) refl)

read-value :
    (a name : Bytes) (attrs : Attributes) (v text s : Bytes)
    → All IsValue v
    → read_tag (in_value a) name attrs text (v ++ s)
      ≡ read_tag (in_value a) name attrs (text ++ v) s
read-value a name attrs [] text s h = rw append-nil
read-value a name attrs (c ∷ v) text s h =
    value_step a name attrs text c (v ++ s) h.0
    ∙ read-value a name attrs v (text ++ (c ∷ [])) s h.1
    ∙ rw append_assoc

-- A text that is written for a value `v` and can stand in quotes.
abbrev pub Quotes : Bytes → Bytes → Type 0
Quotes w v = All IsValue w × (decode none w ≡ some v)

-- A value, the quote behind it, and what follows.
pub read-quoted :
    (a name : Bytes) (attrs : Attributes) (w v s : Bytes)
    → Quotes w v
    → read_tag (in_value a) name attrs [] (w ++ (b'"' ∷ s))
      ≡ read_tag behind_value name (attrs ++ ((a, v) ∷ [])) [] s
read-quoted a name attrs w v s (h, e) =
    read-value a name attrs w [] (b'"' ∷ s) h ∙ rw (e, read_tag) refl

IsValue-zip : (w : Bytes) → All IsInner w → All IsPrinted w → All IsValue w
IsValue-zip [] h k = tt
IsValue-zip (c ∷ w) h k = ((h.0, k.0), IsValue-zip w h.1 k.1)

IsValue-IsMarkup : (w : Bytes) → All IsValue w → All IsMarkup w
IsValue-IsMarkup [] h = tt
IsValue-IsMarkup (c ∷ w) h = (h.0.0.1, IsValue-IsMarkup w h.1)

pub escape-Quotes : (v : Bytes) → All IsPrinted v → Quotes (xml_escape v) v
escape-Quotes v h = (
  IsValue-zip (xml_escape v) (xml_escape-IsInner v) (xml_escape-All IsPrinted (λ c p. p) v h),
  decode-xml_escape v,
)

digits-IsValue : (s : Bytes) → All IsDigit s → All IsValue s
digits-IsValue [] h = tt
digits-IsValue (c ∷ s) h = (
  ((ground (arith, h.0), ground (arith, h.0), ground (arith, h.0)), ground (arith, h.0)),
  digits-IsValue s h.1,
)

digits-decode : (s : Bytes) → All IsDigit s → decode none s ≡ some s
digits-decode [] h = refl
digits-decode (c ∷ s) h =
    let plain : (c == b'&') ≡ false = ground (arith, h.0) in
    rw (plain, decode) (rw (digits-decode s h.1) refl)

pub decimal-Quotes : (n : ℕ) → Quotes (decimal n) (decimal n)
decimal-Quotes n =
    (digits-IsValue (decimal n) (decimal-IsDigit n), digits-decode (decimal n) (decimal-IsDigit n))

pub scan_type_name-Quotes : (t : ScanType) → Quotes (scan_type_name t) (scan_type_name t)
unfolding scan_type_name
scan_type_name-Quotes ssh = (
  (((refl, refl, refl), refl), (((refl, refl, refl), refl), (((refl, refl, refl), refl), tt))),
  refl,
)
scan_type_name-Quotes tls = (
  (((refl, refl, refl), refl), (((refl, refl, refl), refl), (((refl, refl, refl), refl), tt))),
  refl,
)

-- An attribute in front of a text, from its value on.
abbrev pub attribute : Bytes → Bytes → Bytes
attribute w s = w ++ (b'"' ∷ s)

pub attribute-IsMarkup :
    (w v s : Bytes) → Quotes w v → All IsMarkup s → All IsMarkup (attribute w s)
attribute-IsMarkup w v s q h = All-append IsMarkup w (b'"' ∷ s) (IsValue-IsMarkup w q.0) (refl, h)
