-- ===== src/Scanner/Xml/Reader.antt =====
-- A reader of the part of XML 1.0 that has elements, attributes in double quotes and the five
-- predefined entities, and no comments, sections or processing instructions. It refuses, as XML
-- does, characters below 32 but for tab and line feed, tags that do not match, and text outside the
-- root. It also refuses carriage returns, which XML turns into line feeds, and text beside elements.
use pqcscan.Base.{
  ℕ, Bool, true, false, ◌&&◌, ◌||◌, Option, none, some, List, [], ◌∷◌, ◌++◌, Bytes, codes, equal,
  ltb, leb, ◌==◌, if◌then◌else◌,
}

abbrev pub Attributes : Type 0
Attributes = List (Bytes × Bytes)

-- What a reader reports, an element without content being opened and closed. The text of an
-- element without children is its value; other text is white space and left out.
pub data Event : Type 0 where
  opened : Bytes → Attributes → Event
  value : Bytes → Event
  closed : Bytes → Event

pub data Tag : Type 0 where
  open_tag empty_tag : Bytes → Attributes → Tag
  close_tag : Bytes → Tag

infixl 5 ◌>>=◌
abbrev pub ◌>>=◌ {ℓ κ} : {A : Type ℓ} {B : Type κ} → Option A → (A → Option B) → Option B
none >>= f = none
some a >>= f = f a

abbrev pub prepend {ℓ} : {A : Type ℓ} → List A → Option (List A) → Option (List A)
prepend xs none = none
prepend xs (some ys) = some (xs ++ ys)

abbrev pub is_char : ℕ → Bool
is_char c = (c == 9) || (c == 10) || leb 32 c

abbrev pub is_white : Bytes → Bool
is_white [] = true
is_white (c ∷ s) = ((c == 9) || (c == 10) || (c == b' ')) && is_white s

abbrev pub is_name_char : ℕ → Bool
is_name_char c = (leb b'a' c && leb c b'z') || (c == b'_')

abbrev pub reference : Bytes → Option ℕ
reference r =
    if equal r (codes "amp")
    then some b'&'
    else if equal r (codes "lt")
    then some b'<'
    else if equal r (codes "gt")
    then some b'>'
    else if equal r (codes "quot")
    then some b'"'
    else if equal r (codes "apos")
    then some b'\''
    else none

-- The text that XML text stands for; the first argument is what was read of a reference.
abbrev pub decode : Option Bytes → Bytes → Option Bytes
decode none [] = some []
decode (some r) [] = none
decode none (c ∷ s) = elim (c == b'&') [
  | true ↦ decode (some []) s
  | false ↦ prepend (c ∷ []) (decode none s)
]
decode (some r) (c ∷ s) = elim (c == b';') [
  | true ↦ reference r >>= λ d. prepend (d ∷ []) (decode none s)
  | false ↦ decode (some (r ++ (c ∷ []))) s
]

-- Where the reader is in a tag: in its name, behind a blank, in an attribute's name, behind its
-- `=`, in its value, behind its value, and behind the slash of an empty element or a closing tag.
pub data Part : Type 0 where
  in_name between : Part
  in_attribute : Bytes → Part
  behind_equals in_value : Bytes → Part
  behind_value slash : Part
  in_closing : Part

-- A tag without its brackets: its name and attributes so far, and the text of the part so far.
abbrev pub read_tag : Part → Bytes → Attributes → Bytes → Bytes → Option Tag
read_tag in_name name attrs text [] = some (open_tag name attrs)
read_tag behind_value name attrs text [] = some (open_tag name attrs)
read_tag slash name attrs text [] = some (empty_tag name attrs)
read_tag in_closing name attrs text [] = some (close_tag name)
read_tag between name attrs text [] = none
read_tag (in_attribute a) name attrs text [] = none
read_tag (behind_equals a) name attrs text [] = none
read_tag (in_value a) name attrs text [] = none
read_tag in_name name attrs text (c ∷ s) = elim (is_name_char c) [
  | true ↦ read_tag in_name (name ++ (c ∷ [])) attrs [] s
  | false ↦ elim (c == b' ') [
    | true ↦ read_tag between name attrs [] s
    | false ↦ elim ((c == b'/') && equal name []) [
      | true ↦ read_tag in_closing [] attrs [] s
      | false ↦ none
    ]
  ]
]
read_tag in_closing name attrs text (c ∷ s) = elim (is_name_char c) [
  | true ↦ read_tag in_closing (name ++ (c ∷ [])) attrs [] s
  | false ↦ none
]
read_tag between name attrs text (c ∷ s) = elim (is_name_char c) [
  | true ↦ read_tag (in_attribute (c ∷ [])) name attrs [] s
  | false ↦ elim (c == b'/') [ true ↦ read_tag slash name attrs [] s | false ↦ none ]
]
read_tag (in_attribute a) name attrs text (c ∷ s) = elim (is_name_char c) [
  | true ↦ read_tag (in_attribute (a ++ (c ∷ []))) name attrs [] s
  | false ↦ elim (c == b'=') [ true ↦ read_tag (behind_equals a) name attrs [] s | false ↦ none ]
]
read_tag (behind_equals a) name attrs text (c ∷ s) = elim (c == b'"') [
  | true ↦ read_tag (in_value a) name attrs [] s
  | false ↦ none
]
read_tag (in_value a) name attrs text (c ∷ s) = elim (c == b'"') [
  | true ↦ decode none text >>= λ v. read_tag behind_value name (attrs ++ ((a, v) ∷ [])) [] s
  | false ↦ elim (ltb c 32) [
    | true ↦ none
    | false ↦ read_tag (in_value a) name attrs (text ++ (c ∷ [])) s
  ]
]
read_tag behind_value name attrs text (c ∷ s) = elim (c == b' ') [
  | true ↦ read_tag between name attrs [] s
  | false ↦ none
]
read_tag slash name attrs text (c ∷ s) = none

-- A tag behind some text: `go` reads on, with the elements that are open and whether the tag has
-- just opened one.
abbrev pub on_tag :
    List Bytes
    → Bool
    → Bytes
    → Tag
    → (List Bytes → Bool → Option (List Event))
    → Option (List Event)
on_tag stack fresh before (open_tag name attrs) go = elim (is_white before) [
  | true ↦ prepend (opened name attrs ∷ []) (go (name ∷ stack) true)
  | false ↦ none
]
on_tag stack fresh before (empty_tag name attrs) go = elim (is_white before) [
  | true ↦ prepend (opened name attrs ∷ closed name ∷ []) (go stack false)
  | false ↦ none
]
on_tag [] fresh before (close_tag name) go = none
on_tag (top ∷ stack) true before (close_tag name) go = elim (equal top name) [
  | true ↦ decode none before >>= λ v. prepend (value v ∷ closed name ∷ []) (go stack false)
  | false ↦ none
]
on_tag (top ∷ stack) false before (close_tag name) go = elim (equal top name && is_white before) [
  | true ↦ prepend (closed name ∷ []) (go stack false)
  | false ↦ none
]

-- Where the reader is: in text, or in a tag behind some text.
pub data Place : Type 0 where
  in_text : Place
  in_tag : Bytes → Place

-- The text of a document from a place on, given what was read there.
unfoldable pub read_content : List Bytes → Bool → Place → Bytes → Bytes → Option (List Event)
read_content stack fresh place text [] = none
read_content stack fresh in_text text (c ∷ s) = elim (c == b'<') [
  | true ↦ read_content stack fresh (in_tag text) [] s
  | false ↦ elim (is_char c) [
    | true ↦ read_content stack fresh in_text (text ++ (c ∷ [])) s
    | false ↦ none
  ]
]
read_content stack fresh (in_tag before) text (c ∷ s) = elim (c == b'>') [
  | true ↦ read_tag in_name [] [] [] text >>= λ tag. on_tag stack fresh before tag (λ stack' fresh'.
      elim stack' [
        | [] ↦ if is_white s then some [] else none
        | top ∷ rest ↦ read_content (top ∷ rest) fresh' in_text [] s
      ])
  | false ↦ read_content stack fresh (in_tag before) (text ++ (c ∷ [])) s
]

-- What stands behind a prefix.
abbrev strip : Bytes → Bytes → Option Bytes
strip [] s = some s
strip (c ∷ p) [] = none
strip (c ∷ p) (d ∷ s) = if c == d then strip p s else none

-- A document: the declaration, and one root element.
unfoldable pub read_document : Bytes → Option (List Event)
unfolding read_content
read_document s =
    strip (codes "<?xml version=\"1.0\" encoding=\"UTF-8\"?>") s
    >>= read_content [] false in_text []
