-- ===== src/Scanner/Xml/Elements.antt =====
-- The reader on what the element writers of pqcscan/src/main.rs write.
use pqcscan.Base.{
  ℕ, ◌≡◌, refl, ap, ◌∙◌, Bool, true, false, some, List, [], ◌∷◌, ◌++◌, append_assoc, arith, All,
  Bytes, equal_refl, ◌==◌, not, ◌&&◌,
}
use pqcscan.Scanner.Xml.{spaces, xml_escape, write_xml_text_element}
use pqcscan.Scanner.Xml.Decoded.{
  IsInner, IsText, IsPrinted, decode-xml_escape, xml_escape-All, xml_escape-IsInner,
}
use pqcscan.Scanner.Xml.Reader.{
  Event, opened, value, closed, open_tag, close_tag, prepend, is_char, read_tag, in_name, on_tag,
  in_text, read_content,
}
use pqcscan.Scanner.Xml.Steps.{IsContent, IsMarkup, read-tag, text_step}
use pqcscan.Scanner.Xml.Lines.{Reads, prepend-append, line_end, spaces-IsContent, spaces-is_white}

abbrev pub is_markup : Bytes → Bool
is_markup [] = true
is_markup (c ∷ m) = not (c == b'>') && is_markup m

pub is_markup-All : (m : Bytes) → is_markup m ≡ true → All IsMarkup m
is_markup-All [] h = tt
is_markup-All (c ∷ m) h = (ground arith, is_markup-All m (ground arith))

-- A word is read as a tag's name.
abbrev pub IsTagName : Bytes → Type 0
IsTagName name =
    (is_markup name ≡ true)
    × (read_tag in_name [] [] [] name ≡ some (open_tag name []))
    × (read_tag in_name [] [] [] (b'/' ∷ name) ≡ some (close_tag name))

-- An element that holds a text.
abbrev pub element : Bytes → Bytes → List Event
element name v = opened name [] ∷ value v ∷ closed name ∷ []

IsContent-zip : (v : Bytes) → All IsInner v → All IsText v → All IsContent v
IsContent-zip [] h k = tt
IsContent-zip (c ∷ v) h k = ((h.0.0, k.0), IsContent-zip v h.1 k.1)

leb-is_char : (c : ℕ) → IsPrinted c → is_char c ≡ true
leb-is_char c h = ground arith

escape-IsContent : (v : Bytes) → All IsText v → All IsContent (xml_escape v)
escape-IsContent v h =
    IsContent-zip (xml_escape v) (xml_escape-IsInner v) (xml_escape-All IsText leb-is_char v h)

element_text :
    (n : ℕ) (name v rest : Bytes)
    → write_xml_text_element n name v ++ rest
      ≡ spaces n
        ++ (b'<'
            ∷ (name
                ++ (b'>' ∷ (xml_escape v ++ (b'<' ∷ ((b'/' ∷ name) ++ (b'>' ∷ b'\n' ∷ rest)))))))
unfolding write_xml_text_element
element_text n name v rest = simp (append_assoc)

module _ (top : Bytes) (stack : List Bytes) where
  element_end :
      (name v rest : Bytes)
      → IsTagName name
      → All IsText v
      → read_content
          (name ∷ top ∷ stack)
          true
          in_text
          []
          (xml_escape v ++ (b'<' ∷ ((b'/' ∷ name) ++ (b'>' ∷ b'\n' ∷ rest))))
        ≡ prepend
            (value v ∷ closed name ∷ [])
            (read_content (top ∷ stack) false in_text line_end rest)
  element_end name v rest (markup, opens, closes) h =
      read-tag (name ∷ top ∷ stack) true [] (xml_escape v) (b'/' ∷ name) (b'\n' ∷ rest)
        (close_tag name) (escape-IsContent v h) (refl, is_markup-All name markup) closes
      ∙ rw (equal_refl name, on_tag)
          (rw (decode-xml_escape v, on_tag)
            (ap (prepend (value v ∷ closed name ∷ []))
              (text_step (top ∷ stack) false b'\n' [] rest (refl, refl))))

  -- An element's text is read as it was before it was escaped.
  pub text_element :
      (fresh : Bool) (n : ℕ) (name v : Bytes)
      → IsTagName name
      → All IsText v
      → Reads
          (top ∷ stack)
          fresh
          (write_xml_text_element n name v)
          (element name v)
          (top ∷ stack)
          false
  text_element fresh n name v (markup, opens, closes) h = record {
    run = λ rest.
        ap (read_content (top ∷ stack) fresh in_text line_end) (element_text n name v rest)
        ∙ read-tag (top ∷ stack) fresh line_end (spaces n) name _ (open_tag name [])
            (spaces-IsContent n) (is_markup-All name markup) opens
        ∙ rw (spaces-is_white n, on_tag)
            (ap (prepend (opened name [] ∷ [])) (element_end name v rest (markup, opens, closes) h)
              ∙ prepend-append (opened name [] ∷ []) (value v ∷ closed name ∷ []) _);
  }
