-- ===== src/Scanner/Xml/Lines.antt =====
-- The reader on one line of a document: the text before a tag, the tag, and the line's end.
use pqcscan.Base.{
  zero, suc, ℕ, ◌≡◌, refl, ap, sym, ◌∙◌, Bool, true, false, Option, none, some, List, [], ◌∷◌, ◌++◌,
  append_assoc, All, Bytes, codes, equal_refl,
}
use pqcscan.Scanner.Xml.{spaces}
use pqcscan.Scanner.Xml.Steps.{IsContent, IsMarkup, text_step, resume, read-tag}
use pqcscan.Scanner.Xml.Reader.{
  Event, opened, value, closed, Tag, open_tag, empty_tag, close_tag, prepend, is_white, decode,
  read_tag, in_name, on_tag, Attributes, in_text, read_content,
}

-- The line feed that ends a line is the first text of the next.
abbrev pub line_end : Bytes
line_end = codes "\n"

-- A text of whole lines is read: its events, and the elements that are open before and behind it.
pub record Reads (stack : List Bytes) (fresh : Bool) (text : Bytes) (es : List Event)
    (stack' : List Bytes) (fresh' : Bool) : Type 0 where
  pub run :
      (rest : Bytes)
      → read_content stack fresh in_text line_end (text ++ rest)
        ≡ prepend es (read_content stack' fresh' in_text line_end rest)

pub prepend-append :
    (es fs : List Event) (m : Option (List Event))
    → prepend es (prepend fs m) ≡ prepend (es ++ fs) m
prepend-append es fs none = refl
prepend-append es fs (some gs) = ap some (sym (append_assoc es fs gs))

pub Reads-append :
    {st st' st'' : List Bytes} {fr fr' fr'' : Bool} {text text' : Bytes} {es es' : List Event}
    → Reads st fr text es st' fr'
    → Reads st' fr' text' es' st'' fr''
    → Reads st fr (text ++ text') (es ++ es') st'' fr''
Reads-append {st} {fr = fr} {text = text} {text' = text'} {es = es} {es' = es'} a b = record {
  run = λ rest.
      ap (read_content st fr in_text line_end) (append_assoc text text' rest)
      ∙ a.run (text' ++ rest)
      ∙ ap (prepend es) (b.run rest)
      ∙ prepend-append es es' _;
}

pub spaces-IsContent : (n : ℕ) → All IsContent (spaces n)
spaces-IsContent zero = tt
spaces-IsContent (suc n) = ((refl, refl), spaces-IsContent n)

pub spaces-is_white : (n : ℕ) → is_white (spaces n) ≡ true
spaces-is_white zero = refl
spaces-is_white (suc n) = spaces-is_white n

decode-spaces : (n : ℕ) → decode none (spaces n) ≡ some (spaces n)
decode-spaces zero = refl
decode-spaces (suc n) = rw (decode-spaces n)

module _ (stack : List Bytes) (fresh : Bool) (n : ℕ) (m : Bytes) (tag : Tag) where
  -- A line that is indented by blanks and holds one tag.
  tag_line :
      (rest : Bytes)
      → All IsMarkup m
      → read_tag in_name [] [] [] m ≡ some tag
      → read_content stack fresh in_text line_end
          ((spaces n ++ (codes "<" ++ (m ++ codes ">\n"))) ++ rest)
        ≡ on_tag stack fresh (line_end ++ spaces n) tag (resume (b'\n' ∷ rest))
  tag_line rest hm e =
      ap (read_content stack fresh in_text line_end) (
        append_assoc (spaces n) _ rest
        ∙ ap (λ s. spaces n ++ (b'<' ∷ s)) (append_assoc m (codes ">\n") rest))
      ∙ read-tag stack fresh line_end (spaces n) m (b'\n' ∷ rest) tag (spaces-IsContent n) hm e

abbrev pub line : ℕ → Bytes → Bytes
line n m = spaces n ++ (codes "<" ++ (m ++ codes ">\n"))

-- An opening tag on a line of its own.
pub open_line :
    (stack : List Bytes) (fresh : Bool) (n : ℕ) (m name : Bytes) (attrs : Attributes)
    → All IsMarkup m
    → read_tag in_name [] [] [] m ≡ some (open_tag name attrs)
    → Reads stack fresh (line n m) (opened name attrs ∷ []) (name ∷ stack) true
open_line stack fresh n m name attrs hm e = record {
  run = λ rest.
      tag_line stack fresh n m (open_tag name attrs) rest hm e
      ∙ rw (spaces-is_white n, on_tag)
          (ap (prepend (opened name attrs ∷ []))
            (text_step (name ∷ stack) true b'\n' [] rest (refl, refl)));
}

-- An element without content.
pub empty_line :
    (top : Bytes) (stack : List Bytes) (fresh : Bool) (n : ℕ) (m name : Bytes) (attrs : Attributes)
    → All IsMarkup m
    → read_tag in_name [] [] [] m ≡ some (empty_tag name attrs)
    → Reads
        (top ∷ stack)
        fresh
        (line n m)
        (opened name attrs ∷ closed name ∷ [])
        (top ∷ stack)
        false
empty_line top stack fresh n m name attrs hm e = record {
  run = λ rest.
      tag_line (top ∷ stack) fresh n m (empty_tag name attrs) rest hm e
      ∙ rw (spaces-is_white n, on_tag)
          (ap (prepend (opened name attrs ∷ closed name ∷ []))
            (text_step (top ∷ stack) false b'\n' [] rest (refl, refl)));
}

-- The closing tag of an element with children.
pub close_line :
    (top : Bytes) (stack : List Bytes) (n : ℕ) (name : Bytes)
    → All IsMarkup name
    → read_tag in_name [] [] [] (b'/' ∷ name) ≡ some (close_tag name)
    → Reads (name ∷ top ∷ stack) false (line n (b'/' ∷ name)) (closed name ∷ []) (top ∷ stack) false
close_line top stack n name hm e = record {
  run = λ rest.
      tag_line (name ∷ top ∷ stack) false n (b'/' ∷ name) (close_tag name) rest (refl, hm) e
      ∙ rw (equal_refl name, spaces-is_white n, on_tag)
          (ap (prepend (closed name ∷ []))
            (text_step (top ∷ stack) false b'\n' [] rest (refl, refl)));
}

-- The closing tag of an element whose only content is the line's end and the blanks before the tag.
pub close_empty_line :
    (top : Bytes) (stack : List Bytes) (n : ℕ) (name : Bytes)
    → All IsMarkup name
    → read_tag in_name [] [] [] (b'/' ∷ name) ≡ some (close_tag name)
    → Reads
        (name ∷ top ∷ stack)
        true
        (line n (b'/' ∷ name))
        (value (line_end ++ spaces n) ∷ closed name ∷ [])
        (top ∷ stack)
        false
close_empty_line top stack n name hm e = record {
  run = λ rest.
      tag_line (name ∷ top ∷ stack) true n (b'/' ∷ name) (close_tag name) rest (refl, hm) e
      ∙ rw (equal_refl name, on_tag)
          (rw (decode-spaces n, on_tag)
            (ap (prepend (value (line_end ++ spaces n) ∷ closed name ∷ []))
              (text_step (top ∷ stack) false b'\n' [] rest (refl, refl))));
}
