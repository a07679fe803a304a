-- ===== src/Scanner/Xml/Steps.antt =====
-- The reader step by step: over a text, a tag, and what follows a tag.
use pqcscan.Base.{
  ℕ, ◌≡◌, refl, ◌∙◌, Bool, true, false, Option, none, some, List, [], ◌∷◌, ◌++◌, append-nil,
  append_assoc, All, Bytes, ◌==◌, if◌then◌else◌,
}
use pqcscan.Scanner.Xml.Reader.{
  Event, Tag, is_white, is_char, read_tag, in_name, on_tag, in_text, in_tag, read_content,
}

-- A character of text, and one of a tag.
abbrev pub IsContent : ℕ → Type 0
IsContent c = ((c == b'<') ≡ false) × (is_char c ≡ true)

abbrev pub IsMarkup : ℕ → Type 0
IsMarkup c = (c == b'>') ≡ false

module _ (stack : List Bytes) (fresh : Bool) where
  pub text_step :
      (c : ℕ) (text s : Bytes)
      → IsContent c
      → read_content stack fresh in_text text (c ∷ s)
        ≡ read_content stack fresh in_text (text ++ (c ∷ [])) s
  unfolding read_content
  text_step c text s h = rw (h.0, read_content) (rw (h.1, read_content) refl)

  markup_step :
      (c : ℕ) (before text s : Bytes)
      → IsMarkup c
      → read_content stack fresh (in_tag before) text (c ∷ s)
        ≡ read_content stack fresh (in_tag before) (text ++ (c ∷ [])) s
  unfolding read_content
  markup_step c before text s h = rw (h, read_content) refl

  bracket_step :
      (text s : Bytes)
      → read_content stack fresh in_text text (b'<' ∷ s)
        ≡ read_content stack fresh (in_tag text) [] s
  unfolding read_content
  bracket_step text s = refl

  read-text :
      (x text s : Bytes)
      → All IsContent x
      → read_content stack fresh in_text text (x ++ s)
        ≡ read_content stack fresh in_text (text ++ x) s
  read-text [] text s h = rw append-nil
  read-text (c ∷ x) text s h =
      text_step c text (x ++ s) h.0 ∙ read-text x (text ++ (c ∷ [])) s h.1 ∙ rw append_assoc

  read-markup :
      (m before text s : Bytes)
      → All IsMarkup m
      → read_content stack fresh (in_tag before) text (m ++ s)
        ≡ read_content stack fresh (in_tag before) (text ++ m) s
  read-markup [] before text s h = rw append-nil
  read-markup (c ∷ m) before text s h =
      markup_step c before text (m ++ s) h.0
      ∙ read-markup m before (text ++ (c ∷ [])) s h.1
      ∙ rw append_assoc

-- What the reader does behind a tag.
abbrev pub resume : Bytes → List Bytes → Bool → Option (List Event)
resume s stack fresh = elim stack [
  | [] ↦ if is_white s then some [] else none
  | top ∷ rest ↦ read_content (top ∷ rest) fresh in_text [] s
]

tag_end :
    (stack : List Bytes) (fresh : Bool) (before m s : Bytes) (tag : Tag)
    → read_tag in_name [] [] [] m ≡ some tag
    → read_content stack fresh (in_tag before) m (b'>' ∷ s)
      ≡ on_tag stack fresh before tag (resume s)
unfolding read_content
tag_end stack fresh before m s tag e = rw e refl

-- A text and a tag behind it.
pub read-tag :
    (stack : List Bytes) (fresh : Bool) (text x m s : Bytes) (tag : Tag)
    → All IsContent x
    → All IsMarkup m
    → read_tag in_name [] [] [] m ≡ some tag
    → read_content stack fresh in_text text (x ++ (b'<' ∷ (m ++ (b'>' ∷ s))))
      ≡ on_tag stack fresh (text ++ x) tag (resume s)
read-tag stack fresh text x m s tag hx hm e =
    read-text stack fresh x text _ hx
    ∙ bracket_step stack fresh (text ++ x) _
    ∙ read-markup stack fresh m (text ++ x) [] (b'>' ∷ s) hm
    ∙ tag_end stack fresh (text ++ x) m s tag e
