-- ===== src/Scanner/Xml/Children.antt =====
-- The reader on elements with children, and on the lists of algorithms of pqcscan/src/main.rs.
use pqcscan.Base.{
  ℕ, ◌+◌, ◌≡◌, refl, Bool, true, false, Option, none, some, List, [], ◌∷◌, ◌++◌, append-nil, All,
  Bytes, codes, equal,
}
use pqcscan.Scanner.Xml.{spaces, write_algorithms, write_optional, write_xml_algorithm_list}
use pqcscan.Scanner.Xml.Decoded.{IsText}
use pqcscan.Scanner.Xml.Reader.{Event, opened, value, closed}
use pqcscan.Scanner.Xml.Lines.{
  Reads, Reads-append, line, line_end, open_line, close_line, close_empty_line,
}
use pqcscan.Scanner.Xml.Elements.{IsTagName, is_markup-All, element, text_element}

-- The text of the children of an element, and their events: there are none, or their lines are read
-- behind the opening tag and behind a child.
pub data Children (top : Bytes) (stack : List Bytes) (text : Bytes) (es : List Event) : Type 0 where
  no_child : text ≡ [] → es ≡ [] → Children top stack text es
  some_child :
      (e : Event) (es' : List Event)
      → es ≡ e ∷ es'
      → ((fresh : Bool) → Reads (top ∷ stack) fresh text es (top ∷ stack) false)
      → Children top stack text es

module _ {top : Bytes} {stack : List Bytes} {text text' : Bytes} {es es' : List Event} where
  pub Children-append :
      Children top stack text es
      → Children top stack text' es'
      → Children top stack (text ++ text') (es ++ es')
  Children-append (no_child t e) b = rw (t, e) b
  Children-append (some_child e fs p r) (no_child t q) =
      rw (t, q, append-nil text, append-nil es) (some_child e fs p r)
  Children-append (some_child e fs p r) (some_child e' fs' p' r') =
      some_child e (fs ++ es') (rw p refl) (λ fresh. Reads-append (r fresh) (r' false))

-- What stands between an element's tags: its children, or else white space, which is its value.
abbrev pub content : Bytes → List Event → List Event
content blank [] = value blank ∷ []
content blank (e ∷ es) = e ∷ es

-- The children of an element and its closing tag.
pub close_children :
    {top : Bytes} {stack : List Bytes} {text : Bytes} {es : List Event} (n : ℕ) (name : Bytes)
    → IsTagName name
    → Children name (top ∷ stack) text es
    → Reads
        (name ∷ top ∷ stack)
        true
        (text ++ line n (b'/' ∷ name))
        (content (line_end ++ spaces n) es ++ (closed name ∷ []))
        (top ∷ stack)
        false
close_children {top} {stack} n name (markup, opens, closes) (no_child t e) =
    rw (t, e) (close_empty_line top stack n name (is_markup-All name markup) closes)
close_children {top} {stack} n name (markup, opens, closes) (some_child e es p r) = rw p (
    Reads-append (rw p at (r true))
      (close_line top stack n name (is_markup-All name markup) closes))

-- An element on lines of its own.
pub with_children :
    {top : Bytes} {stack : List Bytes} {text : Bytes} {es : List Event} (fresh : Bool) (n : ℕ)
    (name : Bytes)
    → IsTagName name
    → Children name (top ∷ stack) text es
    → Reads
        (top ∷ stack)
        fresh
        (line n name ++ (text ++ line n (b'/' ∷ name)))
        (opened name [] ∷ (content (line_end ++ spaces n) es ++ (closed name ∷ [])))
        (top ∷ stack)
        false
with_children {top} {stack} fresh n name named children =
    Reads-append (open_line (top ∷ stack) fresh n name name [] (is_markup-All name named.0) named.1)
      (close_children n name named children)

-- The events of the algorithms of a list.
abbrev pub algorithm_events : List Bytes → List Event
algorithm_events [] = []
algorithm_events (a ∷ algorithms) = element (codes "algorithm") a ++ algorithm_events algorithms

abbrev pub items : Option (List Bytes) → List Bytes
items none = []
items (some algorithms) = algorithms

-- An empty list is an element whose text is the line's end and the blanks before its closing tag.
abbrev pub list_events : Bytes → Option (List Bytes) → List Event
list_events name algorithms =
    opened name []
    ∷ (content (line_end ++ spaces 6) (algorithm_events (items algorithms)) ++ (closed name ∷ []))

algorithm-IsTagName : IsTagName (codes "algorithm")
unfolding equal
algorithm-IsTagName = (refl, refl, refl)

module _ (top : Bytes) (stack : List Bytes) where
  algorithms-Children :
      (n : ℕ) (algorithms : List Bytes)
      → All (All IsText) algorithms
      → Children top stack (write_algorithms n algorithms) (algorithm_events algorithms)
  unfolding write_algorithms
  algorithms-Children n [] h = no_child refl refl
  algorithms-Children n (a ∷ algorithms) h =
      Children-append
        (some_child _ _ refl (λ fresh.
          text_element top stack fresh (n + 2) (codes "algorithm") a algorithm-IsTagName h.0))
        (algorithms-Children n algorithms h.1)

  optional-Children :
      (n : ℕ) (algorithms : Option (List Bytes))
      → All (All IsText) (items algorithms)
      → Children top stack (write_optional n algorithms) (algorithm_events (items algorithms))
  unfolding write_optional
  optional-Children n none h = no_child refl refl
  optional-Children n (some algorithms) h = algorithms-Children n algorithms h

-- A list of algorithms is read as their texts in their order.
pub list_element :
    (top : Bytes) (stack : List Bytes) (fresh : Bool) (name : Bytes)
    (algorithms : Option (List Bytes))
    → IsTagName name
    → All (All IsText) (items algorithms)
    → Reads
        (top ∷ stack)
        fresh
        (write_xml_algorithm_list 6 name algorithms)
        (list_events name algorithms)
        (top ∷ stack)
        false
unfolding write_xml_algorithm_list
list_element top stack fresh name algorithms named h =
    with_children fresh 6 name named (optional-Children name (top ∷ stack) 6 algorithms h)
