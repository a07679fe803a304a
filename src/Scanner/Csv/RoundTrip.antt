-- ===== src/Scanner/Csv/RoundTrip.antt =====
-- What the CSV writer writes is read back by a reader of RFC 4180.
use pqcscan.Base.{
  ℕ, suc, ◌≡◌, inl, inr, refl, ap, sym, ◌∙◌, Bool, true, false, Option, none, some, List, [], ◌∷◌,
  ◌++◌, append_assoc, append-nil, arith, Bytes, ◌==◌, ◌||◌, ==_iff, Bool-cases,
}
use pqcscan.Scanner.Csv.{
  is_special, any_special, double_quotes, write_csv_field, write_fields, write_csv_record,
}

-- Where the reader is: at a field's start, in a plain or a quoted field, or behind a quote in one.
pub data Mode : Type 0 where
  start plain quoted closed : Mode

-- RFC 4180, with LF for the line's end: one record, and the text behind it.
abbrev pub read_csv : Mode → Bytes → List Bytes → Bytes → Option (List Bytes × Bytes)
read_csv mode field fields [] = none
read_csv start field fields (c ∷ text) = elim (c == 34) [
  | true ↦ read_csv quoted field fields text
  | false ↦ elim (c == 44) [
    | true ↦ read_csv start [] (fields ++ (field ∷ [])) text
    | false ↦ elim (c == 10) [
      | true ↦ some (fields ++ (field ∷ []), text)
      | false ↦ elim (c == 13) [
        | true ↦ none
        | false ↦ read_csv plain (field ++ (c ∷ [])) fields text
      ]
    ]
  ]
]
read_csv plain field fields (c ∷ text) = elim (c == 34) [
  | true ↦ none
  | false ↦ elim (c == 44) [
    | true ↦ read_csv start [] (fields ++ (field ∷ [])) text
    | false ↦ elim (c == 10) [
      | true ↦ some (fields ++ (field ∷ []), text)
      | false ↦ elim (c == 13) [
        | true ↦ none
        | false ↦ read_csv plain (field ++ (c ∷ [])) fields text
      ]
    ]
  ]
]
read_csv quoted field fields (c ∷ text) = elim (c == 34) [
  | true ↦ read_csv closed field fields text
  | false ↦ read_csv quoted (field ++ (c ∷ [])) fields text
]
read_csv closed field fields (c ∷ text) = elim (c == 34) [
  | true ↦ read_csv quoted (field ++ (34 ∷ [])) fields text
  | false ↦ elim (c == 44) [
    | true ↦ read_csv start [] (fields ++ (field ∷ [])) text
    | false ↦ elim (c == 10) [ true ↦ some (fields ++ (field ∷ []), text) | false ↦ none ]
  ]
]

code_eq : (a b : ℕ) → (a == b) ≡ true → a ≡ b
code_eq a b e = (==_iff a b).0 e

double-quote :
    (c : ℕ) (f : Bytes) → (c == 34) ≡ true → double_quotes (c ∷ f) ≡ 34 ∷ 34 ∷ double_quotes f
unfolding double_quotes
double-quote c f e = ground (arith, e)

double-other : (c : ℕ) (f : Bytes) → (c == 34) ≡ false → double_quotes (c ∷ f) ≡ c ∷ double_quotes f
unfolding double_quotes
double-other c f e = ground (arith, e)

quoted-other :
    (c : ℕ) (acc : Bytes) (fs : List Bytes) (text : Bytes)
    → (c == 34) ≡ false
    → read_csv quoted acc fs (c ∷ text) ≡ read_csv quoted (acc ++ (c ∷ [])) fs text
quoted-other c acc fs text e = ground (arith, e)

plain-other :
    (c : ℕ) (acc : Bytes) (fs : List Bytes) (text : Bytes)
    → (c == 34) ≡ false
    → (c == 44) ≡ false
    → (c == 10) ≡ false
    → (c == 13) ≡ false
    → read_csv plain acc fs (c ∷ text) ≡ read_csv plain (acc ++ (c ∷ [])) fs text
plain-other c acc fs text q m n r = ground (arith, q, m, n, r)

start-other :
    (c : ℕ) (acc : Bytes) (fs : List Bytes) (text : Bytes)
    → (c == 34) ≡ false
    → (c == 44) ≡ false
    → (c == 10) ≡ false
    → (c == 13) ≡ false
    → read_csv start acc fs (c ∷ text) ≡ read_csv plain (acc ++ (c ∷ [])) fs text
start-other c acc fs text q m n r = ground (arith, q, m, n, r)

read-quoted :
    (f acc : Bytes) (fs : List Bytes) (text : Bytes)
    → read_csv quoted acc fs (double_quotes f ++ (34 ∷ text)) ≡ read_csv closed (acc ++ f) fs text
unfolding double_quotes
read-quoted [] acc fs text = ap (λ a. read_csv closed a fs text) (sym (append-nil acc))
read-quoted (c ∷ f) acc fs text = elim (Bool-cases (c == 34)) [
  | inl e ↦
      ap (λ d. read_csv quoted acc fs (d ++ (34 ∷ text))) (double-quote c f e)
      ∙ read-quoted f (acc ++ (34 ∷ [])) fs text
      ∙ ap (λ a. read_csv closed a fs text)
          (append_assoc acc (34 ∷ []) f ∙ ap (λ d. acc ++ (d ∷ f)) (sym (code_eq c 34 e)))
  | inr e ↦
      ap (λ d. read_csv quoted acc fs (d ++ (34 ∷ text))) (double-other c f e)
      ∙ quoted-other c acc fs (double_quotes f ++ (34 ∷ text)) e
      ∙ read-quoted f (acc ++ (c ∷ [])) fs text
      ∙ ap (λ a. read_csv closed a fs text) (append_assoc acc (c ∷ []) f)
]

is_special-false :
    (c : ℕ) (b : Bool)
    → (is_special c || b) ≡ false
    → ((c == 34) ≡ false)
      × ((c == 44) ≡ false)
      × ((c == 10) ≡ false)
      × ((c == 13) ≡ false)
      × (b ≡ false)
unfolding is_special
is_special-false c b h = (ground arith, ground arith, ground arith, ground arith, ground arith)

read-plain :
    (f acc : Bytes) (fs : List Bytes) (text : Bytes)
    → any_special f ≡ false
    → read_csv plain acc fs (f ++ text) ≡ read_csv plain (acc ++ f) fs text
unfolding any_special is_special
read-plain [] acc fs text h = ap (λ a. read_csv plain a fs text) (sym (append-nil acc))
read-plain (c ∷ f) acc fs text h =
    let (q, m, n, r, rest) = is_special-false c (any_special f) h in
    plain-other c acc fs (f ++ text) q m n r
    ∙ (read-plain f (acc ++ (c ∷ [])) fs text rest
        ∙ ap (λ a. read_csv plain a fs text) (append_assoc acc (c ∷ []) f))

read-unquoted :
    (f : Bytes) (fs : List Bytes) (text : Bytes)
    → any_special f ≡ false
    → read_csv start [] fs (f ++ (44 ∷ text)) ≡ read_csv start [] (fs ++ (f ∷ [])) text
unfolding any_special
read-unquoted [] fs text h = refl
read-unquoted (c ∷ f) fs text h =
    let (q, m, n, r, rest) = is_special-false c (any_special f) h in
    start-other c [] fs (f ++ (44 ∷ text)) q m n r ∙ read-plain f (c ∷ []) fs (44 ∷ text) rest

read-unquoted_last :
    (f : Bytes) (fs : List Bytes) (text : Bytes)
    → any_special f ≡ false
    → read_csv start [] fs (f ++ (10 ∷ text)) ≡ some (fs ++ (f ∷ []), text)
unfolding any_special
read-unquoted_last [] fs text h = refl
read-unquoted_last (c ∷ f) fs text h =
    let (q, m, n, r, rest) = is_special-false c (any_special f) h in
    start-other c [] fs (f ++ (10 ∷ text)) q m n r ∙ read-plain f (c ∷ []) fs (10 ∷ text) rest

field-plain : (f : Bytes) → any_special f ≡ false → write_csv_field f ≡ f
unfolding write_csv_field
field-plain f e = ground (arith, e)

field-quoted :
    (f : Bytes) → any_special f ≡ true → write_csv_field f ≡ (34 ∷ double_quotes f) ++ (34 ∷ [])
unfolding write_csv_field
field-quoted f e = ground (arith, e)

read-quoted_field :
    (f : Bytes) (fs : List Bytes) (text : Bytes)
    → any_special f ≡ true
    → read_csv start [] fs (write_csv_field f ++ text) ≡ read_csv closed f fs text
read-quoted_field f fs text e =
    ap (λ w. read_csv start [] fs (w ++ text)) (field-quoted f e)
    ∙ ap (read_csv quoted [] fs) (append_assoc (double_quotes f) (34 ∷ []) text)
    ∙ read-quoted f [] fs text

read-field :
    (f : Bytes) (fs : List Bytes) (text : Bytes)
    → read_csv start [] fs (write_csv_field f ++ (44 ∷ text))
      ≡ read_csv start [] (fs ++ (f ∷ [])) text
read-field f fs text = elim (Bool-cases (any_special f)) [
  | inl e ↦ read-quoted_field f fs (44 ∷ text) e
  | inr e ↦
      ap (λ w. read_csv start [] fs (w ++ (44 ∷ text))) (field-plain f e)
      ∙ read-unquoted f fs text e
]

read-last_field :
    (f : Bytes) (fs : List Bytes) (text : Bytes)
    → read_csv start [] fs (write_csv_field f ++ (10 ∷ text)) ≡ some (fs ++ (f ∷ []), text)
read-last_field f fs text = elim (Bool-cases (any_special f)) [
  | inl e ↦ read-quoted_field f fs (10 ∷ text) e
  | inr e ↦
      ap (λ w. read_csv start [] fs (w ++ (10 ∷ text))) (field-plain f e)
      ∙ read-unquoted_last f fs text e
]

write_fields-suc :
    (idx : ℕ) (g : Bytes) (fields : List Bytes)
    → write_fields (suc idx) (g ∷ fields)
      ≡ 44 ∷ (write_csv_field g ++ write_fields (suc (suc idx)) fields)
unfolding write_fields
write_fields-suc idx g fields = ground (arith)

-- The fields from one at the index `idx` on, behind the comma that stands before it.
read-write_fields :
    (f : Bytes) (fields fs : List Bytes) (idx : ℕ) (text : Bytes)
    → read_csv start [] fs (write_csv_field f ++ (write_fields (suc idx) fields ++ (10 ∷ text)))
      ≡ some (fs ++ (f ∷ fields), text)
unfolding write_fields
read-write_fields f [] fs idx text = read-last_field f fs text
read-write_fields f (g ∷ fields) fs idx text =
    ap (λ w. read_csv start [] fs (write_csv_field f ++ (w ++ (10 ∷ text))))
      (write_fields-suc idx g fields)
    ∙ ap (λ w. read_csv start [] fs (write_csv_field f ++ (44 ∷ w)))
        (append_assoc (write_csv_field g) _ (10 ∷ text))
    ∙ read-field f fs _
    ∙ read-write_fields g fields (fs ++ (f ∷ [])) (suc idx) text
    ∙ ap (λ l. some (l, text)) (append_assoc fs (f ∷ []) (g ∷ fields))

-- A reader of RFC 4180 reads a written record back: for a list of at least one field, whatever
-- commas, quotes and line ends the fields contain, it finds these fields and stops behind the
-- record's line.
pub read-write_csv_record :
    (f : Bytes) (fields : List Bytes) (text : Bytes)
    → read_csv start [] [] (write_csv_record (f ∷ fields) ++ text) ≡ some (f ∷ fields, text)
unfolding write_csv_record write_fields
read-write_csv_record f fields text =
    ap (read_csv start [] []) (
      append_assoc (write_csv_field f ++ write_fields 1 fields) (10 ∷ []) text
      ∙ append_assoc (write_csv_field f) (write_fields 1 fields) (10 ∷ text))
    ∙ read-write_fields f fields [] 0 text
