-- ===== src/Scanner/Xml/Entities.antt =====
-- What `xml_escape` does to each character.
use pqcscan.Base.{
  ℕ, ◌≡◌, refl, sym, ap, ◌∙◌, inl, inr, true, false, [], ◌∷◌, ◌++◌, append_assoc, Bytes, codes,
  ◌==◌, ==_iff, if◌then◌else◌, Bool-cases,
}
use pqcscan.Scanner.Xml.{replace, xml_escape}

replace-append :
    (c : ℕ) (by xs ys : Bytes) → replace c by (xs ++ ys) ≡ replace c by xs ++ replace c by ys
unfolding replace
replace-append c by [] ys = refl
replace-append c by (x ∷ xs) ys =
    ap (◌++◌ (if x == c then by else x ∷ [])) (replace-append c by xs ys)
    ∙ sym (append_assoc (if x == c then by else x ∷ []) (replace c by xs) (replace c by ys))

-- A character as XML text: one of the five predefined entities, or itself.
abbrev pub entity : ℕ → Bytes
entity c = elim (c == b'&') [
  | true ↦ codes "&amp;"
  | false ↦ elim (c == b'<') [
    | true ↦ codes "&lt;"
    | false ↦ elim (c == b'>') [
      | true ↦ codes "&gt;"
      | false ↦ elim (c == b'"') [
        | true ↦ codes "&quot;"
        | false ↦ elim (c == b'\'') [ true ↦ codes "&apos;" | false ↦ c ∷ [] ]
      ]
    ]
  ]
]

abbrev pub entities : Bytes → Bytes
entities [] = []
entities (c ∷ s) = entity c ++ entities s

escape-append : (xs ys : Bytes) → xml_escape (xs ++ ys) ≡ xml_escape xs ++ xml_escape ys
unfolding xml_escape
escape-append xs ys = rw (replace-append b'&' (codes "&amp;") xs ys) (
    rw (replace-append b'<' (codes "&lt;")) (
      rw (replace-append b'>' (codes "&gt;"))
        (rw (replace-append b'"' (codes "&quot;")) (replace-append b'\'' (codes "&apos;") _ _))))

replace-hit : (c d : ℕ) (by : Bytes) → (d == c) ≡ true → replace c by (d ∷ []) ≡ by ++ []
unfolding replace
replace-hit c d by e = rw e refl

replace-miss : (c d : ℕ) (by : Bytes) → (d == c) ≡ false → replace c by (d ∷ []) ≡ d ∷ []
unfolding replace
replace-miss c d by e = rw e refl

escape-one : (c : ℕ) → xml_escape (c ∷ []) ≡ entity c
unfolding xml_escape
escape-one c = elim (Bool-cases (c == b'&')) [
  | inl e ↦ rw ((==_iff c b'&').0 e) (unfold replace in refl)
  | inr amp ↦
      rw (replace-miss b'&' c (codes "&amp;") amp, amp, entity)
        (elim (Bool-cases (c == b'<')) [
          | inl e ↦ rw ((==_iff c b'<').0 e) (unfold replace in refl)
          | inr lt ↦
              rw (replace-miss b'<' c (codes "&lt;") lt, lt, entity)
                (elim (Bool-cases (c == b'>')) [
                  | inl e ↦ rw ((==_iff c b'>').0 e) (unfold replace in refl)
                  | inr gt ↦
                      rw (replace-miss b'>' c (codes "&gt;") gt, gt, entity)
                        (elim (Bool-cases (c == b'"')) [
                          | inl e ↦ rw ((==_iff c b'"').0 e) (unfold replace in refl)
                          | inr quot ↦
                              rw (replace-miss b'"' c (codes "&quot;") quot, quot, entity)
                                (elim (Bool-cases (c == b'\'')) [
                                  | inl e ↦ rw ((==_iff c b'\'').0 e) (unfold replace in refl)
                                  | inr apos ↦
                                      rw (replace-miss b'\'' c (codes "&apos;") apos, apos, entity)
                                        refl
                                ])
                        ])
                ])
        ])
]

-- The five replacements, one after the other, do the same as one pass that writes each character as
-- its entity: no replacement touches what another one has put in.
pub xml_escape-entities : (value : Bytes) → xml_escape value ≡ entities value
unfolding xml_escape
xml_escape-entities [] = unfold replace in refl
xml_escape-entities (c ∷ value) =
    escape-append (c ∷ []) value
    ∙ ap (λ e. e ++ xml_escape value) (escape-one c)
    ∙ ap (◌++◌ (entity c)) (xml_escape-entities value)
