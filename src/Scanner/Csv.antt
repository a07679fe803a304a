-- ===== src/Scanner/Csv.antt =====
-- The CSV writer of pqcscan/src/main.rs: `write_csv_field` and `write_csv_record`. A field is its
-- bytes: none of the characters that matter occurs inside another's UTF-8 encoding.
pub mod RoundTrip
use pqcscan.Base.{
  ℕ, zero, suc, Bool, true, false, List, [], ◌∷◌, ◌++◌, Bytes, ltb, ◌==◌, ◌||◌, if◌then◌else◌,
}

-- `matches!(c, ',' | '"' | '\n' | '\r')`
unfoldable pub is_special : ℕ → Bool
is_special c = (c == 44) || (c == 34) || (c == 10) || (c == 13)

-- `field.chars().any(…)`
unfoldable pub any_special : Bytes → Bool
any_special [] = false
any_special (c ∷ field) = is_special c || any_special field

-- `field.replace('"', "\"\"")`
unfoldable pub double_quotes : Bytes → Bytes
double_quotes [] = []
double_quotes (c ∷ field) = (if c == 34 then 34 ∷ 34 ∷ [] else c ∷ []) ++ double_quotes field

unfoldable pub write_csv_field : Bytes → Bytes
write_csv_field field = if any_special field then (34 ∷ double_quotes field) ++ (34 ∷ []) else field

-- `for (idx, field) in fields.iter().enumerate()`
unfoldable pub write_fields : ℕ → List Bytes → Bytes
write_fields idx [] = []
write_fields idx (field ∷ fields) =
    (if ltb 0 idx then 44 ∷ [] else []) ++ write_csv_field field ++ write_fields (suc idx) fields

unfoldable pub write_csv_record : List Bytes → Bytes
write_csv_record fields = write_fields 0 fields ++ (10 ∷ [])
