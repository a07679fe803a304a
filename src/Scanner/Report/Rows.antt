-- ===== src/Scanner/Report/Rows.antt =====
-- `write_csv_report_to_writer` of pqcscan/src/main.rs, and its rows read back.
use pqcscan.Base.{
  ℕ, zero, suc, ◌≡◌, refl, ap, sym, ◌∙◌, Bool, true, false, Option, none, some, List, [], ◌∷◌, ◌++◌,
  append_assoc, map, All, All-append, length, Bytes, codes,
}
use pqcscan.Base.Split.{join}
use pqcscan.Base.Decimal.{decimal}
use pqcscan.Base.Dict.{lookup, bytes_eq}
use pqcscan.Scanner.Csv.{write_csv_record}
use pqcscan.Scanner.Csv.RoundTrip.{read_csv, start, read-write_csv_record}
use pqcscan.Scanner.Report.{Finding, ReportResults, results_of}

unfoldable pub status : Option Bytes → Bytes
status none = codes "success"
status (some e) = codes "error"

unfoldable pub join_algorithms : Option (List Bytes) → Bytes
join_algorithms none = []
join_algorithms (some items) = join 59 items

-- `unwrap_or_default`, and `to_string` of a `bool`
unfoldable pub text_of : Option Bytes → Bytes
text_of none = []
text_of (some s) = s

unfoldable pub bool_text : Bool → Bytes
bool_text true = codes "true"
bool_text false = codes "false"

unfoldable pub csv_header : List Bytes
csv_header =
    codes "scan_type"
    ∷ codes "host"
    ∷ codes "port"
    ∷ codes "address"
    ∷ codes "status"
    ∷ codes "pqc_supported"
    ∷ codes "pqc_algorithms"
    ∷ codes "hybrid_algorithms"
    ∷ codes "non_pqc_algorithms"
    ∷ codes "error"
    ∷ []

unfoldable pub ssh_row : Finding → List Bytes
ssh_row r =
    codes "ssh"
    ∷ r.targetspec.host
    ∷ decimal r.targetspec.port
    ∷ text_of r.addr
    ∷ status r.error
    ∷ bool_text r.pqc_supported
    ∷ join_algorithms r.pqc_algos
    ∷ []
    ∷ join_algorithms r.nonpqc_algos
    ∷ text_of r.error
    ∷ []

unfoldable pub tls_row : Finding → List Bytes
tls_row r =
    codes "tls"
    ∷ r.targetspec.host
    ∷ decimal r.targetspec.port
    ∷ text_of r.addr
    ∷ status r.error
    ∷ bool_text r.pqc_supported
    ∷ join_algorithms r.pqc_algos
    ∷ join_algorithms r.hybrid_algos
    ∷ join_algorithms r.nonpqc_algos
    ∷ text_of r.error
    ∷ []

-- `for result in host_results`
unfoldable pub write_results : (Finding → List Bytes) → List Finding → Bytes
write_results row [] = []
write_results row (r ∷ rs) = write_csv_record (row r) ++ write_results row rs

-- `for host in &sorted_hosts`, with `if let Some(host_results)`
unfoldable pub write_hosts :
    (Finding → List Bytes) → List Bytes → List (Bytes × List Finding) → Bytes
write_hosts row [] results = []
write_hosts row (host ∷ hosts) results =
    write_results row (results_of (lookup host results)) ++ write_hosts row hosts results

unfoldable pub write_csv_report_to_writer : (Time : Type 0) → ReportResults Time → Bytes
write_csv_report_to_writer Time results =
    write_csv_record csv_header
    ++ (write_hosts ssh_row results.ssh_results.sorted_hosts results.ssh_results.results
        ++ write_hosts tls_row results.tls_results.sorted_hosts results.tls_results.results)

abbrev pub and_more : List Bytes → Option (List (List Bytes)) → Option (List (List Bytes))
and_more r none = none
and_more r (some rs) = some (r ∷ rs)

-- All records of a text, at most `fuel`.
abbrev pub read_records : ℕ → Bytes → Option (List (List Bytes))
read_records fuel [] = some []
read_records zero (c ∷ text) = none
read_records (suc fuel) (c ∷ text) = elim (read_csv start [] [] (c ∷ text)) [
  | none ↦ none
  | some (r, rest) ↦ and_more r (read_records fuel rest)
]

-- The records of a list, one behind the other.
abbrev pub write_records : List (List Bytes) → Bytes
write_records [] = []
write_records (r ∷ rs) = write_csv_record r ++ write_records rs

-- The findings of a summary in the order of its hosts.
abbrev pub findings : List Bytes → List (Bytes × List Finding) → List Finding
findings [] results = []
findings (host ∷ hosts) results = results_of (lookup host results) ++ findings hosts results

write_records-append :
    (rs qs : List (List Bytes)) → write_records (rs ++ qs) ≡ write_records rs ++ write_records qs
write_records-append [] qs = refl
write_records-append (r ∷ rs) qs =
    ap (◌++◌ (write_csv_record r)) (write_records-append rs qs)
    ∙ sym (append_assoc (write_csv_record r) (write_records rs) (write_records qs))

write_results-records :
    (row : Finding → List Bytes) (rs : List Finding)
    → write_results row rs ≡ write_records (map row rs)
unfolding write_results
write_results-records row [] = refl
write_results-records row (r ∷ rs) =
    ap (◌++◌ (write_csv_record (row r))) (write_results-records row rs)

abbrev IsRow : List Bytes → Type 0
IsRow [] = ⊥
IsRow (f ∷ fs) = Unit {0}

read-one :
    (n : ℕ) (text : Bytes) (r : List Bytes) (rest : Bytes) (rs : List (List Bytes))
    → read_csv start [] [] text ≡ some (r, rest)
    → read_records n rest ≡ some rs
    → read_records (suc n) text ≡ some (r ∷ rs)
read-one n [] r rest rs e k = absurd (cc)
read-one n (c ∷ text) r rest rs e k = rw (e, read_records) (ap (and_more r) k)

read-write_records :
    (rs : List (List Bytes)) → All IsRow rs → read_records (length rs) (write_records rs) ≡ some rs
read-write_records [] h = refl
read-write_records ([] ∷ rs) h = absurd h.0
read-write_records ((f ∷ fs) ∷ rs) h =
    read-one (length rs) (write_csv_record (f ∷ fs) ++ write_records rs) (f ∷ fs) (write_records rs)
      rs (read-write_csv_record f fs (write_records rs)) (read-write_records rs h.1)

map-append :
    (row : Finding → List Bytes) (xs ys : List Finding)
    → map row (xs ++ ys) ≡ map row xs ++ map row ys
map-append row [] ys = refl
map-append row (x ∷ xs) ys = ap (◌∷◌ (row x)) (map-append row xs ys)

write_hosts-records :
    (row : Finding → List Bytes) (hosts : List Bytes) (m : List (Bytes × List Finding))
    → write_hosts row hosts m ≡ write_records (map row (findings hosts m))
unfolding write_hosts
write_hosts-records row [] m = refl
write_hosts-records row (h ∷ hosts) m =
    ap (λ w. w ++ write_hosts row hosts m) (write_results-records row (results_of (lookup h m)))
    ∙ ap (◌++◌ (write_records (map row (results_of (lookup h m)))))
        (write_hosts-records row hosts m)
    ∙ sym (write_records-append (map row (results_of (lookup h m))) _)
    ∙ ap write_records (sym (map-append row (results_of (lookup h m)) (findings hosts m)))

ssh_row-IsRow : (rs : List Finding) → All IsRow (map ssh_row rs)
unfolding ssh_row
ssh_row-IsRow [] = tt
ssh_row-IsRow (r ∷ rs) = (tt, ssh_row-IsRow rs)

tls_row-IsRow : (rs : List Finding) → All IsRow (map tls_row rs)
unfolding tls_row
tls_row-IsRow [] = tt
tls_row-IsRow (r ∷ rs) = (tt, tls_row-IsRow rs)

module _ (Time : Type 0) where
  -- The rows that a report stands for.
  abbrev pub rows : ReportResults Time → List (List Bytes)
  rows report =
      csv_header
      ∷ (map ssh_row (findings report.ssh_results.sorted_hosts report.ssh_results.results)
          ++ map tls_row (findings report.tls_results.sorted_hosts report.tls_results.results))

  rows-IsRow : (report : ReportResults Time) → All IsRow (rows report)
  unfolding csv_header
  rows-IsRow report = (
    tt,
    All-append IsRow
        (map ssh_row (findings report.ssh_results.sorted_hosts report.ssh_results.results))
        (map tls_row (findings report.tls_results.sorted_hosts report.tls_results.results))
        (ssh_row-IsRow (findings report.ssh_results.sorted_hosts report.ssh_results.results))
        (tls_row-IsRow (findings report.tls_results.sorted_hosts report.tls_results.results)),
  )

  write-rows :
      (report : ReportResults Time)
      → write_csv_report_to_writer Time report ≡ write_records (rows report)
  unfolding write_csv_report_to_writer
  write-rows report = ap (◌++◌ (write_csv_record csv_header)) (
      ap (λ w. w ++ write_hosts tls_row report.tls_results.sorted_hosts report.tls_results.results)
        (write_hosts-records ssh_row report.ssh_results.sorted_hosts report.ssh_results.results)
      ∙ ap
          (◌++◌ (
            write_records
              (map ssh_row (findings report.ssh_results.sorted_hosts report.ssh_results.results))))
          (write_hosts-records tls_row report.tls_results.sorted_hosts report.tls_results.results)
      ∙ sym (
          write_records-append
            (map ssh_row (findings report.ssh_results.sorted_hosts report.ssh_results.results)) _))

  -- A reader of RFC 4180 reads the CSV report back, whatever texts the results contain: as many
  -- records as there are rows, the header first, then a row of ten fields for each SSH result of
  -- each host in the order of the hosts, then those for TLS.
  pub read-write_csv_report :
      (report : ReportResults Time)
      → read_records (length (rows report)) (write_csv_report_to_writer Time report)
        ≡ some (rows report)
  read-write_csv_report report =
      ap (read_records (length (rows report))) (write-rows report)
      ∙ read-write_records (rows report) (rows-IsRow report)
