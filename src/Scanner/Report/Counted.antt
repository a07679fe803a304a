-- ===== src/Scanner/Report/Counted.antt =====
-- What the report's maps, sets and counters hold, stated by the lists of all results.
use pqcscan.Base.{
  ◌+◌, ◌≤◌, ◌≡◌, refl, ap, sym, ◌∙◌, Bool, true, false, Option, List, [], ◌∷◌, ◌++◌, append_assoc,
  append-nil, arith, Bytes, equal, length, not, ok, ◌>>=◌, ◌>>◌, refuse,
}
use pqcscan.Base.Dict.{lookup, contains, bytes_eq}
use pqcscan.Scanner.Report.{
  Finding, ScanWindow, ScanResult, ssh_result, tls_result, done, Tally, no_tally, version_mismatch,
  results_of, is_none, add_result, Summary, summary, add_results, Scan, ReportResults, read_scan,
  add_scans, create_report,
}
use pqcscan.Scanner.Report.Tallied.{count_if, listed, has_host, IsTally, add_result-IsTally}

-- The results of each protocol.
abbrev pub ssh_findings : List ScanResult → List Finding
ssh_findings [] = []
ssh_findings (ssh_result r ∷ rs) = r ∷ ssh_findings rs
ssh_findings (tls_result r ∷ rs) = ssh_findings rs
ssh_findings (done ∷ rs) = ssh_findings rs

abbrev pub tls_findings : List ScanResult → List Finding
tls_findings [] = []
tls_findings (ssh_result r ∷ rs) = tls_findings rs
tls_findings (tls_result r ∷ rs) = r ∷ tls_findings rs
tls_findings (done ∷ rs) = tls_findings rs

abbrev pub has_done : List ScanResult → Bool
has_done [] = false
has_done (ssh_result r ∷ rs) = has_done rs
has_done (tls_result r ∷ rs) = has_done rs
has_done (done ∷ rs) = true

add_results-IsTally :
    (rs : List ScanResult) (ss ts : List Finding) (s t : Tally)
    → has_done rs ≡ false
    → IsTally ss s
    → IsTally ts t
    → (s' : Tally) × (t' : Tally) × (add_results rs s t ≡ ok (s', t'))
      × IsTally (ss ++ ssh_findings rs) s'
      × IsTally (ts ++ tls_findings rs) t'
unfolding add_results
add_results-IsTally [] ss ts s t d i j = (s, t, refl, rw (append-nil ss) i, rw (append-nil ts) j)
add_results-IsTally (ssh_result r ∷ rs) ss ts s t d i j =
    rw (sym (append_assoc ss (r ∷ []) (ssh_findings rs))) (
      add_results-IsTally rs (ss ++ (r ∷ [])) ts (add_result r s) t d (add_result-IsTally r ss s i)
        j)
add_results-IsTally (tls_result r ∷ rs) ss ts s t d i j =
    rw (sym (append_assoc ts (r ∷ []) (tls_findings rs))) (
      add_results-IsTally rs ss (ts ++ (r ∷ [])) s (add_result r t) d i
        (add_result-IsTally r ts t j))
add_results-IsTally (done ∷ rs) ss ts s t d i j = absurd (cc)

-- What a summary says of all results of its protocol.
pub record IsSummary (rs : List Finding) (s : Summary) : Type 0 where
  pub total : s.total_count ≡ length rs
  pub parts : s.success_count + s.fail_count ≡ s.total_count
  pub success : s.success_count ≡ count_if (λ r. is_none r.error) rs
  pub pqc : s.pqc_supported_count ≡ count_if (λ r. r.pqc_supported) rs
  pub lists : (host : Bytes) → results_of (lookup host s.results) ≡ listed host rs
  pub hosts : (host : Bytes) → contains s.sorted_hosts host ≡ has_host host rs

count_if-le : (f : Finding → Bool) (rs : List Finding) → count_if f rs ≤ length rs
count_if-le f [] = omega arith
count_if-le f (r ∷ rs) = ground (arith, count_if-le f rs)

summary-IsSummary : (rs : List Finding) (t : Tally) → IsTally rs t → IsSummary rs (summary t)
unfolding summary
summary-IsSummary rs t i = record {
  total = i.total;
  parts = omega (arith, i.total, i.success, count_if-le (λ r. is_none r.error) rs);
  success = i.success;
  pqc = i.pqc;
  lists = i.lists;
  hosts = i.hosts;
}

no_tally-IsTally : IsTally [] no_tally
unfolding lookup contains results_of
no_tally-IsTally = record {
  total = refl;
  success = refl;
  pqc = refl;
  lists = λ h. refl;
  hosts = λ h. refl;
}

ssh_findings-append :
    (rs qs : List ScanResult) → ssh_findings (rs ++ qs) ≡ ssh_findings rs ++ ssh_findings qs
ssh_findings-append [] qs = refl
ssh_findings-append (ssh_result r ∷ rs) qs = ap (◌∷◌ r) (ssh_findings-append rs qs)
ssh_findings-append (tls_result r ∷ rs) qs = ssh_findings-append rs qs
ssh_findings-append (done ∷ rs) qs = ssh_findings-append rs qs

tls_findings-append :
    (rs qs : List ScanResult) → tls_findings (rs ++ qs) ≡ tls_findings rs ++ tls_findings qs
tls_findings-append [] qs = refl
tls_findings-append (ssh_result r ∷ rs) qs = tls_findings-append rs qs
tls_findings-append (tls_result r ∷ rs) qs = ap (◌∷◌ r) (tls_findings-append rs qs)
tls_findings-append (done ∷ rs) qs = tls_findings-append rs qs

module _ (Time : Type 0) (open_file : Bytes → Option Bytes)
    (from_reader : Bytes → Option (Scan Time)) (crate_version : Bytes) where
  -- Each file can be read, is of this version and holds no `Done`.
  abbrev pub AllRead : List Bytes → List (Scan Time) → Type 0
  AllRead [] [] = Unit {0}
  AllRead [] (scan ∷ scans) = ⊥
  AllRead (f ∷ fs) [] = ⊥
  AllRead (f ∷ fs) (scan ∷ scans) =
      (read_scan Time open_file from_reader crate_version f ≡ ok scan)
      × (equal scan.version crate_version ≡ true)
      × (has_done scan.results ≡ false)
      × AllRead fs scans

  abbrev pub all_results : List (Scan Time) → List ScanResult
  all_results [] = []
  all_results (scan ∷ scans) = scan.results ++ all_results scans

  add_scans-cons :
      (f : Bytes) (fs : List Bytes) (scan : Scan Time) (s t s' t' : Tally)
      (w : List (ScanWindow Time))
      → read_scan Time open_file from_reader crate_version f ≡ ok scan
      → equal scan.version crate_version ≡ true
      → add_results scan.results s t ≡ ok (s', t')
      → add_scans Time open_file from_reader crate_version (f ∷ fs) s t w
        ≡ add_scans Time open_file from_reader crate_version fs s' t' (
            w
            ++ (record {
              start_time = scan.start_time;
              end_time = scan.end_time;
              scan_type = scan.scan_type;
            }
                ∷ []))
  unfolding add_scans
  add_scans-cons f fs scan s t s' t' w read same e =
      ap
        (λ m. m >>= (λ sc.
          refuse (not (equal sc.version crate_version)) (version_mismatch f)
          >> (add_results sc.results s t >>= (λ st.
              add_scans Time open_file from_reader crate_version fs st.0 st.1 (
                w
                ++ (record {
                  start_time = sc.start_time;
                  end_time = sc.end_time;
                  scan_type = sc.scan_type;
                }
                    ∷ []))))))
        read
      ∙ rw (same, e) refl

  add_scans-IsSummary :
      (fs : List Bytes) (scans : List (Scan Time)) (ss ts : List Finding) (s t : Tally)
      (w : List (ScanWindow Time))
      → AllRead fs scans
      → IsTally ss s
      → IsTally ts t
      → (report : ReportResults Time) × (add_scans Time open_file from_reader crate_version fs s t w
          ≡ ok report)
        × IsSummary (ss ++ ssh_findings (all_results scans)) report.ssh_results
        × IsSummary (ts ++ tls_findings (all_results scans)) report.tls_results
  unfolding add_scans
  add_scans-IsSummary [] [] ss ts s t w a i j = (
    _,
    refl,
    rw (append-nil ss) (summary-IsSummary ss s i),
    rw (append-nil ts) (summary-IsSummary ts t j),
  )
  add_scans-IsSummary [] (scan ∷ scans) ss ts s t w a i j = absurd a
  add_scans-IsSummary (f ∷ fs) [] ss ts s t w a i j = absurd a
  add_scans-IsSummary (f ∷ fs) (scan ∷ scans) ss ts s t w (read, same, d, a) i j =
      let (s', t', e, i', j') = add_results-IsTally scan.results ss ts s t d i j in
      let window : ScanWindow Time = record {
        start_time = scan.start_time;
        end_time = scan.end_time;
        scan_type = scan.scan_type;
      } in
      let (report, run, k, l) =
        add_scans-IsSummary fs scans _ _ s' t' (w ++ (window ∷ [])) a i' j' in
      (
        report,
        add_scans-cons f fs scan s t s' t' w read same e ∙ run,
        rw (ssh_findings-append scan.results (all_results scans)) (
            rw (append_assoc ss (ssh_findings scan.results) (ssh_findings (all_results scans))) at
              k),
        rw (tls_findings-append scan.results (all_results scans)) (
            rw (append_assoc ts (tls_findings scan.results) (tls_findings (all_results scans))) at
              l),
      )

  -- For input files that all open and parse, are of this version and hold no `Done`, `create_report`
  -- makes a report. In it, for SSH and for TLS: the total is the number of all results of the
  -- protocol, the successes are those without an error, successes and failures make the total, the
  -- results with PQC are counted, each host's list holds the host's results of all files in their
  -- order, and the host set holds the hosts of the results.
  pub create_report-IsSummary :
      (files : List Bytes) (scans : List (Scan Time))
      → AllRead files scans
      → (report : ReportResults Time) × (create_report Time open_file from_reader crate_version
            files
          ≡ ok report)
        × IsSummary (ssh_findings (all_results scans)) report.ssh_results
        × IsSummary (tls_findings (all_results scans)) report.tls_results
  unfolding create_report
  create_report-IsSummary files scans a =
      add_scans-IsSummary files scans [] [] no_tally no_tally [] a no_tally-IsTally no_tally-IsTally
