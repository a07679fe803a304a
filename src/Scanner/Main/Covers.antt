-- ===== src/Scanner/Main/Covers.antt =====
-- The report of a file that holds the results of an SSH scan.
use mathlib.Core.List.{Perm, Mem, mem-cons, not-mem-nil}
use mathlib.Core.List.Perm
use mathlib.Core.List
use mathlib.Core.Logic.Or
use mathlib.Core.Bool.{Bool-set}
use pqcscan.Base.{
  suc, ◌≡◌, refl, sym, ap, ◌∙◌, Bool, true, false, ◌||◌, Option, some, List, [], ◌∷◌, ◌++◌,
  append-nil, map, All, Bytes, length, equal, equal_refl, ok, arith,
}
use pqcscan.Base.Dict.{contains, bytes_eq}
use pqcscan.Scanner.Target.{Target}
use pqcscan.Scanner.Report.{
  Finding, ScanResult, ssh_result, Scan, ReportResults, read_scan, create_report,
}
use pqcscan.Scanner.Report.Tallied.{has_host}
use pqcscan.Scanner.Report.Counted.{
  ssh_findings, tls_findings, has_done, IsSummary, create_report-IsSummary,
}
use pqcscan.Scanner.Main.{Disk}

-- A result of scanning a target for SSH.
abbrev pub IsAnswer : Target → ScanResult → Type 0
IsAnswer t r = (x : Finding) × (r ≡ ssh_result x) × (x.targetspec ≡ t)

-- Pairs of a target and a result of it.
abbrev pub Answers : List (Target × ScanResult) → Type 0
Answers = All (λ p. IsAnswer p.0 p.1)

ssh_findings-Answers :
    (ps : List (Target × ScanResult))
    → Answers ps
    → map (λ x. x.targetspec) (ssh_findings (map (λ p. p.1) ps)) ≡ map (λ p. p.0) ps
ssh_findings-Answers [] h = refl
ssh_findings-Answers ((t, r) ∷ ps) ((x, e, s), h) = rw (e, s, ssh_findings-Answers ps h) refl

tls_findings-Answers :
    (ps : List (Target × ScanResult)) → Answers ps → tls_findings (map (λ p. p.1) ps) ≡ []
tls_findings-Answers [] h = refl
tls_findings-Answers ((t, r) ∷ ps) ((x, e, s), h) = rw e (tls_findings-Answers ps h)

has_done-Answers :
    (ps : List (Target × ScanResult)) → Answers ps → has_done (map (λ p. p.1) ps) ≡ false
has_done-Answers [] h = refl
has_done-Answers ((t, r) ∷ ps) ((x, e, s), h) = rw e (has_done-Answers ps h)

length-map : (xs : List Finding) → length (map (λ x. x.targetspec) xs) ≡ length xs
length-map [] = refl
length-map (x ∷ xs) = ap suc (length-map xs)

-- The library's length is over other numbers.
length-eq : (xs ys : List Target) → List.length xs ≡ List.length ys → length xs ≡ length ys
length-eq [] [] h = refl
length-eq [] (y ∷ ys) h = absurd (cc)
length-eq (x ∷ xs) [] h = absurd (cc)
length-eq (x ∷ xs) (y ∷ ys) h = ap suc (length-eq xs ys (cc))

or-true : (a : Bool) {b : Bool} → b ≡ true → (a || b) ≡ true
or-true a h = ground arith

Mem-has_host :
    (t : Target) (xs : List Finding)
    → Mem t (map (λ x. x.targetspec) xs)
    → has_host t.host xs ≡ true
Mem-has_host t [] m = absurd (not-mem-nil m)
Mem-has_host t (x ∷ xs) m =
    Or.elim (Bool-set _ _) (mem-cons.0 m)
      (λ e.
        let same : equal x.targetspec.host t.host ≡ true =
          rw (ap (λ u. u.host) e) (equal_refl x.targetspec.host) in
        rw same refl)
      (λ k. or-true (equal x.targetspec.host t.host) (Mem-has_host t xs k))

module _ (Time : Type 0) where
  -- The report has one SSH result for each target, the host of each target, and no TLS result.
  pub record Covers (targets : List Target) (report : ReportResults Time) : Type 0 where
    pub ssh_total : report.ssh_results.total_count ≡ length targets
    pub ssh_hosts :
        (t : Target) → Mem t targets → contains report.ssh_results.sorted_hosts t.host ≡ true
    pub tls_total : report.tls_results.total_count ≡ 0

  summary-Covers :
      (targets : List Target) (ps : List (Target × ScanResult)) (report : ReportResults Time)
      → Answers ps
      → Perm targets (map (λ p. p.0) ps)
      → IsSummary (ssh_findings (map (λ p. p.1) ps ++ [])) report.ssh_results
      → IsSummary (tls_findings (map (λ p. p.1) ps ++ [])) report.tls_results
      → Covers targets report
  summary-Covers targets ps report h perm s t =
      let xs = ssh_findings (map (λ p. p.1) ps) in
      let same : map (λ x. x.targetspec) xs ≡ map (λ p. p.0) ps = ssh_findings-Answers ps h in
      let plain = append-nil (map (λ p. p.1) ps) in
      let s' : IsSummary xs report.ssh_results = rw plain at s in
      let t' : IsSummary (tls_findings (map (λ p. p.1) ps)) report.tls_results = rw plain at t in
      let counted : length (map (λ p. p.0) ps) ≡ length xs = ap length (sym same) ∙ length-map xs in
      record {
        ssh_total = s'.total ∙ sym (length-eq targets _ (Perm.length-eq perm) ∙ counted);
        ssh_hosts = λ u m. s'.hosts u.host ∙ Mem-has_host u xs (rw same ((Perm.mem_iff perm).0 m));
        tls_total = t'.total ∙ ap length (tls_findings-Answers ps h);
      }

module _ (Time : Type 0) (from_reader : Bytes → Option (Scan Time))
    (crate_version file : Bytes) where
  -- A report of a file that holds the results of some targets.
  pub read-saved :
      (text : Bytes) (disk : Disk) (targets : List Target) (ps : List (Target × ScanResult))
      (scan : Scan Time)
      → Answers ps
      → Perm targets (map (λ p. p.0) ps)
      → map (λ p. p.1) ps ≡ scan.results
      → scan.version ≡ crate_version
      → disk file ≡ some text
      → from_reader text ≡ some scan
      → (report : ReportResults Time) × (create_report Time disk from_reader crate_version
            (file ∷ [])
          ≡ ok report)
        × Covers Time targets report
  unfolding read_scan
  read-saved text disk targets ps scan h perm results version there reads =
      let (report, e, s, t) =
        create_report-IsSummary Time disk from_reader crate_version (file ∷ []) (scan ∷ []) (
          rw (there, read_scan) (rw (reads, read_scan) refl),
          rw version (equal_refl crate_version),
          rw (← results) (has_done-Answers ps h),
          tt,
        ) in
      (
        report,
        e,
        summary-Covers Time targets ps report h perm (rw (← results) at s) (rw (← results) at t),
      )
