-- ===== src/Scanner/Report.antt =====
-- `create_report` of pqcscan/src/main.rs: the results of several scans, grouped by host and counted.
-- The file system, the JSON reader, the times and the crate's version are parameters.
pub mod Tallied
pub mod Counted
pub mod Rows
use pqcscan.Base.{
  ℕ, zero, suc, ◌+◌, ◌-◌, Bool, true, false, ◌&&◌, ◌||◌, not, Option, none, some, List, [], ◌∷◌,
  ◌++◌, Bytes, ltb, ◌==◌, equal, if◌then◌else◌, Outcome, ok, err, panic, ◌>>=◌, ◌>>◌, refuse,
}
use pqcscan.Base.Dict.{lookup, insert, bytes_eq}
use pqcscan.Scanner.Target.{Target}

pub data ScanType : Type 0 where
  ssh tls : ScanType

-- `ScanResult::Ssh` and `ScanResult::Tls` (a `Ssh` result has no hybrid algorithms), and `Done`.
pub record Finding : Type 0 where
  pub targetspec : Target
  pub addr : Option Bytes
  pub error : Option Bytes
  pub pqc_supported : Bool
  pub pqc_algos : Option (List Bytes)
  pub hybrid_algos : Option (List Bytes)
  pub nonpqc_algos : Option (List Bytes)

pub data ScanResult : Type 0 where
  ssh_result tls_result : Finding → ScanResult
  done : ScanResult

-- The order of strings, by their bytes.
unfoldable pub less : Bytes → Bytes → Bool
less a [] = false
less [] (y ∷ b) = true
less (x ∷ a) (y ∷ b) = ltb x y || ((x == y) && less a b)

-- `BTreeSet::insert`
unfoldable pub btree_insert : Bytes → List Bytes → List Bytes
btree_insert a [] = a ∷ []
btree_insert a (x ∷ xs) =
    if less a x then a ∷ x ∷ xs else (if equal x a then x ∷ xs else x ∷ btree_insert a xs)

-- The variables that `create_report` keeps for one protocol.
pub record Tally : Type 0 where
  pub map : List (Bytes × List Finding)
  pub hosts : List Bytes
  pub success_count : ℕ
  pub pqc_supported_count : ℕ
  pub total_count : ℕ

abbrev pub no_tally : Tally
no_tally = record {
  map = [];
  hosts = [];
  success_count = 0;
  pqc_supported_count = 0;
  total_count = 0;
}

unfoldable pub results_of : Option (List Finding) → List Finding
results_of none = []
results_of (some rs) = rs

unfoldable pub is_none : Option Bytes → Bool
is_none none = true
is_none (some e) = false

-- One result: an arm of `match result`.
unfoldable pub add_result : Finding → Tally → Tally
add_result result t =
    let host = result.targetspec.host in
    record {
      map = insert host (results_of (lookup host t.map) ++ (result ∷ [])) t.map;
      hosts = btree_insert host t.hosts;
      success_count = if is_none result.error then suc t.success_count else t.success_count;
      pqc_supported_count =
          if result.pqc_supported then suc t.pqc_supported_count else t.pqc_supported_count;
      total_count = suc t.total_count;
    }

-- The part of `ReportResults` for one protocol.
pub record Summary : Type 0 where
  pub results : List (Bytes × List Finding)
  pub sorted_hosts : List Bytes
  pub success_count : ℕ
  pub fail_count : ℕ
  pub pqc_supported_count : ℕ
  pub total_count : ℕ

unfoldable pub summary : Tally → Summary
summary t = record {
  results = t.map;
  sorted_hosts = t.hosts;
  success_count = t.success_count;
  fail_count = t.total_count - t.success_count;
  pqc_supported_count = t.pqc_supported_count;
  total_count = t.total_count;
}

pub data ReportError : Type 0 where
  not_found version_mismatch : Bytes → ReportError

-- `for result in scan.results`: the tallies of SSH and of TLS
unfoldable pub add_results : List ScanResult → Tally → Tally → Outcome ReportError (Tally × Tally)
add_results [] s t = ok (s, t)
add_results (ssh_result r ∷ results) s t = add_results results (add_result r s) t
add_results (tls_result r ∷ results) s t = add_results results s (add_result r t)
add_results (done ∷ results) s t = panic

module _ (Time : Type 0) where
  pub record Scan : Type 0 where
    pub results : List ScanResult
    pub start_time : Time
    pub end_time : Time
    pub version : Bytes
    pub scan_type : ScanType

  pub record ScanWindow : Type 0 where
    pub start_time : Time
    pub end_time : Time
    pub scan_type : ScanType

  pub record ReportResults : Type 0 where
    pub tls_results : Summary
    pub ssh_results : Summary
    pub scan_windows : List ScanWindow

  module _ (open_file : Bytes → Option Bytes) (from_reader : Bytes → Option Scan)
      (crate_version : Bytes) where
    -- `File::open(input_file)?`, and `.expect("failed to open input file")`
    unfoldable pub read_scan : Bytes → Outcome ReportError Scan
    read_scan input_file = elim (open_file input_file) [
      | none ↦ err (not_found input_file)
      | some text ↦ elim (from_reader text) [ none ↦ panic | some scan ↦ ok scan ]
    ]

    -- `for input_file in input_files`
    unfoldable pub add_scans :
        List Bytes → Tally → Tally → List ScanWindow → Outcome ReportError ReportResults
    add_scans [] s t windows =
        ok (record { tls_results = summary t; ssh_results = summary s; scan_windows = windows })
    add_scans (input_file ∷ input_files) s t windows = do
      scan ← read_scan input_file
      refuse (not (equal scan.version crate_version)) (version_mismatch input_file)
      (s', t') ← add_results scan.results s t
      add_scans input_files s' t' (
          windows
          ++ (record {
            start_time = scan.start_time;
            end_time = scan.end_time;
            scan_type = scan.scan_type;
          }
              ∷ []))

    unfoldable pub create_report : List Bytes → Outcome ReportError ReportResults
    create_report input_files = add_scans input_files no_tally no_tally []
