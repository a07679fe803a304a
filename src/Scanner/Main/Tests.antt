-- ===== src/Scanner/Main/Tests.antt =====
-- Runs of the scanner's `main`.
use pqcscan.Base.{
  ℕ, zero, suc, Bool, panic, ◌≡◌, ◌≢◌, refl, Option, none, some, List, [], ◌∷◌, Bytes, codes,
  length, equal, Outcome, ok, true, false, arith, if◌then◌else◌,
}
use pqcscan.Base.Dict.{bytes_eq}
use pqcscan.Scanner.Target.{Target, TargetArgs, get_targets, parse_single_target, rsplit}
use pqcscan.Scanner.Runner.{
  Runner, waiting, scanning, exited, quit_target, here, start, task_count, take_target, quit,
  send_result, collect, collect_done, Reach, stay, next,
}
use pqcscan.Scanner.Net.{
  Network, connected, resolved, socket_create_and_connect, first_address, connection,
}
use pqcscan.Scanner.Ssh.Scan.{
  Stream, received, written, ssh_scan_target, ssh_scan_stream, ssh_echoback_idstring, echo_back,
  not_ssh, ssh_recv_kexinit, classify,
}
use pqcscan.Scanner.Tls.Scan.{TlsStream}
use pqcscan.Scanner.Main.Run.{Run, CanReturn, CanPanic, ssh_end, scan_runner}
use pqcscan.Scanner.Report.{
  Finding, ScanType, ScanResult, ssh_result, Scan, ReportResults, ssh, create_report, read_scan,
}
use pqcscan.Scanner.Report.Counted.{AllRead, IsSummary}
use pqcscan.Scanner.Report.Rows.{read_records, rows}
use pqcscan.Scanner.Main.{
  Config, ScanOptions, ssh_config_new, tls_config_new, config_new, ssh_scan, report_of, MainError,
  Files, Disk, update, main,
}
use pqcscan.Scanner.Main.Disk.{Wrote, main-Wrote}
use pqcscan.Scanner.Main.Csv.{main-csv}
use pqcscan.Scanner.Main.Covers.{Covers}
use pqcscan.Scanner.Main.Saved.{report-saved_scan}

abbrev config : Config
config = config_new (ssh_config_new []) (tls_config_new [] [] [])

abbrev target : Target
target = record { host = codes "h"; port = 22 }

-- A server that sends its identification string and nothing else, at one address.
abbrev silent : Stream
silent = record { events = received (codes "SSH-2.0-x") ∷ []; write = written 9 }

abbrev net : Network Bytes Stream
net = record {
  lookup_host = λ text. resolved (codes "10.0.0.1:22" ∷ []);
  opens = λ addr. true;
  connect = λ addr. connected silent;
}

abbrev display : Bytes → Bytes
display addr = addr

abbrev finding_of : Target → Finding
finding_of t = record {
  targetspec = t;
  addr = some (codes "10.0.0.1:22");
  error = none;
  pqc_supported = false;
  pqc_algos = some [];
  hybrid_algos = none;
  nonpqc_algos = some [];
}

abbrev finding : Finding
finding = finding_of target

abbrev scan : Scan ℕ
scan = record {
  results = ssh_result finding ∷ [];
  start_time = 1;
  end_time = 2;
  version = codes "1";
  scan_type = ssh;
}

-- Any file can be created and written; the JSON text of the scan is `{}`.
abbrev files : Files
files = record { creatable = λ path. none; fault = λ path text. none }

abbrev printed : ℕ → Bytes
printed t = codes "2026"

abbrev prepare : ReportResults ℕ → Outcome Bytes Bytes
prepare report = ok (codes "<html>")

abbrev render : Bytes → Bytes × Option Bytes
render page = (page, none)

abbrev report_json : ReportResults ℕ → Bytes
report_json report = codes "{}"

abbrev scan_json : Scan ℕ → Bytes
scan_json s = codes "{}"

abbrev from_reader : Bytes → Option (Scan ℕ)
from_reader text = if equal text (codes "{}") then some scan else none

abbrev run : Config → ScanOptions → Outcome MainError (Scan ℕ)
run c options = ok scan

abbrev empty_disk : Disk
empty_disk path = none

abbrev saved_disk : Disk
saved_disk path = some (codes "{}")

abbrev args : TargetArgs
args = record { target = some (codes "h"); target_list = none }

main-Wrote_example : Wrote files.creatable (some (codes "out")) empty_disk (
    main ℕ printed files prepare render report_json from_reader
      (codes "1")
      config
      scan_json
      run
      (ssh_scan args 1 (some (codes "out")))
      empty_disk)
main-Wrote_example =
    main-Wrote ℕ printed files prepare render report_json from_reader (codes "1") config scan_json
      run (ssh_scan args 1 (some (codes "out"))) empty_disk

all_read : AllRead ℕ saved_disk from_reader (codes "1") (codes "f" ∷ []) (scan ∷ [])
unfolding read_scan equal
all_read = (refl, refl, refl, tt)

main-csv_example :
    (report : ReportResults ℕ) × (text : Bytes) × (main ℕ printed files prepare render report_json
        from_reader
        (codes "1")
        config
        scan_json
        run
        (report_of (codes "out") (some (codes "f" ∷ [])) (codes "csv"))
        saved_disk
      ≡ (update saved_disk (codes "out") text, ok tt))
    × (read_records (length (rows ℕ report)) text ≡ some (rows ℕ report))
    × IsSummary (finding ∷ []) report.ssh_results
    × IsSummary [] report.tls_results
main-csv_example =
    main-csv ℕ printed files prepare render report_json from_reader (codes "1") config scan_json run
      (codes "out") (codes "f" ∷ []) saved_disk (scan ∷ []) all_read refl (λ text. refl)

abbrev SshNet : Target → Network Bytes Stream → Type 0
SshNet t n = n ≡ net

abbrev TlsNet : Target → (ℕ → Network Bytes TlsStream) → Type 0
TlsNet t n = ⊥

-- Options of an SSH scan with one thread.
abbrev one_thread : List Target → Bool → Bool → ScanOptions
one_thread targets hybrid nonpqc = record {
  num_threads = 1;
  targets = targets;
  scan_type = ssh;
  scan_hybrid_algos_only = hybrid;
  scan_nonpqc_algos = nonpqc;
}

returns :
    (c : Config) (o : ScanOptions) (t : Target)
    → o.scan_type ≡ ssh
    → CanReturn Bytes display SshNet TlsNet c o t (ssh_result (finding_of t))
unfolding ssh_scan_target ssh_scan_stream ssh_echoback_idstring echo_back not_ssh equal
    ssh_recv_kexinit classify socket_create_and_connect first_address connection
returns c o t is_ssh = ssh_end net is_ssh refl refl

abbrev Steps : Config → ScanOptions → Runner ScanResult → Runner ScanResult → Type 0
Steps c o =
    Reach ScanResult (CanReturn Bytes display SshNet TlsNet c o)
      (CanPanic Bytes display SshNet TlsNet c o)

abbrev last_of : Target → Runner ScanResult
last_of t = record {
  targets = [];
  workers = exited ∷ [];
  channel = [];
  num_threads = 0;
  results = ssh_result (finding_of t) ∷ [];
  finished = true;
}

-- The only task takes the target, scans it, and quits.
to_last :
    (c : Config) (t : Target) (hybrid nonpqc : Bool)
    → t.host ≢ []
    → Steps c (one_thread (t ∷ []) hybrid nonpqc) (start ScanResult 1 (t ∷ [])) (last_of t)
unfolding start task_count
to_last c t hybrid nonpqc some_host =
    let o = one_thread (t ∷ []) hybrid nonpqc in
    let first = start ScanResult 1 (t ∷ []) in
    let taken : Steps c o first
        (record first { targets = quit_target ∷ []; workers = scanning t ∷ [] }) =
      next stay (take_target t (quit_target ∷ []) (scanning t ∷ []) refl some_host (here [])) in
    next
      (next
        (next
          (next taken (
            send_result t (ssh_result (finding_of t)) (waiting ∷ []) (returns c o t refl)
              (here [])))
          (collect (ssh_result (finding_of t)) [] refl refl))
        (quit quit_target [] (exited ∷ []) refl refl (here [])))
      (collect_done [] 0 refl refl refl)

abbrev OneRun : Config → ScanOptions → Type 0
OneRun c o = Run Bytes display SshNet TlsNet ℕ c o

named : (b : ℕ) (host : Bytes) → ◌≢◌ {A = Bytes} (b ∷ host) []
named b host e = absurd (cc)

abbrev run_of :
    (c : Config) (t : Target) (hybrid nonpqc : Bool)
    → t.host ≢ []
    → OneRun c (one_thread (t ∷ []) hybrid nonpqc)
run_of c t hybrid nonpqc some_host = record {
  last = last_of t;
  steps = to_last c t hybrid nonpqc some_host;
  finished = refl;
  start_time = 1;
  end_time = 2;
}

abbrev run_one :
    (c : Config) (host : Bytes) (port : ℕ) (hybrid nonpqc : Bool)
    → Option (OneRun c (one_thread (record { host = host; port = port } ∷ []) hybrid nonpqc))
run_one c [] port hybrid nonpqc = none
run_one c (b ∷ host) port hybrid nonpqc =
    some (run_of c (record { host = b ∷ host; port = port }) hybrid nonpqc (named b host))

abbrev run_some :
    (c : Config) (n : ℕ) (ts : List Target) (ty : ScanType) (hybrid nonpqc : Bool)
    → Option (
        OneRun c (record {
          num_threads = n;
          targets = ts;
          scan_type = ty;
          scan_hybrid_algos_only = hybrid;
          scan_nonpqc_algos = nonpqc;
        }))
run_some c (suc zero) (t ∷ []) ssh hybrid nonpqc = run_one c t.host t.port hybrid nonpqc
run_some c _ _ _ hybrid nonpqc = none

-- A runtime that runs what one task does for one target.
abbrev runtime : (c : Config) (o : ScanOptions) → Option (OneRun c o)
runtime c o =
    run_some c o.num_threads o.targets o.scan_type o.scan_hybrid_algos_only o.scan_nonpqc_algos

abbrev the_run : OneRun config (one_thread (target ∷ []) false false)
the_run = run_of config target false false (named b'h' [])

some_target : ¬ (◌≡◌ {A = List Target} (target ∷ []) [])
some_target e = absurd (cc)

no_panic :
    (t : Target) (n : Network Bytes Stream)
    → SshNet t n
    → ssh_scan_target Bytes display [] 5 n t ≢ panic
unfolding ssh_scan_target ssh_scan_stream ssh_echoback_idstring echo_back not_ssh equal
    ssh_recv_kexinit classify socket_create_and_connect first_address connection
no_panic t n met e =
    let ends : ssh_scan_target Bytes display [] 5 net t ≡ panic = rw met at e in absurd (cc)

report-saved_scan_example :
    let ended =
      main ℕ printed files prepare render report_json from_reader
        (codes "1")
        config
        scan_json
        (scan_runner Bytes display SshNet TlsNet ℕ (codes "1") runtime)
        (ssh_scan args 1 (some (codes "f")))
        empty_disk in
    (ended.1 ≡ ok tt)
    × (report : ReportResults ℕ) × (create_report ℕ ended.0 from_reader (codes "1") (codes "f" ∷ [])
        ≡ ok report)
    × Covers ℕ (target ∷ []) report
unfolding get_targets parse_single_target rsplit equal
report-saved_scan_example =
    report-saved_scan Bytes display SshNet TlsNet ℕ printed files prepare render report_json
      from_reader (codes "1") config scan_json runtime args 1 (codes "f") empty_disk (target ∷ [])
      the_run refl some_target (named b'h' [], tt) (omega arith) refl no_panic refl refl refl
