-- ===== src/Scanner/Main/Saved.antt =====
-- A scan that is saved, and the report that is made of it.
use pqcscan.Base.{
  ℕ, ◌<◌, ◌≡◌, ◌≢◌, refl, ap, ◌∙◌, false, Option, none, some, List, [], ◌∷◌, All, Bytes, equal_refl,
  Outcome, ok, panic,
}
use pqcscan.Base.Dict.{bytes_eq}
use pqcscan.Scanner.Target.{Target, TargetArgs, get_targets}
use pqcscan.Scanner.Runner.Account.{finished-IsComplete}
use pqcscan.Scanner.Report.{ScanResult, Scan, ReportResults, create_report, ssh}
use pqcscan.Scanner.Net.{Network}
use pqcscan.Scanner.Ssh.Scan.{KexAlgo, Stream, ssh_scan_target}
use pqcscan.Scanner.Ssh.Scan.Reported.{Reported, with_error, with_lists, ssh_scan_target-Reports}
use pqcscan.Scanner.Tls.Scan.{TlsStream}
use pqcscan.Scanner.Main.Run.{Run, CanReturn, CanPanic, tls_end, ssh_end, scan_of, scan_runner}
use pqcscan.Scanner.Main.{
  Config, ScanOptions, ssh_scan, MainError, Disk, update, Files, write_file, save_results,
  ssh_options, run_scan, main,
}
use pqcscan.Scanner.Main.Covers.{IsAnswer, Answers, Covers, read-saved}

Reported-IsAnswer :
    (kex_algos : List (Bytes × KexAlgo)) (t : Target) (r : ScanResult)
    → Reported kex_algos t r
    → IsAnswer t r
Reported-IsAnswer kex_algos t r (with_error addr e) = (_, refl, refl)
Reported-IsAnswer kex_algos t r (with_lists addr ks) = (_, refl, refl)

module _ (SocketAddr : Type 0) (display : SocketAddr → Bytes)
    (SshNet : Target → Network SocketAddr Stream → Type 0)
    (TlsNet : Target → (ℕ → Network SocketAddr TlsStream) → Type 0) where
  -- A scan for SSH returns a result of its target.
  CanReturn-IsAnswer :
      (config : Config) (scan : ScanOptions) (t : Target) (r : ScanResult)
      → scan.scan_type ≡ ssh
      → CanReturn SocketAddr display SshNet TlsNet config scan t r
      → IsAnswer t r
  CanReturn-IsAnswer config scan t r is_ssh (tls_end net is_tls met e) = absurd (cc)
  CanReturn-IsAnswer config scan t r is_ssh (ssh_end net e' met e) =
      let reports =
        ssh_scan_target-Reports SocketAddr display config.ssh_config.kex_algos
          config.connection_timeout net t in
      Reported-IsAnswer config.ssh_config.kex_algos t r (rw e at reports)

  pairs-Answers :
      (config : Config) (scan : ScanOptions) (ps : List (Target × ScanResult))
      → scan.scan_type ≡ ssh
      → All (λ p. CanReturn SocketAddr display SshNet TlsNet config scan p.0 p.1) ps
      → Answers ps
  pairs-Answers config scan [] is_ssh h = tt
  pairs-Answers config scan ((t, r) ∷ ps) is_ssh (x, h) =
      (CanReturn-IsAnswer config scan t r is_ssh x, pairs-Answers config scan ps is_ssh h)

module _ (SocketAddr : Type 0) (display : SocketAddr → Bytes)
    (SshNet : Target → Network SocketAddr Stream → Type 0)
    (TlsNet : Target → (ℕ → Network SocketAddr TlsStream) → Type 0) (Time : Type 0)
    (to_rfc3339 : Time → Bytes) (files : Files) {Page : Type 0}
    (prepare : ReportResults Time → Outcome Bytes Page) (render : Page → Bytes × Option Bytes)
    (report_json : ReportResults Time → Bytes) (from_reader : Bytes → Option (Scan Time))
    (crate_version : Bytes) (config : Config) (scan_json : Scan Time → Bytes)
    (runtime : (config : Config) (scan : ScanOptions)
      → Option (Run SocketAddr display SshNet TlsNet Time config scan)) where
  abbrev options_of : List Target → ℕ → ScanOptions
  options_of targets num_threads = record {
    num_threads = num_threads;
    targets = targets;
    scan_type = ssh;
    scan_hybrid_algos_only = false;
    scan_nonpqc_algos = false;
  }

  abbrev runner : Config → ScanOptions → Outcome MainError (Scan Time)
  runner = scan_runner SocketAddr display SshNet TlsNet Time crate_version runtime

  abbrev saved_scan :
      (scan : ScanOptions) → Run SocketAddr display SshNet TlsNet Time config scan → Scan Time
  saved_scan scan run = scan_of SocketAddr display SshNet TlsNet Time crate_version config scan run

  -- The scan is written to the file.
  main-saves :
      (args : TargetArgs) (num_threads : ℕ) (file : Bytes) (disk : Disk) (targets : List Target)
      (scan : Scan Time)
      → get_targets args (some config.ssh_config.default_port) ≡ ok targets
      → runner config (options_of targets num_threads) ≡ ok scan
      → files.creatable file ≡ none
      → files.fault file (scan_json scan) ≡ none
      → main Time to_rfc3339 files prepare render report_json from_reader crate_version config
          scan_json runner
          (ssh_scan args num_threads (some file))
          disk
        ≡ (update disk file (scan_json scan), ok tt)
  unfolding main run_scan ssh_options save_results write_file
  main-saves args num_threads file disk targets scan some_targets ran file_ok no_fault =
      rw (some_targets, run_scan) (rw (ran, run_scan) (rw (file_ok, write_file) (rw no_fault refl)))

  no_panics :
      (options : ScanOptions)
      → options.scan_type ≡ ssh
      → ((t : Target) (net : Network SocketAddr Stream)
          → SshNet t net
          → ssh_scan_target SocketAddr display config.ssh_config.kex_algos config.connection_timeout
              net t
            ≢ panic)
      → (t : Target) → ¬ CanPanic SocketAddr display SshNet TlsNet config options t
  no_panics options is_ssh safe t (tls_end net is_tls met e) = absurd (cc)
  no_panics options is_ssh safe t (ssh_end net e' met e) = safe t net met e

  -- Take an SSH scan of one or more targets, none of whose hosts is empty, that is asked to save
  -- its results to a file. If `--num-threads` is not 0, the runtime takes the runner's steps to the
  -- end of the collecting loop, no scan panics on a network that it may meet, the file can be
  -- created and no write to it fails, and the JSON reader reads what the writer has written, then
  -- the run saves the results, and a report of this file covers the scan: it has one SSH result for
  -- each target, the host of each target is among its hosts, and it has no TLS result.
  pub report-saved_scan :
      (args : TargetArgs) (num_threads : ℕ) (file : Bytes) (disk : Disk) (targets : List Target)
      (run : Run SocketAddr display SshNet TlsNet Time config (options_of targets num_threads))
      → get_targets args (some config.ssh_config.default_port) ≡ ok targets
      → targets ≢ []
      → All (λ t. t.host ≢ []) targets
      → 0 < num_threads
      → runtime config (options_of targets num_threads) ≡ some run
      → ((t : Target) (net : Network SocketAddr Stream)
          → SshNet t net
          → ssh_scan_target SocketAddr display config.ssh_config.kex_algos config.connection_timeout
              net t
            ≢ panic)
      → files.creatable file ≡ none
      → files.fault file (scan_json (saved_scan (options_of targets num_threads) run)) ≡ none
      → from_reader (scan_json (saved_scan (options_of targets num_threads) run))
        ≡ some (saved_scan (options_of targets num_threads) run)
      → let ended =
          main Time to_rfc3339 files prepare render report_json from_reader crate_version config
            scan_json runner
            (ssh_scan args num_threads (some file))
            disk in
        (ended.1 ≡ ok tt)
        × (report : ReportResults Time) × (create_report Time ended.0 from_reader crate_version
              (file ∷ [])
            ≡ ok report)
        × Covers Time targets report
  unfolding scan_runner
  report-saved_scan args num_threads file disk targets run some_targets ne hosts threads ran safe
        file_ok no_fault reads =
      let options = options_of targets num_threads in
      let scan = saved_scan options run in
      let saved =
        main-saves args num_threads file disk targets scan some_targets (rw (ran, scan_runner) refl)
          file_ok no_fault in
      let complete =
        finished-IsComplete ScanResult (CanReturn SocketAddr display SshNet TlsNet config options)
          (CanPanic SocketAddr display SshNet TlsNet config options) num_threads targets run.last
          (no_panics options refl safe) threads ne hosts run.steps run.finished in
      let (report, e, covers) =
        read-saved Time from_reader crate_version file (scan_json scan)
          (update disk file (scan_json scan)) targets complete.scanned scan
          (pairs-Answers SocketAddr display SshNet TlsNet config options complete.scanned refl
            complete.scans)
          complete.all_targets complete.all_results refl (rw (equal_refl file) refl) reads in
      (
        ap (λ x. x.1) saved,
        report,
        ap (λ x. create_report Time x.0 from_reader crate_version (file ∷ [])) saved ∙ e,
        covers,
      )
