-- ===== src/Scanner/Main.antt =====
-- `main` of pqcscan/src/main.rs behind the command line's parser, with the writers of the reports
-- and the configuration of pqcscan/src/config.rs. The disk gives each path its text. What a scan
-- returns, the embedded tables, the JSON writer, the templates and the answers of the file
-- system are parameters; log messages are left out.
pub mod Disk
pub mod Run
pub mod Covers
pub mod Saved
pub mod Csv
pub mod Tests
use pqcscan.Base.{
  ℕ, Bool, true, false, Option, none, some, List, [], ◌∷◌, ◌++◌, Bytes, codes, equal, if◌then◌else◌,
  Outcome, ok, err, panic, hang, ◌>>=◌, take,
}
use pqcscan.Scanner.Target.{Target, TargetArgs, TargetError, get_targets}
use pqcscan.Scanner.Report.{ScanType, ssh, tls, Scan, ReportResults, ReportError, create_report}
use pqcscan.Scanner.Report.Rows.{write_csv_report_to_writer}
use pqcscan.Scanner.Xml.{write_xml_report_to_writer}
use pqcscan.Scanner.Ssh.Scan.{KexAlgo}
use pqcscan.Scanner.Tls.Scan.{TlsGroup, TlsCipherSuite, TlsSigScheme, TlsConfig}

pub record SshConfig : Type 0 where
  pub kex_algos : List (Bytes × KexAlgo)
  pub default_port : ℕ

pub record Config : Type 0 where
  pub ssh_config : SshConfig
  pub tls_config : TlsConfig
  pub connection_timeout : ℕ
  pub read_timeout : ℕ

-- `SshConfig::new`, `TlsConfig::new` and `Config::new`, from the embedded tables
abbrev pub ssh_config_new : List (Bytes × KexAlgo) → SshConfig
ssh_config_new kex_algos = record { kex_algos = kex_algos; default_port = 22 }

abbrev pub tls_config_new :
    List (Bytes × TlsGroup)
    → List (Bytes × TlsCipherSuite)
    → List (Bytes × TlsSigScheme)
    → TlsConfig
tls_config_new groups cipher_suites sig_schemes = record {
  default_port = 443;
  groups = groups;
  cipher_suites = cipher_suites;
  sig_schemes = sig_schemes;
}

abbrev pub config_new : SshConfig → TlsConfig → Config
config_new ssh_config tls_config = record {
  ssh_config = ssh_config;
  tls_config = tls_config;
  connection_timeout = 5;
  read_timeout = 10;
}

-- The options of a scan, whose type is set when there is one.
pub record ScanOptions : Type 0 where
  pub num_threads : ℕ
  pub targets : List Target
  pub scan_type : ScanType
  pub scan_hybrid_algos_only : Bool
  pub scan_nonpqc_algos : Bool

pub data ReportFormat : Type 0 where
  html csv json xml : ReportFormat

-- `impl From<&str> for ReportFormat`
unfoldable pub report_format : Bytes → ReportFormat
report_format value =
    if equal value (codes "csv")
    then csv
    else if equal value (codes "json")
    then json
    else if equal value (codes "xml")
    then xml
    else html

-- What the command line's parser gives for each subcommand.
pub data Subcommand : Type 0 where
  tls_scan :
      (targets : TargetArgs) (only_hybrid_algos test_nonpqc_algos : Bool) (num_threads : ℕ)
      (output : Option Bytes)
      → Subcommand
  ssh_scan : (targets : TargetArgs) (num_threads : ℕ) (output : Option Bytes) → Subcommand
  report_of : (output : Bytes) (input : Option (List Bytes)) (format : Bytes) → Subcommand

pub data MainError : Type 0 where
  target_error : TargetError → MainError
  report_error : ReportError → MainError
  io_error template_error : Bytes → MainError
  no_input : MainError

-- The error of a step as one of `main`.
abbrev pub with_error {ℓ} :
    {E : Type 0} {A : Type ℓ} → (E → MainError) → Outcome E A → Outcome MainError A
with_error f (ok a) = ok a
with_error f (err e) = err (f e)
with_error f panic = panic
with_error f hang = hang

-- The options that a subcommand asks for.
unfoldable pub tls_options : Config → TargetArgs → Bool → Bool → ℕ → Outcome MainError ScanOptions
tls_options config args only_hybrid_algos test_nonpqc_algos num_threads = do
  targets ← with_error target_error (get_targets args (some config.tls_config.default_port))
  ok (record {
    num_threads = num_threads;
    targets = targets;
    scan_type = tls;
    scan_hybrid_algos_only = only_hybrid_algos;
    scan_nonpqc_algos = test_nonpqc_algos;
  })

unfoldable pub ssh_options : Config → TargetArgs → ℕ → Outcome MainError ScanOptions
ssh_options config args num_threads = do
  targets ← with_error target_error (get_targets args (some config.ssh_config.default_port))
  ok (record {
    num_threads = num_threads;
    targets = targets;
    scan_type = ssh;
    scan_hybrid_algos_only = false;
    scan_nonpqc_algos = false;
  })

abbrev pub Disk : Type 0
Disk = Bytes → Option Bytes

-- A disk and how the program ended.
abbrev pub Ended : Type 0
Ended = Disk × Outcome MainError (Unit {0})

abbrev pub update : Disk → Bytes → Bytes → Disk
update disk path text p = if equal path p then some text else disk p

-- A write that fails: the file keeps so many bytes of the text. `in_text` is found by a write of the
-- text itself, and `at_flush` where the rest of the buffer is written behind it.
pub data WriteFault : Type 0 where
  in_text at_flush : ℕ → Bytes → WriteFault

-- What the file system answers: the error of `File::create` for a path, and the failure, if any, of
-- writing a text to the file there.
pub record Files : Type 0 where
  pub creatable : Bytes → Option Bytes
  pub fault : Bytes → Bytes → Option WriteFault

-- What is in the file in the end.
abbrev pub stored : Bytes → Option WriteFault → Bytes
stored text none = text
stored text (some (in_text n e)) = take n text
stored text (some (at_flush n e)) = take n text

-- The writes and the `flush` of a buffered writer, each with `?`.
abbrev pub flushed : Option WriteFault → Outcome MainError (Unit {0})
flushed none = ok tt
flushed (some (in_text n e)) = err (io_error e)
flushed (some (at_flush n e)) = err (io_error e)

-- A buffered writer that is dropped: the error of writing the rest of its buffer is ignored.
abbrev pub dropped : Option WriteFault → Outcome MainError (Unit {0})
dropped none = ok tt
dropped (some (in_text n e)) = err (io_error e)
dropped (some (at_flush n e)) = ok tt

-- The templates engine writes to the file without a buffer, and gives its own error or the file's.
abbrev pub page_written : Option Bytes → Option WriteFault → Outcome MainError (Unit {0})
page_written none none = ok tt
page_written (some e) none = err (template_error e)
page_written _ (some (in_text n e)) = err (template_error e)
page_written _ (some (at_flush n e)) = err (template_error e)

-- The file is created or emptied, and the text written; `ending` says what the program makes of a
-- failure.
unfoldable pub write_file :
    Files → Bytes → Bytes → (Option WriteFault → Outcome MainError (Unit {0})) → Disk → Ended
write_file files path text ending disk = elim (files.creatable path) [
  | some e ↦ (disk, err (io_error e))
  | none ↦ (update disk path (stored text (files.fault path text)), ending (files.fault path text))
]

module _ (Time : Type 0) (to_rfc3339 : Time → Bytes) (files : Files) where
  unfoldable pub write_csv_report : Bytes → ReportResults Time → Disk → Ended
  unfolding write_file
  write_csv_report output_file results disk =
      write_file files output_file (write_csv_report_to_writer Time results) flushed disk

  unfoldable pub write_xml_report : Bytes → ReportResults Time → Disk → Ended
  unfolding write_file
  write_xml_report output_file results disk =
      write_file files output_file (write_xml_report_to_writer Time to_rfc3339 results) flushed disk

  -- `prepare` adds the templates and makes the context; `render` gives the text that the templates
  -- engine writes and its error.
  module _ {Page : Type 0} (prepare : ReportResults Time → Outcome Bytes Page)
      (render : Page → Bytes × Option Bytes) where
    unfoldable pub render_html_report : Bytes → ReportResults Time → Disk → Ended
    unfolding write_file
    render_html_report output_file results disk = elim (prepare results) [
      | ok page ↦ write_file files output_file (render page).0 (page_written (render page).1) disk
      | err e ↦ (disk, err (template_error e))
      | panic ↦ (disk, panic)
      | hang ↦ (disk, hang)
    ]

    -- The text of `serde_json::to_writer_pretty`, and a line feed.
    unfoldable pub write_json_report :
        (ReportResults Time → Bytes) → Bytes → ReportResults Time → Disk → Ended
    unfolding write_file
    write_json_report report_json output_file results disk =
        write_file files output_file (report_json results ++ codes "\n") flushed disk

    module _ (report_json : ReportResults Time → Bytes) (from_reader : Bytes → Option (Scan Time))
        (crate_version : Bytes) where
      -- `match report_format`
      unfoldable pub write_report : ReportFormat → Bytes → ReportResults Time → Disk → Ended
      write_report html = render_html_report
      write_report csv = write_csv_report
      write_report json = write_json_report report_json
      write_report xml = write_xml_report

      -- The whole of `create_report`: nothing is written before all input files are read.
      unfoldable pub create_report_file : Bytes → List Bytes → ReportFormat → Disk → Ended
      create_report_file output_file input_files format disk =
          elim (create_report Time disk from_reader crate_version input_files) [
            | ok results ↦ write_report format output_file results disk
            | err e ↦ (disk, err (report_error e))
            | panic ↦ (disk, panic)
            | hang ↦ (disk, hang)
          ]

      module _ (config : Config) (scan_json : Scan Time → Bytes)
          (scan_runner : Config → ScanOptions → Outcome MainError (Scan Time)) where
        -- `if output_json_file.is_some()`
        unfoldable pub save_results : Option Bytes → Scan Time → Disk → Ended
        unfolding write_file
        save_results none results disk = (disk, ok tt)
        save_results (some output_file) results disk =
            write_file files output_file (scan_json results) dropped disk

        -- `if scan.scan_type.is_some()`
        unfoldable pub run_scan : Outcome MainError ScanOptions → Option Bytes → Disk → Ended
        run_scan options output disk = elim (options >>= scan_runner config) [
          | ok results ↦ save_results output results disk
          | err e ↦ (disk, err e)
          | panic ↦ (disk, panic)
          | hang ↦ (disk, hang)
        ]

        unfoldable pub main : Subcommand → Disk → Ended
        main (tls_scan targets only_hybrid_algos test_nonpqc_algos num_threads output) disk =
            run_scan (tls_options config targets only_hybrid_algos test_nonpqc_algos num_threads)
              output disk
        main (ssh_scan targets num_threads output) disk =
            run_scan (ssh_options config targets num_threads) output disk
        main (report_of output none format) disk = (disk, err no_input)
        main (report_of output (some input_files) format) disk =
            create_report_file output input_files (report_format format) disk
