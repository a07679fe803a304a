-- ===== src/Scanner/Main/Csv.antt =====
-- The subcommand `create-report --format csv`, from its input files to its output file.
use pqcscan.Base.{◌≡◌, refl, Option, none, some, List, Bytes, codes, length, equal, Outcome, ok}
use pqcscan.Scanner.Report.{Scan, ReportResults}
use pqcscan.Scanner.Report.Counted.{
  AllRead, IsSummary, ssh_findings, tls_findings, all_results, create_report-IsSummary,
}
use pqcscan.Scanner.Report.Rows.{
  read_records, rows, write_csv_report_to_writer, read-write_csv_report,
}
use pqcscan.Scanner.Main.{
  Config, ScanOptions, report_format, report_of, MainError, Disk, update, write_file,
  write_csv_report, Files, write_report, create_report_file, main,
}

module _ (Time : Type 0) (to_rfc3339 : Time → Bytes) (files : Files) {Page : Type 0}
    (prepare : ReportResults Time → Outcome Bytes Page) (render : Page → Bytes × Option Bytes)
    (report_json : ReportResults Time → Bytes) (from_reader : Bytes → Option (Scan Time))
    (crate_version : Bytes) (config : Config) (scan_json : Scan Time → Bytes)
    (scan_runner : Config → ScanOptions → Outcome MainError (Scan Time)) where
  -- Where all input files are read, are of this version and hold no `Done`, and the output file
  -- can be created and no write to it fails, a run that is asked for a CSV report succeeds. It
  -- writes one text to the output file, which a reader of RFC 4180 reads as the rows of a report,
  -- and nothing else; in the report the counts, the lists of each host and the sets of hosts are
  -- those of all results of the files.
  pub main-csv :
      (output : Bytes) (inputs : List Bytes) (disk : Disk) (scans : List (Scan Time))
      → AllRead Time disk from_reader crate_version inputs scans
      → files.creatable output ≡ none
      → ((text : Bytes) → files.fault output text ≡ none)
      → (report : ReportResults Time) × (text : Bytes) × (main Time to_rfc3339 files prepare render
            report_json from_reader crate_version config scan_json scan_runner
            (report_of output (some inputs) (codes "csv"))
            disk
          ≡ (update disk output text, ok tt))
        × (read_records (length (rows Time report)) text ≡ some (rows Time report))
        × IsSummary
            (ssh_findings (all_results Time disk from_reader crate_version scans))
            report.ssh_results
        × IsSummary
            (tls_findings (all_results Time disk from_reader crate_version scans))
            report.tls_results
  unfolding main create_report_file write_report write_csv_report write_file report_format equal
  main-csv output inputs disk scans all file writable =
      let (report, e, ssh, tls) =
        create_report-IsSummary Time disk from_reader crate_version inputs scans all in
      (
        report,
        write_csv_report_to_writer Time report,
        rw (e, create_report_file) (rw (file, write_file) (rw (writable _) refl)),
        read-write_csv_report Time report,
        ssh,
        tls,
      )
