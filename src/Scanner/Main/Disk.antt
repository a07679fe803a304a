-- ===== src/Scanner/Main/Disk.antt =====
-- What a run of the scanner does to the disk.
use pqcscan.Base.{
  ◌≡◌, ◌≢◌, refl, Option, none, some, Option-cases, inl, inr, List, Bytes, Outcome, panic, hang,
  Returns, Returns-ne-panic, Returns-ne-hang, ◌>>=◌, Outcome-cases, is_ok, is_err, is_panic,
  is_hang,
}
use pqcscan.Scanner.Report.{Scan, ReportResults, create_report}
use pqcscan.Scanner.Main.{
  Config, ScanOptions, ReportFormat, html, csv, json, xml, report_format, Subcommand, tls_scan,
  ssh_scan, report_of, MainError, Disk, Ended, update, write_file, write_csv_report,
  write_xml_report, write_json_report, Files, WriteFault, in_text, at_flush, stored, flushed,
  dropped, page_written, render_html_report, write_report, create_report_file, save_results,
  run_scan, main, tls_options, ssh_options,
}

-- The file that a subcommand is asked to write.
abbrev pub output_of : Subcommand → Option Bytes
output_of (tls_scan targets only_hybrid_algos test_nonpqc_algos num_threads output) = output
output_of (ssh_scan targets num_threads output) = output
output_of (report_of output input format) = some output

-- The disk is as it was; or the output file, which could be created, holds some text and all other
-- files are as they were, and the program has ended without a panic.
pub data Wrote (creatable : Bytes → Option Bytes) (output : Option Bytes) (disk : Disk) (e : Ended)
    : Type 0 where
  untouched : e.0 ≡ disk → Wrote creatable output disk e
  wrote :
      (path text : Bytes)
      → output ≡ some path
      → creatable path ≡ none
      → e.0 ≡ update disk path text
      → e.1 ≢ panic
      → e.1 ≢ hang
      → Wrote creatable output disk e

-- What a run makes of a failure to write is no panic.
flushed-Returns : (fault : Option WriteFault) → Returns (flushed fault)
flushed-Returns none = tt
flushed-Returns (some (in_text n e)) = tt
flushed-Returns (some (at_flush n e)) = tt

dropped-Returns : (fault : Option WriteFault) → Returns (dropped fault)
dropped-Returns none = tt
dropped-Returns (some (in_text n e)) = tt
dropped-Returns (some (at_flush n e)) = tt

page_written-Returns :
    (e : Option Bytes) (fault : Option WriteFault) → Returns (page_written e fault)
page_written-Returns none none = tt
page_written-Returns (some e) none = tt
page_written-Returns _ (some (in_text n e)) = tt
page_written-Returns _ (some (at_flush n e)) = tt

module _ (files : Files) where
  write_file-Wrote :
      (path text : Bytes) (ending : Option WriteFault → Outcome MainError (Unit {0})) (disk : Disk)
      → ((fault : Option WriteFault) → Returns (ending fault))
      → Wrote files.creatable (some path) disk (write_file files path text ending disk)
  unfolding write_file
  write_file-Wrote path text ending disk returns = elim (Option-cases (files.creatable path)) [
    | inr (e, no_file) ↦ untouched (rw (no_file, write_file) refl)
    | inl file ↦
        let fault = files.fault path text in
        wrote path (stored text fault) refl file (rw (file, write_file) refl)
          (rw (file, write_file) (Returns-ne-panic (ending fault) (returns fault)))
          (rw (file, write_file) (Returns-ne-hang (ending fault) (returns fault)))
  ]

module _ (Time : Type 0) (to_rfc3339 : Time → Bytes) (files : Files) {Page : Type 0}
    (prepare : ReportResults Time → Outcome Bytes Page) (render : Page → Bytes × Option Bytes)
    (report_json : ReportResults Time → Bytes) (from_reader : Bytes → Option (Scan Time))
    (crate_version : Bytes) where
  write_report-Wrote :
      (format : ReportFormat) (path : Bytes) (results : ReportResults Time) (disk : Disk)
      → Wrote files.creatable (some path) disk (
          write_report Time to_rfc3339 files prepare render report_json from_reader crate_version
            format path results disk)
  unfolding write_report write_csv_report write_xml_report write_json_report render_html_report
  write_report-Wrote csv path results disk =
      write_file-Wrote files path _ flushed disk flushed-Returns
  write_report-Wrote json path results disk =
      write_file-Wrote files path _ flushed disk flushed-Returns
  write_report-Wrote xml path results disk =
      write_file-Wrote files path _ flushed disk flushed-Returns
  write_report-Wrote html path results disk = elim (Outcome-cases (prepare results)) [
    | is_ok page e ↦
        rw (e, render_html_report)
          (write_file-Wrote files path (render page).0 _ disk
            (page_written-Returns (render page).1))
    | is_err x e ↦ untouched (rw (e, render_html_report) refl)
    | is_panic e ↦ untouched (rw (e, render_html_report) refl)
    | is_hang e ↦ untouched (rw (e, render_html_report) refl)
  ]

  create_report_file-Wrote :
      (path : Bytes) (inputs : List Bytes) (format : ReportFormat) (disk : Disk)
      → Wrote files.creatable (some path) disk (
          create_report_file Time to_rfc3339 files prepare render report_json from_reader
            crate_version path inputs format disk)
  unfolding create_report_file
  create_report_file-Wrote path inputs format disk =
      elim (Outcome-cases (create_report Time disk from_reader crate_version inputs)) [
        | is_ok results e ↦ rw (e, create_report_file) (write_report-Wrote format path results disk)
        | is_err x e ↦ untouched (rw (e, create_report_file) refl)
        | is_panic e ↦ untouched (rw (e, create_report_file) refl)
        | is_hang e ↦ untouched (rw (e, create_report_file) refl)
      ]

  module _ (config : Config) (scan_json : Scan Time → Bytes)
      (scan_runner : Config → ScanOptions → Outcome MainError (Scan Time)) where
    save_results-Wrote :
        (output : Option Bytes) (results : Scan Time) (disk : Disk)
        → Wrote files.creatable output disk (
            save_results Time to_rfc3339 files prepare render report_json from_reader crate_version
              config scan_json scan_runner output results disk)
    unfolding save_results
    save_results-Wrote none results disk = untouched refl
    save_results-Wrote (some path) results disk =
        write_file-Wrote files path _ dropped disk dropped-Returns

    run_scan-Wrote :
        (options : Outcome MainError ScanOptions) (output : Option Bytes) (disk : Disk)
        → Wrote files.creatable output disk (
            run_scan Time to_rfc3339 files prepare render report_json from_reader crate_version
              config scan_json scan_runner options output disk)
    unfolding run_scan
    run_scan-Wrote options output disk = elim (Outcome-cases (options >>= scan_runner config)) [
      | is_ok results e ↦ rw (e, run_scan) (save_results-Wrote output results disk)
      | is_err x e ↦ untouched (rw (e, run_scan) refl)
      | is_panic e ↦ untouched (rw (e, run_scan) refl)
      | is_hang e ↦ untouched (rw (e, run_scan) refl)
    ]

    -- Whatever the subcommand and its files are, a run leaves the disk as it was, or it has created
    -- or replaced the output file that it was asked for and no other file, and has not panicked. So
    -- a run that panics, as on an input that is no JSON, has written nothing.
    pub main-Wrote :
        (command : Subcommand) (disk : Disk)
        → Wrote files.creatable (output_of command) disk (
            main Time to_rfc3339 files prepare render report_json from_reader crate_version config
              scan_json scan_runner command disk)
    unfolding main
    main-Wrote (tls_scan targets only_hybrid_algos test_nonpqc_algos num_threads output) disk =
        run_scan-Wrote (tls_options config targets only_hybrid_algos test_nonpqc_algos num_threads)
          output disk
    main-Wrote (ssh_scan targets num_threads output) disk =
        run_scan-Wrote (ssh_options config targets num_threads) output disk
    main-Wrote (report_of output none format) disk = untouched refl
    main-Wrote (report_of output (some inputs) format) disk =
        create_report_file-Wrote output inputs (report_format format) disk
