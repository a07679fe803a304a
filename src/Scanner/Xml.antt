-- ===== src/Scanner/Xml.antt =====
-- The XML writer of pqcscan/src/main.rs, from `write_xml_report_to_writer` to `xml_escape`. The
-- writer is a file that takes every byte; how a time is printed is a parameter.
pub mod Entities
pub mod Reader
pub mod Decoded
pub mod Steps
pub mod Lines
pub mod Elements
pub mod Children
pub mod Attributes
pub mod Summaries
pub mod Tests
pub mod Results
pub mod RoundTrip
use pqcscan.Base.{
  ℕ, ◌+◌, Bool, Option, none, some, List, [], ◌∷◌, ◌++◌, Bytes, codes, replicate, ◌==◌,
  if◌then◌else◌,
}
use pqcscan.Base.Decimal.{decimal}
use pqcscan.Base.Dict.{lookup, bytes_eq}
use pqcscan.Scanner.Target.{Target}
use pqcscan.Scanner.Report.{
  Finding, ReportResults, ScanType, ssh, tls, ScanWindow, Summary, results_of,
}
use pqcscan.Scanner.Report.Rows.{status, text_of, bool_text}

-- `value.replace(c, by)`, of Rust's standard library
unfoldable pub replace : ℕ → Bytes → Bytes → Bytes
replace c by [] = []
replace c by (d ∷ value) = (if d == c then by else d ∷ []) ++ replace c by value

unfoldable pub xml_escape : Bytes → Bytes
xml_escape value = replace b'\'' (codes "&apos;") (
    replace b'"' (codes "&quot;") (
      replace b'>' (codes "&gt;")
        (replace b'<' (codes "&lt;") (replace b'&' (codes "&amp;") value))))

-- `{:indent$}` of the empty string
abbrev pub spaces : ℕ → Bytes
spaces indent = replicate indent b' '

unfoldable pub write_xml_text_element : ℕ → Bytes → Bytes → Bytes
write_xml_text_element indent name value =
    spaces indent
    ++ (codes "<"
        ++ (name ++ (codes ">" ++ (xml_escape value ++ (codes "</" ++ (name ++ codes ">\n"))))))

-- `for algorithm in algorithms`
unfoldable pub write_algorithms : ℕ → List Bytes → Bytes
write_algorithms indent [] = []
write_algorithms indent (algorithm ∷ algorithms) =
    write_xml_text_element (indent + 2) (codes "algorithm") algorithm
    ++ write_algorithms indent algorithms

-- `if let Some(algorithms) = algorithms`
unfoldable pub write_optional : ℕ → Option (List Bytes) → Bytes
write_optional indent none = []
write_optional indent (some algorithms) = write_algorithms indent algorithms

unfoldable pub write_xml_algorithm_list : ℕ → Bytes → Option (List Bytes) → Bytes
write_xml_algorithm_list indent name algorithms =
    (spaces indent ++ (codes "<" ++ (name ++ codes ">\n")))
    ++ (write_optional indent algorithms
        ++ (spaces indent ++ (codes "</" ++ (name ++ codes ">\n"))))

-- The lines between `<result …>` and `</result>`.
unfoldable pub write_result_lines :
    Target
    → Option Bytes
    → Option Bytes
    → Bool
    → Option (List Bytes)
    → Option (List Bytes)
    → Option (List Bytes)
    → Bytes
write_result_lines targetspec addr error pqc_supported pqc_algos hybrid_algos nonpqc_algos =
    write_xml_text_element 6 (codes "host") targetspec.host
    ++ (write_xml_text_element 6 (codes "port") (decimal targetspec.port)
        ++ (write_xml_text_element 6 (codes "address") (text_of addr)
            ++ (write_xml_text_element 6 (codes "status") (status error)
                ++ (write_xml_text_element 6 (codes "pqc_supported") (bool_text pqc_supported)
                    ++ (write_xml_algorithm_list 6 (codes "pqc_algorithms") pqc_algos
                        ++ (write_xml_algorithm_list 6 (codes "hybrid_algorithms") hybrid_algos
                            ++ (write_xml_algorithm_list 6 (codes "non_pqc_algorithms") nonpqc_algos
                                ++ write_xml_text_element 6 (codes "error") (text_of error))))))))

unfoldable pub write_xml_result :
    Bytes
    → Target
    → Option Bytes
    → Option Bytes
    → Bool
    → Option (List Bytes)
    → Option (List Bytes)
    → Option (List Bytes)
    → Bytes
write_xml_result scan_type targetspec addr error pqc_supported pqc_algos hybrid_algos nonpqc_algos =
    (codes "    <result scan_type=\"" ++ (scan_type ++ codes "\">\n"))
    ++ (write_result_lines targetspec addr error pqc_supported pqc_algos hybrid_algos nonpqc_algos
        ++ codes "    </result>\n")

-- The calls in the two `if let`; an SSH result has no hybrid algorithms.
unfoldable pub ssh_element : Finding → Bytes
ssh_element r =
    write_xml_result (codes "ssh") r.targetspec r.addr r.error r.pqc_supported r.pqc_algos none
      r.nonpqc_algos

unfoldable pub tls_element : Finding → Bytes
tls_element r =
    write_xml_result (codes "tls") r.targetspec r.addr r.error r.pqc_supported r.pqc_algos
      r.hybrid_algos r.nonpqc_algos

-- `for result in host_results`
unfoldable pub write_xml_results : (Finding → Bytes) → List Finding → Bytes
write_xml_results element [] = []
write_xml_results element (r ∷ rs) = element r ++ write_xml_results element rs

-- `for host in &sorted_hosts`, with `if let Some(host_results)`
unfoldable pub write_xml_hosts :
    (Finding → Bytes) → List Bytes → List (Bytes × List Finding) → Bytes
write_xml_hosts element [] results = []
write_xml_hosts element (host ∷ hosts) results =
    write_xml_results element (results_of (lookup host results))
    ++ write_xml_hosts element hosts results

unfoldable pub scan_type_name : ScanType → Bytes
scan_type_name ssh = codes "ssh"
scan_type_name tls = codes "tls"

-- `    <ssh total=… />` and `    <tls total=… />`
unfoldable pub write_summary : Bytes → Summary → Bytes
write_summary name s =
    codes "    <"
    ++ (name
        ++ (codes " total=\""
            ++ (decimal s.total_count
                ++ (codes "\" success=\""
                    ++ (decimal s.success_count
                        ++ (codes "\" failed=\""
                            ++ (decimal s.fail_count
                                ++ (codes "\" pqc_supported=\""
                                    ++ (decimal s.pqc_supported_count ++ codes "\" />\n")))))))))

module _ (Time : Type 0) (to_rfc3339 : Time → Bytes) where
  unfoldable pub write_window : ScanWindow Time → Bytes
  write_window w =
      codes "    <scan_window type=\""
      ++ (scan_type_name w.scan_type
          ++ (codes "\" start_time=\""
              ++ (xml_escape (to_rfc3339 w.start_time)
                  ++ (codes "\" end_time=\""
                      ++ (xml_escape (to_rfc3339 w.end_time) ++ codes "\" />\n")))))

  -- `for window in &results.scan_windows`
  unfoldable pub write_windows : List (ScanWindow Time) → Bytes
  write_windows [] = []
  write_windows (w ∷ windows) = write_window w ++ write_windows windows

  unfoldable pub write_xml_report_to_writer : ReportResults Time → Bytes
  write_xml_report_to_writer results =
      codes "<?xml version=\"1.0\" encoding=\"UTF-8\"?>"
      ++ (codes "\n<pqcscan_report>\n"
          ++ (codes "  <summary>\n"
              ++ (write_summary (codes "ssh") results.ssh_results
                  ++ (write_summary (codes "tls") results.tls_results
                      ++ (codes "  </summary>\n"
                          ++ (codes "  <scan_windows>\n"
                              ++ (write_windows results.scan_windows
                                  ++ (codes "  </scan_windows>\n"
                                      ++ (codes "  <results>\n"
                                          ++ (write_xml_hosts ssh_element
                                                results.ssh_results.sorted_hosts
                                                results.ssh_results.results
                                              ++ (write_xml_hosts tls_element
                                                    results.tls_results.sorted_hosts
                                                    results.tls_results.results
                                                  ++ (codes "  </results>\n"
                                                      ++ codes "</pqcscan_report>\n"))))))))))))
