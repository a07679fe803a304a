-- ===== src/Scanner/Xml/Tests.antt =====
-- An XML report written and read.
use pqcscan.Base.{◌≡◌, refl, All, false, none, some, [], ◌∷◌, ℕ, Bytes, codes, equal}
use pqcscan.Base.Decimal.{decimal}
use pqcscan.Base.Dict.{bytes_eq, lookup}
use pqcscan.Scanner.Report.{Finding, ReportResults, ssh, Summary, results_of, no_tally, summary}
use pqcscan.Scanner.Report.Rows.{status, text_of, bool_text}
use pqcscan.Scanner.Xml.{
  write_xml_report_to_writer, write_xml_text_element, write_xml_hosts, write_xml_results,
  ssh_element, write_xml_result, write_result_lines, write_xml_algorithm_list, write_optional,
  write_algorithms, write_summary, write_windows, write_window, scan_type_name, xml_escape, replace,
}
use pqcscan.Scanner.Xml.Decoded.{IsPrinted, is_chars-IsText}
use pqcscan.Scanner.Xml.Reader.{read_document}
use pqcscan.Scanner.Xml.RoundTrip.{IsXmlReport, report_events, read-write_xml_report}

-- A failed scan, with the texts of the program's own test.
abbrev finding : Bytes → Finding
finding host = record {
  targetspec = record { host = host; port = 22 };
  addr = some (codes "203.0.113.10:22");
  error = some (codes "bad \"quote\" & <tag>");
  pqc_supported = false;
  pqc_algos = some (codes "sntrup761x25519-sha512" ∷ []);
  hybrid_algos = none;
  nonpqc_algos = some [];
}

abbrev summary_of : Bytes → Summary
summary_of host = record {
  results = (host, finding host ∷ []) ∷ [];
  sorted_hosts = host ∷ [];
  success_count = 0;
  fail_count = 1;
  pqc_supported_count = 0;
  total_count = 1;
}

abbrev printed : ℕ → Bytes
printed t = codes "2026"

abbrev report : Bytes → ReportResults ℕ
report host = record {
  tls_results = summary no_tally;
  ssh_results = summary_of host;
  scan_windows = record { start_time = 0; end_time = 1; scan_type = ssh } ∷ [];
}

year : All IsPrinted (codes "2026")
year = (refl, (refl, (refl, (refl, tt))))

report-IsXmlReport : IsXmlReport ℕ printed (report (codes "ssh.example.com"))
unfolding lookup equal results_of text_of summary
report-IsXmlReport = record {
  windows = ((year, year), tt);
  ssh_texts = (
    record {
      host = is_chars-IsText (codes "ssh.example.com") refl;
      addr = is_chars-IsText (codes "203.0.113.10:22") refl;
      error = is_chars-IsText (codes "bad \"quote\" & <tag>") refl;
      pqc_algos = (is_chars-IsText (codes "sntrup761x25519-sha512") refl, tt);
      hybrid_algos = tt;
      nonpqc_algos = tt;
    },
    tt,
  );
  tls_texts = tt;
}

read-write_xml_report_example :
    read_document (write_xml_report_to_writer ℕ printed (report (codes "ssh.example.com")))
    ≡ some (report_events ℕ printed (report (codes "ssh.example.com")))
read-write_xml_report_example =
    read-write_xml_report ℕ printed (report (codes "ssh.example.com")) report-IsXmlReport

-- A control character in a host's name is not escaped, and the document is not well-formed.
control_character : read_document (write_xml_report_to_writer ℕ printed (report (7 ∷ []))) ≡ none
unfolding read_document write_xml_report_to_writer write_xml_text_element write_xml_hosts
    write_xml_results ssh_element write_xml_result write_result_lines write_xml_algorithm_list
    write_optional write_algorithms write_summary write_windows write_window scan_type_name
    xml_escape replace decimal lookup equal results_of text_of status bool_text summary
control_character = refl
