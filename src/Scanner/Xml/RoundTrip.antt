-- ===== src/Scanner/Xml/RoundTrip.antt =====
-- The XML report of pqcscan/src/main.rs, read back whole.
use pqcscan.Base.{
  ◌≡◌, refl, ap, ◌∙◌, Bool, true, false, some, List, [], ◌∷◌, ◌++◌, append_assoc, All, Bytes, codes,
  equal,
}
use pqcscan.Scanner.Report.{ReportResults, Summary}
use pqcscan.Scanner.Report.Rows.{findings}
use pqcscan.Scanner.Xml.{
  spaces, write_summary, write_windows, write_xml_hosts, ssh_element, tls_element,
  write_xml_report_to_writer,
}
use pqcscan.Scanner.Xml.Reader.{
  Event, opened, closed, prepend, in_text, read_content, read_document,
}
use pqcscan.Scanner.Xml.Steps.{text_step}
use pqcscan.Scanner.Xml.Lines.{Reads, Reads-append, line, line_end, open_line}
use pqcscan.Scanner.Xml.Elements.{is_markup-All}
use pqcscan.Scanner.Xml.Children.{Children, some_child, Children-append, content, with_children}
use pqcscan.Scanner.Xml.Summaries.{
  summary_attributes, summary_element, window_events, IsPrintedWindow, windows-Children,
}
use pqcscan.Scanner.Xml.Results.{
  HasTexts, ssh_events, tls_events, results_events, ssh_element-Renders, tls_element-Renders,
  hosts-Children,
}

Reads-then :
    {st st' : List Bytes} {fr fr' : Bool} {text : Bytes} {es fs : List Event} (rest : Bytes)
    → Reads st fr text es st' fr'
    → read_content st' fr' in_text line_end rest ≡ some fs
    → read_content st fr in_text line_end (text ++ rest) ≡ some (es ++ fs)
Reads-then {es = es} rest r e = r.run rest ∙ ap (prepend es) e

abbrev summary_events : Bytes → Summary → List Event
summary_events name s = opened name (summary_attributes s) ∷ closed name ∷ []

-- The events of an element whose children have the given ones.
abbrev node : Bytes → List Event → List Event
node name es = opened name [] ∷ (content (line_end ++ spaces 2) es ++ (closed name ∷ []))

module _ (Time : Type 0) (to_rfc3339 : Time → Bytes) (report : ReportResults Time) where
  -- The results of a report in the order in which it lists them.
  abbrev all_results_events : List Event
  all_results_events =
      results_events ssh_events
        (findings report.ssh_results.sorted_hosts report.ssh_results.results)
      ++ results_events tls_events
          (findings report.tls_results.sorted_hosts report.tls_results.results)

  -- What a report says, as the events of a document.
  abbrev pub report_events : List Event
  report_events =
      opened (codes "pqcscan_report") []
      ∷ (node (codes "summary") (
            summary_events (codes "ssh") report.ssh_results
            ++ summary_events (codes "tls") report.tls_results)
          ++ (node (codes "scan_windows") (window_events Time to_rfc3339 report.scan_windows)
              ++ (node (codes "results") all_results_events
                  ++ (closed (codes "pqcscan_report") ∷ []))))

  -- All texts of a report can stand in XML 1.0.
  pub record IsXmlReport : Type 0 where
    pub windows : All (IsPrintedWindow Time to_rfc3339) report.scan_windows
    pub ssh_texts :
        All HasTexts (findings report.ssh_results.sorted_hosts report.ssh_results.results)
    pub tls_texts :
        All HasTexts (findings report.tls_results.sorted_hosts report.tls_results.results)

abbrev root : Bytes
root = codes "pqcscan_report"

root_end :
    read_content (root ∷ []) false in_text line_end (codes "</pqcscan_report>\n")
    ≡ some (closed root ∷ [])
unfolding read_content equal
root_end = refl

summaries-Children :
    (s t : Summary)
    → Children
        (codes "summary")
        (root ∷ [])
        (write_summary (codes "ssh") s ++ write_summary (codes "tls") t)
        (summary_events (codes "ssh") s ++ summary_events (codes "tls") t)
unfolding equal
summaries-Children s t = some_child _ _ refl (λ fresh.
    Reads-append
      (summary_element (codes "ssh") s (codes "summary") (root ∷ []) fresh (refl, λ u. refl))
      (summary_element (codes "tls") t (codes "summary") (root ∷ []) false (refl, λ u. refl)))

-- An element of two blanks' indent.
abbrev block : Bytes → Bytes → Bytes
block name text = line 2 name ++ (text ++ line 2 (b'/' ∷ name))

module _ (Time : Type 0) (to_rfc3339 : Time → Bytes) (report : ReportResults Time) where
  abbrev summary_text : Bytes
  summary_text =
      write_summary (codes "ssh") report.ssh_results
      ++ write_summary (codes "tls") report.tls_results

  abbrev results_text : Bytes
  results_text =
      write_xml_hosts ssh_element report.ssh_results.sorted_hosts report.ssh_results.results
      ++ write_xml_hosts tls_element report.tls_results.sorted_hosts report.tls_results.results

  abbrev results_block : Bytes
  results_block = block (codes "results") results_text ++ codes "</pqcscan_report>\n"

  abbrev windows_block : Bytes
  windows_block =
      block (codes "scan_windows") (write_windows Time to_rfc3339 report.scan_windows)
      ++ results_block

  abbrev summary_block : Bytes
  summary_block = block (codes "summary") summary_text ++ windows_block

  write-blocks :
      write_xml_report_to_writer Time to_rfc3339 report
      ≡ codes "<?xml version=\"1.0\" encoding=\"UTF-8\"?>"
        ++ (line_end ++ (line 0 root ++ summary_block))
  unfolding write_xml_report_to_writer
  write-blocks = simp (append_assoc)

  module _ (h : IsXmlReport Time to_rfc3339 report) where
    read-results_block :
        read_content (root ∷ []) false in_text line_end results_block
        ≡ some (
            node (codes "results") (all_results_events Time to_rfc3339 report)
            ++ (closed root ∷ []))
    unfolding equal
    read-results_block =
        Reads-then (codes "</pqcscan_report>\n")
          (with_children false 2 (codes "results") (refl, refl, refl)
            (Children-append
              (hosts-Children (codes "results") (root ∷ []) ssh_element ssh_events
                (λ r. (_, _, refl)) ssh_element-Renders report.ssh_results.sorted_hosts
                report.ssh_results.results h.ssh_texts)
              (hosts-Children (codes "results") (root ∷ []) tls_element tls_events
                (λ r. (_, _, refl)) tls_element-Renders report.tls_results.sorted_hosts
                report.tls_results.results h.tls_texts)))
          root_end

    read-blocks :
        read_content [] false in_text line_end (line 0 root ++ summary_block)
        ≡ some (report_events Time to_rfc3339 report)
    unfolding equal
    read-blocks =
        Reads-then summary_block (open_line [] false 0 root root [] (is_markup-All root refl) refl)
          (Reads-then windows_block
            (with_children true 2 (codes "summary") (refl, refl, refl)
              (summaries-Children report.ssh_results report.tls_results))
            (Reads-then results_block
              (with_children false 2 (codes "scan_windows") (refl, refl, refl)
                (windows-Children Time to_rfc3339 (codes "scan_windows") (root ∷ [])
                  report.scan_windows h.windows))
              read-results_block))

  -- The XML report is read back: if no text of its results holds a control character other than tab
  -- and line feed, and no time's print one at all, it is a well-formed document whose elements are
  -- the summary with the counts of SSH and of TLS, the scan windows in their order, and a result
  -- for each finding, the SSH findings of each host in the order of the hosts first, then those of
  -- TLS, each with all its texts as they were before they were escaped.
  pub read-write_xml_report :
      IsXmlReport Time to_rfc3339 report
      → read_document (write_xml_report_to_writer Time to_rfc3339 report)
        ≡ some (report_events Time to_rfc3339 report)
  unfolding read_document
  read-write_xml_report h =
      ap read_document write-blocks
      ∙ text_step [] false b'\n' [] (line 0 root ++ summary_block) (refl, refl)
      ∙ read-blocks h
