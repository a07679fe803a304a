-- ===== src/Scanner/Xml/Summaries.antt =====
-- The reader on the elements of the XML report that have attributes only: `write_summary` and
-- `write_window`, for the summary and the scan windows of pqcscan/src/main.rs.
use pqcscan.Base.{
  ◌≡◌, refl, ◌∙◌, Bool, true, false, some, List, [], ◌∷◌, ◌++◌, append_assoc, All, All-append,
  Bytes, codes,
}
use pqcscan.Base.Decimal.{decimal}
use pqcscan.Scanner.Report.{Summary, ScanWindow}
use pqcscan.Scanner.Xml.{xml_escape, write_summary, scan_type_name, write_window, write_windows}
use pqcscan.Scanner.Xml.Decoded.{IsPrinted}
use pqcscan.Scanner.Xml.Reader.{
  Attributes, Event, opened, closed, empty_tag, read_tag, in_name, in_value,
}
use pqcscan.Scanner.Xml.Steps.{IsMarkup}
use pqcscan.Scanner.Xml.Lines.{Reads, line, empty_line}
use pqcscan.Scanner.Xml.Children.{Children, no_child, some_child, Children-append}
use pqcscan.Scanner.Xml.Elements.{is_markup, is_markup-All}
use pqcscan.Scanner.Xml.Attributes.{
  read-quoted, escape-Quotes, decimal-Quotes, scan_type_name-Quotes, attribute, attribute-IsMarkup,
}

-- A literal in front of a text.
literal : (l s : Bytes) → is_markup l ≡ true → All IsMarkup s → All IsMarkup (l ++ s)
literal l s e h = All-append IsMarkup l s (is_markup-All l e) h

-- The reader is in the first value of a summary when it has read the element's name.
abbrev pub IsSummaryName : Bytes → Type 0
IsSummaryName name =
    (is_markup name ≡ true)
    × ((s : Bytes)
        → read_tag in_name [] [] [] (name ++ (codes " total=\"" ++ s))
          ≡ read_tag (in_value (codes "total")) name [] [] s)

abbrev pub summary_attributes : Summary → Attributes
summary_attributes s =
    (codes "total", decimal s.total_count)
    ∷ (codes "success", decimal s.success_count)
    ∷ (codes "failed", decimal s.fail_count)
    ∷ (codes "pqc_supported", decimal s.pqc_supported_count)
    ∷ []

module _ (name : Bytes) (s : Summary) where
  abbrev from_pqc_supported : Bytes
  from_pqc_supported =
      codes " pqc_supported=\"" ++ attribute (decimal s.pqc_supported_count) (codes " /")

  abbrev from_failed : Bytes
  from_failed = codes " failed=\"" ++ attribute (decimal s.fail_count) from_pqc_supported

  abbrev from_success : Bytes
  from_success = codes " success=\"" ++ attribute (decimal s.success_count) from_failed

  abbrev summary_tag : Bytes
  summary_tag = name ++ (codes " total=\"" ++ attribute (decimal s.total_count) from_success)

  write-summary_tag : write_summary name s ≡ line 4 summary_tag
  unfolding write_summary
  write-summary_tag = simp (append_assoc)

  summary_tag-IsMarkup : is_markup name ≡ true → All IsMarkup summary_tag
  summary_tag-IsMarkup h = literal name _ h (
      literal (codes " total=\"") _ refl (
        attribute-IsMarkup _ _ _ (decimal-Quotes s.total_count) (
          literal (codes " success=\"") _ refl (
            attribute-IsMarkup _ _ _ (decimal-Quotes s.success_count) (
              literal (codes " failed=\"") _ refl (
                attribute-IsMarkup _ _ _ (decimal-Quotes s.fail_count) (
                  literal (codes " pqc_supported=\"") _ refl (
                    attribute-IsMarkup _ _ _ (decimal-Quotes s.pqc_supported_count)
                      (refl, (refl, tt))))))))))

  read-summary_tag :
      IsSummaryName name
      → read_tag in_name [] [] [] summary_tag ≡ some (empty_tag name (summary_attributes s))
  read-summary_tag begins =
      begins.1 _
      ∙ read-quoted (codes "total") name _ _ _ from_success (decimal-Quotes s.total_count)
      ∙ read-quoted (codes "success") name _ _ _ from_failed (decimal-Quotes s.success_count)
      ∙ read-quoted (codes "failed") name _ _ _ from_pqc_supported (decimal-Quotes s.fail_count)
      ∙ read-quoted (codes "pqc_supported") name _ _ _ (codes " /")
          (decimal-Quotes s.pqc_supported_count)

  -- A summary is read as an element with the four counts.
  pub summary_element :
      (top : Bytes) (stack : List Bytes) (fresh : Bool)
      → IsSummaryName name
      → Reads
          (top ∷ stack)
          fresh
          (write_summary name s)
          (opened name (summary_attributes s) ∷ closed name ∷ [])
          (top ∷ stack)
          false
  summary_element top stack fresh begins = rw write-summary_tag (
      empty_line top stack fresh 4 summary_tag name (summary_attributes s)
        (summary_tag-IsMarkup begins.0) (read-summary_tag begins))

module _ (Time : Type 0) (to_rfc3339 : Time → Bytes) where
  abbrev pub window_attributes : ScanWindow Time → Attributes
  window_attributes w =
      (codes "type", scan_type_name w.scan_type)
      ∷ (codes "start_time", to_rfc3339 w.start_time)
      ∷ (codes "end_time", to_rfc3339 w.end_time)
      ∷ []

  -- Neither time's print has control characters.
  abbrev pub IsPrintedWindow : ScanWindow Time → Type 0
  IsPrintedWindow w =
      All IsPrinted (to_rfc3339 w.start_time) × All IsPrinted (to_rfc3339 w.end_time)

  abbrev pub window_events : List (ScanWindow Time) → List Event
  window_events [] = []
  window_events (w ∷ windows) =
      opened (codes "scan_window") (window_attributes w)
      ∷ closed (codes "scan_window")
      ∷ window_events windows

module _ (Time : Type 0) (to_rfc3339 : Time → Bytes) (w : ScanWindow Time) where
  abbrev from_end_time : Bytes
  from_end_time =
      codes " end_time=\"" ++ attribute (xml_escape (to_rfc3339 w.end_time)) (codes " /")

  abbrev from_start_time : Bytes
  from_start_time =
      codes " start_time=\"" ++ attribute (xml_escape (to_rfc3339 w.start_time)) from_end_time

  abbrev window_tag : Bytes
  window_tag = codes "scan_window type=\"" ++ attribute (scan_type_name w.scan_type) from_start_time

  write-window_tag : write_window Time to_rfc3339 w ≡ line 4 window_tag
  unfolding write_window
  write-window_tag = simp (append_assoc)

  module _ (h : IsPrintedWindow Time to_rfc3339 w) where
    window_tag-IsMarkup : All IsMarkup window_tag
    window_tag-IsMarkup = literal (codes "scan_window type=\"") _ refl (
        attribute-IsMarkup _ _ _ (scan_type_name-Quotes w.scan_type) (
          literal (codes " start_time=\"") _ refl (
            attribute-IsMarkup _ _ _ (escape-Quotes (to_rfc3339 w.start_time) h.0) (
              literal (codes " end_time=\"") _ refl (
                attribute-IsMarkup _ _ _ (escape-Quotes (to_rfc3339 w.end_time) h.1)
                  (refl, (refl, tt)))))))

    read-window_tag :
        read_tag in_name [] [] [] window_tag
        ≡ some (empty_tag (codes "scan_window") (window_attributes Time to_rfc3339 w))
    read-window_tag =
        read-quoted (codes "type") (codes "scan_window") [] _ _ from_start_time
          (scan_type_name-Quotes w.scan_type)
        ∙ read-quoted (codes "start_time") (codes "scan_window") _ _ _ from_end_time
            (escape-Quotes (to_rfc3339 w.start_time) h.0)
        ∙ read-quoted (codes "end_time") (codes "scan_window") _ _ _ (codes " /")
            (escape-Quotes (to_rfc3339 w.end_time) h.1)

    window_element :
        (top : Bytes) (stack : List Bytes) (fresh : Bool)
        → Reads
            (top ∷ stack)
            fresh
            (write_window Time to_rfc3339 w)
            (window_events Time to_rfc3339 (w ∷ []))
            (top ∷ stack)
            false
    window_element top stack fresh = rw write-window_tag (
        empty_line top stack fresh 4 window_tag (codes "scan_window")
          (window_attributes Time to_rfc3339 w) window_tag-IsMarkup read-window_tag)

module _ (Time : Type 0) (to_rfc3339 : Time → Bytes) (top : Bytes) (stack : List Bytes) where
  -- The scan windows are read in their order.
  pub windows-Children :
      (windows : List (ScanWindow Time))
      → All (IsPrintedWindow Time to_rfc3339) windows
      → Children top stack
          (write_windows Time to_rfc3339 windows)
          (window_events Time to_rfc3339 windows)
  unfolding write_windows
  windows-Children [] h = no_child refl refl
  windows-Children (w ∷ windows) h =
      Children-append
        (some_child _ _ refl (λ fresh. window_element Time to_rfc3339 w h.0 top stack fresh))
        (windows-Children windows h.1)
