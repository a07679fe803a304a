-- ===== src/Scanner/Xml/Results.antt =====
-- The reader on the results of the XML report: `write_xml_result` of pqcscan/src/main.rs and the
-- loops that call it.
use pqcscan.Base.{
  ◌≡◌, refl, ap, sym, ◌∙◌, Bool, true, false, Option, none, some, List, [], ◌∷◌, ◌++◌, append_assoc,
  arith, All, All-split, Bytes, codes, equal,
}
use pqcscan.Base.Decimal.{decimal, decimal-IsDigit, IsDigit}
use pqcscan.Base.Dict.{lookup, bytes_eq}
use pqcscan.Scanner.Report.{Finding, results_of}
use pqcscan.Scanner.Report.Rows.{status, text_of, bool_text, findings}
use pqcscan.Scanner.Xml.{
  write_result_lines, write_xml_result, ssh_element, tls_element, write_xml_results,
  write_xml_hosts,
}
use pqcscan.Scanner.Xml.Decoded.{IsText}
use pqcscan.Scanner.Xml.Reader.{Event, opened, closed, open_tag, read_tag, in_name}
use pqcscan.Scanner.Xml.Lines.{Reads, Reads-append, line, open_line, close_line}
use pqcscan.Scanner.Xml.Elements.{is_markup, is_markup-All, element, text_element}
use pqcscan.Scanner.Xml.Children.{
  Children, no_child, some_child, Children-append, list_events, items, list_element,
}

-- The texts of a result that come from outside hold no control characters but tab and line feed.
pub record HasTexts (r : Finding) : Type 0 where
  pub host : All IsText r.targetspec.host
  pub addr : All IsText (text_of r.addr)
  pub error : All IsText (text_of r.error)
  pub pqc_algos : All (All IsText) (items r.pqc_algos)
  pub hybrid_algos : All (All IsText) (items r.hybrid_algos)
  pub nonpqc_algos : All (All IsText) (items r.nonpqc_algos)

digits-IsText : (s : Bytes) → All IsDigit s → All IsText s
digits-IsText [] h = tt
digits-IsText (c ∷ s) h = (ground (arith, h.0), digits-IsText s h.1)

status-IsText : (e : Option Bytes) → All IsText (status e)
unfolding status
status-IsText none = (refl, (refl, (refl, (refl, (refl, (refl, (refl, tt)))))))
status-IsText (some e) = (refl, (refl, (refl, (refl, (refl, tt)))))

bool_text-IsText : (b : Bool) → All IsText (bool_text b)
unfolding bool_text
bool_text-IsText true = (refl, (refl, (refl, (refl, tt))))
bool_text-IsText false = (refl, (refl, (refl, (refl, (refl, tt)))))

-- The events between a result's tags, for a list of hybrid algorithms.
abbrev pub finding_events : Finding → Option (List Bytes) → List Event
finding_events r hybrid_algos =
    element (codes "host") r.targetspec.host
    ++ (element (codes "port") (decimal r.targetspec.port)
        ++ (element (codes "address") (text_of r.addr)
            ++ (element (codes "status") (status r.error)
                ++ (element (codes "pqc_supported") (bool_text r.pqc_supported)
                    ++ (list_events (codes "pqc_algorithms") r.pqc_algos
                        ++ (list_events (codes "hybrid_algorithms") hybrid_algos
                            ++ (list_events (codes "non_pqc_algorithms") r.nonpqc_algos
                                ++ element (codes "error") (text_of r.error))))))))

abbrev pub result_events : Bytes → Finding → Option (List Bytes) → List Event
result_events scan_type r hybrid_algos =
    opened (codes "result") ((codes "scan_type", scan_type) ∷ [])
    ∷ (finding_events r hybrid_algos ++ (closed (codes "result") ∷ []))

module _ (top : Bytes) (stack : List Bytes) (r : Finding) (hybrid_algos : Option (List Bytes))
    (h : HasTexts r) (k : All (All IsText) (items hybrid_algos)) where
  result_lines :
      (fresh : Bool)
      → Reads
          (top ∷ stack)
          fresh
          (write_result_lines r.targetspec r.addr r.error r.pqc_supported r.pqc_algos hybrid_algos
            r.nonpqc_algos)
          (finding_events r hybrid_algos)
          (top ∷ stack)
          false
  unfolding write_result_lines equal
  result_lines fresh =
      Reads-append (text_element top stack fresh 6 (codes "host") _ (refl, refl, refl) h.host) (
        Reads-append
          (text_element top stack false 6 (codes "port") _ (refl, refl, refl)
            (digits-IsText _ (decimal-IsDigit r.targetspec.port)))
          (Reads-append
            (text_element top stack false 6 (codes "address") _ (refl, refl, refl) h.addr)
            (Reads-append
              (text_element top stack false 6 (codes "status") _ (refl, refl, refl)
                (status-IsText r.error))
              (Reads-append
                (text_element top stack false 6 (codes "pqc_supported") _ (refl, refl, refl)
                  (bool_text-IsText r.pqc_supported))
                (Reads-append
                  (list_element top stack false (codes "pqc_algorithms") r.pqc_algos
                    (refl, refl, refl) h.pqc_algos)
                  (Reads-append
                    (list_element top stack false (codes "hybrid_algorithms") hybrid_algos
                      (refl, refl, refl) k)
                    (Reads-append
                      (list_element top stack false (codes "non_pqc_algorithms") r.nonpqc_algos
                        (refl, refl, refl) h.nonpqc_algos)
                      (text_element top stack false 6 (codes "error") _ (refl, refl, refl)
                        h.error))))))))

-- The opening tag of a result.
abbrev result_tag : Bytes → Bytes
result_tag scan_type = codes "result scan_type=\"" ++ (scan_type ++ codes "\"")

result_line :
    (scan_type : Bytes)
    → codes "    <result scan_type=\"" ++ (scan_type ++ codes "\">\n")
      ≡ line 4 (result_tag scan_type)
result_line scan_type = simp (append_assoc)

-- A word that is read as the kind of a scan.
abbrev IsKind : Bytes → Type 0
IsKind scan_type =
    (is_markup (result_tag scan_type) ≡ true)
    × (read_tag in_name [] [] [] (result_tag scan_type)
        ≡ some (open_tag (codes "result") ((codes "scan_type", scan_type) ∷ [])))

result_opens :
    (stack : List Bytes) (fresh : Bool) (scan_type : Bytes)
    → IsKind scan_type
    → Reads stack fresh
        (codes "    <result scan_type=\"" ++ (scan_type ++ codes "\">\n"))
        (opened (codes "result") ((codes "scan_type", scan_type) ∷ []) ∷ [])
        (codes "result" ∷ stack)
        true
result_opens stack fresh scan_type kind = rw result_line (
    open_line stack fresh 4 (result_tag scan_type) (codes "result") _
      (is_markup-All (result_tag scan_type) kind.0) kind.1)

result_element :
    (top : Bytes) (stack : List Bytes) (r : Finding) (hybrid_algos : Option (List Bytes))
    (scan_type : Bytes) (fresh : Bool)
    → IsKind scan_type
    → HasTexts r
    → All (All IsText) (items hybrid_algos)
    → Reads
        (top ∷ stack)
        fresh
        (write_xml_result scan_type r.targetspec r.addr r.error r.pqc_supported r.pqc_algos
          hybrid_algos r.nonpqc_algos)
        (result_events scan_type r hybrid_algos)
        (top ∷ stack)
        false
unfolding write_xml_result equal
result_element top stack r hybrid_algos scan_type fresh kind h k =
    Reads-append (result_opens (top ∷ stack) fresh scan_type kind) (
      Reads-append (result_lines (codes "result") (top ∷ stack) r hybrid_algos h k true)
        (close_line top stack 4 (codes "result") (is_markup-All (codes "result") refl) refl))

-- An element writer, and the events of what it writes.
abbrev Renders : (Finding → Bytes) → (Finding → List Event) → Type 0
Renders element events =
    (top : Bytes) (stack : List Bytes) (r : Finding) (fresh : Bool)
    → HasTexts r
    → Reads (top ∷ stack) fresh (element r) (events r) (top ∷ stack) false

-- Some events begin with one.
abbrev pub Head : List Event → Type 0
Head es = (e : Event) × (es' : List Event) × (es ≡ e ∷ es')

abbrev pub ssh_events : Finding → List Event
ssh_events r = result_events (codes "ssh") r none

abbrev pub tls_events : Finding → List Event
tls_events r = result_events (codes "tls") r r.hybrid_algos

pub ssh_element-Renders : Renders ssh_element ssh_events
unfolding ssh_element equal
ssh_element-Renders top stack r fresh h =
    result_element top stack r none (codes "ssh") fresh (refl, refl) h tt

pub tls_element-Renders : Renders tls_element tls_events
unfolding tls_element equal
tls_element-Renders top stack r fresh h =
    result_element top stack r r.hybrid_algos (codes "tls") fresh (refl, refl) h h.hybrid_algos

-- The events of some results.
abbrev pub results_events : (Finding → List Event) → List Finding → List Event
results_events events [] = []
results_events events (r ∷ rs) = events r ++ results_events events rs

results_events-append :
    (events : Finding → List Event) (rs qs : List Finding)
    → results_events events (rs ++ qs) ≡ results_events events rs ++ results_events events qs
results_events-append events [] qs = refl
results_events-append events (r ∷ rs) qs =
    ap (◌++◌ (events r)) (results_events-append events rs qs)
    ∙ sym (append_assoc (events r) (results_events events rs) (results_events events qs))

module _ (top : Bytes) (stack : List Bytes) (element : Finding → Bytes)
    (events : Finding → List Event) (heads : (r : Finding) → Head (events r))
    (renders : Renders element events) where
  results-Children :
      (rs : List Finding)
      → All HasTexts rs
      → Children top stack (write_xml_results element rs) (results_events events rs)
  unfolding write_xml_results
  results-Children [] h = no_child refl refl
  results-Children (r ∷ rs) h =
      Children-append
        (some_child (heads r).0 (heads r).1 (heads r).2 (λ fresh. renders top stack r fresh h.0))
        (results-Children rs h.1)

  -- The results of the hosts are read in the order of the hosts.
  pub hosts-Children :
      (hosts : List Bytes) (m : List (Bytes × List Finding))
      → All HasTexts (findings hosts m)
      → Children top stack
          (write_xml_hosts element hosts m)
          (results_events events (findings hosts m))
  unfolding write_xml_hosts
  hosts-Children [] m h = no_child refl refl
  hosts-Children (host ∷ hosts) m h =
      let (now, later) = All-split HasTexts (results_of (lookup host m)) (findings hosts m) h in
      rw results_events-append (
        Children-append (results-Children (results_of (lookup host m)) now)
          (hosts-Children hosts m later))
