-- ===== src/Dump/ReportFile/Tests.antt =====
-- A report written beside an older one.
use pqcscan.Base.{
  ◌≡◌, refl, Option, none, some, List, [], ◌∷◌, ◌++◌, Bytes, codes, equal, ok, Outcome,
  if◌then◌else◌,
}
use pqcscan.Base.Utf8.{is_utf8}
use pqcscan.Dump.UniqueFile.{PathParts, create_unique_file, candidate_name}
use pqcscan.Dump.ReportFile.{
  Disk, update, open_new, add_template, add_templates, prepare, generate_report,
}
use pqcscan.Dump.ReportFile.Added.{Added, generate_report-Added}

abbrev parts : PathParts
parts = record { parent = codes "out"; stem = codes "r"; ext = some (codes "html") }

abbrev join : Bytes → Bytes → Bytes
join parent name = parent ++ (b'/' ∷ name)

abbrev refused : Bytes → Option Bytes
refused p = none

-- Only the path exists.
abbrev disk : Disk
disk p = if equal p (codes "out/r.html") then some (codes "old") else none

-- An engine that keeps the names of its templates, and writes the results' text.
abbrev embedded : Bytes → Option Bytes
embedded template = some (codes "<p>")

abbrev add_raw_template : Bytes → Bytes → List Bytes → Outcome Bytes (List Bytes)
add_raw_template template html_data tera = ok (template ∷ tera)

abbrev from_serialize : Bytes → Outcome Bytes Bytes
from_serialize results = ok results

abbrev render_to : List Bytes → Bytes → Bytes × Option Bytes
render_to tera ctx = (ctx, none)

generate_report-Added_example : Added disk (
    generate_report
      (List Bytes)
      embedded
      add_raw_template
      []
      from_serialize
      render_to
      join
      refused
      (codes "out/r.html")
      parts
      (codes "new")
      disk)
generate_report-Added_example =
    generate_report-Added (List Bytes) embedded add_raw_template [] from_serialize render_to join
      refused (codes "out/r.html") parts (codes "new") disk

numbered :
    generate_report
      (List Bytes)
      embedded
      add_raw_template
      []
      from_serialize
      render_to
      join
      refused
      (codes "out/r.html")
      parts
      (codes "new")
      disk
    ≡ (update disk (codes "out/r-01.html") (codes "new"), ok (codes "out/r-01.html"))
unfolding generate_report prepare add_templates add_template is_utf8 create_unique_file open_new
    candidate_name equal
numbered = refl
