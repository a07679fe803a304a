-- ===== src/Dump/ReportFile.antt =====
-- `generate_report` of pqcdump/src/report.rs. The disk gives each path its text; the embedded
-- templates and the engine that renders them are parameters.
pub mod Added
pub mod Tests
use pqcscan.Base.{
  ℕ, Option, none, some, List, [], ◌∷◌, Bytes, codes, equal, if◌then◌else◌, Outcome, ok, err, panic,
  hang, ◌>>=◌,
}
use pqcscan.Base.Utf8.{is_utf8}
use pqcscan.Dump.UniqueFile.{
  Opened, created, already_exists, open_failed, IoError, PathParts, create_unique_file,
}

abbrev pub Disk : Type 0
Disk = Bytes → Option Bytes

abbrev pub update : Disk → Bytes → Bytes → Disk
update disk path text p = if equal path p then some text else disk p

-- `create_new`: a file that exists is not opened; `refused` gives the error for one that does not.
unfoldable pub open_new : (Bytes → Option Bytes) → Disk → Bytes → Opened
open_new refused disk p = elim (disk p) [
  | some text ↦ already_exists
  | none ↦ elim (refused p) [ some e ↦ open_failed e | none ↦ created ]
]

pub data ReportFailure : Type 0 where
  template_not_found : Bytes → ReportFailure
  template_not_utf8 : ReportFailure
  template_error : Bytes → ReportFailure
  report_io : IoError → ReportFailure

abbrev pub with_failure {ℓ} :
    {E : Type 0} {A : Type ℓ} → (E → ReportFailure) → Outcome E A → Outcome ReportFailure A
with_failure f (ok a) = ok a
with_failure f (err e) = err (f e)
with_failure f panic = panic
with_failure f hang = hang

abbrev pub templates : List Bytes
templates =
    codes "macros.html"
    ∷ codes "template.html"
    ∷ codes "ssh_results.html"
    ∷ codes "tls_results.html"
    ∷ codes "summary.html"
    ∷ []

-- A disk and how the program ended.
abbrev pub Ended : Type 0
Ended = Disk × Outcome ReportFailure Bytes

-- How the rendering ends.
abbrev pub rendered : Bytes → Option Bytes → Outcome ReportFailure Bytes
rendered path none = ok path
rendered path (some e) = err (template_error e)

module _ (Tera : Type 0) (embedded : Bytes → Option Bytes)
    (add_raw_template : Bytes → Bytes → Tera → Outcome Bytes Tera) where
  unfoldable pub add_template : Bytes → Tera → Outcome ReportFailure Tera
  add_template template tera = elim (embedded template) [
    | none ↦ err (template_not_found template)
    | some html_data ↦
        if is_utf8 html_data
        then with_failure template_error (add_raw_template template html_data tera)
        else err template_not_utf8
  ]

  -- `for template in templates`
  unfoldable pub add_templates : List Bytes → Tera → Outcome ReportFailure Tera
  add_templates [] tera = ok tera
  add_templates (template ∷ rest) tera = do
    tera' ← add_template template tera
    add_templates rest tera'

  module _ {Results Context : Type 0} (no_templates : Tera)
      (from_serialize : Results → Outcome Bytes Context)
      (render_to : Tera → Context → Bytes × Option Bytes) (join : Bytes → Bytes → Bytes)
      (refused : Bytes → Option Bytes) where
    -- The engine and its context, before any file is created.
    unfoldable pub prepare : Results → Outcome ReportFailure (Tera × Context)
    prepare results = do
      tera ← add_templates templates no_templates
      ctx ← with_failure template_error (from_serialize results)
      ok (tera, ctx)

    -- The new file holds what the engine has written, also behind an error.
    unfoldable pub render_new : Bytes → PathParts → Tera × Context → Disk → Ended
    render_new output_file parts (tera, ctx) disk =
        elim (create_unique_file join (open_new refused disk) output_file parts) [
          | ok path ↦
              (update disk path (render_to tera ctx).0, rendered path (render_to tera ctx).1)
          | err e ↦ (disk, err (report_io e))
          | panic ↦ (disk, panic)
          | hang ↦ (disk, hang)
        ]

    unfoldable pub generate_report : Bytes → PathParts → Results → Disk → Ended
    unfolding render_new
    generate_report output_file parts results disk = elim (prepare results) [
      | ok page ↦ render_new output_file parts page disk
      | err e ↦ (disk, err e)
      | panic ↦ (disk, panic)
      | hang ↦ (disk, hang)
    ]
