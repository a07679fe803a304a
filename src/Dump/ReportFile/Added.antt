-- ===== src/Dump/ReportFile/Added.antt =====
-- What the analyser does to the disk.
use pqcscan.Base.{
  ◌≡◌, refl, Option, none, some, Option-cases, inl, inr, List, Bytes, Outcome, ok, Outcome-cases,
  is_ok, is_err, is_panic, is_hang,
}
use pqcscan.Dump.UniqueFile.{Opened, created, IoError, PathParts, create_unique_file}
use pqcscan.Dump.UniqueFile.FirstFree.{
  FirstFree, free, taken, broken, none_free, create_unique_file-FirstFree,
}
use pqcscan.Dump.ReportFile.{
  Disk, update, open_new, Ended, prepare, render_new, generate_report, rendered,
}

-- A name that is chosen among others did not exist.
FirstFree-created :
    {open_file : Bytes → Opened} {path : Bytes} {names : List Bytes} {o : Outcome IoError Bytes}
    (p : Bytes)
    → FirstFree open_file path names o
    → o ≡ ok p
    → open_file p ≡ created
FirstFree-created {open_file} p (free q qs e) h = let same : q ≡ p = cc in rw same at e
FirstFree-created p (taken q qs o e rest) h = FirstFree-created p rest h
FirstFree-created p (broken q qs why e) h = absurd (cc)
FirstFree-created p none_free h = absurd (cc)

open_new-created :
    (refused : Bytes → Option Bytes) (disk : Disk) (p : Bytes)
    → open_new refused disk p ≡ created
    → disk p ≡ none
unfolding open_new
open_new-created refused disk p h = elim (Option-cases (disk p)) [
  | inl e ↦ e
  | inr (text, e) ↦ absurd (let stuck = rw (e, open_new) at h in cc)
]

-- The disk is as it was, and the program has not ended well; or one file is new, and the program has
-- ended with its path or an error.
pub data Added (disk : Disk) (e : Ended) : Type 0 where
  unchanged : e.0 ≡ disk → ((p : Bytes) → ¬ (e.1 ≡ ok p)) → Added disk e
  added :
      (path text : Bytes)
      → disk path ≡ none
      → e.0 ≡ update disk path text
      → ((p : Bytes) → e.1 ≡ ok p → p ≡ path)
      → Added disk e

written-path :
    (path : Bytes) (failure : Option Bytes) (p : Bytes) → rendered path failure ≡ ok p → p ≡ path
written-path path none p h = cc
written-path path (some e) p h = absurd (cc)

module _ (Tera : Type 0) (embedded : Bytes → Option Bytes)
    (add_raw_template : Bytes → Bytes → Tera → Outcome Bytes Tera) {Results Context : Type 0}
    (no_templates : Tera) (from_serialize : Results → Outcome Bytes Context)
    (render_to : Tera → Context → Bytes × Option Bytes) (join : Bytes → Bytes → Bytes)
    (refused : Bytes → Option Bytes) where
  render_new-Added :
      (output_file : Bytes) (parts : PathParts) (page : Tera × Context) (disk : Disk)
      → Added disk (
          render_new Tera embedded add_raw_template no_templates from_serialize render_to join
            refused output_file parts page disk)
  unfolding render_new
  render_new-Added output_file parts (tera, ctx) disk =
      elim (Outcome-cases (create_unique_file join (open_new refused disk) output_file parts)) [
        | is_ok path e ↦
            rw (e, render_new)
              (added path (render_to tera ctx).0
                (open_new-created refused disk path (
                  FirstFree-created path
                    (create_unique_file-FirstFree join (open_new refused disk) output_file parts)
                    e))
                refl (written-path path (render_to tera ctx).1))
        | is_err x e ↦ rw (e, render_new) (unchanged refl (λ p h. cc))
        | is_panic e ↦ rw (e, render_new) (unchanged refl (λ p h. cc))
        | is_hang e ↦ rw (e, render_new) (unchanged refl (λ p h. cc))
      ]

  -- Writing the analyser's report never changes a file that exists: it leaves the disk as it was and
  -- ends with an error or a panic, or it adds one new file. If it ends with a path, this is the new
  -- file's.
  pub generate_report-Added :
      (output_file : Bytes) (parts : PathParts) (results : Results) (disk : Disk)
      → Added disk (
          generate_report Tera embedded add_raw_template no_templates from_serialize render_to join
            refused output_file parts results disk)
  unfolding generate_report
  generate_report-Added output_file parts results disk =
      elim (Outcome-cases (
        prepare Tera embedded add_raw_template no_templates from_serialize render_to join refused
          results)) [
            | is_ok page e ↦ rw (e, generate_report) (render_new-Added output_file parts page disk)
            | is_err x e ↦ rw (e, generate_report) (unchanged refl (λ p h. cc))
            | is_panic e ↦ rw (e, generate_report) (unchanged refl (λ p h. cc))
            | is_hang e ↦ rw (e, generate_report) (unchanged refl (λ p h. cc))
          ]
