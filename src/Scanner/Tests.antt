-- ===== src/Scanner/Tests.antt =====
-- Runs of the scanner: its targets, its tasks and its reports.
use pqcscan.Base.{
  ℕ, ◌+◌, ◌*◌, ◌≤◌, ◌≡◌, ◌≢◌, inl, refl, true, false, Option, some, none, [], ◌∷◌, arith, Bytes,
  List, length, codes, ok, equal,
}
use pqcscan.Base.Dict.{bytes_eq}
use pqcscan.Scanner.Target.{Target, display, parse_single_target}
use pqcscan.Scanner.Target.RoundTrip.{parse-display}
use pqcscan.Scanner.Runner.{
  Runner, waiting, scanning, exited, dead, quit_target, here, start, task_count, Step, take_target,
  quit, send_result, collect, collect_done, Reach, stay, next,
}
use pqcscan.Scanner.Runner.Account.{IsComplete, finished-IsComplete}
use pqcscan.Scanner.Runner.Progress.{step_count, step_count-bound, can_finish}
use pqcscan.Scanner.Runner.Stuck.{start-hangs, crash-hangs}
use pqcscan.Scanner.Report.{Finding, ssh_result, Scan, ReportResults, ssh, create_report, read_scan}
use pqcscan.Scanner.Report.Counted.{AllRead, IsSummary, create_report-IsSummary}

abbrev target : Target
target = record { host = codes "h"; port = 22 }

parse-display_example : parse_single_target (display target) none ≡ ok target
parse-display_example = parse-display target none (omega arith)

abbrev lines : List (Option Bytes)
lines = some (codes "# hosts") ∷ some (codes "h:22") ∷ some (codes "i") ∷ []

-- Every scan returns its target's port, and only that of port 0 panics.
abbrev Scans : Target → ℕ → Type 0
Scans t r = r ≡ t.port

abbrev Panics : Target → Type 0
Panics t = ⊥

abbrev Panics0 : Target → Type 0
Panics0 t = t.port ≡ 22

abbrev first : Runner ℕ
first = start ℕ 1 (target ∷ [])

host_h : target.host ≢ []
host_h e = absurd (cc)

some_target : ¬ (◌≡◌ {A = List Target} (target ∷ []) [])
some_target e = absurd (cc)

abbrev last : Runner ℕ
last = record {
  targets = [];
  workers = exited ∷ [];
  channel = [];
  num_threads = 0;
  results = 22 ∷ [];
  finished = true;
}

after_take :
    Reach ℕ Scans Panics first
      (record first { targets = quit_target ∷ []; workers = scanning target ∷ [] })
unfolding start task_count
after_take =
    next stay (take_target target (quit_target ∷ []) (scanning target ∷ []) refl host_h (here []))

to_last : Reach ℕ Scans Panics first last
unfolding start task_count
to_last =
    next
      (next
        (next (next after_take (send_result target 22 (waiting ∷ []) refl (here [])))
          (collect 22 [] refl refl))
        (quit quit_target [] (exited ∷ []) refl refl (here [])))
      (collect_done [] 0 refl refl refl)

finished-IsComplete_example : IsComplete ℕ Scans Panics (target ∷ []) (22 ∷ [])
finished-IsComplete_example =
    finished-IsComplete ℕ Scans Panics 1 (target ∷ []) last (λ t e. e) (omega arith) some_target
      (host_h, tt) to_last refl

step_count-bound_example :
    step_count ℕ Scans Panics to_last ≤ 3 * length (target ∷ []) + 3 * task_count 1 (target ∷ [])
step_count-bound_example = step_count-bound ℕ Scans Panics 1 (target ∷ []) last to_last

can_finish_example : (u : Runner ℕ) × Reach ℕ Scans Panics first u × (u.finished ≡ true)
can_finish_example =
    can_finish ℕ Scans Panics 1 (target ∷ []) first (λ t. (t.port, refl)) (λ t e. e) (omega arith)
      some_target (host_h, tt) stay

start-hangs_example :
    ((start ℕ 0 (target ∷ [])).finished ≡ false)
    × ((u : Runner ℕ) → ¬ Step ℕ Scans Panics (start ℕ 0 (target ∷ [])) u)
start-hangs_example = start-hangs ℕ Scans Panics 0 (target ∷ []) (inl refl)

before_crash :
    Reach ℕ Scans Panics0 first
      (record first { targets = quit_target ∷ []; workers = scanning target ∷ [] })
unfolding start task_count
before_crash =
    next stay (take_target target (quit_target ∷ []) (scanning target ∷ []) refl host_h (here []))

crash-hangs_example :
    (record first { targets = quit_target ∷ []; workers = dead ∷ [] }).finished ≡ false
crash-hangs_example =
    crash-hangs ℕ Scans Panics0 1 (target ∷ [])
      (record first { targets = quit_target ∷ []; workers = scanning target ∷ [] })
      (record first { targets = quit_target ∷ []; workers = dead ∷ [] }) target (dead ∷ [])
      before_crash refl (here []) stay

abbrev finding : Finding
finding = record {
  targetspec = target;
  addr = none;
  error = some (codes "no, \"really\"");
  pqc_supported = false;
  pqc_algos = none;
  hybrid_algos = none;
  nonpqc_algos = none;
}

abbrev scan : Scan ℕ
scan = record {
  results = ssh_result finding ∷ ssh_result finding ∷ [];
  start_time = 1;
  end_time = 2;
  version = codes "1";
  scan_type = ssh;
}

abbrev from_reader : Bytes → Option (Scan ℕ)
from_reader text = some scan

all_read : AllRead ℕ some from_reader (codes "1") (codes "f" ∷ []) (scan ∷ [])
unfolding read_scan equal
all_read = (refl, refl, refl, tt)

create_report-IsSummary_example :
    (report : ReportResults ℕ) × (create_report ℕ some from_reader (codes "1") (codes "f" ∷ [])
      ≡ ok report)
    × IsSummary (finding ∷ finding ∷ []) report.ssh_results
    × IsSummary [] report.tls_results
create_report-IsSummary_example =
    create_report-IsSummary ℕ some from_reader (codes "1") (codes "f" ∷ []) (scan ∷ []) all_read
