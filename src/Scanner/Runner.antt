-- ===== src/Scanner/Runner.antt =====
-- `scan_runner` of pqcscan/src/scan.rs: the tasks, the two channels and the loop that collects the
-- results, as steps of which the runtime may take any that is possible.
pub mod Counts
pub mod Invariant
pub mod Account
pub mod Progress
pub mod Stuck
use pqcscan.Base.{
  ℕ, zero, suc, ◌+◌, ◌-◌, ◌≡◌, ◌≢◌, Bool, true, false, Option, none, some, List, [], ◌∷◌, ◌++◌,
  length, replicate, ltb, if◌then◌else◌,
}
use pqcscan.Scanner.Target.{Target}

-- A task waits for a target, scans one, has sent `ScanResult::Done`, or died in a panic.
pub data Worker : Type 0 where
  waiting exited dead : Worker
  scanning : Target → Worker

-- The target with an empty host, by which a task is asked to quit.
abbrev pub quit_target : Target
quit_target = record { host = []; port = 0 }

-- One element of the list changes, from `w` to `w'`.
pub data Becomes (w w' : Worker) : List Worker → List Worker → Type 0 where
  here : (ws : List Worker) → Becomes w w' (w ∷ ws) (w' ∷ ws)
  there :
      (v : Worker) {ws ws' : List Worker} → Becomes w w' ws ws' → Becomes w w' (v ∷ ws) (v ∷ ws')

-- `if num_threads > targets_cnt { num_threads = targets_cnt; }`
unfoldable pub task_count : ℕ → List Target → ℕ
task_count num_threads targets =
    if ltb (length targets) num_threads then length targets else num_threads

-- `if num_threads == 0 { break; }`
abbrev pub ends : ℕ → Bool
ends zero = true
ends (suc _) = false

module _ (R : Type 0) where
  -- `rx`, the tasks, `results_rx` (`none` is `Done`), and the collecting loop's variables.
  pub record Runner : Type 0 where
    pub targets : List Target
    pub workers : List Worker
    pub channel : List (Option R)
    pub num_threads : ℕ
    pub results : List R
    pub finished : Bool

  -- The targets are queued, and a request to quit for each task.
  unfoldable pub start : ℕ → List Target → Runner
  unfolding task_count
  start num_threads targets =
      let n = task_count num_threads targets in
      record {
        targets = targets ++ replicate n quit_target;
        workers = replicate n waiting;
        channel = [];
        num_threads = n;
        results = [];
        finished = false;
      }

  -- `Scans t r`: scanning `t` can return `r`. `Panics t`: scanning `t` can panic.
  module _ (Scans : Target → R → Type 0) (Panics : Target → Type 0) where
    pub data Step (s : Runner) : Runner → Type 0 where
      take_target :
          (t : Target) (ts : List Target) (ws : List Worker)
          → s.targets ≡ t ∷ ts
          → t.host ≢ []
          → Becomes waiting (scanning t) s.workers ws
          → Step s (record s { targets = ts; workers = ws })
      quit :
          (t : Target) (ts : List Target) (ws : List Worker)
          → s.targets ≡ t ∷ ts
          → t.host ≡ []
          → Becomes waiting exited s.workers ws
          → Step s (record s { targets = ts; workers = ws; channel = s.channel ++ (none ∷ []) })
      send_result :
          (t : Target) (r : R) (ws : List Worker)
          → Scans t r
          → Becomes (scanning t) waiting s.workers ws
          → Step s (record s { workers = ws; channel = s.channel ++ (some r ∷ []) })
      crash :
          (t : Target) (ws : List Worker)
          → Panics t
          → Becomes (scanning t) dead s.workers ws
          → Step s (record s { workers = ws })
      collect :
          (r : R) (c : List (Option R))
          → s.finished ≡ false
          → s.channel ≡ some r ∷ c
          → Step s (record s { channel = c; results = s.results ++ (r ∷ []) })
      collect_done :
          (c : List (Option R)) (n : ℕ)
          → s.finished ≡ false
          → s.channel ≡ none ∷ c
          → s.num_threads ≡ suc n
          → Step s (record s { channel = c; num_threads = n; finished = ends n })

    pub data Reach (s : Runner) : Runner → Type 0 where
      stay : Reach s s
      next : {t u : Runner} → Reach s t → Step t u → Reach s u
