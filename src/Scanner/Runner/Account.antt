-- ===== src/Scanner/Runner/Account.antt =====
-- Every target is accounted for: where no scan panics and no target has an empty host, the runner
-- that finishes has one result for each target.
use mathlib.Core.List.{Perm}
use pqcscan.Base.{ℕ, ◌<◌, ◌≡◌, ◌≢◌, ap, sym, ◌∙◌, true, List, [], ◌++◌, append-nil, All, arith, map}
use pqcscan.Scanner.Target.{Target}
use pqcscan.Scanner.Runner.{task_count, Runner, start, Reach}
use pqcscan.Scanner.Runner.Counts.{live, in_flight-none, replies, task_count-positive, IsClosed-nil}
use pqcscan.Scanner.Runner.Invariant.{Inv, Reach-Inv, start-Inv}

module _ (R : Type 0) (Scans : Target → R → Type 0) (Panics : Target → Type 0) where
  -- The results are those of scans of all the targets, each scanned once.
  pub record IsComplete (targets : List Target) (results : List R) : Type 0 where
    pub scanned : List (Target × R)
    pub scans : All (λ p. Scans p.0 p.1) scanned
    pub all_targets : Perm targets (map (λ p. p.0) scanned)
    pub all_results : map (λ p. p.1) scanned ≡ results

  final-IsComplete :
      (targets : List Target) (total : ℕ) (s : Runner R)
      → 0 < total
      → Inv R Scans Panics targets total s
      → s.finished ≡ true
      → IsComplete targets s.results
  final-IsComplete targets total s some_task i f =
      let none_live : live s.workers ≡ 0 = omega (arith, i.over f, i.threads) in
      let empty =
        IsClosed-nil s.channel (i.closed none_live) (omega (arith, i.over f, i.threads)) in
      record {
        scanned = i.scanned;
        scans = i.scans;
        all_targets = rw (sym (append-nil (map (λ p. p.0) i.scanned))) (
            rw (in_flight-none s.workers none_live, i.quits (omega (arith, none_live, some_task)))
              at i.account);
        all_results = i.answers ∙ ap (λ c. s.results ++ replies c) empty ∙ append-nil _;
      }

  -- In whatever order the tasks and the collecting loop take their steps: where there is a target
  -- and `--num-threads` is not 0, no target's host is empty and no scan panics, a runner whose loop
  -- has ended holds one result for each target and nothing else, each a result of scanning that
  -- target.
  pub finished-IsComplete :
      (num_threads : ℕ) (targets : List Target) (s : Runner R)
      → ((t : Target) → ¬ Panics t)
      → 0 < num_threads
      → targets ≢ []
      → All (λ t. t.host ≢ []) targets
      → Reach R Scans Panics (start R num_threads targets) s
      → s.finished ≡ true
      → IsComplete targets s.results
  finished-IsComplete n targets s safe some_thread some_target hosts reach f =
      let k = task_count-positive n targets some_thread some_target in
      final-IsComplete targets (task_count n targets) s k
        (Reach-Inv R Scans Panics targets (task_count n targets) safe
          (start-Inv R Scans Panics n targets hosts k) reach)
        f
