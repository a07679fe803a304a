-- ===== src/Scanner/Runner/Stuck.antt =====
-- Where the runner does not come to an end: without targets, without tasks, and after a task died.
use pqcscan.Base.{
  ℕ, zero, suc, ◌+◌, ◌<◌, ◌≤◌, ◌≡◌, ◌⊎◌, inl, inr, refl, ap, true, false, none, some, List, [], ◌∷◌,
  replicate, arith, length, Bool-cases,
}
use pqcscan.Scanner.Target.{Target}
use pqcscan.Scanner.Runner.{
  Worker, waiting, scanning, exited, dead, Becomes, here, there, task_count, Runner, start, Step,
  take_target, quit, send_result, crash, collect, collect_done, Reach, stay, next,
}
use pqcscan.Scanner.Runner.Counts.{
  sum_of, sum_of-Becomes, is_live, is_dead, live, dones, dones-append, ends-zero, live-replicate,
}

none-Becomes : {w w' : Worker} {ws : List Worker} → ¬ Becomes w w' [] ws
none-Becomes b = elim b [ ]

no_tasks : (n : ℕ) (targets : List Target) → (n ≡ 0) ⊎ (targets ≡ []) → task_count n targets ≡ 0
unfolding task_count
no_tasks n targets (inl e) = ground arith
no_tasks n targets (inr e) = let l = ap length e in ground arith

no_dead : (n : ℕ) → sum_of is_dead (replicate n waiting) ≡ 0
no_dead zero = refl
no_dead (suc n) = omega (arith, no_dead n)

dead-Becomes :
    {t : Target} {ws ws' : List Worker} → Becomes (scanning t) dead ws ws' → 0 < sum_of is_dead ws'
dead-Becomes (here ws) = omega arith
dead-Becomes (there v b) = omega (arith, dead-Becomes b)

module _ (R : Type 0) (Scans : Target → R → Type 0) (Panics : Target → Type 0) where
  idle-no_Step : (s u : Runner R) → s.workers ≡ [] → s.channel ≡ [] → ¬ Step R Scans Panics s u
  idle-no_Step s u w c (take_target t ts ws e h b) = none-Becomes (rw w at b)
  idle-no_Step s u w c (quit t ts ws e h b) = none-Becomes (rw w at b)
  idle-no_Step s u w c (send_result t r ws x b) = none-Becomes (rw w at b)
  idle-no_Step s u w c (crash t ws x b) = none-Becomes (rw w at b)
  idle-no_Step s u w c (collect r d f e) = absurd (cc)
  idle-no_Step s u w c (collect_done d n f e k) = absurd (cc)

  -- With no targets, or with `--num-threads 0`, the collecting loop never ends: it has not ended at
  -- the start, and nothing can happen from there.
  pub start-hangs :
      (num_threads : ℕ) (targets : List Target)
      → (num_threads ≡ 0) ⊎ (targets ≡ [])
      → ((start R num_threads targets).finished ≡ false)
        × ((u : Runner R) → ¬ Step R Scans Panics (start R num_threads targets) u)
  unfolding start task_count
  start-hangs n targets h =
      let k : task_count n targets ≡ 0 = no_tasks n targets h in
      (refl, λ u. idle-no_Step (start R n targets) u (ap (λ m. replicate m waiting) k) refl)

  record Threads (s : Runner R) : Type 0 where
    threads : s.num_threads ≡ live s.workers + dones s.channel + sum_of is_dead s.workers
    over : s.finished ≡ true → s.num_threads ≡ 0

  start-Threads : (n : ℕ) (targets : List Target) → Threads (start R n targets)
  unfolding start
  start-Threads n targets = record {
    threads = let k = task_count n targets in omega (arith, live-replicate k, no_dead k);
    over = λ f. absurd (cc);
  }

  Step-Threads : {s u : Runner R} → Threads s → Step R Scans Panics s u → Threads u
  Step-Threads i (take_target t ts ws e h b) = record {
    threads = omega (
      arith,
      i.threads,
      sum_of-Becomes is_live waiting (scanning t) b,
      sum_of-Becomes is_dead waiting (scanning t) b,
    );
    over = i.over;
  }
  Step-Threads {s} i (quit t ts ws e h b) = record {
    threads = omega (
      arith,
      i.threads,
      sum_of-Becomes is_live waiting exited b,
      sum_of-Becomes is_dead waiting exited b,
      dones-append s.channel (none ∷ []),
    );
    over = i.over;
  }
  Step-Threads {s} i (send_result t r ws x b) = record {
    threads = omega (
      arith,
      i.threads,
      sum_of-Becomes is_live (scanning t) waiting b,
      sum_of-Becomes is_dead (scanning t) waiting b,
      dones-append s.channel (some r ∷ []),
    );
    over = i.over;
  }
  Step-Threads i (crash t ws x b) = record {
    threads = omega (
      arith,
      i.threads,
      sum_of-Becomes is_live (scanning t) dead b,
      sum_of-Becomes is_dead (scanning t) dead b,
    );
    over = i.over;
  }
  Step-Threads i (collect r c f e) = record {
    threads = omega (arith, i.threads, ap dones e);
    over = i.over;
  }
  Step-Threads i (collect_done c n f e k) = record {
    threads = omega (arith, i.threads, ap dones e, k);
    over = ends-zero n;
  }

  Step-dead :
      {s u : Runner R}
      → Step R Scans Panics s u
      → sum_of is_dead s.workers ≤ sum_of is_dead u.workers
  Step-dead (take_target t ts ws e h b) =
      omega (arith, sum_of-Becomes is_dead waiting (scanning t) b)
  Step-dead (quit t ts ws e h b) = omega (arith, sum_of-Becomes is_dead waiting exited b)
  Step-dead (send_result t r ws x b) = omega (arith, sum_of-Becomes is_dead (scanning t) waiting b)
  Step-dead (crash t ws x b) = omega (arith, sum_of-Becomes is_dead (scanning t) dead b)
  Step-dead (collect r c f e) = omega arith
  Step-dead (collect_done c n f e k) = omega arith

  Reach-Threads : {s u : Runner R} → Threads s → Reach R Scans Panics s u → Threads u
  Reach-Threads i stay = i
  Reach-Threads i (next r x) = Step-Threads (Reach-Threads i r) x

  Reach-dead :
      {s u : Runner R}
      → Reach R Scans Panics s u
      → sum_of is_dead s.workers ≤ sum_of is_dead u.workers
  Reach-dead stay = omega arith
  Reach-dead (next r x) = omega (arith, Reach-dead r, Step-dead x)

  -- Once a task has died in a panic, the collecting loop does not end any more, whatever happens
  -- later: the task's `Done` is never sent, and the loop waits for it.
  pub crash-hangs :
      (num_threads : ℕ) (targets : List Target) (s u : Runner R) (t : Target) (ws : List Worker)
      → Reach R Scans Panics (start R num_threads targets) s
      → Panics t
      → Becomes (scanning t) dead s.workers ws
      → Reach R Scans Panics (record s { workers = ws }) u
      → u.finished ≡ false
  crash-hangs n targets s u t ws before x b after = elim (Bool-cases u.finished) [
    | inl f ↦
        let i =
          Reach-Threads
            (Step-Threads (Reach-Threads (start-Threads n targets) before) (crash t ws x b))
            after in
        absurd (omega (arith, i.over f, i.threads, Reach-dead after, dead-Becomes b))
    | inr f ↦ f
  ]
