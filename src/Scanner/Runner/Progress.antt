-- ===== src/Scanner/Runner/Progress.antt =====
-- The runner comes to an end: every step brings it closer, and before the end one is possible.
use pqcscan.Base.{
  ℕ, zero, suc, ◌+◌, ◌*◌, ◌<◌, ◌≤◌, ◌≡◌, ◌≢◌, ◌⊎◌, inl, inr, refl, ap, ◌∙◌, true, false, Option,
  none, some, List, [], ◌∷◌, replicate, All, arith, length, length-append, length-replicate,
  Bool-cases, Bytes,
}
use pqcscan.Scanner.Target.{Target}
use pqcscan.Scanner.Runner.{
  Worker, waiting, scanning, exited, dead, Becomes, here, there, quit_target, task_count, Runner,
  start, Step, take_target, quit, send_result, crash, collect, collect_done, Reach, stay, next,
}
use pqcscan.Scanner.Runner.Counts.{
  sum_of, sum_of-Becomes, live, dones, queue_of, task_count-positive,
}
use pqcscan.Scanner.Runner.Invariant.{Inv, Step-Inv, Reach-Inv, start-Inv}

abbrev is_scanning : Worker → ℕ
is_scanning waiting = 0
is_scanning (scanning t) = 1
is_scanning exited = 0
is_scanning dead = 0

idle : (n : ℕ) → sum_of is_scanning (replicate n waiting) ≡ 0
idle zero = refl
idle (suc n) = omega (arith, idle n)

-- A live task: one that waits, or one that scans a target.
live-cases :
    (ws : List Worker)
    → live ws ≢ 0
    → ((w : List Worker) × Becomes waiting exited ws w)
      ⊎ ((t : Target) × (w : List Worker) × Becomes (scanning t) waiting ws w)
live-cases [] h = absurd (h refl)
live-cases (waiting ∷ ws) h = inl (exited ∷ ws, here ws)
live-cases (scanning t ∷ ws) h = inr (t, waiting ∷ ws, here ws)
live-cases (exited ∷ ws) h = elim (live-cases ws (λ z. h (omega (arith, z)))) [
  | inl (w, b) ↦ inl (exited ∷ w, there exited b)
  | inr (t, w, b) ↦ inr (t, exited ∷ w, there exited b)
]
live-cases (dead ∷ ws) h = elim (live-cases ws (λ z. h (omega (arith, z)))) [
  | inl (w, b) ↦ inl (dead ∷ w, there dead b)
  | inr (t, w, b) ↦ inr (t, dead ∷ w, there dead b)
]

Becomes-other :
    (v w u : Worker) {ws ws' : List Worker}
    → Becomes v w ws ws'
    → (us : List Worker) × Becomes v u ws us
Becomes-other v w u (here ws) = (u ∷ ws, here ws)
Becomes-other v w u (there x b) = let (us, c) = Becomes-other v w u b in (x ∷ us, there x c)

head-queue_of :
    (rest : List Target) (k : ℕ)
    → k ≢ 0
    → (t : Target) × (ts : List Target) × (queue_of rest k ≡ t ∷ ts)
head-queue_of [] zero h = absurd (h refl)
head-queue_of [] (suc k) h = (quit_target, replicate k quit_target, refl)
head-queue_of (t ∷ rest) k h = (t, queue_of rest k, refl)

host-cases : (h : Bytes) → (h ≡ []) ⊎ (h ≢ [])
host-cases [] = inl refl
host-cases (x ∷ h) = inr (λ e. cc)

is_suc : (n : ℕ) → n ≢ 0 → (k : ℕ) × (n ≡ suc k)
is_suc zero h = absurd (h refl)
is_suc (suc n) h = (n, refl)

module _ (R : Type 0) (Scans : Target → R → Type 0) (Panics : Target → Type 0) where
  -- What is still to be done: three steps for a queued target, two for a scan, one for a message.
  abbrev pub pending : Runner R → ℕ
  pending s = 3 * length s.targets + 2 * sum_of is_scanning s.workers + length s.channel

  Step-pending : {s u : Runner R} → Step R Scans Panics s u → pending u < pending s
  Step-pending {s} (take_target t ts ws e h b) =
      omega (arith, ap length e, sum_of-Becomes is_scanning waiting (scanning t) b)
  Step-pending {s} (quit t ts ws e h b) = omega (
    arith,
    ap length e,
    sum_of-Becomes is_scanning waiting exited b,
    length-append s.channel (none ∷ []),
  )
  Step-pending {s} (send_result t r ws x b) = omega (
    arith,
    sum_of-Becomes is_scanning (scanning t) waiting b,
    length-append s.channel (some r ∷ []),
  )
  Step-pending {s} (crash t ws x b) = omega (arith, sum_of-Becomes is_scanning (scanning t) dead b)
  Step-pending {s} (collect r c f e) = omega (arith, ap length e)
  Step-pending {s} (collect_done c n f e k) = omega (arith, ap length e)

  abbrev pub step_count : {s u : Runner R} → Reach R Scans Panics s u → ℕ
  step_count stay = 0
  step_count (next r x) = suc (step_count r)

  count-pending :
      {s u : Runner R} (r : Reach R Scans Panics s u) → step_count r + pending u ≤ pending s
  count-pending stay = omega arith
  count-pending (next r x) = omega (arith, count-pending r, Step-pending x)

  Reach-cons :
      {s t u : Runner R}
      → Step R Scans Panics s t
      → Reach R Scans Panics t u
      → Reach R Scans Panics s u
  Reach-cons x stay = next stay x
  Reach-cons x (next r y) = next (Reach-cons x r) y

  pending-start :
      (n : ℕ) (targets : List Target)
      → pending (start R n targets) ≡ 3 * length targets + 3 * task_count n targets
  unfolding start task_count
  pending-start n targets =
      let k = task_count n targets in
      omega (
        arith,
        length-append targets (replicate k quit_target),
        length-replicate k quit_target,
        idle k,
      )

  -- No execution of the runner is endless: whatever panics and in whatever order, a run for some
  -- targets takes at most three steps for each target and three for each task.
  pub step_count-bound :
      (num_threads : ℕ) (targets : List Target) (s : Runner R)
      (r : Reach R Scans Panics (start R num_threads targets) s)
      → step_count r ≤ 3 * length targets + 3 * task_count num_threads targets
  step_count-bound n targets s r = omega (arith, count-pending r, pending-start n targets)

  module _ (targets : List Target) (total : ℕ) (scan : (t : Target) → (r : R) × Scans t r) where
    live-Step :
        (s : Runner R)
        → Inv R Scans Panics targets total s
        → live s.workers ≢ 0
        → (u : Runner R) × Step R Scans Panics s u
    live-Step s i h = elim (live-cases s.workers h) [
      | inl (w, b) ↦
          let (t, ts, e) = head-queue_of i.rest (live s.workers) h in
          let (v, c) = Becomes-other waiting exited (scanning t) b in
          elim (host-cases t.host) [
            | inl e0 ↦ (_, quit t ts w (i.queue ∙ e) e0 b)
            | inr ne ↦ (_, take_target t ts v (i.queue ∙ e) ne c)
          ]
      | inr (t, w, b) ↦ (_, send_result t (scan t).0 w (scan t).1 b)
    ]

    next-Step :
        (s : Runner R)
        → Inv R Scans Panics targets total s
        → s.finished ≡ false
        → (u : Runner R) × Step R Scans Panics s u
    next-Step s i f = channel_case s.channel refl
      where
        channel_case :
            (c : List (Option R)) → s.channel ≡ c → (u : Runner R) × Step R Scans Panics s u
        channel_case [] e = live-Step s i (λ z. i.going f (omega (arith, i.threads, z, ap dones e)))
        channel_case (some r ∷ c) e = (_, collect r c f e)
        channel_case (none ∷ c) e =
            let (n, k) = is_suc s.num_threads (i.going f) in (_, collect_done c n f e k)

    module _ (safe : (t : Target) → ¬ Panics t) where
      finish :
          (n : ℕ) (s : Runner R)
          → pending s < n
          → Inv R Scans Panics targets total s
          → (u : Runner R) × Reach R Scans Panics s u × (u.finished ≡ true)
      finish zero s lt i = absurd (omega (arith, lt))
      finish (suc n) s lt i = elim (Bool-cases s.finished) [
        | inl f ↦ (s, stay, f)
        | inr f ↦
            let (v, x) = next-Step s i f in
            let (u, r, g) =
              finish n v (omega (arith, lt, Step-pending x))
                (Step-Inv R Scans Panics targets total safe i x) in
            (u, Reach-cons x r, g)
      ]

  -- A runner with a target and a task, none of whose targets has an empty host, never gets stuck:
  -- where each scan returns a result and none panics, every state it reaches has a way on to the
  -- end of the collecting loop.
  pub can_finish :
      (num_threads : ℕ) (targets : List Target) (s : Runner R)
      → ((t : Target) → (r : R) × Scans t r)
      → ((t : Target) → ¬ Panics t)
      → 0 < num_threads
      → targets ≢ []
      → All (λ t. t.host ≢ []) targets
      → Reach R Scans Panics (start R num_threads targets) s
      → (u : Runner R) × Reach R Scans Panics s u × (u.finished ≡ true)
  can_finish n targets s scan safe some_thread some_target hosts reach =
      let k = task_count-positive n targets some_thread some_target in
      finish targets (task_count n targets) scan safe (suc (pending s)) s (omega arith) (
        Reach-Inv R Scans Panics targets (task_count n targets) safe
          (start-Inv R Scans Panics n targets hosts k) reach)
