-- ===== src/Scanner/Runner/Invariant.antt =====
-- The invariant of the steps of `scan_runner`: each target waits, is being scanned or has its result.
use mathlib.Core.List.{Perm}
use mathlib.Core.List.Perm
use pqcscan.Base.{
  ℕ, ◌+◌, ◌<◌, ◌≡◌, ◌≢◌, inl, inr, refl, ap, sym, ◌∙◌, true, false, none, some, List, [], ◌∷◌, ◌++◌,
  append_assoc, append-nil, All, All-append, arith, map,
}
use pqcscan.Scanner.Target.{Target}
use pqcscan.Scanner.Runner.{
  Worker, waiting, scanning, exited, Becomes, task_count, Runner, start, Step, take_target, quit,
  send_result, crash, collect, collect_done, Reach, stay, next,
}
use pqcscan.Scanner.Runner.Counts.{
  sum_of-Becomes, is_live, live, in_flight, in_flight-take, in_flight-send, in_flight-quit, dones,
  replies, map-concat, Perm-back, take-Perm, ends-zero, going-zero, live-Becomes, live-replicate,
  in_flight-replicate, dones-append, replies-append, IsClosed, IsClosed-tail, queue_of, head_host,
  head_quit,
}

module _ (R : Type 0) (Scans : Target → R → Type 0) (Panics : Target → Type 0) where
  abbrev pub Pairs : List (Target × R) → Type 0
  Pairs = All (λ p. Scans p.0 p.1)

  pub record Inv (targets : List Target) (total : ℕ) (s : Runner R) : Type 0 where
    pub rest : List Target
    pub queue : s.targets ≡ queue_of rest (live s.workers)
    pub hosts : All (λ t. t.host ≢ []) rest
    pub threads : s.num_threads ≡ live s.workers + dones s.channel
    pub quits : live s.workers < total → rest ≡ []
    pub closed : live s.workers ≡ 0 → IsClosed s.channel
    pub scanned : List (Target × R)
    pub scans : Pairs scanned
    pub account : Perm targets (map (λ p. p.0) scanned ++ (in_flight s.workers ++ rest))
    pub answers : map (λ p. p.1) scanned ≡ s.results ++ replies s.channel
    pub over : s.finished ≡ true → s.num_threads ≡ 0
    pub going : s.finished ≡ false → s.num_threads ≢ 0

  module _ (targets : List Target) (total : ℕ) (safe : (t : Target) → ¬ Panics t) where
    take-Inv :
        {s : Runner R} (t : Target) (ts : List Target) (ws : List Worker)
        → Inv targets total s
        → s.targets ≡ t ∷ ts
        → t.host ≢ []
        → Becomes waiting (scanning t) s.workers ws
        → Inv targets total (record s { targets = ts; workers = ws })
    take-Inv {s} t ts ws i e h b =
        let n = sum_of-Becomes is_live waiting (scanning t) b in
        let same : live ws ≡ live s.workers = omega (arith, n) in
        let (rest', r, q) = head_host i.rest (live s.workers) t ts (sym i.queue ∙ e) h in
        let full : ¬ (live ws < total) = λ lt. let x = i.quits (omega (arith, same, lt)) in cc in
        record {
          rest = rest';
          queue = rw same q;
          hosts = (rw r at i.hosts).1;
          threads = omega (arith, i.threads, same);
          quits = λ lt. absurd (full lt);
          closed = λ z. i.closed (omega (arith, z, same));
          scanned = i.scanned;
          scans = i.scans;
          account = Perm.trans (rw r at i.account) (
              Perm-back _
                (take-Perm t rest' (in_flight s.workers) (in_flight ws) (in_flight-take t b)));
          answers = i.answers;
          over = i.over;
          going = i.going;
        }

    quit-Inv :
        {s : Runner R} (t : Target) (ts : List Target) (ws : List Worker)
        → Inv targets total s
        → s.targets ≡ t ∷ ts
        → t.host ≡ []
        → Becomes waiting exited s.workers ws
        → Inv targets total
            (record s { targets = ts; workers = ws; channel = s.channel ++ (none ∷ []) })
    quit-Inv {s} t ts ws i e h b =
        let n = sum_of-Becomes is_live waiting exited b in
        let (k, r, l, q) = head_quit i.rest (live s.workers) t ts i.hosts (sym i.queue ∙ e) h in
        let fewer : live ws ≡ k = omega (arith, n, l) in
        record {
          rest = [];
          queue = rw fewer q;
          hosts = tt;
          threads = omega (arith, i.threads, n, dones-append s.channel (none ∷ []));
          quits = λ lt. refl;
          closed = λ z. inr (s.channel, refl);
          scanned = i.scanned;
          scans = i.scans;
          account = rw (in_flight-quit b) (rw r at i.account);
          answers =
              i.answers
              ∙ ap (◌++◌ s.results)
                  (sym (append-nil _) ∙ sym (replies-append s.channel (none ∷ [])));
          over = λ f. absurd (omega (arith, i.over f, i.threads, l));
          going = i.going;
        }

    send-Inv :
        {s : Runner R} (t : Target) (r : R) (ws : List Worker)
        → Inv targets total s
        → Scans t r
        → Becomes (scanning t) waiting s.workers ws
        → Inv targets total (record s { workers = ws; channel = s.channel ++ (some r ∷ []) })
    send-Inv {s} t r ws i x b =
        let n = sum_of-Becomes is_live (scanning t) waiting b in
        let same : live ws ≡ live s.workers = omega (arith, n) in
        record {
          rest = i.rest;
          queue = rw same i.queue;
          hosts = i.hosts;
          threads = omega (arith, i.threads, same, dones-append s.channel (some r ∷ []));
          quits = λ lt. i.quits (omega (arith, same, lt));
          closed = λ z. absurd (live-Becomes b z);
          scanned = i.scanned ++ ((t, r) ∷ []);
          scans = All-append (λ p. Scans p.0 p.1) i.scanned ((t, r) ∷ []) i.scans (x, tt);
          account = rw (map-concat (λ p. p.0) i.scanned (t, r)) (
              rw (append_assoc (map (λ p. p.0) i.scanned) (t ∷ []) (in_flight ws ++ i.rest)) (
                Perm.trans i.account
                  (Perm-back _ (Perm.append_right i.rest (in_flight-send t b)))));
          answers =
              map-concat (λ p. p.1) i.scanned (t, r)
              ∙ ap (λ l. l ++ (r ∷ [])) i.answers
              ∙ append_assoc s.results (replies s.channel) (r ∷ [])
              ∙ ap (◌++◌ s.results) (sym (replies-append s.channel (some r ∷ [])));
          over = λ f. i.over f;
          going = i.going;
        }

    pub Step-Inv :
        {s u : Runner R} → Inv targets total s → Step R Scans Panics s u → Inv targets total u
    Step-Inv i (take_target t ts ws e h b) = take-Inv t ts ws i e h b
    Step-Inv i (quit t ts ws e h b) = quit-Inv t ts ws i e h b
    Step-Inv i (send_result t r ws x b) = send-Inv t r ws i x b
    Step-Inv i (crash t ws x b) = absurd (safe t x)
    Step-Inv {s} i (collect r c f e) = record {
      rest = i.rest;
      queue = i.queue;
      hosts = i.hosts;
      threads = omega (arith, i.threads, ap dones e);
      quits = i.quits;
      closed = λ z. IsClosed-tail (some r) c (rw e at i.closed z);
      scanned = i.scanned;
      scans = i.scans;
      account = i.account;
      answers =
          i.answers
          ∙ ap (λ c. s.results ++ replies c) e
          ∙ sym (append_assoc s.results (r ∷ []) (replies c));
      over = i.over;
      going = i.going;
    }
    Step-Inv {s} i (collect_done c n f e k) = record {
      rest = i.rest;
      queue = i.queue;
      hosts = i.hosts;
      threads = omega (arith, i.threads, ap dones e, k);
      quits = i.quits;
      closed = λ z. IsClosed-tail none c (rw e at i.closed z);
      scanned = i.scanned;
      scans = i.scans;
      account = i.account;
      answers = i.answers ∙ ap (λ c. s.results ++ replies c) e;
      over = ends-zero n;
      going = going-zero n;
    }

    pub Reach-Inv :
        {s u : Runner R} → Inv targets total s → Reach R Scans Panics s u → Inv targets total u
    Reach-Inv i stay = i
    Reach-Inv i (next r x) = Step-Inv (Reach-Inv i r) x

  pub start-Inv :
      (n : ℕ) (targets : List Target)
      → All (λ t. t.host ≢ []) targets
      → 0 < task_count n targets
      → Inv targets (task_count n targets) (start R n targets)
  unfolding start
  start-Inv n targets hosts some_task = record {
    rest = targets;
    queue = ap (λ k. queue_of targets k) (sym (live-replicate (task_count n targets)));
    hosts = hosts;
    threads = omega (arith, live-replicate (task_count n targets));
    quits = λ lt. absurd (omega (arith, lt, live-replicate (task_count n targets)));
    closed = λ z. inl refl;
    scanned = [];
    scans = tt;
    account = rw (in_flight-replicate (task_count n targets)) (Perm.refl targets);
    answers = refl;
    over = λ f. absurd (cc);
    going = λ f z. omega (arith, some_task, z);
  }
