-- ===== src/Scanner/Runner/Counts.antt =====
-- Counting tasks and messages, and how a change of one task changes the counts.
use mathlib.Core.List.{Perm, perm_middle}
use mathlib.Core.List.Perm
use pqcscan.Base.{
  ℕ, zero, suc, ◌+◌, ◌≡◌, ◌≢◌, ◌⊎◌, inl, inr, refl, ap, Option, none, some, List, [], ◌∷◌, ◌++◌,
  replicate, All, arith, true, false, ◌<◌, map,
}
use pqcscan.Scanner.Target.{Target}
use pqcscan.Scanner.Runner.{
  Worker, waiting, scanning, exited, dead, Becomes, here, there, quit_target, task_count, ends,
}

abbrev pub sum_of : (Worker → ℕ) → List Worker → ℕ
sum_of f [] = 0
sum_of f (w ∷ ws) = f w + sum_of f ws

pub sum_of-Becomes :
    (f : Worker → ℕ) (w w' : Worker) {ws ws' : List Worker}
    → Becomes w w' ws ws'
    → f w + sum_of f ws' ≡ f w' + sum_of f ws
sum_of-Becomes f w w' (here ws) = omega arith
sum_of-Becomes f w w' (there v b) = omega (arith, sum_of-Becomes f w w' b)

-- A task that still takes targets.
abbrev pub is_live : Worker → ℕ
is_live waiting = 1
is_live (scanning t) = 1
is_live exited = 0
is_live dead = 0

abbrev pub is_dead : Worker → ℕ
is_dead waiting = 0
is_dead (scanning t) = 0
is_dead exited = 0
is_dead dead = 1

abbrev pub live : List Worker → ℕ
live = sum_of is_live

abbrev pub in_flight : List Worker → List Target
in_flight [] = []
in_flight (waiting ∷ ws) = in_flight ws
in_flight (scanning t ∷ ws) = t ∷ in_flight ws
in_flight (exited ∷ ws) = in_flight ws
in_flight (dead ∷ ws) = in_flight ws

in_flight-cons :
    (v : Worker) (t : Target) (ws ws' : List Worker)
    → Perm (in_flight ws') (t ∷ in_flight ws)
    → Perm (in_flight (v ∷ ws')) (t ∷ in_flight (v ∷ ws))
in_flight-cons waiting t ws ws' p = p
in_flight-cons (scanning u) t ws ws' p = Perm.trans (Perm.cons u p) (Perm.swap t u _)
in_flight-cons exited t ws ws' p = p
in_flight-cons dead t ws ws' p = p

pub in_flight-take :
    (t : Target) {ws ws' : List Worker}
    → Becomes waiting (scanning t) ws ws'
    → Perm (in_flight ws') (t ∷ in_flight ws)
in_flight-take t (here ws) = Perm.refl _
in_flight-take t (there v {ws} {ws'} b) = in_flight-cons v t ws ws' (in_flight-take t b)

pub in_flight-send :
    (t : Target) {ws ws' : List Worker}
    → Becomes (scanning t) waiting ws ws'
    → Perm (in_flight ws) (t ∷ in_flight ws')
in_flight-send t (here ws) = Perm.refl _
in_flight-send t (there v {ws} {ws'} b) = in_flight-cons v t ws' ws (in_flight-send t b)

pub in_flight-quit :
    {ws ws' : List Worker} → Becomes waiting exited ws ws' → in_flight ws' ≡ in_flight ws
in_flight-quit (here ws) = refl
in_flight-quit (there waiting b) = in_flight-quit b
in_flight-quit (there (scanning t) b) = ap (◌∷◌ t) (in_flight-quit b)
in_flight-quit (there exited b) = in_flight-quit b
in_flight-quit (there dead b) = in_flight-quit b

pub in_flight-none : (ws : List Worker) → live ws ≡ 0 → in_flight ws ≡ []
in_flight-none [] h = refl
in_flight-none (waiting ∷ ws) h = absurd (omega arith)
in_flight-none (scanning t ∷ ws) h = absurd (omega arith)
in_flight-none (exited ∷ ws) h = in_flight-none ws (omega arith)
in_flight-none (dead ∷ ws) h = in_flight-none ws (omega arith)

module _ {R : Type 0} where
  -- How many `Done`s are on their way, and which results.
  abbrev pub dones : List (Option R) → ℕ
  dones [] = 0
  dones (none ∷ c) = suc (dones c)
  dones (some r ∷ c) = dones c

  abbrev pub replies : List (Option R) → List R
  replies [] = []
  replies (none ∷ c) = replies c
  replies (some r ∷ c) = r ∷ replies c

  pub dones-append : (c d : List (Option R)) → dones (c ++ d) ≡ dones c + dones d
  dones-append [] d = omega arith
  dones-append (none ∷ c) d = omega (arith, dones-append c d)
  dones-append (some r ∷ c) d = omega (arith, dones-append c d)

  pub replies-append : (c d : List (Option R)) → replies (c ++ d) ≡ replies c ++ replies d
  replies-append [] d = refl
  replies-append (none ∷ c) d = replies-append c d
  replies-append (some r ∷ c) d = ap (◌∷◌ r) (replies-append c d)

  -- Nothing is on its way, or the last message is a `Done`.
  abbrev pub IsClosed : List (Option R) → Type 0
  IsClosed c = (c ≡ []) ⊎ ((d : List (Option R)) × (c ≡ d ++ (none ∷ [])))

  pub IsClosed-tail : (m : Option R) (c : List (Option R)) → IsClosed (m ∷ c) → IsClosed c
  IsClosed-tail m c (inl e) = absurd (cc)
  IsClosed-tail m c (inr ([], e)) = inl (cc)
  IsClosed-tail m c (inr (x ∷ d, e)) = inr (d, cc)

  pub IsClosed-nil : (c : List (Option R)) → IsClosed c → dones c ≡ 0 → c ≡ []
  IsClosed-nil c (inl e) h = e
  IsClosed-nil c (inr (d, e)) h = absurd (omega (arith, ap dones e, dones-append d (none ∷ [])))

-- The queue's head: a target with a host is one of those that were asked for.
abbrev pub queue_of : List Target → ℕ → List Target
queue_of rest k = rest ++ replicate k quit_target

pub head_host :
    (rest : List Target) (k : ℕ) (t : Target) (ts : List Target)
    → queue_of rest k ≡ t ∷ ts
    → t.host ≢ []
    → (rest' : List Target) × (rest ≡ t ∷ rest') × (ts ≡ queue_of rest' k)
head_host [] zero t ts e h = absurd (cc)
head_host [] (suc k) t ts e h = absurd (h (cc))
head_host (x ∷ rest) k t ts e h = (rest, cc, cc)

pub head_quit :
    (rest : List Target) (k : ℕ) (t : Target) (ts : List Target)
    → All (λ t. t.host ≢ []) rest
    → queue_of rest k ≡ t ∷ ts
    → t.host ≡ []
    → (k' : ℕ) × (rest ≡ []) × (k ≡ suc k') × (ts ≡ queue_of [] k')
head_quit [] zero t ts a e h = absurd (cc)
head_quit [] (suc k) t ts a e h = (k, refl, refl, cc)
head_quit (x ∷ rest) k t ts a e h = absurd (a.0 (cc))

pub Perm-back : (xs : List Target) {ys zs : List Target} → Perm ys zs → Perm (xs ++ ys) (xs ++ zs)
Perm-back xs p = Perm.append (Perm.refl xs) p

pub map-concat {ℓ} :
    {A B : Type ℓ} (f : A → B) (ps : List A) (p : A)
    → map f (ps ++ (p ∷ [])) ≡ map f ps ++ (f p ∷ [])
map-concat f [] p = refl
map-concat f (q ∷ ps) p = ap (◌∷◌ (f q)) (map-concat f ps p)

pub take-Perm :
    (t : Target) (rest fs gs : List Target)
    → Perm gs (t ∷ fs)
    → Perm (fs ++ (t ∷ rest)) (gs ++ rest)
take-Perm t rest fs gs p = Perm.trans (perm_middle fs rest) (Perm.append_right rest (Perm.symm p))

pub going-zero : (n : ℕ) → ends n ≡ false → n ≢ 0
going-zero zero e = absurd (cc)
going-zero (suc n) e = λ z. omega (arith, z)

pub ends-zero : (n : ℕ) → ends n ≡ true → n ≡ 0
ends-zero zero e = refl
ends-zero (suc n) e = absurd (cc)

pub live-Becomes :
    {t : Target} {ws ws' : List Worker} → Becomes (scanning t) waiting ws ws' → live ws' ≢ 0
live-Becomes (here ws) z = absurd (omega (arith, z))
live-Becomes (there v b) z = live-Becomes b (omega (arith, z))

pub live-replicate : (n : ℕ) → live (replicate n waiting) ≡ n
live-replicate zero = refl
live-replicate (suc n) = omega (arith, live-replicate n)

pub in_flight-replicate : (n : ℕ) → in_flight (replicate n waiting) ≡ []
in_flight-replicate zero = refl
in_flight-replicate (suc n) = in_flight-replicate n

pub task_count-positive :
    (n : ℕ) (targets : List Target) → 0 < n → targets ≢ [] → 0 < task_count n targets
unfolding task_count
task_count-positive n [] h e = absurd (e refl)
task_count-positive n (t ∷ targets) h e = ground arith
