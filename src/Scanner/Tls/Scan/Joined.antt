-- ===== src/Scanner/Tls/Scan/Joined.antt =====
-- The lists that a TLS scan keeps, and what a probe's verdict adds to them.
use pqcscan.Base.{
  ℕ, ◌+◌, ◌≡◌, refl, Bool, true, false, not, ◌&&◌, ◌||◌, Option, none, some, List, [], ◌∷◌, ◌++◌,
  append-nil, append_assoc, Bytes, if◌then◌else◌, Bool-cases, Option-cases, inl, inr, Outcome, ok,
  err, panic, hang, Returns, Returns-cases, arith,
}
use pqcscan.Scanner.Target.{Target}
use pqcscan.Scanner.Tls.Response.Ends.{tls_connect_with_group-Returns}
use pqcscan.Scanner.Tls.Scan.{
  TlsGroup, TlsConfig, TlsStream, Found, note_addr, add_group, on_result, probe,
}

abbrev pub is_ok : {E : Type 0} → Outcome E (Unit {0}) → Bool
is_ok (ok _) = true
is_ok (err _) = false
is_ok panic = false
is_ok hang = false

abbrev is_pure : TlsGroup → Bool
is_pure g = g.pqc && not g.hybrid

abbrev is_hybrid : TlsGroup → Bool
is_hybrid g = g.pqc && g.hybrid

abbrev is_nonpqc : TlsGroup → Bool
is_nonpqc g = not g.pqc

-- The names of the groups that pass a test, in their order.
abbrev pub names_of : (TlsGroup → Bool) → List (Bytes × TlsGroup) → List Bytes
names_of test [] = []
names_of test ((name, g) ∷ groups) =
    if test g then name ∷ names_of test groups else names_of test groups

abbrev pub any_pqc : List (Bytes × TlsGroup) → Bool
any_pqc [] = false
any_pqc ((_, g) ∷ groups) = g.pqc || any_pqc groups

-- The groups whose probe is accepted; `stream` gives the connection in each attempt.
abbrev pub accepted :
    TlsConfig → Target → (ℕ → TlsStream) → ℕ → List (Bytes × TlsGroup) → List (Bytes × TlsGroup)
accepted config target stream n [] = []
accepted config target stream n ((name, g) ∷ groups) =
    if is_ok (probe config target g (stream n))
    then (name, g) ∷ accepted config target stream (n + 1) groups
    else accepted config target stream (n + 1) groups

-- The address of the first connection, if there was one.
abbrev pub first_addr : Option Bytes → Bytes → List (Bytes × TlsGroup) → Option Bytes
first_addr (some a) b groups = some a
first_addr none b [] = none
first_addr none b (_ ∷ groups) = some b

abbrev pub sorted : Option Bytes → List (Bytes × TlsGroup) → Found
sorted addr groups = record {
  addr = addr;
  pqc_supported = any_pqc groups;
  pqc_algos = names_of is_pure groups;
  hybrid_algos = names_of is_hybrid groups;
  nonpqc_algos = names_of is_nonpqc groups;
}

abbrev pub joined : Option Bytes → Found → List (Bytes × TlsGroup) → Found
joined addr s groups = record {
  addr = addr;
  pqc_supported = s.pqc_supported || any_pqc groups;
  pqc_algos = s.pqc_algos ++ names_of is_pure groups;
  hybrid_algos = s.hybrid_algos ++ names_of is_hybrid groups;
  nonpqc_algos = s.nonpqc_algos ++ names_of is_nonpqc groups;
}

joined-add_group :
    (addr : Option Bytes) (name : Bytes) (g : TlsGroup) (s : Found)
    (groups : List (Bytes × TlsGroup))
    → joined addr (add_group name g s) groups ≡ joined addr s ((name, g) ∷ groups)
unfolding add_group
joined-add_group addr name g s groups = elim (Bool-cases g.pqc) [
  | inl pqc ↦ elim (Bool-cases g.hybrid) [
    | inl hybrid ↦
        rw (pqc, hybrid, append_assoc s.hybrid_algos (name ∷ []) (names_of is_hybrid groups))
          (ground arith)
    | inr whole ↦
        rw (pqc, whole, append_assoc s.pqc_algos (name ∷ []) (names_of is_pure groups))
          (ground arith)
  ]
  | inr nonpqc ↦
      rw (nonpqc, append_assoc s.nonpqc_algos (name ∷ []) (names_of is_nonpqc groups)) refl
]

add_group-addr : (name : Bytes) (g : TlsGroup) (s : Found) → (add_group name g s).addr ≡ s.addr
unfolding add_group
add_group-addr name g s = ground arith

pub note_addr-first_addr :
    (a b : Bytes) (s : Found) (entry : Bytes × TlsGroup) (groups : List (Bytes × TlsGroup))
    → first_addr (note_addr a s).addr b groups ≡ first_addr s.addr a (entry ∷ groups)
unfolding note_addr
note_addr-first_addr a b s entry groups = elim (Option-cases s.addr) [
  | inl e ↦ rw (e, note_addr) refl
  | inr (c, e) ↦ rw (e, note_addr) (rw e refl)
]

probe-Returns :
    (config : TlsConfig) (target : Target) (g : TlsGroup) (stream : TlsStream)
    → stream.blocking ≡ true
    → Returns (probe config target g stream)
unfolding probe
probe-Returns config target g stream blocking = rw blocking (
    tls_connect_with_group-Returns stream.random stream.session_id _ _ target.host g.group_id
      stream.peer)

pub joined-note_addr :
    (addr : Option Bytes) (a : Bytes) (s : Found) (groups : List (Bytes × TlsGroup))
    → joined addr (note_addr a s) groups ≡ joined addr s groups
unfolding note_addr
joined-note_addr addr a s groups = elim (Option-cases s.addr) [
  | inl e ↦ rw (e, note_addr) refl
  | inr (b, e) ↦ rw (e, note_addr) refl
]

-- What a probe's verdict adds to the lists.
pub on_result-joined :
    (config : TlsConfig) (target : Target) (g : TlsGroup) (stream : TlsStream) (name : Bytes)
    (s : Found)
    → stream.blocking ≡ true
    → (s' : Found) × (on_result (probe config target g stream) name g s ≡ ok s')
      × (s'.addr ≡ s.addr)
      × ((addr : Option Bytes) (groups : List (Bytes × TlsGroup))
          → joined addr s' groups
            ≡ joined addr s
                (if is_ok (probe config target g stream) then (name, g) ∷ groups else groups))
unfolding on_result
on_result-joined config target g stream name s blocking =
    elim (Returns-cases (probe config target g stream)
      (probe-Returns config target g stream blocking)) [
        | inl (_, e) ↦ rw e (
          add_group name g s,
          refl,
          add_group-addr name g s,
          λ addr groups. joined-add_group addr name g s groups,
        )
        | inr (_, e) ↦ rw e (s, refl, refl, λ addr groups. refl)
      ]

pub joined-nil : (b : Bytes) (s : Found) → s ≡ joined (first_addr s.addr b []) s []
joined-nil b s = elim (Option-cases s.addr) [
  | inl e ↦
      rw (e, append-nil s.pqc_algos, append-nil s.hybrid_algos, append-nil s.nonpqc_algos)
        (ground (arith, e))
  | inr (a, e) ↦
      rw (e, append-nil s.pqc_algos, append-nil s.hybrid_algos, append-nil s.nonpqc_algos)
        (ground (arith, e))
]
