-- ===== src/Scanner/Tls/Scan.antt =====
-- `tls_scan_target` of pqcscan/src/tls.rs: one connection for each group to test.
pub mod Joined
pub mod Sorted
pub mod Failed
use pqcscan.Base.{
  ℕ, ◌+◌, Bool, true, false, not, ◌&&◌, ◌||◌, Option, none, some, List, [], ◌∷◌, ◌++◌, Bytes, map,
  if◌then◌else◌, Outcome, ok, err, panic, hang, ◌>>=◌,
}
use pqcscan.Scanner.Target.{Target}
use pqcscan.Scanner.Report.{Finding, ScanResult, tls_result}
use pqcscan.Scanner.Net.{Network, socket_create_and_connect}
use pqcscan.Scanner.Tls.Response.{TlsError, Answer, tls_connect_with_group}

pub record TlsGroup : Type 0 where
  pub group_id : ℕ
  pub pqc : Bool
  pub hybrid : Bool
  pub obsolete : Bool
  pub insecure : Bool
  pub desc : Bytes
  pub href : Bytes

pub record TlsCipherSuite : Type 0 where
  pub cipher_suite_id : ℕ
  pub obsolete : Bool
  pub insecure : Bool
  pub desc : Bytes
  pub href : Bytes

pub record TlsSigScheme : Type 0 where
  pub sig_scheme_id : ℕ
  pub obsolete : Bool
  pub insecure : Bool
  pub desc : Bytes
  pub href : Bytes

pub record TlsConfig : Type 0 where
  pub default_port : ℕ
  pub groups : List (Bytes × TlsGroup)
  pub cipher_suites : List (Bytes × TlsCipherSuite)
  pub sig_schemes : List (Bytes × TlsSigScheme)

-- A connection: do `into_std` and `set_nonblocking` succeed, the random bytes and the session id
-- that are drawn for it, and what the peer does with the bytes that it is sent.
pub record TlsStream : Type 0 where
  pub blocking : Bool
  pub random : Bytes
  pub session_id : Bytes
  pub peer : Bytes → Answer

-- Is the group tested under the two options?
unfoldable pub is_tested : Bool → Bool → TlsGroup → Bool
is_tested hybrid_algos_only scan_nonpqc_algos g =
    if hybrid_algos_only && not g.hybrid then false else g.pqc || scan_nonpqc_algos

unfoldable pub groups_to_test : Bool → Bool → List (Bytes × TlsGroup) → List (Bytes × TlsGroup)
groups_to_test hybrid_algos_only scan_nonpqc_algos [] = []
groups_to_test hybrid_algos_only scan_nonpqc_algos ((name, g) ∷ groups) =
    let rest = groups_to_test hybrid_algos_only scan_nonpqc_algos groups in
    if is_tested hybrid_algos_only scan_nonpqc_algos g then (name, g) ∷ rest else rest

-- The variables of the loop.
pub record Found : Type 0 where
  pub addr : Option Bytes
  pub pqc_supported : Bool
  pub pqc_algos : List Bytes
  pub hybrid_algos : List Bytes
  pub nonpqc_algos : List Bytes

abbrev pub nothing_found : Found
nothing_found = record {
  addr = none;
  pqc_supported = false;
  pqc_algos = [];
  hybrid_algos = [];
  nonpqc_algos = [];
}

-- `if addr.is_none() { addr = Some(..) }`
unfoldable pub note_addr : Bytes → Found → Found
note_addr a s = elim s.addr [ none ↦ record s { addr = some a } | some _ ↦ s ]

-- What an accepted group adds.
unfoldable pub add_group : Bytes → TlsGroup → Found → Found
add_group name g s =
    if g.pqc && not g.hybrid
    then record s { pqc_supported = true; pqc_algos = s.pqc_algos ++ (name ∷ []) }
    else if g.pqc
    then record s { pqc_supported = true; hybrid_algos = s.hybrid_algos ++ (name ∷ []) }
    else record s { nonpqc_algos = s.nonpqc_algos ++ (name ∷ []) }

-- The arms of `match ret`.
unfoldable pub on_result :
    Outcome TlsError (Unit {0}) → Bytes → TlsGroup → Found → Outcome (Unit {0}) Found
unfolding add_group
on_result (ok _) name g s = ok (add_group name g s)
on_result (err _) name g s = ok s
on_result panic name g s = panic
on_result hang name g s = hang

abbrev pub failed : Target → Bytes → ScanResult
failed target e = tls_result (record {
  targetspec = target;
  addr = none;
  error = some e;
  pqc_supported = false;
  pqc_algos = none;
  hybrid_algos = none;
  nonpqc_algos = none;
})

abbrev pub finished : Target → Found → ScanResult
finished target s = tls_result (record {
  targetspec = target;
  addr = s.addr;
  error = none;
  pqc_supported = s.pqc_supported;
  pqc_algos = some s.pqc_algos;
  hybrid_algos = some s.hybrid_algos;
  nonpqc_algos = some s.nonpqc_algos;
})

-- The probe of one group on a connected stream.
unfoldable pub probe : TlsConfig → Target → TlsGroup → TlsStream → Outcome TlsError (Unit {0})
probe config target g stream =
    if stream.blocking
    then tls_connect_with_group stream.random stream.session_id
        (map (λ c. c.1.cipher_suite_id) config.cipher_suites)
        (map (λ c. c.1.sig_scheme_id) config.sig_schemes) target.host g.group_id stream.peer
    else panic

module _ (SocketAddr : Type 0) (display : SocketAddr → Bytes) where
  -- The loop over the groups; `net` gives the network in each attempt, of which `n` came before.
  unfoldable pub test_groups :
      TlsConfig
      → ℕ
      → (ℕ → Network SocketAddr TlsStream)
      → Target
      → List (Bytes × TlsGroup)
      → ℕ
      → Found
      → Outcome (Unit {0}) ScanResult
  unfolding note_addr
  test_groups config timeout net target [] n s = ok (finished target s)
  test_groups config timeout net target ((name, g) ∷ groups) n s =
      elim (socket_create_and_connect SocketAddr display TlsStream (net n) target timeout) [
        | err e ↦ ok (failed target e)
        | ok (addr, stream) ↦ do
          s' ← on_result (probe config target g stream) name g (note_addr (display addr) s)
          test_groups config timeout net target groups (n + 1) s'
        | panic ↦ panic
        | hang ↦ hang
      ]

  unfoldable pub tls_scan_target :
      TlsConfig
      → ℕ
      → (ℕ → Network SocketAddr TlsStream)
      → Target
      → Bool
      → Bool
      → Outcome (Unit {0}) ScanResult
  unfolding test_groups
  tls_scan_target config timeout net target hybrid_algos_only scan_nonpqc_algos =
      test_groups config timeout net target
        (groups_to_test hybrid_algos_only scan_nonpqc_algos config.groups) 0 nothing_found
