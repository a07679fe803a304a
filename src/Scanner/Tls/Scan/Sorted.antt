-- ===== src/Scanner/Tls/Scan/Sorted.antt =====
-- What a TLS scan finds when every connection is made.
use pqcscan.Base.{
  ℕ, ◌+◌, ◌≡◌, refl, ap, ◌∙◌, Bool, true, not, ◌&&◌, ◌||◌, none, List, [], ◌∷◌, Bytes,
  if◌then◌else◌, ok, arith,
}
use pqcscan.Scanner.Target.{Target}
use pqcscan.Scanner.Net.{Network, Connects, socket_create_and_connect-Connects}
use pqcscan.Scanner.Tls.Scan.{
  TlsGroup, TlsConfig, TlsStream, Found, nothing_found, is_tested, groups_to_test, note_addr,
  finished, test_groups, tls_scan_target,
}
use pqcscan.Scanner.Tls.Scan.Joined.{
  joined-note_addr, joined-nil, joined, accepted, first_addr, sorted, note_addr-first_addr,
  on_result-joined,
}

-- The groups that the options leave: all of the table that are hybrid or not asked to be, and
-- post-quantum or asked for all the same.
abbrev pub tested : Bool → Bool → List (Bytes × TlsGroup) → List (Bytes × TlsGroup)
tested hybrid_only with_nonpqc [] = []
tested hybrid_only with_nonpqc ((name, g) ∷ groups) =
    if (not hybrid_only || g.hybrid) && (g.pqc || with_nonpqc)
    then (name, g) ∷ tested hybrid_only with_nonpqc groups
    else tested hybrid_only with_nonpqc groups

groups_to_test-tested :
    (hybrid_only with_nonpqc : Bool) (groups : List (Bytes × TlsGroup))
    → groups_to_test hybrid_only with_nonpqc groups ≡ tested hybrid_only with_nonpqc groups
unfolding groups_to_test is_tested
groups_to_test-tested hybrid_only with_nonpqc [] = refl
groups_to_test-tested hybrid_only with_nonpqc ((name, g) ∷ groups) =
    let rest = groups_to_test-tested hybrid_only with_nonpqc groups in rw rest (ground arith)

module _ (SocketAddr : Type 0) (display : SocketAddr → Bytes) (config : TlsConfig) (timeout : ℕ)
    (net : ℕ → Network SocketAddr TlsStream) (target : Target) (addr : ℕ → SocketAddr)
    (stream : ℕ → TlsStream)
    (connects : (k : ℕ) → Connects SocketAddr TlsStream (net k) target (addr k) (stream k))
    (blocking : (k : ℕ) → (stream k).blocking ≡ true) where
  test_groups-joined :
      (groups : List (Bytes × TlsGroup)) (n : ℕ) (s : Found)
      → test_groups SocketAddr display config timeout net target groups n s
        ≡ ok (
            finished target (
              joined
                (first_addr s.addr (display (addr n)) groups)
                s
                (accepted config target stream n groups)))
  unfolding test_groups
  test_groups-joined [] n s = ap (λ r. ok (finished target r)) (joined-nil (display (addr n)) s)
  test_groups-joined ((name, g) ∷ groups) n s =
      let a = display (addr n) in
      let b = display (addr (n + 1)) in
      let rest = accepted config target stream (n + 1) groups in
      let last = first_addr s.addr a ((name, g) ∷ groups) in
      let s1 = note_addr (display (addr n)) s in
      let (s2, found, same_addr, lists) =
        on_result-joined config target g (stream n) name s1 (blocking n) in
      rw
        (
          socket_create_and_connect-Connects SocketAddr display TlsStream (net n) target (addr n)
              (stream n) timeout (connects n),
          test_groups,
          found,
        )
        (test_groups-joined groups (n + 1) s2
          ∙ ap (λ r. ok (finished target r))
              (ap (λ o. joined o s2 rest)
                  (ap (λ o. first_addr o b groups) same_addr
                    ∙ note_addr-first_addr a b s (name, g) groups)
                ∙ lists last rest
                ∙ joined-note_addr last a s (accepted config target stream n ((name, g) ∷ groups))))

  -- If every attempt to connect succeeds and the stream of every connection can be made a blocking
  -- one, a scan has a result without an error. It lists, in the order of the configuration's groups,
  -- the groups that the two options leave to test and whose probe is accepted: the post-quantum ones
  -- that are not hybrid, the hybrid ones, and the others; `pqc_supported` says whether one of them is
  -- post-quantum. The address is that of the first connection, and missing when no group is tested.
  pub tls_scan_target-sorted :
      (hybrid_algos_only scan_nonpqc_algos : Bool)
      → tls_scan_target SocketAddr display config timeout net target hybrid_algos_only
          scan_nonpqc_algos
        ≡ ok (
            finished target (
              sorted
                (first_addr none
                  (display (addr 0))
                  (tested hybrid_algos_only scan_nonpqc_algos config.groups))
                (accepted config target stream 0
                  (tested hybrid_algos_only scan_nonpqc_algos config.groups))))
  unfolding tls_scan_target
  tls_scan_target-sorted hybrid_algos_only scan_nonpqc_algos =
      rw (← groups_to_test-tested hybrid_algos_only scan_nonpqc_algos config.groups) (
        test_groups-joined (groups_to_test hybrid_algos_only scan_nonpqc_algos config.groups) 0
          nothing_found)
