-- ===== src/Scanner/Tls/Scan/Failed.antt =====
-- A TLS scan in which an attempt to connect fails.
use pqcscan.Base.{
  ℕ, ◌+◌, ◌<◌, ◌≡◌, refl, Bool, true, List, [], ◌∷◌, ◌++◌, Bytes, length, ok, err, arith,
}
use pqcscan.Scanner.Target.{Target}
use pqcscan.Scanner.Net.{
  Network, Connects, socket_create_and_connect, socket_create_and_connect-Connects,
}
use pqcscan.Scanner.Tls.Scan.{
  TlsGroup, TlsConfig, TlsStream, Found, nothing_found, groups_to_test, note_addr, failed,
  test_groups, tls_scan_target,
}
use pqcscan.Scanner.Tls.Scan.Joined.{on_result-joined}

module _ (SocketAddr : Type 0) (display : SocketAddr → Bytes) (config : TlsConfig) (timeout : ℕ)
    (net : ℕ → Network SocketAddr TlsStream) (target : Target) (addr : ℕ → SocketAddr)
    (stream : ℕ → TlsStream) (last : ℕ)
    (connects : (k : ℕ)
      → k < last
      → Connects SocketAddr TlsStream (net k) target (addr k) (stream k))
    (blocking : (k : ℕ) → k < last → (stream k).blocking ≡ true) (e : Bytes)
    (fails : socket_create_and_connect SocketAddr display TlsStream (net last) target timeout
      ≡ err e) where
  test_groups-failed :
      (before : List (Bytes × TlsGroup)) (entry : Bytes × TlsGroup)
      (after : List (Bytes × TlsGroup)) (n : ℕ) (s : Found)
      → n + length before ≡ last
      → test_groups SocketAddr display config timeout net target (before ++ (entry ∷ after)) n s
        ≡ ok (failed target e)
  unfolding test_groups
  test_groups-failed [] (name, g) after n s here =
      let now : n ≡ last = omega (arith, here) in rw (now, fails, test_groups) refl
  test_groups-failed ((name', g') ∷ before) entry after n s here =
      let earlier : n < last = omega (arith, here) in
      let (s2, found, _, _) =
        on_result-joined config target g' (stream n) name' (note_addr (display (addr n)) s)
          (blocking n earlier) in
      rw
        (
          socket_create_and_connect-Connects SocketAddr display TlsStream (net n) target (addr n)
              (stream n) timeout (connects n earlier),
          test_groups,
          found,
        )
        (test_groups-failed before entry after (n + 1) s2 (omega (arith, here)))

  -- If the attempts to connect before the one numbered `last` succeed and the streams of their
  -- connections can be made blocking ones, that attempt fails, and there is a group to test for it,
  -- then the scan's result has that attempt's error, no address and no lists, and `pqc_supported` is
  -- false. The groups that were accepted before are lost.
  pub tls_scan_target-failed :
      (hybrid_algos_only scan_nonpqc_algos : Bool) (before : List (Bytes × TlsGroup))
      (entry : Bytes × TlsGroup) (after : List (Bytes × TlsGroup))
      → groups_to_test hybrid_algos_only scan_nonpqc_algos config.groups ≡ before ++ (entry ∷ after)
      → length before ≡ last
      → tls_scan_target SocketAddr display config timeout net target hybrid_algos_only
          scan_nonpqc_algos
        ≡ ok (failed target e)
  unfolding tls_scan_target
  tls_scan_target-failed hybrid_algos_only scan_nonpqc_algos before entry after split here =
      rw split (test_groups-failed before entry after 0 nothing_found (omega (arith, here)))
