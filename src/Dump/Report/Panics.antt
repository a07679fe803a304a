-- ===== src/Dump/Report/Panics.antt =====
-- A host whose text is no socket address makes the report panic.
use pqcscan.Base.{
  ℕ, ◌≡◌, refl, Option, none, some, List, [], ◌∷◌, Bytes, Bool-cases, Option-cases, inl, inr, panic,
  equal, equal_iff,
}
use pqcscan.Base.Dict.{bytes_eq, lookup}
use pqcscan.Dump.Ssh.Sessions.{LinkedHashSet, HostCaps}
use pqcscan.Dump.Tls.Hosts.{HostSets}
use pqcscan.Dump.Algorithms.{KexAlgo, TlsGroup}
use pqcscan.Dump.Report.{
  HostTables, add_cipher_host, each_host, add_tls_hosts, add_ssh_hosts, gather_hosts,
}

each_host-panic :
    (parse_ip : Bytes → Option Bytes) (add : Bytes → List ℕ → HostTables → HostTables)
    (table : HostSets) (s : HostTables) (key : Bytes) (values : List ℕ)
    → lookup key table ≡ some values
    → parse_ip key ≡ none
    → each_host parse_ip add table s ≡ panic
unfolding each_host lookup
each_host-panic parse_ip add [] s key values h bad = absurd (cc)
each_host-panic parse_ip add ((k, vs) ∷ table) s key values h bad =
    elim (Option-cases (parse_ip k)) [
      | inl e ↦ rw (e, each_host) refl
      | inr (host, e) ↦ elim (Bool-cases (equal k key)) [
        | inl same ↦ let k_is : k ≡ key = (equal_iff k key).0 same in absurd (cc)
        | inr apart ↦
            rw (e, each_host)
              (each_host-panic parse_ip add table (add host vs s) key values (rw apart at h) bad)
      ]
    ]

module _ (sets : LinkedHashSet) where
  -- If the table of TLS ciphers has a host whose text the parser of socket addresses refuses, then
  -- gathering the hosts panics, and no report is written.
  pub gather_hosts-panic :
      (parse_ip : Bytes → Option Bytes) (kex_algos : List (Bytes × KexAlgo))
      (cipher_suites : List (ℕ × Bytes)) (groups : List (ℕ × TlsGroup)) (caps : HostCaps sets)
      (tls_ciphers keyshare_groups : HostSets) (s : HostTables) (key : Bytes) (ids : List ℕ)
      → lookup key tls_ciphers ≡ some ids
      → parse_ip key ≡ none
      → gather_hosts sets parse_ip kex_algos cipher_suites groups caps tls_ciphers keyshare_groups s
        ≡ panic
  unfolding gather_hosts add_tls_hosts
  gather_hosts-panic parse_ip kex_algos cipher_suites groups caps tls_ciphers keyshare_groups s key
        ids h bad =
      rw
        (each_host-panic parse_ip (add_cipher_host cipher_suites) tls_ciphers
          (add_ssh_hosts sets kex_algos caps s) key ids h bad)
        refl
