-- ===== src/Dump/Report/Hosts.antt =====
-- What each step of the report's gathering of hosts keeps, all of it keeps; the hosts with
-- post-quantum support against all hosts of the report.
use pqcscan.Base.{
  ℕ, ◌≡◌, Bool, true, false, Option, List, [], ◌∷◌, Bytes, Option-cases, inl, inr, Holds,
  Holds-bind,
}
use pqcscan.Base.Dict.{bytes_eq, contains, set_insert}
use pqcscan.Base.Sets.{Within, Within-both, Within-larger}
use pqcscan.Dump.Ssh.Sessions.{LinkedHashSet, HostCaps}
use pqcscan.Dump.Tls.Hosts.{HostSets}
use pqcscan.Dump.Algorithms.{KexAlgo, TlsGroup}
use pqcscan.Dump.Report.{
  HostTables, note_support, ssh_algos, details_of, add_ssh_host, tls_algos, add_tls_host,
  add_cipher_host, each_host, add_tls_hosts, add_ssh_hosts, gather_hosts,
}

-- A property that every step of the gathering keeps.
pub record IsKept (P : HostTables → Type 0) : Type 0 where
  pub ssh_host :
      (kex_algos : List (Bytes × KexAlgo)) (host : Bytes) (algs : List Bytes) (s : HostTables)
      → P s
      → P (add_ssh_host kex_algos host algs s)
  pub cipher_host :
      (suites : List (ℕ × Bytes)) (host : Bytes) (ids : List ℕ) (s : HostTables)
      → P s
      → P (add_cipher_host suites host ids s)
  pub tls_host :
      (groups : List (ℕ × TlsGroup)) (host : Bytes) (values : List ℕ) (s : HostTables)
      → P s
      → P (add_tls_host groups host values s)
  pub texts :
      (table : List (Bytes × Bytes)) (s : HostTables) → P s → P (record s { tls_hosts_pqc = table })

module _ (P : HostTables → Type 0) where
  each_host-Holds :
      (parse_ip : Bytes → Option Bytes) (add : Bytes → List ℕ → HostTables → HostTables)
      → ((host : Bytes) (values : List ℕ) (s : HostTables) → P s → P (add host values s))
      → (table : HostSets) (s : HostTables) → P s
      → Holds P (each_host parse_ip add table s)
  unfolding each_host
  each_host-Holds parse_ip add keeps [] s h = h
  each_host-Holds parse_ip add keeps ((key, values) ∷ table) s h =
      elim (Option-cases (parse_ip key)) [
        | inl e ↦ rw (e, each_host) tt
        | inr (host, e) ↦
            rw (e, each_host)
              (each_host-Holds parse_ip add keeps table (add host values s) (keeps host values s h))
      ]

  module _ (kept : IsKept P) where
    add_tls_hosts-Holds :
        (parse_ip : Bytes → Option Bytes) (suites : List (ℕ × Bytes)) (groups : List (ℕ × TlsGroup))
        (tls_ciphers keyshare_groups : HostSets) (s : HostTables)
        → P s
        → Holds P (add_tls_hosts parse_ip suites groups tls_ciphers keyshare_groups s)
    unfolding add_tls_hosts
    add_tls_hosts-Holds parse_ip suites groups tls_ciphers keyshare_groups s h =
        Holds-bind P P (each_host parse_ip (add_cipher_host suites) tls_ciphers s) _
          (each_host-Holds parse_ip (add_cipher_host suites) (kept.cipher_host suites) tls_ciphers s
            h)
          λ s1 h1.
            Holds-bind P P (each_host parse_ip (add_tls_host groups) keyshare_groups s1) _
              (each_host-Holds parse_ip (add_tls_host groups) (kept.tls_host groups) keyshare_groups
                s1 h1)
              λ s2 h2. kept.texts _ s2 h2

    add_ssh_hosts-keep :
        (sets : LinkedHashSet) (kex_algos : List (Bytes × KexAlgo)) (caps : HostCaps sets)
        (s : HostTables)
        → P s
        → P (add_ssh_hosts sets kex_algos caps s)
    unfolding add_ssh_hosts
    add_ssh_hosts-keep sets kex_algos [] s h = h
    add_ssh_hosts-keep sets kex_algos ((host, c) ∷ caps) s h =
        add_ssh_hosts-keep sets kex_algos caps _
          (kept.ssh_host kex_algos host (sets.elements c) s h)

    pub gather_hosts-Holds :
        (sets : LinkedHashSet) (parse_ip : Bytes → Option Bytes)
        (kex_algos : List (Bytes × KexAlgo)) (suites : List (ℕ × Bytes))
        (groups : List (ℕ × TlsGroup)) (caps : HostCaps sets)
        (tls_ciphers keyshare_groups : HostSets) (s : HostTables)
        → P s
        → Holds P
            (gather_hosts sets parse_ip kex_algos suites groups caps tls_ciphers keyshare_groups s)
    unfolding gather_hosts
    gather_hosts-Holds sets parse_ip kex_algos suites groups caps tls_ciphers keyshare_groups s h =
        add_tls_hosts-Holds parse_ip suites groups tls_ciphers keyshare_groups _
          (add_ssh_hosts-keep sets kex_algos caps s h)

-- Every host that is counted as supporting post-quantum algorithms is counted as a host.
abbrev pub PqcAreHosts : HostTables → Type 0
PqcAreHosts s = (h : Bytes) → contains s.pqc_hosts h ≡ true → contains s.hosts h ≡ true

-- A host is added to the hosts, and perhaps to those with support.
pub note_support-Within :
    (supported : Bool) (host : Bytes) (xs ys : List Bytes)
    → Within xs ys
    → Within (note_support supported host xs) (set_insert host ys)
unfolding note_support
note_support-Within true host xs ys h = Within-both host xs ys h
note_support-Within false host xs ys h = Within-larger host xs ys h

PqcAreHosts-IsKept : IsKept PqcAreHosts
unfolding add_ssh_host add_cipher_host add_tls_host
PqcAreHosts-IsKept = record {
  ssh_host = λ kex_algos host algs s h.
      note_support-Within
        (ssh_algos kex_algos algs (false, details_of host s.ssh_hosts_pqc_algos)).0 host s.pqc_hosts
        s.hosts h;
  cipher_host = λ suites host ids s h. h;
  tls_host = λ groups host values s h.
      note_support-Within
        (tls_algos groups values (false, details_of host s.tls_host_capabilities)).0 host
        s.pqc_hosts s.hosts h;
  texts = λ table s h. h;
}

module _ (sets : LinkedHashSet) where
  -- Gathering the report's hosts ends with the tables or with a panic, and keeps true that every
  -- host counted for post-quantum support is among the hosts counted.
  pub gather_hosts-PqcAreHosts :
      (parse_ip : Bytes → Option Bytes) (kex_algos : List (Bytes × KexAlgo))
      (cipher_suites : List (ℕ × Bytes)) (groups : List (ℕ × TlsGroup)) (caps : HostCaps sets)
      (tls_ciphers keyshare_groups : HostSets) (s : HostTables)
      → PqcAreHosts s
      → Holds PqcAreHosts (
          gather_hosts sets parse_ip kex_algos cipher_suites groups caps tls_ciphers keyshare_groups
            s)
  gather_hosts-PqcAreHosts parse_ip kex_algos cipher_suites groups caps tls_ciphers keyshare_groups
        s all =
      gather_hosts-Holds PqcAreHosts PqcAreHosts-IsKept sets parse_ip kex_algos cipher_suites groups
        caps tls_ciphers keyshare_groups s all
