-- ===== src/Dump/Report.antt =====
-- The part of `main` of pqcdump/src/main.rs behind the packet loop that gathers the hosts of the
-- report: which hosts there are, which support post-quantum algorithms, and what each can do. The
-- maps and sets of hosts are lists; what `SocketAddr`'s parser gives, as the text of the address, is
-- a parameter.
pub mod Hosts
pub mod Panics
pub mod Sessions
use pqcscan.Base.{
  ℕ, Bool, true, false, ◌||◌, Option, none, some, List, [], ◌∷◌, ◌++◌, Bytes, codes, ◌==◌, equal,
  equal_iff, ◌&&◌, ◌↔◌, ◌≡◌, if◌then◌else◌, Outcome, ok, err, panic, hang, ◌>>=◌, arith,
}
use pqcscan.Base.Decimal.{decimal}
use pqcscan.Base.Dict.{Eq, bytes_eq, nat_eq, lookup, insert, set_insert}
use pqcscan.Dump.Algorithms.{
  KexAlgo, TlsGroup, AlgorithmDetails, details_eq, pqc_supported_text, or_false, or_dash,
  ssh_status, tls_status,
}
use pqcscan.Dump.Ssh.Sessions.{LinkedHashSet, HostCaps}
use pqcscan.Dump.Tls.Hosts.{HostSets}

abbrev pub Capabilities : Type 0
Capabilities = List (Bytes × List AlgorithmDetails)

-- `entry(host).or_default()`, and `get_mut(host)` behind it
unfoldable pub details_of : Bytes → Capabilities → List AlgorithmDetails
details_of host caps = elim (lookup host caps) [ none ↦ [] | some ds ↦ ds ]

-- The tables of hosts that `main` fills.
pub record HostTables : Type 0 where
  pub hosts : List Bytes
  pub pqc_hosts : List Bytes
  pub ssh_hosts : List Bytes
  pub ssh_hosts_pqc : List (Bytes × Bytes)
  pub ssh_hosts_pqc_algos : Capabilities
  pub tls_hosts : List Bytes
  pub tls_hosts_pqc : List (Bytes × Bytes)
  pub tls_hosts_ciphers : List (Bytes × List Bytes)
  pub tls_host_capabilities : Capabilities

-- The loop over a host's algorithms: `pqc_supported`, and the host's set of details.
unfoldable pub ssh_algos :
    List (Bytes × KexAlgo)
    → List Bytes
    → Bool × List AlgorithmDetails
    → Bool × List AlgorithmDetails
ssh_algos kex_algos [] r = r
ssh_algos kex_algos (alg ∷ algs) (supported, ds) = elim (lookup alg kex_algos) [
  | none ↦ ssh_algos kex_algos algs (supported, ds)
  | some algo ↦ ssh_algos kex_algos algs (
    supported || (algo.pqc || or_false algo.hybrid),
    set_insert
        (record {
          name = alg;
          description = or_dash algo.desc;
          pqc_status = ssh_status algo;
          link = or_dash algo.href;
        })
        ds,
  )
]

-- `if pqc_supported { … } else { … }`: the text, and the set of hosts with support
unfoldable pub support_text : Bool → Bytes
support_text supported = if supported then pqc_supported_text else codes "No Support"

unfoldable pub note_support : Bool → Bytes → List Bytes → List Bytes
note_support supported host pqc_hosts = if supported then set_insert host pqc_hosts else pqc_hosts

-- One host of `host_caps` and its algorithms.
unfoldable pub add_ssh_host : List (Bytes × KexAlgo) → Bytes → List Bytes → HostTables → HostTables
unfolding note_support
add_ssh_host kex_algos host algs s =
    let (supported, ds) = ssh_algos kex_algos algs (false, details_of host s.ssh_hosts_pqc_algos) in
    record s {
      ssh_hosts = set_insert host s.ssh_hosts;
      hosts = set_insert host s.hosts;
      ssh_hosts_pqc_algos = insert host ds s.ssh_hosts_pqc_algos;
      pqc_hosts = note_support supported host s.pqc_hosts;
      ssh_hosts_pqc = insert host (support_text supported) s.ssh_hosts_pqc;
    }

-- The loop over a host's groups.
unfoldable pub tls_algos :
    List (ℕ × TlsGroup) → List ℕ → Bool × List AlgorithmDetails → Bool × List AlgorithmDetails
tls_algos groups [] r = r
tls_algos groups (value ∷ values) (supported, ds) = elim (lookup value groups) [
  | none ↦ tls_algos groups values (supported, ds)
  | some group ↦ tls_algos groups values (
    supported || (group.hybrid || group.pqc),
    set_insert
        (record {
          name = group.name;
          description = group.desc;
          pqc_status = tls_status group;
          link = group.href;
        })
        ds,
  )
]

unfoldable pub add_tls_host : List (ℕ × TlsGroup) → Bytes → List ℕ → HostTables → HostTables
unfolding note_support
add_tls_host groups source_ip values s =
    let (supported, ds) =
      tls_algos groups values (false, details_of source_ip s.tls_host_capabilities) in
    record s {
      hosts = set_insert source_ip s.hosts;
      tls_host_capabilities = insert source_ip ds s.tls_host_capabilities;
      pqc_hosts = note_support supported source_ip s.pqc_hosts;
      tls_hosts_pqc = insert source_ip (support_text supported) s.tls_hosts_pqc;
    }

-- The names of a host's cipher suites, of which `cipher_suites` has those of the known numbers.
unfoldable pub add_ciphers : List (ℕ × Bytes) → List ℕ → List Bytes → List Bytes
add_ciphers cipher_suites [] names = names
add_ciphers cipher_suites (id ∷ ids) names = elim (lookup id cipher_suites) [
  | some name ↦ add_ciphers cipher_suites ids (set_insert name names)
  | none ↦ add_ciphers cipher_suites ids (set_insert (decimal id) names)
]

abbrev pub names_of_host : Bytes → List (Bytes × List Bytes) → List Bytes
names_of_host host table = elim (lookup host table) [ none ↦ [] | some names ↦ names ]

unfoldable pub add_cipher_host : List (ℕ × Bytes) → Bytes → List ℕ → HostTables → HostTables
add_cipher_host cipher_suites source_ip ids s = record s {
  tls_hosts = set_insert source_ip s.tls_hosts;
  tls_hosts_ciphers =
      insert source_ip (add_ciphers cipher_suites ids (names_of_host source_ip s.tls_hosts_ciphers))
        s.tls_hosts_ciphers;
}

-- `tls_hosts_pqc.entry(host).or_insert_with(|| "TLS 1.2")`
unfoldable pub fill_tls12 : List Bytes → List (Bytes × Bytes) → List (Bytes × Bytes)
fill_tls12 [] table = table
fill_tls12 (host ∷ hosts) table = elim (lookup host table) [
  | some _ ↦ fill_tls12 hosts table
  | none ↦ fill_tls12 hosts (insert host (codes "TLS 1.2") table)
]

-- `for (key, values) in &table`, with `key.parse::<SocketAddr>().expect(…).ip().to_string()`
unfoldable pub each_host :
    (Bytes → Option Bytes)
    → (Bytes → List ℕ → HostTables → HostTables)
    → HostSets
    → HostTables
    → Outcome (Unit {0}) HostTables
each_host parse_ip add [] s = ok s
each_host parse_ip add ((key, values) ∷ table) s = elim (parse_ip key) [
  | none ↦ panic
  | some source_ip ↦ each_host parse_ip add table (add source_ip values s)
]

-- The hosts of TLS: their ciphers, their groups, and those without a group.
unfoldable pub add_tls_hosts :
    (Bytes → Option Bytes)
    → List (ℕ × Bytes)
    → List (ℕ × TlsGroup)
    → HostSets
    → HostSets
    → HostTables
    → Outcome (Unit {0}) HostTables
unfolding fill_tls12
add_tls_hosts parse_ip cipher_suites groups tls_ciphers keyshare_groups s = do
  s1 ← each_host parse_ip (add_cipher_host cipher_suites) tls_ciphers s
  s2 ← each_host parse_ip (add_tls_host groups) keyshare_groups s1
  ok (record s2 { tls_hosts_pqc = fill_tls12 s2.tls_hosts s2.tls_hosts_pqc })

module _ (sets : LinkedHashSet) where
  -- `for (host, caps) in &host_caps`
  unfoldable pub add_ssh_hosts : List (Bytes × KexAlgo) → HostCaps sets → HostTables → HostTables
  add_ssh_hosts kex_algos [] s = s
  add_ssh_hosts kex_algos ((host, caps) ∷ rest) s =
      add_ssh_hosts kex_algos rest (add_ssh_host kex_algos host (sets.elements caps) s)

  unfoldable pub gather_hosts :
      (Bytes → Option Bytes)
      → List (Bytes × KexAlgo)
      → List (ℕ × Bytes)
      → List (ℕ × TlsGroup)
      → HostCaps sets
      → HostSets
      → HostSets
      → HostTables
      → Outcome (Unit {0}) HostTables
  gather_hosts parse_ip kex_algos cipher_suites groups host_caps tls_ciphers keyshare_groups s =
      add_tls_hosts parse_ip cipher_suites groups tls_ciphers keyshare_groups
        (add_ssh_hosts kex_algos host_caps s)
