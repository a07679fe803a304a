-- ===== src/Dump/Analysis/HostSets.antt =====
-- The sets of hosts in the results of an analysis hold no host twice.
use pqcscan.Base.{◌≡◌, refl, Bool, true, false, List, Bytes}
use pqcscan.Base.Dict.{bytes_eq, contains}
use pqcscan.Base.Sets.{Distinct, Within, set_insert-Distinct, Within-both, Within-larger}
use pqcscan.Dump.Report.{
  HostTables, note_support, add_ssh_host, ssh_algos, tls_algos, details_of, add_tls_host,
  add_cipher_host,
}
use pqcscan.Dump.Report.Hosts.{IsKept, note_support-Within}
use pqcscan.Dump.Analysis.{no_hosts}

-- The sets of hosts that are counted against all hosts.
pub record IsCounted (s : HostTables) : Type 0 where
  pub pqc_within : Within s.pqc_hosts s.hosts
  pub ssh_within : Within s.ssh_hosts s.hosts
  pub pqc_distinct : Distinct s.pqc_hosts
  pub ssh_distinct : Distinct s.ssh_hosts

note_support-Distinct :
    (supported : Bool) (host : Bytes) (xs : List Bytes)
    → Distinct xs
    → Distinct (note_support supported host xs)
unfolding note_support
note_support-Distinct true host xs h = set_insert-Distinct host xs h
note_support-Distinct false host xs h = h

-- Steps that change other tables.
same_sets :
    (s t : HostTables)
    → t.hosts ≡ s.hosts
    → t.pqc_hosts ≡ s.pqc_hosts
    → t.ssh_hosts ≡ s.ssh_hosts
    → IsCounted s
    → IsCounted t
same_sets s t e p q h = record {
  pqc_within = rw (e, p) h.pqc_within;
  ssh_within = rw (e, q) h.ssh_within;
  pqc_distinct = rw p h.pqc_distinct;
  ssh_distinct = rw q h.ssh_distinct;
}

pub IsCounted-IsKept : IsKept IsCounted
unfolding add_ssh_host add_cipher_host add_tls_host
IsCounted-IsKept = record {
  ssh_host = λ kex_algos host algs s h.
      let supported = (ssh_algos kex_algos algs (false, details_of host s.ssh_hosts_pqc_algos)).0 in
      record {
        pqc_within = note_support-Within supported host s.pqc_hosts s.hosts h.pqc_within;
        ssh_within = Within-both host s.ssh_hosts s.hosts h.ssh_within;
        pqc_distinct = note_support-Distinct supported host s.pqc_hosts h.pqc_distinct;
        ssh_distinct = set_insert-Distinct host s.ssh_hosts h.ssh_distinct;
      };
  cipher_host = λ suites host ids s h. same_sets s _ refl refl refl h;
  tls_host = λ groups host values s h.
      let supported =
        (tls_algos groups values (false, details_of host s.tls_host_capabilities)).0 in
      record {
        pqc_within = note_support-Within supported host s.pqc_hosts s.hosts h.pqc_within;
        ssh_within = Within-larger host s.ssh_hosts s.hosts h.ssh_within;
        pqc_distinct = note_support-Distinct supported host s.pqc_hosts h.pqc_distinct;
        ssh_distinct = h.ssh_distinct;
      };
  texts = λ table s h. same_sets s _ refl refl refl h;
}

pub no_hosts-IsCounted : IsCounted no_hosts
unfolding contains
no_hosts-IsCounted = record {
  pqc_within = λ a k. k;
  ssh_within = λ a k. k;
  pqc_distinct = tt;
  ssh_distinct = tt;
}
