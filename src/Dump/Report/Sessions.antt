-- ===== src/Dump/Report/Sessions.antt =====
-- The part of `main` of pqcdump/src/main.rs that gathers the negotiated sessions of the report and
-- counts those with post-quantum algorithms. What `SocketAddr`'s parser gives is a parameter.
pub mod Counts
use pqcscan.Base.{
  ℕ, suc, Bool, true, false, ◌||◌, ◌&&◌, Option, none, some, List, [], ◌∷◌, Bytes, codes, ◌==◌,
  ==_iff, equal, equal_iff, ◌↔◌, ◌≡◌, if◌then◌else◌, Outcome, ok, err, panic, hang, ◌>>=◌, arith,
}
use pqcscan.Base.Addr.{ip_text}
use pqcscan.Base.Dict.{Eq, bytes_eq, nat_eq, lookup, insert, set_insert}
use pqcscan.Dump.Ssh.Sessions.{FlowKey, SshSession, NegotiatedAlgorithms, Sessions}
use pqcscan.Dump.Tls.Hosts.{TlsSessionKey}
use pqcscan.Dump.Algorithms.{KexAlgo, TlsGroup, or_false, pqc_supported_text}

-- `SocketAddr`: the text of its address, and its port
pub record SocketAddr : Type 0 where
  pub ip_ : Bytes
  pub port : ℕ

pub record SessionResult : Type 0 where
  pub source : Bytes
  pub source_port : ℕ
  pub destination : Bytes
  pub destination_port : ℕ
  pub algorithm : Bytes
  pub pqc_status : Bytes

abbrev pub result_beq : SessionResult → SessionResult → Bool
result_beq a b =
    equal a.source b.source
    && a.source_port == b.source_port
    && equal a.destination b.destination
    && a.destination_port == b.destination_port
    && equal a.algorithm b.algorithm
    && equal a.pqc_status b.pqc_status

pub result_beq_iff : (a b : SessionResult) → (result_beq a b ≡ true) ↔ (a ≡ b)
result_beq_iff a b = ground (
  arith,
  equal_iff a.source b.source,
  equal_iff a.destination b.destination,
  equal_iff a.algorithm b.algorithm,
  equal_iff a.pqc_status b.pqc_status,
)

instance abbrev pub result_eq : Eq SessionResult
result_eq = record { beq = result_beq; beq_iff = result_beq_iff }

-- A table of results, and how many of the sessions are supported.
pub record SessionTables : Type 0 where
  pub results : List (Bytes × List SessionResult)
  pub pqc_supported_count : ℕ

abbrev pub no_sessions : SessionTables
no_sessions = record { results = []; pqc_supported_count = 0 }

-- `entry(source).or_default()`
unfoldable pub session_results_of : Bytes → List (Bytes × List SessionResult) → List SessionResult
session_results_of source table = elim (lookup source table) [ none ↦ [] | some rs ↦ rs ]

unfoldable pub enter : Bytes → SessionTables → SessionTables
unfolding session_results_of
enter source s = record s {
  results = insert source (session_results_of source s.results) s.results;
}

-- The session is added to its source's results, and counted if it is supported.
unfoldable pub add_session : Bool → SessionResult → SessionTables → SessionTables
unfolding session_results_of
add_session supported r s = record {
  results = insert r.source (set_insert r (session_results_of r.source s.results)) s.results;
  pqc_supported_count = if supported then suc s.pqc_supported_count else s.pqc_supported_count;
}

-- `description` of an SSH session
unfoldable pub session_status : KexAlgo → Bytes
session_status algo =
    if algo.pqc
    then pqc_supported_text
    else if or_false algo.hybrid
    then codes "Hybrid"
    else codes "NOT Supported"

-- A session whose addresses are parsed.
unfoldable pub add_negotiated :
    List (Bytes × KexAlgo) → SocketAddr → SocketAddr → Bytes → SessionTables → SessionTables
unfolding enter
add_negotiated kex_algos src dst kex s = elim (lookup kex kex_algos) [
  | none ↦ enter src.ip_ s
  | some algo ↦
      add_session algo.pqc
        (record {
          source = src.ip_;
          source_port = src.port;
          destination = dst.ip_;
          destination_port = dst.port;
          algorithm = kex;
          pqc_status = session_status algo;
        })
        (enter src.ip_ s)
]

-- One entry of `ssh_sessions`: the addresses are parsed if an algorithm was negotiated.
unfoldable pub add_ssh_session :
    (Bytes → Option SocketAddr)
    → List (Bytes × KexAlgo)
    → FlowKey
    → Option NegotiatedAlgorithms
    → SessionTables
    → Outcome (Unit {0}) SessionTables
add_ssh_session parse kex_algos flow none s = ok s
add_ssh_session parse kex_algos flow (some neg) s = elim (parse flow.src) [
  | none ↦ panic
  | some src ↦ elim (parse flow.dst) [
    | none ↦ panic
    | some dst ↦ ok (add_negotiated kex_algos src dst neg.kex s)
  ]
]

-- `for (flow, session) in &ssh_sessions`
unfoldable pub add_ssh_sessions :
    (Bytes → Option SocketAddr)
    → List (Bytes × KexAlgo)
    → Sessions
    → SessionTables
    → Outcome (Unit {0}) SessionTables
add_ssh_sessions parse kex_algos [] s = ok s
add_ssh_sessions parse kex_algos ((flow, session) ∷ sessions) s = do
  s' ← add_ssh_session parse kex_algos flow session.negotiated s
  add_ssh_sessions parse kex_algos sessions s'

-- `description` of a TLS session
unfoldable pub tls_session_status : TlsGroup → Bytes
tls_session_status group =
    if group.hybrid
    then codes "Hybrid"
    else if group.pqc
    then codes "Pure PQC"
    else codes "NOT Supported"

-- One entry of `tls_sessions`.
unfoldable pub add_tls_session :
    List (ℕ × TlsGroup) → TlsSessionKey → ℕ → SessionTables → SessionTables
unfolding enter
add_tls_session groups key value s = elim (lookup value groups) [
  | none ↦ enter (ip_text key.src_ip) s
  | some group ↦
      add_session (group.hybrid || group.pqc)
        (record {
          source = ip_text key.src_ip;
          source_port = key.src_port;
          destination = ip_text key.dst_ip;
          destination_port = key.dst_port;
          algorithm = group.name;
          pqc_status = tls_session_status group;
        })
        (enter (ip_text key.src_ip) s)
]

-- `for (key, value) in &tls_sessions`
unfoldable pub add_tls_sessions :
    List (ℕ × TlsGroup) → List (TlsSessionKey × ℕ) → SessionTables → SessionTables
add_tls_sessions groups [] s = s
add_tls_sessions groups ((key, value) ∷ sessions) s =
    add_tls_sessions groups sessions (add_tls_session groups key value s)
