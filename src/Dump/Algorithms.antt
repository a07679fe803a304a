-- ===== src/Dump/Algorithms.antt =====
-- The tables of algorithms that `main` of pqcdump/src/main.rs loads, `AlgorithmDetails`, and the words
-- of the report for what an algorithm is.
use pqcscan.Base.{
  ℕ, Bool, true, false, Option, none, some, Bytes, codes, equal, equal_iff, ◌&&◌, ◌↔◌, ◌≡◌,
  if◌then◌else◌, arith,
}
use pqcscan.Base.Dict.{Eq}

pub record KexAlgo : Type 0 where
  pub pqc : Bool
  pub broken : Bool
  pub hybrid : Option Bool
  pub desc : Option Bytes
  pub href : Option Bytes

pub record TlsGroup : Type 0 where
  pub name : Bytes
  pub group_id : ℕ
  pub pqc : Bool
  pub hybrid : Bool
  pub obsolete : Bool
  pub insecure : Bool
  pub desc : Bytes
  pub href : Bytes

pub record AlgorithmDetails : Type 0 where
  pub name : Bytes
  pub description : Bytes
  pub pqc_status : Bytes
  pub link : Bytes

abbrev pub details_beq : AlgorithmDetails → AlgorithmDetails → Bool
details_beq a b =
    equal a.name b.name
    && equal a.description b.description
    && equal a.pqc_status b.pqc_status
    && equal a.link b.link

pub details_beq_iff : (a b : AlgorithmDetails) → (details_beq a b ≡ true) ↔ (a ≡ b)
details_beq_iff a b = ground (
  arith,
  equal_iff a.name b.name,
  equal_iff a.description b.description,
  equal_iff a.pqc_status b.pqc_status,
  equal_iff a.link b.link,
)

instance abbrev pub details_eq : Eq AlgorithmDetails
details_eq = record { beq = details_beq; beq_iff = details_beq_iff }

abbrev pub pqc_supported_text : Bytes
pqc_supported_text = codes "PQC Supported"

abbrev pub or_false : Option Bool → Bool
or_false none = false
or_false (some b) = b

abbrev pub or_dash : Option Bytes → Bytes
or_dash none = codes "-"
or_dash (some s) = s

-- `description` of an SSH algorithm
unfoldable pub ssh_status : KexAlgo → Bytes
ssh_status algo =
    if or_false algo.hybrid
    then codes "Hybrid"
    else if algo.pqc
    then pqc_supported_text
    else codes "Not PQC Safe"

-- `description` of a group
unfoldable pub tls_status : TlsGroup → Bytes
tls_status group =
    if group.hybrid
    then codes "Hybrid"
    else if group.pqc
    then codes "Pure PQC"
    else codes "Not PQC safe"
