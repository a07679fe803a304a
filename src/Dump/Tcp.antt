-- ===== src/Dump/Tcp.antt =====
-- pqcdump/src/tcp.rs: joining the segments of a TCP flow. Sequence numbers are `u32`; additions on
-- them wrap around, as in a release build.
pub mod Stream
pub mod Flows
pub mod Tests
use pqcscan.Base.{
  ℕ, ◌+◌, ◌%◌, ◌^◌, ◌≡◌, Bool, true, false, ◌&&◌, Option, none, some, List, [], ◌∷◌, ◌++◌, arith,
  Bytes, length, ◌==◌, if◌then◌else◌, equal, equal_iff, ◌↔◌, ==_iff,
}
use pqcscan.Base.Dict.{Eq, lookup, insert}

abbrev pub u32_mod : ℕ
u32_mod = 2 ^ 32

pub record TcpFlowKey : Type 0 where
  pub src : Bytes
  pub dst : Bytes
  pub sport : ℕ
  pub dport : ℕ

abbrev pub flow_key_beq : TcpFlowKey → TcpFlowKey → Bool
flow_key_beq a b =
    equal a.src b.src && equal a.dst b.dst && a.sport == b.sport && a.dport == b.dport

pub flow_key_beq_iff : (a b : TcpFlowKey) → (flow_key_beq a b ≡ true) ↔ (a ≡ b)
flow_key_beq_iff a b = ground (arith, equal_iff a.src b.src, equal_iff a.dst b.dst)

instance abbrev pub flow_key_eq : Eq TcpFlowKey
flow_key_eq = record { beq = flow_key_beq; beq_iff = flow_key_beq_iff }

pub record TcpJoiner : Type 0 where
  pub next_seq : ℕ
  pub buffer : Bytes

abbrev pub joiner_new : ℕ → TcpJoiner
joiner_new seq = record { next_seq = seq; buffer = [] }

-- `TcpJoiner::push`: the new state and what is handed on
unfoldable pub joiner_push : TcpJoiner → ℕ → Bytes → TcpJoiner × Option Bytes
joiner_push j seq [] = (j, none)
joiner_push j seq (b ∷ payload) =
    if seq == j.next_seq
    then (
      record { next_seq = (j.next_seq + length (b ∷ payload) % u32_mod) % u32_mod; buffer = [] },
      some (j.buffer ++ (b ∷ payload)),
    )
    else (
      record { next_seq = (seq + length (b ∷ payload) % u32_mod) % u32_mod; buffer = b ∷ payload },
      none,
    )

abbrev pub TcpReassembler : Type 0
TcpReassembler = List (TcpFlowKey × TcpJoiner)

-- `self.flows.entry(key).or_insert_with(|| TcpJoiner::new(seq))`
unfoldable pub stream_of : TcpReassembler → TcpFlowKey → ℕ → TcpJoiner
stream_of flows key seq = elim (lookup key flows) [ none ↦ joiner_new seq | some j ↦ j ]

-- `TcpReassembler::push`
unfoldable pub push : TcpReassembler → TcpFlowKey → ℕ → Bytes → TcpReassembler × Option Bytes
unfolding stream_of
push flows key seq payload =
    let (j, out) = joiner_push (stream_of flows key seq) seq payload in (insert key j flows, out)
