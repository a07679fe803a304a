-- ===== src/Dump/Tcp/Flows.antt =====
-- The reassembler over all flows, and what becomes of segments that arrive in order.
use pqcscan.Base.{
  ℕ, ◌+◌, ◌%◌, ◌≡◌, ◌≢◌, refl, ap, some, none, Option, List, [], ◌∷◌, arith, Bytes, length, map,
  ==_refl,
}
use pqcscan.Base.Dict.{lookup, insert, lookup-insert_self, lookup-insert_ne}
use pqcscan.Dump.Tcp.{
  u32_mod, TcpFlowKey, TcpJoiner, joiner_new, joiner_push, TcpReassembler, stream_of, push,
  flow_key_eq,
}

-- A segment of one flow says nothing about the other flows.
pub push_others :
    (flows : TcpReassembler) (key other : TcpFlowKey) (seq : ℕ) (payload : Bytes)
    → key ≢ other
    → lookup other (push flows key seq payload).0 ≡ lookup other flows
unfolding push
push_others flows key other seq payload h = lookup-insert_ne key other _ flows h

-- Pushing the segments of one flow, one after the other.
pub push_all : TcpReassembler → TcpFlowKey → List (ℕ × Bytes) → List (Option Bytes)
push_all flows key [] = []
push_all flows key ((seq, payload) ∷ segs) =
    let (flows', out) = push flows key seq payload in out ∷ push_all flows' key segs

-- Non-empty segments, each beginning where the one before it ends.
abbrev pub InOrder : ℕ → List (ℕ × Bytes) → Type 0
InOrder next [] = Unit {0}
InOrder next ((seq, payload) ∷ segs) =
    (seq ≡ next) × (payload ≢ []) × InOrder ((seq + length payload % u32_mod) % u32_mod) segs

joiner_push_next :
    (seq : ℕ) (payload : Bytes)
    → payload ≢ []
    → joiner_push (joiner_new seq) seq payload
      ≡ (joiner_new ((seq + length payload % u32_mod) % u32_mod), some payload)
unfolding joiner_push
joiner_push_next seq [] h = absurd (h refl)
joiner_push_next seq (b ∷ payload) h = ground (arith, ==_refl seq)

push_next :
    (flows : TcpReassembler) (key : TcpFlowKey) (seq : ℕ) (payload : Bytes)
    → stream_of flows key seq ≡ joiner_new seq
    → payload ≢ []
    → push flows key seq payload
      ≡ (insert key (joiner_new ((seq + length payload % u32_mod) % u32_mod)) flows, some payload)
unfolding push
push_next flows key seq payload e h = rw (e, joiner_push_next seq payload h)

stream_of-insert :
    (flows : TcpReassembler) (key : TcpFlowKey) (j : TcpJoiner) (seq : ℕ)
    → stream_of (insert key j flows) key seq ≡ j
unfolding stream_of
stream_of-insert flows key j seq = rw (lookup-insert_self key j flows, stream_of)

push_all-InOrder :
    (flows : TcpReassembler) (key : TcpFlowKey) (next : ℕ) (segs : List (ℕ × Bytes))
    → stream_of flows key next ≡ joiner_new next
    → InOrder next segs
    → push_all flows key segs ≡ map (λ s. some (s.1)) segs
unfolding push_all
push_all-InOrder flows key next [] e h = refl
push_all-InOrder flows key next ((seq, payload) ∷ segs) e h =
    let e' : stream_of flows key seq ≡ joiner_new seq = rw h.0 e in
    let after = (seq + length payload % u32_mod) % u32_mod in
    rw (push_next flows key seq payload e' h.1) (
      ap (◌∷◌ (some payload)) (
        push_all-InOrder (insert key (joiner_new after) flows) key after segs
          (stream_of-insert flows key (joiner_new after) after) h.2))

-- On a flow not seen before, segments that arrive in order are handed on one by one, each alone:
-- a message that is cut into such segments is never joined.
pub push_all_new_flow :
    (flows : TcpReassembler) (key : TcpFlowKey) (next : ℕ) (segs : List (ℕ × Bytes))
    → lookup key flows ≡ none
    → InOrder next segs
    → push_all flows key segs ≡ map (λ s. some (s.1)) segs
unfolding stream_of
push_all_new_flow flows key next segs fresh h =
    push_all-InOrder flows key next segs (rw (fresh, stream_of)) h
