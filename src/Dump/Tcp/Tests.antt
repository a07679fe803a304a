-- ===== src/Dump/Tcp/Tests.antt =====
-- Runs of the reassembler on small flows.
use pqcscan.Base.{◌+◌, ◌%◌, ◌≡◌, refl, some, [], ◌∷◌, arith, Bytes, codes}
use pqcscan.Base.Reading.{At-start}
use pqcscan.Base.Dict.{lookup}
use pqcscan.Dump.Tcp.{u32_mod, TcpFlowKey, flow_key_eq, joiner_new, joiner_push}
use pqcscan.Dump.Tcp.Stream.{IsPart, Tracks, Delivers, joiner_new-Tracks, joiner_push-Tracks}
use pqcscan.Dump.Tcp.Flows.{push_all, push_all_new_flow}

abbrev flow_a : TcpFlowKey
flow_a = record { src = codes "10.0.0.1"; dst = codes "10.0.0.2"; sport = 40000; dport = 22 }

abbrev flow_b : TcpFlowKey
flow_b = record { src = codes "10.0.0.1"; dst = codes "10.0.0.2"; sport = 40001; dport = 22 }

push_all_new_flow_example :
    push_all [] flow_a ((7, 1 ∷ 2 ∷ []) ∷ (9, 3 ∷ []) ∷ []) ≡ some (1 ∷ 2 ∷ []) ∷ some (3 ∷ []) ∷ []
unfolding lookup
push_all_new_flow_example =
    push_all_new_flow [] flow_a 7 ((7, 1 ∷ 2 ∷ []) ∷ (9, 3 ∷ []) ∷ []) refl
      (refl, (λ e. absurd (cc)), (refl, (λ e. absurd (cc)), tt))

abbrev stream : Bytes
stream = 5 ∷ 6 ∷ 7 ∷ []

whole : IsPart stream 0 stream
whole = record { after = []; at = At-start stream }

joiner_push-Tracks_example :
    Tracks stream 4294967295
      (joiner_push (joiner_new 4294967295) ((4294967295 + 0) % u32_mod) stream).0
    × Delivers stream
        (0 + 3)
        (joiner_push (joiner_new 4294967295) ((4294967295 + 0) % u32_mod) stream).1
joiner_push-Tracks_example =
    joiner_push-Tracks stream 4294967295 (omega arith) (joiner_new 4294967295) 0 stream
      (joiner_new-Tracks stream 4294967295 (omega arith) 0 stream whole) whole
