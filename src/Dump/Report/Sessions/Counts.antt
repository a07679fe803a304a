-- ===== src/Dump/Report/Sessions/Counts.antt =====
-- The counts of supported sessions against the counts of all sessions.
use pqcscan.Base.{
  ℕ, suc, ◌+◌, ◌≤◌, ◌≡◌, Bool, true, false, ◌||◌, Option, none, some, List, [], ◌∷◌, Bytes, length,
  Option-cases, inl, inr, Holds, Holds-bind, arith,
}
use pqcscan.Base.Addr.{ip_text}
use pqcscan.Base.Dict.{bytes_eq, nat_eq, lookup}
use pqcscan.Dump.Ssh.Sessions.{FlowKey, NegotiatedAlgorithms, Sessions}
use pqcscan.Dump.Tls.Hosts.{TlsSessionKey}
use pqcscan.Dump.Algorithms.{KexAlgo, TlsGroup}
use pqcscan.Dump.Report.Sessions.{
  SocketAddr, SessionResult, SessionTables, enter, add_session, add_negotiated, add_ssh_session,
  add_ssh_sessions, add_tls_session, add_tls_sessions,
}

-- At most `n` of the sessions are counted.
abbrev pub Counts : ℕ → SessionTables → Type 0
Counts n s = s.pqc_supported_count ≤ n

add_session-Counts :
    (supported : Bool) (r : SessionResult) (s : SessionTables) (n : ℕ)
    → Counts n s
    → Counts (suc n) (add_session supported r s)
unfolding add_session
add_session-Counts true r s n h = omega (arith, h)
add_session-Counts false r s n h = omega (arith, h)

enter-Counts : (source : Bytes) (s : SessionTables) (n : ℕ) → Counts n s → Counts n (enter source s)
unfolding enter
enter-Counts source s n h = h

add_negotiated-Counts :
    (kex_algos : List (Bytes × KexAlgo)) (src dst : SocketAddr) (kex : Bytes) (s : SessionTables)
    (n : ℕ)
    → Counts n s
    → Counts (suc n) (add_negotiated kex_algos src dst kex s)
unfolding add_negotiated
add_negotiated-Counts kex_algos src dst kex s n h = elim (Option-cases (lookup kex kex_algos)) [
  | inl e ↦ rw (e, add_negotiated) (omega (arith, enter-Counts src.ip_ s n h))
  | inr (algo, e) ↦
      rw (e, add_negotiated) (add_session-Counts algo.pqc _ _ n (enter-Counts src.ip_ s n h))
]

add_ssh_session-Counts :
    (parse : Bytes → Option SocketAddr) (kex_algos : List (Bytes × KexAlgo)) (flow : FlowKey)
    (neg : Option NegotiatedAlgorithms) (s : SessionTables) (n : ℕ)
    → Counts n s
    → Holds (Counts (suc n)) (add_ssh_session parse kex_algos flow neg s)
unfolding add_ssh_session
add_ssh_session-Counts parse kex_algos flow none s n h = omega (arith, h)
add_ssh_session-Counts parse kex_algos flow (some neg) s n h =
    elim (Option-cases (parse flow.src)) [
      | inl e ↦ rw (e, add_ssh_session) tt
      | inr (src, e) ↦ elim (Option-cases (parse flow.dst)) [
        | inl e' ↦ rw (e, add_ssh_session) (rw (e', add_ssh_session) tt)
        | inr (dst, e') ↦
            rw (e, add_ssh_session)
              (rw (e', add_ssh_session) (add_negotiated-Counts kex_algos src dst neg.kex s n h))
      ]
    ]

pub add_ssh_sessions-Counts :
    (parse : Bytes → Option SocketAddr) (kex_algos : List (Bytes × KexAlgo)) (sessions : Sessions)
    (s : SessionTables) (n m : ℕ)
    → Counts n s
    → n + length sessions ≡ m
    → Holds (Counts m) (add_ssh_sessions parse kex_algos sessions s)
unfolding add_ssh_sessions
add_ssh_sessions-Counts parse kex_algos [] s n m h e = omega (arith, h, e)
add_ssh_sessions-Counts parse kex_algos ((flow, session) ∷ sessions) s n m h e =
    Holds-bind (Counts (suc n)) (Counts m)
      (add_ssh_session parse kex_algos flow session.negotiated s) _
      (add_ssh_session-Counts parse kex_algos flow session.negotiated s n h)
      λ s' h'. add_ssh_sessions-Counts parse kex_algos sessions s' (suc n) m h' (omega (arith, e))

add_tls_session-Counts :
    (groups : List (ℕ × TlsGroup)) (key : TlsSessionKey) (value : ℕ) (s : SessionTables) (n : ℕ)
    → Counts n s
    → Counts (suc n) (add_tls_session groups key value s)
unfolding add_tls_session
add_tls_session-Counts groups key value s n h = elim (Option-cases (lookup value groups)) [
  | inl e ↦ rw (e, add_tls_session) (omega (arith, enter-Counts (ip_text key.src_ip) s n h))
  | inr (group, e) ↦
      rw (e, add_tls_session)
        (add_session-Counts (group.hybrid || group.pqc) _ _ n
          (enter-Counts (ip_text key.src_ip) s n h))
]

pub add_tls_sessions-Counts :
    (groups : List (ℕ × TlsGroup)) (sessions : List (TlsSessionKey × ℕ)) (s : SessionTables)
    (n m : ℕ)
    → Counts n s
    → n + length sessions ≡ m
    → Counts m (add_tls_sessions groups sessions s)
unfolding add_tls_sessions
add_tls_sessions-Counts groups [] s n m h e = omega (arith, h, e)
add_tls_sessions-Counts groups ((key, value) ∷ sessions) s n m h e =
    add_tls_sessions-Counts groups sessions _ (suc n) m
      (add_tls_session-Counts groups key value s n h) (omega (arith, e))
