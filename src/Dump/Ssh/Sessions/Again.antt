-- ===== src/Dump/Ssh/Sessions/Again.antt =====
-- A key exchange message that is recorded a second time.
use pqcscan.Base.{
  ◌≡◌, ◌≢◌, refl, ap, ◌∙◌, Bool, true, false, Option, none, some, Bytes, Option-cases, inl, inr, ok,
  arith, Ensures, Outcome-cases, is_ok, is_err, is_panic, is_hang,
}
use pqcscan.Base.Addr.{IpAddr, ip_text}
use pqcscan.Base.Dict.{lookup, insert, lookup-insert_self, lookup-insert_ne, insert-again}
use pqcscan.Dump.Packet.{ip, arp, TcpSlice, tcp, udp, SlicedPacket}
use pqcscan.Dump.Ssh.Kexinit.{KexInit, parse_ssh_kexinit}
use pqcscan.Dump.Ssh.Sessions.{
  FlowKey, flow_key_eq, SshSession, default_session, Sessions, reversed, find_session, fills,
  store_kexinit, agree, update_negotiated, format_socket_addr, LinkedHashSet, HostCaps,
  record_kexinit, process_ssh,
}

some-ne-none : {A : Type 0} {o : Option A} {a : A} → o ≡ some a → o ≢ none
some-ne-none h k = cc

-- The flow leads to the entry that was written for it, in the same direction.
find_session-insert :
    (flow : FlowKey) (table : Sessions) (s : SshSession)
    → find_session flow (insert (find_session flow table).0 s table)
      ≡ ((find_session flow table).0, s, (find_session flow table).2)
unfolding find_session
find_session-insert flow table s = elim (Option-cases (lookup flow table)) [
  | inr (old, e) ↦
      let found : find_session flow table ≡ (flow, old, true) = rw (e, find_session) refl in
      rw found (rw (lookup-insert_self flow s table, find_session) refl)
  | inl e ↦ elim (Option-cases (lookup (reversed flow) table)) [
    | inl r ↦
        let found : find_session flow table ≡ (flow, default_session, true) =
          rw (e, find_session) (rw (r, find_session) refl) in
        rw found (rw (lookup-insert_self flow s table, find_session) refl)
    | inr (old, r) ↦
        let found : find_session flow table ≡ (reversed flow, old, false) =
          rw (e, find_session) (rw (r, find_session) refl) in
        let apart : reversed flow ≢ flow = λ x. absurd (some-ne-none (rw x at r) e) in
        rw found (
          rw (lookup-insert_ne (reversed flow) flow s table apart ∙ e, find_session)
            (rw (lookup-insert_self (reversed flow) s table, find_session) refl))
  ]
]

updated-fills :
    (is_forward : Bool) (s : SshSession) (kex : KexInit)
    → fills is_forward (update_negotiated (store_kexinit is_forward s kex)) ≡ false
unfolding fills update_negotiated store_kexinit
updated-fills is_forward s kex = ground arith

update_negotiated-again :
    (s : SshSession) → update_negotiated (update_negotiated s) ≡ update_negotiated s
unfolding update_negotiated
update_negotiated-again s = elim (Option-cases s.negotiated) [
  | inr (n, e) ↦ let same : update_negotiated s ≡ s = ground (arith, e) in ap update_negotiated same
  | inl e ↦
      let t : SshSession = record s { negotiated = agree s.client_kexinit s.server_kexinit } in
      let stored : update_negotiated s ≡ t = rw (e, update_negotiated) refl in
      rw stored (elim (Option-cases (agree s.client_kexinit s.server_kexinit)) [
        | inl none_yet ↦
            rw (none_yet, update_negotiated) (ap (λ n. record s { negotiated = n }) none_yet)
        | inr (n, found) ↦
            rw (found, update_negotiated) (ap (λ m. record s { negotiated = m }) found)
      ])
]

store_kexinit-filled :
    (is_forward : Bool) (s : SshSession) (kex : KexInit)
    → fills is_forward s ≡ false
    → store_kexinit is_forward s kex ≡ s
unfolding store_kexinit
store_kexinit-filled is_forward s kex h = rw h refl

abbrev updated : Bool → SshSession → KexInit → SshSession
updated is_forward s kex = update_negotiated (store_kexinit is_forward s kex)

updated-again :
    (is_forward : Bool) (s : SshSession) (kex : KexInit)
    → updated is_forward (updated is_forward s kex) kex ≡ updated is_forward s kex
updated-again is_forward s kex =
    rw
      (store_kexinit-filled is_forward (updated is_forward s kex) kex
        (updated-fills is_forward s kex))
      (update_negotiated-again (store_kexinit is_forward s kex))

module _ (sets : LinkedHashSet) where
  record_kexinit-again :
      (src dst : IpAddr) (t : TcpSlice) (kex : KexInit) (sessions : Sessions) (caps : HostCaps sets)
      → record_kexinit sets src dst t kex
          (record_kexinit sets src dst t kex sessions caps).0
          (record_kexinit sets src dst t kex sessions caps).1
        ≡ record_kexinit sets src dst t kex sessions caps
  unfolding record_kexinit
  record_kexinit-again src dst t kex sessions caps =
      let src_ip = ip_text src in
      let flow : FlowKey = record {
        src = format_socket_addr src_ip t.source_port;
        dst = format_socket_addr (ip_text dst) t.destination_port;
      } in
      let (key, session, is_forward) = find_session flow sessions in
      let new = updated is_forward session kex in
      rw
        (
          find_session-insert flow sessions new,
          updated-fills is_forward session kex,
          updated-again is_forward session kex,
          insert-again key new sessions,
        )
        refl

  pub process_ssh-again :
      (sliced : SlicedPacket) (payload : Bytes) (sessions : Sessions) (caps : HostCaps sets)
      → Ensures
          (λ r. process_ssh sets sliced payload r.0 r.1 ≡ ok r)
          (process_ssh sets sliced payload sessions caps)
  unfolding process_ssh
  process_ssh-again sliced payload sessions caps =
      elim (Outcome-cases (parse_ssh_kexinit payload)) [
        | is_ok kex e ↦
            rw (e, process_ssh)
              (elim (Option-cases sliced.transport) [
                | inl e1 ↦ rw (e1, process_ssh) refl
                | inr (udp, e1) ↦ rw (e1, process_ssh) refl
                | inr (tcp t, e1) ↦
                    rw (e1, process_ssh)
                      (elim (Option-cases sliced.net) [
                        | inl e2 ↦ rw (e2, process_ssh) refl
                        | inr (arp, e2) ↦ rw (e2, process_ssh) refl
                        | inr (ip src dst, e2) ↦
                            rw (e2, process_ssh)
                              (ap ok (record_kexinit-again src dst t kex sessions caps))
                      ])
              ])
        | is_err u e ↦ rw (e, process_ssh) refl
        | is_panic e ↦ rw (e, process_ssh) tt
        | is_hang e ↦ rw (e, process_ssh) tt
      ]
