-- ===== src/Dump/Ssh/Sessions/Invariant.antt =====
-- What the session table keeps true, message after message.
use pqcscan.Base.{
  ◌≡◌, ◌≢◌, refl, ap, sym, ◌∙◌, Bool, Option, none, some, Bool-cases, Option-cases, inl, inr, ◌⊎◌,
  arith,
}
use pqcscan.Base.Addr.{IpAddr}
use pqcscan.Base.Dict.{lookup, insert, lookup-insert, lookup-insert_self, lookup-insert_ne}
use pqcscan.Dump.Packet.{TcpSlice}
use pqcscan.Dump.Ssh.Kexinit.{KexInit}
use pqcscan.Dump.Ssh.Sessions.{
  FlowKey, flow_key_eq, flow_key_beq_iff, flow_key_beq, SshSession, default_session, Sessions,
  reversed, find_session, store_kexinit, agree, update_negotiated, LinkedHashSet, HostCaps,
  record_kexinit,
}

-- What is negotiated is what the two sides' messages agree on.
abbrev pub IsSettled : SshSession → Type 0
IsSettled s = s.negotiated ≡ agree s.client_kexinit s.server_kexinit

-- Nothing that is known is forgotten or changed.
pub record Extends (s t : SshSession) : Type 0 where
  pub client : (k : KexInit) → s.client_kexinit ≡ some k → t.client_kexinit ≡ some k
  pub server : (k : KexInit) → s.server_kexinit ≡ some k → t.server_kexinit ≡ some k

abbrev pub TableIsSettled : Sessions → Type 0
TableIsSettled table = (flow : FlowKey) (s : SshSession) → lookup flow table ≡ some s → IsSettled s

-- No flow is in the table in both directions.
abbrev pub IsOneWay : Sessions → Type 0
IsOneWay table =
    (flow : FlowKey) (s : SshSession)
    → flow ≢ reversed flow
    → lookup flow table ≡ some s
    → lookup (reversed flow) table ≡ none

update-store-IsSettled :
    (is_forward : Bool) (s : SshSession) (kex : KexInit)
    → IsSettled s
    → IsSettled (update_negotiated (store_kexinit is_forward s kex))
unfolding update_negotiated store_kexinit agree
update-store-IsSettled is_forward s kex h = ground arith

update-store-Extends :
    (is_forward : Bool) (s : SshSession) (kex : KexInit)
    → Extends s (update_negotiated (store_kexinit is_forward s kex))
unfolding update_negotiated store_kexinit
update-store-Extends is_forward s kex = record {
  client = λ k h. ground arith;
  server = λ k h. ground arith;
}

-- The session that a flow leads to is the table's entry of its key, or a new one for a flow that
-- the table has in neither direction.
record IsNew (flow : FlowKey) (table : Sessions) (key : FlowKey) (s : SshSession) : Type 0 where
  same : key ≡ flow
  default : s ≡ default_session
  forward : lookup flow table ≡ none
  backward : lookup (reversed flow) table ≡ none

find_session_cases :
    (flow : FlowKey) (table : Sessions)
    → (lookup (find_session flow table).0 table ≡ some (find_session flow table).1)
      ⊎ IsNew flow table (find_session flow table).0 (find_session flow table).1
unfolding find_session
find_session_cases flow table = elim (Option-cases (lookup flow table)) [
  | inr (s, e) ↦ inl (rw (e, find_session) e)
  | inl e ↦ elim (Option-cases (lookup (reversed flow) table)) [
    | inr (s, r) ↦ inl (rw (e, find_session) (rw (r, find_session) r))
    | inl r ↦ inr (
        rw (e, find_session)
          (rw (r, find_session)
            (record { same = refl; default = refl; forward = e; backward = r })))
  ]
]

insert-settled :
    (key : FlowKey) (s : SshSession) (table : Sessions)
    → IsSettled s
    → TableIsSettled table
    → TableIsSettled (insert key s table)
insert-settled key s table h all flow t e = elim (Bool-cases (flow_key_beq key flow)) [
  | inl hit ↦ ground (arith, lookup-insert key flow s table)
  | inr miss ↦ all flow t (ground (arith, lookup-insert key flow s table))
]

found-IsSettled :
    (flow : FlowKey) (table : Sessions)
    → TableIsSettled table
    → IsSettled (find_session flow table).1
unfolding agree
found-IsSettled flow table all = elim (find_session_cases flow table) [
  | inl e ↦ all _ _ e
  | inr new ↦ rw new.default refl
]

some-ne-none {ℓ} : {A : Type ℓ} {o : Option A} {a : A} → o ≡ some a → o ≢ none
some-ne-none h k = cc

-- The other direction is not in the table, whichever of the two flows was written.
insert-IsOneWay :
    (key : FlowKey) (t : SshSession) (table : Sessions)
    → (key ≢ reversed key → lookup (reversed key) table ≡ none)
    → IsOneWay table
    → IsOneWay (insert key t table)
insert-IsOneWay key t table back all k s two e = elim (Bool-cases (flow_key_beq key k)) [
  | inl hit ↦
      let same = (flow_key_beq_iff key k).0 hit in
      let apart : key ≢ reversed k = λ x. two (sym same ∙ x) in
      lookup-insert_ne key (reversed k) t table apart ∙ rw (← same) (back (rw (← same) at two))
  | inr miss ↦
      let apart : key ≢ k = λ x. cc ((flow_key_beq_iff key k).1 x) in
      let old : lookup k table ≡ some s = sym (lookup-insert_ne key k t table apart) ∙ e in
      elim (Bool-cases (flow_key_beq key (reversed k))) [
        | inl mirrored ↦
            let same = (flow_key_beq_iff key (reversed k)).0 mirrored in
            let turned : reversed key ≡ k = ap reversed same in
            absurd (some-ne-none old (rw turned at (back (λ x. apart (x ∙ turned)))))
        | inr other ↦
            let apart' : key ≢ reversed k = λ x. cc ((flow_key_beq_iff key (reversed k)).1 x) in
            lookup-insert_ne key (reversed k) t table apart' ∙ all k s two old
      ]
]

found-back :
    (flow : FlowKey) (table : Sessions)
    → IsOneWay table
    → (find_session flow table).0 ≢ reversed (find_session flow table).0
    → lookup (reversed (find_session flow table).0) table ≡ none
found-back flow table all two = elim (find_session_cases flow table) [
  | inl found ↦ all _ _ two found
  | inr new ↦ rw new.same new.backward
]

found_entry :
    (flow : FlowKey) (table : Sessions) (s : SshSession)
    → lookup (find_session flow table).0 table ≡ some s
    → s ≡ (find_session flow table).1
found_entry flow table s e = elim (find_session_cases flow table) [
  | inl found ↦ cc
  | inr new ↦ absurd (some-ne-none e (rw new.same new.forward))
]

-- Writing an entry that extends the one of its key extends what the table holds under each key.
insert-Extends :
    (at key : FlowKey) (u s : SshSession) (table : Sessions)
    → ((v : SshSession) → lookup at table ≡ some v → Extends v u)
    → lookup key table ≡ some s
    → (s' : SshSession) × (lookup key (insert at u table) ≡ some s') × Extends s s'
insert-Extends at key u s table h e = elim (Bool-cases (flow_key_beq at key)) [
  | inl hit ↦
      let same = (flow_key_beq_iff at key).0 hit in
      (u, rw same (lookup-insert_self key u table), h s (rw same e))
  | inr miss ↦
      let apart : at ≢ key = λ x. cc ((flow_key_beq_iff at key).1 x) in
      (
        s,
        lookup-insert_ne at key u table apart ∙ e,
        record { client = λ k c. c; server = λ k c. c },
      )
]

module _ (sets : LinkedHashSet) where
  -- Recording a message keeps every session of the table settled.
  pub record_kexinit-IsSettled :
      (src dst : IpAddr) (t : TcpSlice) (kex : KexInit) (table : Sessions) (caps : HostCaps sets)
      → TableIsSettled table
      → TableIsSettled (record_kexinit sets src dst t kex table caps).0
  unfolding record_kexinit
  record_kexinit-IsSettled src dst t kex table caps all =
      insert-settled _ _ table (update-store-IsSettled _ _ kex (found-IsSettled _ table all)) all

  -- Recording a message puts no flow into the table whose reverse is there.
  pub record_kexinit-IsOneWay :
      (src dst : IpAddr) (t : TcpSlice) (kex : KexInit) (table : Sessions) (caps : HostCaps sets)
      → IsOneWay table
      → IsOneWay (record_kexinit sets src dst t kex table caps).0
  unfolding record_kexinit
  record_kexinit-IsOneWay src dst t kex table caps all =
      insert-IsOneWay _ _ table (found-back _ table all) all

  -- A session that is in the table stays there under its key, and its two messages are never
  -- overwritten.
  pub record_kexinit-Extends :
      (src dst : IpAddr) (t : TcpSlice) (kex : KexInit) (table : Sessions) (caps : HostCaps sets)
      (key : FlowKey) (s : SshSession)
      → lookup key table ≡ some s
      → (s' : SshSession) × (lookup key (record_kexinit sets src dst t kex table caps).0 ≡ some s')
        × Extends s s'
  unfolding record_kexinit
  record_kexinit-Extends src dst t kex table caps key s e =
      insert-Extends _ key _ s table
        (λ v found. rw (found_entry _ table v found) (update-store-Extends _ _ kex)) e
