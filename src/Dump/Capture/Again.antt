-- ===== src/Dump/Capture/Again.antt =====
-- A payload that is processed twice, as `process_packet` does with a segment that arrives in order.
use pqcscan.Base.{
  ◌≡◌, refl, Bool, true, false, Bytes, ◌==◌, if◌then◌else◌, ok, bind-eq-ok, Ensures-ok, index,
}
use pqcscan.Dump.Packet.{TcpSlice, SlicedPacket}
use pqcscan.Dump.Ssh.Kexinit.{ssh_msg_kexinit}
use pqcscan.Dump.Ssh.Sessions.{LinkedHashSet, process_ssh}
use pqcscan.Dump.Ssh.Sessions.Again.{process_ssh-again}
use pqcscan.Dump.Tls.Hosts.{process_ssl_hello}
use pqcscan.Dump.Tls.Hosts.Again.{process_ssl_hello-again}
use pqcscan.Dump.Capture.{Tables, is_hello, add_ssh, add_tls, process_packet_helper}

module _ (sets : LinkedHashSet) where
  SshTaken : SlicedPacket → Bytes → Tables sets → Type 0
  SshTaken sliced payload s =
      process_ssh sets sliced payload s.sessions s.host_caps ≡ ok (s.sessions, s.host_caps)

  TlsTaken : SlicedPacket → Bytes → TcpSlice → Tables sets → Type 0
  TlsTaken sliced payload t s = process_ssl_hello sliced payload t s.tls ≡ ok s.tls

  add_ssh-SshTaken :
      (sliced : SlicedPacket) (payload : Bytes) (s s' : Tables sets)
      → add_ssh sets sliced payload s ≡ ok s'
      → SshTaken sliced payload s'
  unfolding add_ssh SshTaken
  add_ssh-SshTaken sliced payload s s' h =
      let (r, e, h') = bind-eq-ok (process_ssh sets sliced payload s.sessions s.host_caps) _ h in
      let again =
        Ensures-ok (λ r. process_ssh sets sliced payload r.0 r.1 ≡ ok r) _
          (process_ssh-again sets sliced payload s.sessions s.host_caps) e in
      let same0 : r.0 ≡ s'.sessions = cc in
      let same1 : r.1 ≡ s'.host_caps = cc in rw (← same0, ← same1) again

  add_tls-TlsTaken :
      (sliced : SlicedPacket) (payload : Bytes) (t : TcpSlice) (s s' : Tables sets)
      → add_tls sets sliced payload t s ≡ ok s'
      → TlsTaken sliced payload t s' × (s.sessions ≡ s'.sessions) × (s.host_caps ≡ s'.host_caps)
  unfolding add_tls TlsTaken
  add_tls-TlsTaken sliced payload t s s' h =
      let (tls, e, h') = bind-eq-ok (process_ssl_hello sliced payload t s.tls) _ h in
      let same : tls ≡ s'.tls = cc in
      (rw (← same) (process_ssl_hello-again sliced payload t s.tls tls e), cc, cc)

  -- The two steps of `process_packet_helper`, taken again.
  ssh_step-again :
      (is_ssh : Bool) (sliced : SlicedPacket) (payload : Bytes) (s s1 s' : Tables sets)
      → (if is_ssh then add_ssh sets sliced payload s else ok s) ≡ ok s1
      → s1.sessions ≡ s'.sessions
      → s1.host_caps ≡ s'.host_caps
      → (if is_ssh then add_ssh sets sliced payload s' else ok s') ≡ ok s'
  unfolding add_ssh SshTaken
  ssh_step-again true sliced payload s s1 s' h same0 same1 =
      let taken : SshTaken sliced payload s' =
        let before = add_ssh-SshTaken sliced payload s s1 h in simp (same0, same1) at before in
      rw taken refl
  ssh_step-again false sliced payload s s1 s' h same0 same1 = refl

  tls_step-again :
      (is_tls : Bool) (sliced : SlicedPacket) (payload : Bytes) (t : TcpSlice) (s s' : Tables sets)
      → (if is_tls then add_tls sets sliced payload t s else ok s) ≡ ok s'
      → ((if is_tls then add_tls sets sliced payload t s' else ok s') ≡ ok s')
        × (s.sessions ≡ s'.sessions)
        × (s.host_caps ≡ s'.host_caps)
  unfolding add_tls TlsTaken
  tls_step-again true sliced payload t s s' h =
      let (taken, same0, same1) = add_tls-TlsTaken sliced payload t s s' h in
      (rw taken refl, same0, same1)
  tls_step-again false sliced payload t s s' h = (refl, cc, cc)

  -- A payload that the tables have taken in changes nothing in them when it is processed again.
  pub process_packet_helper-again :
      (sliced : SlicedPacket) (payload : Bytes) (t : TcpSlice) (s s' : Tables sets)
      → process_packet_helper sets sliced payload t s ≡ ok s'
      → process_packet_helper sets sliced payload t s' ≡ ok s'
  unfolding process_packet_helper
  process_packet_helper-again sliced payload t s s' h =
      let (kind, e, h1) = bind-eq-ok (index payload 5) _ h in
      let (s1, e1, h2) =
        bind-eq-ok (if kind == ssh_msg_kexinit then add_ssh sets sliced payload s else ok s) _ h1 in
      let (tls, same0, same1) = tls_step-again (is_hello payload) sliced payload t s1 s' h2 in
      rw (e, ssh_step-again (kind == ssh_msg_kexinit) sliced payload s s1 s' e1 same0 same1) tls
