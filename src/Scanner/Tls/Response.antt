-- ===== src/Scanner/Tls/Response.antt =====
-- The half of `tls_connect_with_group` of pqcscan/src/tls.rs behind the ClientHello: what it reads
-- of the server's answer.
pub mod Accepted
pub mod Ends
use pqcscan.Base.{
  ℕ, ◌+◌, Bool, true, false, not, Option, none, some, List, [], ◌∷◌, Bytes, be16, be24, length,
  get_elem?, ltb, ◌==◌, if◌then◌else◌, Outcome, ok, err, panic, hang, ◌>>=◌, ◌>>◌, refuse,
}
use pqcscan.Base.Dict.{nat_eq, lookup}
use pqcscan.Scanner.Hello.{Build, BuildError}
use pqcscan.Scanner.Hello.Config.{probe_hello}
use pqcscan.Scanner.Tls.Alerts.{tls_alerts}

pub data TlsError : Type 0 where
  hello_failed : BuildError → TlsError
  write_failed read_failed : Bytes → TlsError
  short_handshake short_alert bad_version not_server_hello bad_length : TlsError
  alert_length alert_level : TlsError
  alert : Bytes → TlsError
  unknown_alert : ℕ → TlsError
  unexpected_content_type : TlsError

-- The byte at an offset of the buffer, which holds 5000 zeros before `read` puts bytes at its start.
-- The cursor reads the first eleven only, and so does not reach the buffer's end.
unfoldable pub byte_at : Bytes → ℕ → ℕ
byte_at got i = elim (get_elem? got i) [ none ↦ 0 | some b ↦ b ]

-- `read_u16`, and `read_u24`
abbrev pub u16_at : Bytes → ℕ → ℕ
u16_at got i = be16 (byte_at got i) (byte_at got (i + 1))

abbrev pub u24_at : Bytes → ℕ → ℕ
u24_at got i = be24 (byte_at got i) (byte_at got (i + 1)) (byte_at got (i + 2))

-- The branch of a handshake record.
unfoldable pub read_handshake : Bytes → Outcome TlsError (Unit {0})
read_handshake got = do
  refuse (ltb (length got) 5) short_handshake
  refuse (not (u16_at got 1 == 0x0303)) bad_version
  refuse (not (byte_at got 5 == 2)) not_server_hello
  refuse (not (u24_at got 6 + 4 == u16_at got 3)) bad_length
  refuse (not (u16_at got 9 == 0x0303)) bad_version
  ok tt

-- The error of an alert's description.
unfoldable pub alert_error : ℕ → TlsError
alert_error desc = elim (lookup desc tls_alerts) [
  | some name ↦ alert name
  | none ↦ unknown_alert desc
]

-- The branch of an alert record.
unfoldable pub read_alert : Bytes → Outcome TlsError (Unit {0})
unfolding alert_error
read_alert got = do
  refuse (ltb (length got) 5) short_alert
  refuse (not (u16_at got 1 == 0x0303)) bad_version
  refuse (not (u16_at got 3 == 2)) alert_length
  refuse (not (byte_at got 5 == 2)) alert_level
  err (alert_error (byte_at got 6))

unfoldable pub read_response : Bytes → Outcome TlsError (Unit {0})
unfolding read_handshake read_alert
read_response got =
    if byte_at got 0 == 0x16
    then read_handshake got
    else if byte_at got 0 == 0x15
    then read_alert got
    else err unexpected_content_type

-- What the peer does with the ClientHello: the result of `write` and of `read`.
pub data Answer : Type 0 where
  no_write no_read : Bytes → Answer
  answered : Bytes → Answer

unfoldable pub on_answer : Answer → Outcome TlsError (Unit {0})
on_answer (no_write e) = err (write_failed e)
on_answer (no_read e) = err (read_failed e)
on_answer (answered got) = read_response got

-- The error of the builder, as one of the connection.
unfoldable pub built : Build Bytes → Outcome TlsError Bytes
built (ok hello) = ok hello
built (err e) = err (hello_failed e)
built panic = panic
built hang = hang

-- The 32 random bytes and the session id are what the random number generator gives.
unfoldable pub tls_connect_with_group :
    Bytes → Bytes → List ℕ → List ℕ → Bytes → ℕ → (Bytes → Answer) → Outcome TlsError (Unit {0})
tls_connect_with_group random session_id ciphers sigschemes host group peer = do
  hello ← built (probe_hello random session_id ciphers sigschemes host group)
  on_answer (peer hello)
