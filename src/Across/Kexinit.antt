-- ===== src/Across/Kexinit.antt =====
-- The two parsers of key exchange messages: `parse_ssh_msg_kexinit` of pqcscan/src/ssh.rs and
-- `parse_ssh_kexinit` of pqcdump/src/ssh.rs.
use pqcscan.Base.{
  ℕ, zero, suc, ◌+◌, ◌-◌, ◌%◌, ◌^◌, ◌≤◌, ◌≡◌, refl, ap, ◌∙◌, not, List, [], ◌∷◌, Bytes, be32,
  length, take, drop, length-drop, ltb, ◌==◌, ltb→le, le→ltb, Bool-cases, inl, inr, Outcome, ok,
  err, panic, hang, refuse, refuse-next, bind-eq-ok, index, arith,
}
use pqcscan.Base.Utf8.{is_utf8}
use pqcscan.Base.Reading.{slice-take, slice-drop}
use pqcscan.Scanner.Ssh.Kexinit.{
  Cursor, Reads, KexInitMsg, less_than_4_bytes, invalid_length, invalid_type, read_u8, read_exact,
  seek, unwrap, parse_ssh_name_list, parse_name_lists, parse_lists, parse_ssh_msg_kexinit, u32_of,
}
use pqcscan.Dump.Ssh.Kexinit.{
  read_u32, read_name_list_owned, skip_name_lists, not_kexinit, parse_ssh_kexinit,
}
use pqcscan.Dump.Ssh.Kexinit.Total.{read_u32-cons}
use pqcscan.Scanner.Ssh.Kexinit
use pqcscan.Scanner.Ssh.Kexinit.Runs.{cursor}

-- An outcome with its value changed and its error forgotten.
abbrev forget : {A B : Type 0} → (A → B) → Reads A → Outcome (Unit {0}) B
forget f (ok a) = ok (f a)
forget f (err e) = err tt
forget f panic = panic
forget f hang = hang

-- A list that the scanner reads is one that the analyser reads, with the same rest.
same_list_at :
    (p : ℕ) (bytes : Bytes) {r : List Bytes × Cursor}
    → parse_ssh_name_list (cursor p bytes) ≡ ok r
    → read_name_list_owned bytes ≡ ok (r.0, r.1.remaining)
unfolding parse_ssh_name_list Kexinit.read_u32 u32_of unwrap read_exact read_name_list_owned
same_list_at p [] h = cc
same_list_at p (a ∷ []) h = cc
same_list_at p (a ∷ b ∷ []) h = cc
same_list_at p (a ∷ b ∷ c ∷ []) h = cc
same_list_at p (a ∷ b ∷ c ∷ d ∷ rest) {r} h =
    let n = be32 a b c d in
    rw (read_u32-cons a b c d rest) (elim (Bool-cases (ltb (length rest) n)) [
      | inl short ↦ let h' = rw short at h in absurd (cc)
      | inr fits ↦
          let h' = rw fits at h in
          rw (fits, slice-take rest n (ltb→le _ _ fits), slice-drop rest n (ltb→le _ _ fits))
            (elim (Bool-cases (is_utf8 (take n rest))) [
              | inl text ↦ rw text (ap (forget (λ r. (r.0, r.1.remaining))) (rw text at h'))
              | inr broken ↦ let h'' = rw broken at h' in absurd (cc)
            ])
    ])

same_lists :
    (n : ℕ) (c : Cursor) {c' : Cursor}
    → parse_name_lists n c ≡ ok c'
    → skip_name_lists n c.remaining ≡ ok c'.remaining
unfolding parse_name_lists skip_name_lists
same_lists zero c h = ap (forget (λ r. r.remaining)) h
same_lists (suc n) c h =
    let (r, e, h') = bind-eq-ok (parse_ssh_name_list c) _ h in
    rw (same_list_at c.position c.remaining e) (same_lists n r.1 h')

-- The lists that the scanner reads to the end of a packet, as the analyser reads them.
lists_read :
    (bl padding_len : ℕ) (c : Cursor) (msg : KexInitMsg)
    → parse_lists bl padding_len c ≡ ok msg
    → (rest end : Bytes) × (read_name_list_owned c.remaining ≡ ok (msg.kex_algos, rest))
      × (skip_name_lists 9 rest ≡ ok end)
unfolding parse_lists skip_name_lists
lists_read bl padding_len c msg h =
    let ((kex_algos, c1), e1, h1) = bind-eq-ok (parse_ssh_name_list c) _ h in
    let ((host_key_algos, c2), e2, h2) = bind-eq-ok (parse_ssh_name_list c1) _ h1 in
    let (c10, e10, h10) = bind-eq-ok (parse_name_lists 8 c2) _ h2 in
    let (_, _, h11) = bind-eq-ok (refuse (not (bl == c10.position + padding_len + 5)) _) _ h10 in
    let kept : kex_algos ≡ msg.kex_algos = cc in
    (
      c1.remaining,
      c10.remaining,
      same_list_at c.position c.remaining e1 ∙ ap (λ l. ok (l, c1.remaining)) kept,
      rw (same_list_at c1.position c1.remaining e2) (same_lists 8 c2 e10),
    )

read_name_list_owned-length :
    (bytes : Bytes) {r : List Bytes × Bytes} → read_name_list_owned bytes ≡ ok r → 4 ≤ length bytes
unfolding read_name_list_owned read_u32
read_name_list_owned-length [] h = absurd (cc)
read_name_list_owned-length (a ∷ []) h = absurd (cc)
read_name_list_owned-length (a ∷ b ∷ []) h = absurd (cc)
read_name_list_owned-length (a ∷ b ∷ c ∷ []) h = absurd (cc)
read_name_list_owned-length (a ∷ b ∷ c ∷ d ∷ rest) h = omega arith

-- The analyser's parser on a packet whose kind is that of a key exchange message.
parse_ssh_kexinit-lists :
    (a b c d e : ℕ) (body rest end : Bytes) (names : List Bytes)
    → read_name_list_owned (drop 16 body) ≡ ok (names, rest)
    → skip_name_lists 9 rest ≡ ok end
    → parse_ssh_kexinit (a ∷ b ∷ c ∷ d ∷ e ∷ 20 ∷ body) ≡ ok (record { kex_algorithms = names })
unfolding parse_ssh_kexinit not_kexinit index
parse_ssh_kexinit-lists a b c d e body rest end names h k =
    let long : 16 ≤ length body =
      omega (arith, length-drop 16 body, read_name_list_owned-length (drop 16 body) h) in
    let buf = a ∷ b ∷ c ∷ d ∷ e ∷ 20 ∷ body in
    rw
      (
        le→ltb (length buf) 6 (omega arith),
        slice-drop buf 6 (omega arith),
        le→ltb (length body) 16 long,
        slice-drop body 16 long,
        h,
        k,
      )
      refl

-- Whenever the scanner's parser accepts a packet, the analyser's parser accepts it, and reads the
-- key exchange algorithms that the scanner reads.
pub parse_ssh_kexinit-parse_ssh_msg_kexinit :
    (buf : Bytes) (msg : KexInitMsg)
    → parse_ssh_msg_kexinit buf ≡ ok msg
    → parse_ssh_kexinit buf ≡ ok (record { kex_algorithms = msg.kex_algos })
unfolding parse_ssh_msg_kexinit Kexinit.read_u32 u32_of read_u8 seek
parse_ssh_kexinit-parse_ssh_msg_kexinit [] msg h = cc
parse_ssh_kexinit-parse_ssh_msg_kexinit (a ∷ []) msg h = cc
parse_ssh_kexinit-parse_ssh_msg_kexinit (a ∷ b ∷ []) msg h = cc
parse_ssh_kexinit-parse_ssh_msg_kexinit (a ∷ b ∷ c ∷ []) msg h = cc
parse_ssh_kexinit-parse_ssh_msg_kexinit (a ∷ b ∷ c ∷ d ∷ []) msg h =
    let (_, _, stop) = bind-eq-ok (refuse (ltb 0 (be32 a b c d)) _) _ h in absurd (cc)
parse_ssh_kexinit-parse_ssh_msg_kexinit (a ∷ b ∷ c ∷ d ∷ e ∷ []) msg h =
    let (_, _, stop) = bind-eq-ok (refuse (ltb 1 (be32 a b c d)) _) _ h in absurd (cc)
parse_ssh_kexinit-parse_ssh_msg_kexinit (a ∷ b ∷ c ∷ d ∷ e ∷ kind ∷ body) msg h =
    let bl = length (a ∷ b ∷ c ∷ d ∷ e ∷ kind ∷ body) % 2 ^ 32 in
    let (_, h1) = refuse-next (ltb bl 4) less_than_4_bytes _ h in
    let (_, h2) = refuse-next (ltb (bl - 4) (be32 a b c d)) invalid_length _ h1 in
    let (is_kind, h3) =
      refuse-next (not (kind == 20)) invalid_type (parse_lists bl e (cursor 22 (drop 16 body)))
        h2 in
    let (rest, end, first, others) = lists_read bl e (cursor 22 (drop 16 body)) msg h3 in
    let twenty : kind ≡ 20 = ground (arith, is_kind) in
    rw twenty (parse_ssh_kexinit-lists a b c d e body rest end msg.kex_algos first others)
