-- ===== src/Scanner/Ssh/Kexinit/Ends.antt =====
-- The parser of key exchange messages ends on every buffer.
use pqcscan.Base.{
  ℕ, zero, suc, ◌+◌, ◌-◌, ◌%◌, ◌^◌, ◌≢◌, not, [], ◌∷◌, Bytes, length, ltb, ◌==◌, Bool-cases, inl,
  inr, ok, err, panic, hang, refuse, bind-ne-hang, refuse-ne-hang,
}
use pqcscan.Base.Utf8.{is_utf8}
use pqcscan.Scanner.Ssh.Kexinit.{
  Cursor, Reads, read_u8, read_u32, u32_of, read_exact, unwrap, parse_ssh_name_list,
  parse_name_lists, parse_lists, parse_ssh_msg_kexinit, not_utf8, invalid_packet, invalid_type,
  invalid_length, less_than_4_bytes, seek,
}

u32_of-ne-hang : (p : ℕ) (rest : Bytes) → u32_of p rest ≢ hang
unfolding u32_of
u32_of-ne-hang p [] = λ h. cc
u32_of-ne-hang p (a ∷ []) = λ h. cc
u32_of-ne-hang p (a ∷ b ∷ []) = λ h. cc
u32_of-ne-hang p (a ∷ b ∷ c ∷ []) = λ h. cc
u32_of-ne-hang p (a ∷ b ∷ c ∷ d ∷ rest) = λ h. cc

read_u32-ne-hang : (c : Cursor) → read_u32 c ≢ hang
unfolding read_u32
read_u32-ne-hang c = u32_of-ne-hang c.position c.remaining

unwrap-ne-hang : {A : Type 0} (m : Reads A) → m ≢ hang → unwrap m ≢ hang
unfolding unwrap
unwrap-ne-hang (ok a) h = λ e. cc
unwrap-ne-hang (err e) h = λ e. cc
unwrap-ne-hang panic h = λ e. cc
unwrap-ne-hang hang h = h

read_u8-ne-hang :
    (p : ℕ) (rest : Bytes) → read_u8 (record { position = p; remaining = rest }) ≢ hang
unfolding read_u8
read_u8-ne-hang p [] = λ h. cc
read_u8-ne-hang p (b ∷ rest) = λ h. cc

read_exact-ne-hang : (n : ℕ) (c : Cursor) → read_exact n c ≢ hang
unfolding read_exact
read_exact-ne-hang n c = elim (Bool-cases (ltb (length c.remaining) n)) [
  | inl short ↦ rw short (λ h. cc)
  | inr fits ↦ rw fits (λ h. cc)
]

parse_ssh_name_list-ne-hang : (c : Cursor) → parse_ssh_name_list c ≢ hang
unfolding parse_ssh_name_list
parse_ssh_name_list-ne-hang c =
    bind-ne-hang (unwrap (read_u32 c)) _ (unwrap-ne-hang (read_u32 c) (read_u32-ne-hang c)) λ r e.
      bind-ne-hang (read_exact r.0 r.1) _ (read_exact-ne-hang r.0 r.1) λ s e'.
        bind-ne-hang (refuse (not (is_utf8 s.0)) not_utf8) _ (refuse-ne-hang _ _) λ u e'' h. cc

parse_name_lists-ne-hang : (n : ℕ) (c : Cursor) → parse_name_lists n c ≢ hang
unfolding parse_name_lists
parse_name_lists-ne-hang zero c = λ h. cc
parse_name_lists-ne-hang (suc n) c =
    bind-ne-hang (parse_ssh_name_list c) _ (parse_ssh_name_list-ne-hang c)
      λ r e. parse_name_lists-ne-hang n r.1

parse_lists-ne-hang : (bl padding_len : ℕ) (c : Cursor) → parse_lists bl padding_len c ≢ hang
unfolding parse_lists
parse_lists-ne-hang bl padding_len c =
    bind-ne-hang (parse_ssh_name_list c) _ (parse_ssh_name_list-ne-hang c) λ r1 e1.
      bind-ne-hang (parse_ssh_name_list r1.1) _ (parse_ssh_name_list-ne-hang r1.1) λ r2 e2.
        bind-ne-hang (parse_name_lists 8 r2.1) _ (parse_name_lists-ne-hang 8 r2.1) λ c10 e10.
          bind-ne-hang (refuse (not (bl == c10.position + padding_len + 5)) invalid_packet) _
            (refuse-ne-hang _ _) λ u e h. cc

pub parse_ssh_msg_kexinit-ne-hang : (buf : Bytes) → parse_ssh_msg_kexinit buf ≢ hang
unfolding parse_ssh_msg_kexinit
parse_ssh_msg_kexinit-ne-hang buf =
    let bl = length buf % 2 ^ 32 in
    bind-ne-hang (refuse (ltb bl 4) less_than_4_bytes) _ (refuse-ne-hang _ _) λ u e.
      bind-ne-hang (read_u32 (record { position = 0; remaining = buf })) _ (read_u32-ne-hang _)
        λ r e1.
          bind-ne-hang (refuse (ltb (bl - 4) r.0) invalid_length) _ (refuse-ne-hang _ _) λ u1 e2.
            bind-ne-hang (read_u8 r.1) _ (read_u8-ne-hang r.1.position r.1.remaining) λ r2 e3.
              bind-ne-hang (read_u8 r2.1) _ (read_u8-ne-hang r2.1.position r2.1.remaining) λ r3 e4.
                bind-ne-hang (refuse (not (r3.0 == 20)) invalid_type) _ (refuse-ne-hang _ _)
                  λ u4 e5. parse_lists-ne-hang bl r2.0 (seek 16 r3.1)
