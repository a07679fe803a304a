-- ===== src/Dump/Ssh/Kexinit/Total.antt =====
-- The parser of key exchange messages returns on every payload.
use pqcscan.Base.{
  ℕ, zero, suc, ◌≤◌, ◌≡◌, ◌≢◌, refl, false, not, [], ◌∷◌, Bytes, be32, length, take, drop, ltb,
  ltb→le, le→ltb, Bool-cases, inl, inr, ok, panic, refuse, index, bind-ne-panic, bind-ne-hang,
  refuse-ne-hang, index-ne-hang, hang, slice, refuse-ne-panic, refuse-ok, arith,
}
use pqcscan.Base.Reading.{slice-take, slice-drop, index-ne-panic}
use pqcscan.Base.Utf8.{is_utf8}
use pqcscan.Dump.Ssh.Kexinit.{
  read_u32, read_name_list_owned, skip_name_lists, not_kexinit, parse_ssh_kexinit,
}

pub read_u32-cons :
    (a b c d : ℕ) (rest : Bytes) → read_u32 (a ∷ b ∷ c ∷ d ∷ rest) ≡ ok (be32 a b c d, rest)
unfolding read_u32
read_u32-cons a b c d rest =
    let buf = a ∷ b ∷ c ∷ d ∷ rest in
    rw
      (
        le→ltb (length buf) 4 (omega arith),
        slice-take buf 4 (omega arith),
        slice-drop buf 4 (omega arith),
      )
      refl

read_u32-ne-panic : (bytes : Bytes) → read_u32 bytes ≢ panic
read_u32-ne-panic (a ∷ b ∷ c ∷ d ∷ rest) = rw (read_u32-cons a b c d rest) (λ e. cc)
read_u32-ne-panic [] = unfold read_u32 in λ e. cc
read_u32-ne-panic (a ∷ []) = unfold read_u32 in λ e. cc
read_u32-ne-panic (a ∷ b ∷ []) = unfold read_u32 in λ e. cc
read_u32-ne-panic (a ∷ b ∷ c ∷ []) = unfold read_u32 in λ e. cc

pub read_name_list_owned-ne-panic : (bytes : Bytes) → read_name_list_owned bytes ≢ panic
unfolding read_name_list_owned
read_name_list_owned-ne-panic bytes =
    bind-ne-panic (read_u32 bytes) _ (read_u32-ne-panic bytes) λ r e.
      bind-ne-panic (refuse (ltb (length r.1) r.0) tt) _ (refuse-ne-panic _ tt) λ u fits.
        let fits' = ltb→le _ _ (refuse-ok _ tt fits) in
        rw (slice-take r.1 r.0 fits', slice-drop r.1 r.0 fits')
          (bind-ne-panic (refuse (not (is_utf8 (take r.0 r.1))) tt) _ (refuse-ne-panic _ tt)
            λ u text. λ h. cc)

skip_name_lists-ne-panic : (n : ℕ) (bytes : Bytes) → skip_name_lists n bytes ≢ panic
unfolding skip_name_lists
skip_name_lists-ne-panic zero bytes = λ h. cc
skip_name_lists-ne-panic (suc n) bytes =
    bind-ne-panic (read_name_list_owned bytes) _ (read_name_list_owned-ne-panic bytes)
      λ r e. skip_name_lists-ne-panic n r.1

not_kexinit-ne-panic : (payload : Bytes) → not_kexinit payload ≢ panic
unfolding not_kexinit
not_kexinit-ne-panic payload = elim (Bool-cases (ltb (length payload) 6)) [
  | inl short ↦ rw short (λ h. cc)
  | inr long ↦ rw long (
      bind-ne-panic (index payload 5) _ (index-ne-panic payload 5 (omega (arith, ltb→le _ _ long)))
        λ b e. λ h. cc)
]

not_kexinit-false : (payload : Bytes) → not_kexinit payload ≡ ok false → 6 ≤ length payload
unfolding not_kexinit
not_kexinit-false payload h = ground arith

-- On every payload the parser returns a message or `None`: no index or slice is out of bounds.
pub parse_ssh_kexinit-ne-panic : (payload : Bytes) → parse_ssh_kexinit payload ≢ panic
unfolding parse_ssh_kexinit
parse_ssh_kexinit-ne-panic payload =
    bind-ne-panic (not_kexinit payload) _ (not_kexinit-ne-panic payload) λ skip s.
      bind-ne-panic (refuse skip tt) _ (refuse-ne-panic skip tt) λ u r.
        let is_message : skip ≡ false = refuse-ok skip tt r in
        let long = not_kexinit-false payload (rw is_message at s) in
        rw (slice-drop payload 6 long) (
          bind-ne-panic (refuse (ltb (length (drop 6 payload)) 16) tt) _ (refuse-ne-panic _ tt)
            λ u f. rw (slice-drop (drop 6 payload) 16 (ltb→le _ _ (refuse-ok _ tt f))) (
              bind-ne-panic (read_name_list_owned (drop 16 (drop 6 payload))) _
                (read_name_list_owned-ne-panic _)
                λ l e.
                  bind-ne-panic (skip_name_lists 9 l.1) _ (skip_name_lists-ne-panic 9 l.1)
                    λ x y. λ h. cc))

read_u32-ne-hang : (bytes : Bytes) → read_u32 bytes ≢ hang
read_u32-ne-hang (a ∷ b ∷ c ∷ d ∷ rest) = rw (read_u32-cons a b c d rest) (λ e. cc)
read_u32-ne-hang [] = unfold read_u32 in λ e. cc
read_u32-ne-hang (a ∷ []) = unfold read_u32 in λ e. cc
read_u32-ne-hang (a ∷ b ∷ []) = unfold read_u32 in λ e. cc
read_u32-ne-hang (a ∷ b ∷ c ∷ []) = unfold read_u32 in λ e. cc

slice-ne-hang : (buf : Bytes) (from to : ℕ) → slice {E = Unit {0}} buf from to ≢ hang
unfolding slice
slice-ne-hang buf from to = λ h. ground arith

read_name_list_owned-ne-hang : (bytes : Bytes) → read_name_list_owned bytes ≢ hang
unfolding read_name_list_owned
read_name_list_owned-ne-hang bytes = bind-ne-hang (read_u32 bytes) _ (read_u32-ne-hang bytes) λ r e.
    bind-ne-hang (refuse (ltb (length r.1) r.0) tt) _ (refuse-ne-hang _ tt) λ u fits.
      bind-ne-hang (slice r.1 0 r.0) _ (slice-ne-hang r.1 0 r.0) λ list_bytes e1.
        bind-ne-hang (slice r.1 r.0 (length r.1)) _ (slice-ne-hang r.1 r.0 _) λ rest e2.
          bind-ne-hang (refuse (not (is_utf8 list_bytes)) tt) _ (refuse-ne-hang _ tt) λ u text h. cc

skip_name_lists-ne-hang : (n : ℕ) (bytes : Bytes) → skip_name_lists n bytes ≢ hang
unfolding skip_name_lists
skip_name_lists-ne-hang zero bytes = λ h. cc
skip_name_lists-ne-hang (suc n) bytes =
    bind-ne-hang (read_name_list_owned bytes) _ (read_name_list_owned-ne-hang bytes)
      λ r e. skip_name_lists-ne-hang n r.1

not_kexinit-ne-hang : (payload : Bytes) → not_kexinit payload ≢ hang
unfolding not_kexinit
not_kexinit-ne-hang payload = elim (Bool-cases (ltb (length payload) 6)) [
  | inl short ↦ rw short (λ h. cc)
  | inr long ↦ rw long (bind-ne-hang (index payload 5) _ (index-ne-hang payload 5) λ b e h. cc)
]

pub parse_ssh_kexinit-ne-hang : (payload : Bytes) → parse_ssh_kexinit payload ≢ hang
unfolding parse_ssh_kexinit
parse_ssh_kexinit-ne-hang payload =
    bind-ne-hang (not_kexinit payload) _ (not_kexinit-ne-hang payload) λ skip s.
      bind-ne-hang (refuse skip tt) _ (refuse-ne-hang skip tt) λ u r.
        bind-ne-hang (slice payload 6 (length payload)) _ (slice-ne-hang payload 6 _) λ body e1.
          bind-ne-hang (refuse (ltb (length body) 16) tt) _ (refuse-ne-hang _ tt) λ u e2.
            bind-ne-hang (slice body 16 (length body)) _ (slice-ne-hang body 16 _) λ lists e3.
              bind-ne-hang (read_name_list_owned lists) _ (read_name_list_owned-ne-hang lists)
                λ l e4.
                  bind-ne-hang (skip_name_lists 9 l.1) _ (skip_name_lists-ne-hang 9 l.1) λ x y h. cc
