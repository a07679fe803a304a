-- ===== src/Across/Hello/Extensions.antt =====
-- The extensions that the scanner adds, each well-formed and, but for the key share, not one that
-- the analyser looks into.
use pqcscan.Base.{
  ℕ, ◌+◌, ◌*◌, ◌≡◌, ◌≢◌, List, [], ◌∷◌, ◌++◌, Bytes, length, length-append, ok, arith, Ensures,
  Ensures-bind,
}
use pqcscan.Scanner.Hello.{
  Build, Extension, ClientHelloBuilder, add_extension, server_name, supported_versions,
  signature_algorithms, status_request, supported_groups, key_share, record_size_limit, extension,
  to_u16, write_extensions, empty_extension,
}
use pqcscan.Across.Hello.{IsU16, IsExtension, Offers, nil, plain, shares}
use pqcscan.Across.Hello.Message.{IsBuilder}

abbrev pub IsPlain : Build Extension → Type 0
IsPlain = Ensures (λ e. IsExtension e × (e.ext_type ≢ 51))

pub extension-IsPlain :
    (ext_type : ℕ) (buf : Bytes) → IsU16 ext_type → ext_type ≢ 51 → IsPlain (extension ext_type buf)
unfolding extension to_u16
extension-IsPlain ext_type buf t n = ground arith

pub any_u16 : (n : ℕ) → Ensures (λ m. Unit {0}) (to_u16 n)
unfolding to_u16
any_u16 n = ground arith

pub server_name-IsPlain : (host : Bytes) → IsPlain (server_name host)
unfolding server_name
server_name-IsPlain host =
    Ensures-bind (λ n. Unit {0}) _ (to_u16 (length host)) _ (any_u16 (length host))
      λ n h. extension-IsPlain 0 _ (omega arith) (omega arith)

pub signature_algorithms-IsPlain : (algos : List ℕ) → IsPlain (signature_algorithms algos)
unfolding signature_algorithms
signature_algorithms-IsPlain algos =
    Ensures-bind (λ n. Unit {0}) _ (to_u16 (length algos * 2)) _ (any_u16 (length algos * 2))
      λ n h. extension-IsPlain 13 _ (omega arith) (omega arith)

pub supported_groups-IsPlain : (groups : List ℕ) → IsPlain (supported_groups groups)
unfolding supported_groups
supported_groups-IsPlain groups =
    Ensures-bind (λ n. Unit {0}) _ (to_u16 (length groups * 2)) _ (any_u16 (length groups * 2))
      λ n h. extension-IsPlain 10 _ (omega arith) (omega arith)

pub write_extensions-append :
    (es : List Extension) (e : Extension)
    → IsExtension e
    → length (write_extensions (es ++ (e ∷ []))) ≡ length (write_extensions es) + (4 + e.ext_len)
unfolding write_extensions
write_extensions-append [] e h = omega (arith, length-append e.payload [], h.exact)
write_extensions-append (x ∷ es) e h = omega (
  arith,
  write_extensions-append es e h,
  length-append x.payload (write_extensions (es ++ (e ∷ []))),
  length-append x.payload (write_extensions es),
)

pub Offers-plain :
    {es : List Extension} {gs : List ℕ} (e : Extension)
    → Offers es gs
    → IsExtension e
    → e.ext_type ≢ 51
    → Offers (es ++ (e ∷ [])) gs
Offers-plain e nil h n = plain h n nil
Offers-plain e (plain x y o) h n = plain x y (Offers-plain e o h n)
Offers-plain e (shares ks a m o) h n = shares ks a m (Offers-plain e o h n)

pub Offers-no_shares :
    {es : List Extension} {gs : List ℕ} (e : Extension)
    → Offers es gs
    → key_share [] ≡ ok e
    → Offers (es ++ (e ∷ [])) gs
Offers-no_shares e nil h = shares [] tt h nil
Offers-no_shares e (plain x y o) h = plain x y (Offers-no_shares e o h)
Offers-no_shares e (shares ks a m o) h = shares ks a m (Offers-no_shares e o h)

pub add_extension-IsBuilder :
    {b : ClientHelloBuilder} {gs : List ℕ} (e : Extension)
    → IsBuilder b gs
    → IsExtension e
    → Offers (b.extensions ++ (e ∷ [])) gs
    → IsBuilder (add_extension b e) gs
unfolding add_extension
add_extension-IsBuilder {b} e good h o = record {
  random_len = good.random_len;
  suites_fit = good.suites_fit;
  offers = o;
  total = omega (arith, good.total, write_extensions-append b.extensions e h);
}

pub supported_versions-IsPlain : IsPlain supported_versions
unfolding supported_versions
supported_versions-IsPlain = omega arith

pub status_request-IsPlain : IsPlain status_request
unfolding status_request
status_request-IsPlain = omega arith

pub record_size_limit-IsPlain : (limit : ℕ) → IsPlain (record_size_limit limit)
unfolding record_size_limit
record_size_limit-IsPlain limit = omega arith

pub empty_extension-IsPlain :
    (ext_type : ℕ) → IsU16 ext_type → ext_type ≢ 51 → IsPlain (empty_extension ext_type)
unfolding empty_extension
empty_extension-IsPlain ext_type t n = (omega arith, n)
