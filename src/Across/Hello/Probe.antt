-- ===== src/Across/Hello/Probe.antt =====
-- The ClientHello of a probe, read by the analyser.
use pqcscan.Base.{
  ℕ, ◌≡◌, ◌≢◌, refl, List, [], ◌∷◌, ◌++◌, append-nil, append_assoc, Bytes, length, ok, arith, All,
  All-append, ◌∙◌, Ensures, Ensures-bind, bind-eq-ok,
}
use pqcscan.Dump.Tls.ClientHello.{parse_ssl_v3_client_hello}
use pqcscan.Scanner.Hello.{
  Build, Extension, ClientHelloBuilder, new_builder, add_extension, add_compression_method,
  add_cipher_suite, server_name, supported_versions, signature_algorithms, status_request,
  supported_groups, key_share, key_shares_len, write_key_shares, record_size_limit,
  signed_certificate_timestamp, extended_master_secret, compress_certificate, renegotiation_info,
  ec_point_formats, extension, write_extensions,
}
use pqcscan.Scanner.Hello.Config.{with_extension, with_cipher_suites, probe_builder, probe_hello}
use pqcscan.Across.Hello.{IsU16, IsExtension, nil}
use pqcscan.Across.Hello.Extensions.{
  IsPlain, extension-IsPlain, server_name-IsPlain, signature_algorithms-IsPlain,
  supported_groups-IsPlain, supported_versions-IsPlain, status_request-IsPlain,
  record_size_limit-IsPlain, empty_extension-IsPlain, Offers-plain, Offers-no_shares,
  add_extension-IsBuilder,
}
use pqcscan.Across.Hello.Message.{IsBuilder, parse-into_buf}

-- A builder of the probe: its suites are `cs`, and it offers no keys.
abbrev IsProbe : List ℕ → ClientHelloBuilder → Type 0
IsProbe cs b = IsBuilder b [] × (b.cipher_suites ≡ cs)

with_extension-IsProbe :
    (cs : List ℕ) (b : ClientHelloBuilder) (m : Build Extension)
    → IsProbe cs b
    → IsPlain m
    → Ensures (IsProbe cs) (with_extension b m)
unfolding with_extension
with_extension-IsProbe cs b m good h =
    Ensures-bind (λ e. IsExtension e × (e.ext_type ≢ 51)) (IsProbe cs) m _ h
      λ e p. (
        add_extension-IsBuilder e good.0 p.0 (Offers-plain e good.0.offers p.0 p.1),
        unfold add_extension in good.1,
      )

no_key_share : Extension
no_key_share = record { ext_type = 51; ext_len = 2; payload = 0 ∷ 0 ∷ [] }

key_share-nil : key_share [] ≡ ok no_key_share
unfolding key_share extension key_shares_len write_key_shares no_key_share
key_share-nil = refl

with_key_share-IsProbe :
    (cs : List ℕ) (b : ClientHelloBuilder)
    → IsProbe cs b
    → Ensures (IsProbe cs) (with_extension b (key_share []))
unfolding with_extension no_key_share
with_key_share-IsProbe cs b good = rw key_share-nil (
  add_extension-IsBuilder no_key_share good.0 (omega arith)
      (Offers-no_shares no_key_share good.0.offers key_share-nil),
  unfold add_extension in good.1,
)

with_cipher_suites-IsBuilder :
    (cs : List ℕ) (b : ClientHelloBuilder)
    → All IsU16 cs
    → IsBuilder b []
    → IsBuilder (with_cipher_suites b cs) []
      × ((with_cipher_suites b cs).cipher_suites ≡ b.cipher_suites ++ cs)
unfolding with_cipher_suites add_cipher_suite
with_cipher_suites-IsBuilder [] b h good = (good, rw append-nil)
with_cipher_suites-IsBuilder (c ∷ cs) b h good =
    let added : IsBuilder (record b { cipher_suites = b.cipher_suites ++ (c ∷ []) }) [] = record {
      random_len = good.random_len;
      suites_fit = All-append IsU16 b.cipher_suites (c ∷ []) good.suites_fit (h.0, tt);
      offers = good.offers;
      total = good.total;
    } in
    let (all, same) =
      with_cipher_suites-IsBuilder cs (record b { cipher_suites = b.cipher_suites ++ (c ∷ []) }) h.1
        added in
    (all, same ∙ append_assoc b.cipher_suites (c ∷ []) cs)

-- The probe's builder has the configured suites and offers no key.
probe_builder-IsProbe :
    (random session_id : Bytes) (ciphers sigschemes : List ℕ) (host : Bytes) (group : ℕ)
    → length random ≡ 32
    → All IsU16 ciphers
    → Ensures (IsProbe ciphers) (probe_builder random session_id ciphers sigschemes host group)
unfolding probe_builder add_compression_method signed_certificate_timestamp extended_master_secret
    compress_certificate renegotiation_info ec_point_formats
probe_builder-IsProbe random session_id ciphers sigschemes host group r h =
    let next =
      λ (b : ClientHelloBuilder) (m : Build Extension) (p : IsPlain m) (g : IsProbe ciphers b).
        with_extension-IsProbe ciphers b m g p in
    let empty : IsBuilder (new_builder random session_id) [] = record {
      random_len = r;
      suites_fit = tt;
      offers = nil;
      total = unfold write_extensions in refl;
    } in
    let (all, same) =
      with_cipher_suites-IsBuilder ciphers (new_builder random session_id) h empty in
    let all' : IsBuilder
        (record (with_cipher_suites (new_builder random session_id) ciphers) {
          compression_methods =
              (with_cipher_suites (new_builder random session_id) ciphers).compression_methods
              ++ (0 ∷ []);
        })
        [] =
      record {
        random_len = all.random_len;
        suites_fit = all.suites_fit;
        offers = all.offers;
        total = all.total;
      } in
    let P = IsProbe ciphers in
    let chb =
      add_compression_method (with_cipher_suites (new_builder random session_id) ciphers) 0 in
    let start : P chb = (all', same) in
    Ensures-bind P P _ _ (next chb (server_name host) (server_name-IsPlain host) start) λ b1 g1.
      Ensures-bind P P _ _ (next b1 (supported_versions) (supported_versions-IsPlain) g1) λ b2 g2.
        Ensures-bind P P _ _
          (next b2 (signature_algorithms sigschemes) (signature_algorithms-IsPlain sigschemes) g2)
          λ b3 g3.
            Ensures-bind P P _ _ (next b3 (status_request) (status_request-IsPlain) g3) λ b4 g4.
              Ensures-bind P P _ _
                (next b4 (supported_groups (group ∷ [])) (supported_groups-IsPlain (group ∷ [])) g4)
                λ b5 g5. Ensures-bind P P _ _ (with_key_share-IsProbe ciphers b5 g5) λ b6 g6.
                  Ensures-bind P P _ _
                    (next b6 (record_size_limit 16385) (record_size_limit-IsPlain 16385) g6)
                    λ b7 g7.
                      Ensures-bind P P _ _
                        (next b7 (signed_certificate_timestamp)
                          (empty_extension-IsPlain 18 (omega arith) (omega arith)) g7)
                        λ b8 g8.
                          Ensures-bind P P _ _
                            (next b8 (extended_master_secret)
                              (empty_extension-IsPlain 23 (omega arith) (omega arith)) g8)
                            λ b9 g9.
                              Ensures-bind P P _ _
                                (next b9 (compress_certificate)
                                  (extension-IsPlain 27 _ (omega arith) (omega arith)) g9)
                                λ b10 g10.
                                  Ensures-bind P P _ _
                                    (next b10 (renegotiation_info)
                                      (extension-IsPlain 65281 _ (omega arith) (omega arith)) g10)
                                    λ b11 g11.
                                      next b11 ec_point_formats
                                        (extension-IsPlain 11 _ (omega arith) (omega arith)) g11

-- A probe that is sent is read by the analyser as a ClientHello with the configured suites and no
-- key shares, whatever the host, the group and the signature schemes are.
pub parse-probe_hello :
    (random session_id : Bytes) (ciphers sigschemes : List ℕ) (host : Bytes) (group : ℕ)
    {out : Bytes}
    → length random ≡ 32
    → All IsU16 ciphers
    → probe_hello random session_id ciphers sigschemes host group ≡ ok out
    → parse_ssl_v3_client_hello out ≡ ok (record { ciphers = ciphers; keyshare_groups = [] })
unfolding probe_hello
parse-probe_hello random session_id ciphers sigschemes host group r h e =
    let built = probe_builder random session_id ciphers sigschemes host group in
    let (chb, b, w) = bind-eq-ok built _ e in
    let good : IsProbe ciphers chb =
      rw b at (probe_builder-IsProbe random session_id ciphers sigschemes host group r h) in
    parse-into_buf chb [] good.0 w ∙ rw (good.1)
