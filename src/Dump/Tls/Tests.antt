-- ===== src/Dump/Tls/Tests.antt =====
-- Runs of the parsers of hello messages.
use pqcscan.Base.{
  ℕ, ◌+◌, ◌≡◌, ◌≢◌, ◌↔◌, [], ◌∷◌, ◌++◌, Bytes, replicate, arith, refl, ok, panic, hang, index,
}
use pqcscan.Dump.Tls.ServerHello.{parse_server_hello_v3}
use pqcscan.Dump.Tls.ServerHello.Ends.{parse_server_hello_v3-ne-hang}
use pqcscan.Dump.Tls.ServerHello.Panics.{parse_server_hello_v3-panic}
use pqcscan.Dump.Tls.ClientHello.{HelloError, parse_ssl_v3_client_hello}
use pqcscan.Dump.Tls.ClientHello.Ends.{parse_ssl_v3_client_hello-ne-hang}
use pqcscan.Dump.Tls.ClientHello.Panics.{Overruns, parse_ssl_v3_client_hello-panic_iff}

-- A message that ends with an odd number of bytes of cipher suites.
abbrev odd_suites : Bytes
odd_suites = replicate 43 0 ++ (0 ∷ 0 ∷ 1 ∷ 7 ∷ [])

parse_ssl_v3_client_hello-ne-hang_example : parse_ssl_v3_client_hello odd_suites ≢ hang
parse_ssl_v3_client_hello-ne-hang_example = parse_ssl_v3_client_hello-ne-hang odd_suites

parse_ssl_v3_client_hello-panic_iff_example :
    (parse_ssl_v3_client_hello odd_suites ≡ panic)
    ↔ ((s : ℕ) × (index {E = HelloError} odd_suites 43 ≡ ok s) × Overruns odd_suites (44 + s))
parse_ssl_v3_client_hello-panic_iff_example = parse_ssl_v3_client_hello-panic_iff odd_suites

-- A ServerHello of TLS 1.2 that ends with the compression method.
abbrev short_server_hello : Bytes
short_server_hello = 22 ∷ 3 ∷ 3 ∷ 0 ∷ 42 ∷ 2 ∷ replicate 41 0

parse_server_hello_v3-ne-hang_example : parse_server_hello_v3 short_server_hello ≢ hang
parse_server_hello_v3-ne-hang_example = parse_server_hello_v3-ne-hang short_server_hello

parse_server_hello_v3-panic_example : parse_server_hello_v3 short_server_hello ≡ panic
unfolding index
parse_server_hello_v3-panic_example =
    parse_server_hello_v3-panic short_server_hello 0 refl refl (omega arith) (omega arith)
