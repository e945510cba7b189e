-- ===== src/Api/Buffer/Tests.antt =====
-- The compression of middleware.go at a concrete handler.

use merm.Prelude.{ℕ, ◌≡◌, refl, String, true, none, some, List, [], ◌∷◌, if◌then◌else◌, str_eq, pos}
use merm.Strings.{split, to_lower, trim_space, cut}
use merm.Api.Headers.{
  accepts_gzip_encoding, accepts_gzip_in, encoding_name, has_zero_or_negative_q_value,
  is_compressible_response_type,
}
use merm.Api.Buffer.{
  Header, Sent, Call, adds, sets_status, writes, new_writer, serve, serve_all, write, write_header,
  add_header, should_compress, finish,
}
use merm.Api.Buffer.Sends.{is_encoded}

abbrev first_value : Header → String → String
first_value [] name = ""
first_value ((k, v) ∷ header) name = if str_eq k name then v else first_value header name

abbrev tail_of : List ℕ → List ℕ
tail_of [] = []
tail_of (b ∷ bytes) = bytes

abbrev reply : List Call
reply = adds "Content-Type" "application/json" ∷ sets_status 422 ∷ writes (123 ∷ 125 ∷ []) ∷ []

abbrev sent : List Sent
sent =
    finish first_value (λ s. none) (λ s. some s) (λ b. 31 ∷ b) (pos 2) "gzip" []
      (serve_all reply new_writer)

is_encoded_example : is_encoded sent ≡ true
unfolding finish serve_all serve write write_header add_header should_compress accepts_gzip_encoding
    accepts_gzip_in split to_lower trim_space encoding_name cut has_zero_or_negative_q_value
    is_compressible_response_type
is_encoded_example = refl
