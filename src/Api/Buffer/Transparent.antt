-- ===== src/Api/Buffer/Transparent.antt =====
-- The compression of middleware.go with the handler behind it.
use merm.Prelude.{ℕ, ◌≡◌, String, Bool, Option, List, [], ◌∷◌, if◌then◌else◌}
use merm.Api.Buffer.{Header, Sent, varies, drops_length, encodes, writes_header, writes_body}
use merm.Api.Buffer.Sends.{statuses, bytes_of, is_encoded}
use merm.Api.Buffer.Kept.{added}

-- the bytes, when a body marked as encoded is decoded
abbrev pub decoded : (List ℕ → List ℕ) → List Sent → List ℕ
decoded gunzip sent = if is_encoded sent then gunzip (bytes_of sent) else bytes_of sent

module _ (header_get : Header → String → String) (parse_float : String → Option Bool)
    (parse_media_type : String → Option String) (gzip gunzip : List ℕ → List ℕ)
    (gunzip-gzip : (b : List ℕ) → gunzip (gzip b) ≡ b) where
  -- what `finish` sends behind the headers
  abbrev tail : Bool → ℕ → List ℕ → List Sent
  tail compressed n body =
      varies
      ∷ drops_length
      ∷ (if compressed
          then encodes ∷ writes_header n ∷ writes_body (gzip body) ∷ []
          else writes_header n ∷ writes_body body ∷ [])

  -- what is sent: a status, the bytes and the values of the header, and whether the body is marked
  record Delivers (sent : List Sent) (n : ℕ) (bytes : List ℕ) (header : Header) (mark : Bool)
      : Type 0 where
    one : statuses sent ≡ n ∷ []
    all : decoded gunzip sent ≡ bytes
    whole : added sent ≡ header
    marked : is_encoded sent ≡ mark
