-- ===== src/Api/Buffer.antt =====
-- internal/api/middleware.go: the buffered response and its compression. What is done to the writer below is
-- the list `sent`. A header is the list of the values that are added to it, by name; `get` of net/http's
-- `Header` is the parameter `header_get`, gzip is the parameter `gzip`. The tests of the headers are those of
-- Headers, with the parameters that they have. `below` is the header of the writer below, as it was.
pub mod Sends
pub mod Calls
pub mod Flushes
pub mod Handler
pub mod Kept
pub mod Transparent
mod Tests
use merm.Prelude.{
  ℕ, String, Bool, true, false, not, ◌&&◌, ◌||◌, Option, none, some, List, [], ◌∷◌, ◌++◌, map,
  if◌then◌else◌, str_eq, ◌==◌, leb, length, ℤ, pos_part, leb_ℤ, pos, is_some,
}
use merm.Strings.{trim_space}
use merm.Api.Headers.{accepts_gzip_encoding, is_compressible_response_type, append_vary_header}

abbrev pub Header : Type 0
Header = List (String × String)

-- a call on the writer below
pub data Sent : Type 0 where
  adds_header : String → String → Sent
  varies : Sent
  drops_length : Sent
  encodes : Sent
  writes_header : ℕ → Sent
  writes_body : List ℕ → Sent
  flushes : Sent

-- `bufferedResponseWriter`; the status is 0 and the header none until they are made
pub record BufferedResponseWriter : Type 0 where
  pub header : Option Header
  pub body : List ℕ
  pub status : ℕ
  pub committed : Bool
  pub sent : List Sent

abbrev pub new_writer : BufferedResponseWriter
new_writer = record { header = none; body = []; status = 0; committed = false; sent = [] }

abbrev pub values : Option Header → Header
values none = []
values (some header) = header

abbrev pub add_all : Header → List Sent
add_all header = map (λ (k, v). adds_header k v) header

abbrev pub is_empty : List ℕ → Bool
is_empty [] = true
is_empty (b ∷ bytes) = false

abbrev pub or_ok : ℕ → ℕ
or_ok status = if status == 0 then 200 else status

-- `commitBuffered`
unfoldable pub commit_buffered : BufferedResponseWriter → BufferedResponseWriter
commit_buffered w = if w.committed then w else record w {
  status = or_ok w.status;
  sent =
      w.sent
      ++ (add_all (values w.header)
          ++ (writes_header (or_ok w.status)
              ∷ (if is_empty w.body then [] else writes_body w.body ∷ [])));
  body = [];
  committed = true;
}

-- something has been made of the response
abbrev pub begun : BufferedResponseWriter → Bool
begun w = not (w.status == 0) || is_some w.header || not (is_empty w.body)

-- `Flush`, up to the call on the writer below
unfoldable pub begin_flush : BufferedResponseWriter → BufferedResponseWriter
begin_flush w = if w.committed then w else if begun w then commit_buffered w else w

-- `Flush`, over a writer that is a `Flusher`
unfoldable pub flush : BufferedResponseWriter → BufferedResponseWriter
flush w = record (begin_flush w) { sent = (begin_flush w).sent ++ (flushes ∷ []) }

-- `Header`, and a value that is added to it
unfoldable pub add_header : String → String → BufferedResponseWriter → BufferedResponseWriter
add_header k v w =
    if w.committed
    then record w { sent = w.sent ++ (adds_header k v ∷ []) }
    else record w { header = some (values w.header ++ ((k, v) ∷ [])) }

-- `WriteHeader`
unfoldable pub write_header : ℕ → BufferedResponseWriter → BufferedResponseWriter
write_header status w = if not (w.status == 0) then w else record w { status = status }

-- `Write`
unfoldable pub write : List ℕ → BufferedResponseWriter → BufferedResponseWriter
write bytes w =
    if w.committed
    then record w { sent = w.sent ++ (writes_body bytes ∷ []) }
    else record w { status = or_ok w.status; body = w.body ++ bytes }

-- what a handler does
pub data Call : Type 0 where
  adds : String → String → Call
  sets_status : ℕ → Call
  writes : List ℕ → Call
  flushed : Call

unfoldable pub serve : Call → BufferedResponseWriter → BufferedResponseWriter
serve (adds k v) w = add_header k v w
serve (sets_status status) w = write_header status w
serve (writes bytes) w = write bytes w
serve flushed w = flush w

unfoldable pub serve_all : List Call → BufferedResponseWriter → BufferedResponseWriter
serve_all [] w = w
serve_all (c ∷ calls) w = serve_all calls (serve c w)

module _ (header_get : Header → String → String) (parse_float : String → Option Bool)
    (parse_media_type : String → Option String) (gzip : List ℕ → List ℕ) where
  -- `shouldCompress`
  unfoldable pub should_compress : ℕ → String → Header → List ℕ → Bool
  should_compress threshold accept_encoding header body =
      accepts_gzip_encoding parse_float accept_encoding
      && str_eq (trim_space (header_get header "Content-Encoding")) ""
      && is_compressible_response_type parse_media_type (header_get header "Content-Type")
      && leb threshold (length body)

  -- `AnalyzeResponseCompressionMiddleware` behind the handler, on a path of an analysis
  unfoldable pub finish : ℤ → String → Header → BufferedResponseWriter → List Sent
  finish threshold_bytes accept_encoding below w =
      let threshold = if leb_ℤ threshold_bytes (pos 0) then 1024 else pos_part threshold_bytes in
      let header = below ++ values w.header in
      let compressed = should_compress threshold accept_encoding header w.body in
      if w.committed
      then w.sent
      else (w.sent
          ++ (add_all (values w.header)
              ++ (varies
                  ∷ drops_length
                  ∷ (if compressed
                      then encodes ∷ writes_header (or_ok w.status) ∷ writes_body (gzip w.body) ∷ []
                      else writes_header (or_ok w.status) ∷ writes_body w.body ∷ []))))
