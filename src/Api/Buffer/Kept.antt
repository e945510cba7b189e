-- ===== src/Api/Buffer/Kept.antt =====
-- The header of a handler in the buffered response of middleware.go, and when the response is committed.
use mathlib.Core.List.{append-nil, append_assoc}
use merm.Prelude.{
  ℕ, ◌≡◌, ◌⊎◌, inl, inr, refl, sym, ap, subst, ◌∙◌, String, Bool, true, false, not, ◌||◌, List, [],
  ◌∷◌, ◌++◌, arith, if◌then◌else◌, Bool-cases, ◌==◌,
}
use merm.Api.Buffer.{
  Header, Sent, adds_header, varies, drops_length, encodes, writes_header, writes_body, flushes,
  BufferedResponseWriter, new_writer, values, add_all, or_ok, commit_buffered, begun, begin_flush,
  flush, add_header, write_header, write, Call, adds, sets_status, writes, flushed, serve,
  serve_all,
}
use merm.Api.Buffer.Sends.{begin}
use merm.Api.Buffer.Flushes.{begin_flush-cases}

-- the values of headers that a handler adds
abbrev pub given : List Call → Header
given [] = []
given (adds k v ∷ calls) = (k, v) ∷ given calls
given (_ ∷ calls) = given calls

-- a `Flush` comes behind a value of a header, a status or a `Write`
abbrev pub is_flushed : Bool → List Call → Bool
is_flushed begun [] = false
is_flushed begun (adds k v ∷ calls) = is_flushed true calls
is_flushed begun (sets_status n ∷ calls) = is_flushed (begun || not (n == 0)) calls
is_flushed begun (writes b ∷ calls) = is_flushed true calls
is_flushed begun (flushed ∷ calls) = if begun then true else is_flushed begun calls

-- the values that are added below
abbrev pub added : List Sent → Header
added [] = []
added (adds_header k v ∷ sent) = (k, v) ∷ added sent
added (_ ∷ sent) = added sent

pub added-append : (xs ys : List Sent) → added (xs ++ ys) ≡ added xs ++ added ys
added-append [] ys = refl
added-append (adds_header k v ∷ xs) ys = ap (◌∷◌ (k, v)) (added-append xs ys)
added-append (varies ∷ xs) ys = added-append xs ys
added-append (drops_length ∷ xs) ys = added-append xs ys
added-append (encodes ∷ xs) ys = added-append xs ys
added-append (writes_header n ∷ xs) ys = added-append xs ys
added-append (writes_body b ∷ xs) ys = added-append xs ys
added-append (flushes ∷ xs) ys = added-append xs ys

pub added-add_all : (h : Header) → added (add_all h) ≡ h
added-add_all [] = refl
added-add_all ((k, v) ∷ h) = ap (◌∷◌ (k, v)) (added-add_all h)

-- what is committed is told apart from what is to come
abbrev future : BufferedResponseWriter → List Call → Bool
future w calls = w.committed || is_flushed (begun w) calls

future-flush :
    (w : BufferedResponseWriter) (calls : List Call)
    → future (flush w) calls ≡ future w (flushed ∷ calls)
unfolding flush begin_flush commit_buffered
future-flush w calls = ground arith

future-serve :
    (c : Call) (w : BufferedResponseWriter) (calls : List Call)
    → future (serve c w) calls ≡ future w (c ∷ calls)
unfolding serve add_header write_header write
future-serve (adds k v) w calls = ground arith
future-serve (sets_status n) w calls = ground arith
future-serve (writes b) w calls = ground arith
future-serve flushed w calls = future-flush w calls

-- The header of a handler is on its way.
pub record Keeps (w : BufferedResponseWriter) (header : Header) : Type 0 where
  pub whole : added w.sent ++ (if w.committed then [] else values w.header) ≡ header
  pub fresh : (w.committed ≡ true) ⊎ (added w.sent ≡ [])

-- what `Flush` and `commitBuffered` send below but for headers
added-begin : (n : ℕ) (body : List ℕ) → added (begin n body) ≡ []
added-begin n [] = refl
added-begin n (b ∷ body) = refl

add_header-Keeps :
    (k v : String) (w : BufferedResponseWriter) (h : Header)
    → Keeps w h
    → Keeps (add_header k v w) (h ++ ((k, v) ∷ []))
unfolding add_header
add_header-Keeps k v w h g = elim (Bool-cases w.committed) [
  | inl done ↦
      let more = adds_header k v ∷ [] in
      rw (done, add_header)
        (record {
          whole =
              append-nil (added (w.sent ++ more))
              ∙ (added-append w.sent more
                  ∙ ap (λ l. l ++ added more)
                      (sym (append-nil (added w.sent))
                        ∙ (ap (λ c. added w.sent ++ (if c then [] else values w.header)) (sym done)
                            ∙ g.whole)));
          fresh = inl refl;
        })
  | inr open' ↦
      rw (open', add_header)
        (record {
          whole =
              sym (append_assoc (added w.sent) (values w.header) ((k, v) ∷ []))
              ∙ ap (λ l. l ++ ((k, v) ∷ []))
                  (ap (λ c. added w.sent ++ (if c then [] else values w.header)) (sym open')
                    ∙ g.whole);
          fresh = ground (arith, g.fresh, open');
        })
]

-- what is sent that has no header
also-Keeps :
    (w : BufferedResponseWriter) (h : Header) (more : List Sent)
    → added more ≡ []
    → Keeps w h
    → Keeps (record w { sent = w.sent ++ more }) h
also-Keeps w h more none' g =
    let same =
      added-append w.sent more ∙ (ap (λ l. added w.sent ++ l) none' ∙ append-nil (added w.sent)) in
    record {
      whole = ap (λ l. l ++ (if w.committed then [] else values w.header)) same ∙ g.whole;
      fresh = elim g.fresh [ inl done ↦ inl done | inr nothing ↦ inr (same ∙ nothing) ];
    }

commit_buffered-Keeps :
    (w : BufferedResponseWriter) (h : Header)
    → w.committed ≡ false
    → Keeps w h
    → Keeps (commit_buffered w) h
unfolding commit_buffered
commit_buffered-Keeps w h open' g =
    let rest = begin (or_ok w.status) w.body in
    let all = add_all (values w.header) in
    rw (open', commit_buffered)
      (record {
        whole =
            append-nil (added (w.sent ++ (all ++ rest)))
            ∙ (added-append w.sent (all ++ rest)
                ∙ (ap (λ l. added w.sent ++ l)
                      (added-append all rest
                        ∙ (ap (λ l. added all ++ l) (added-begin (or_ok w.status) w.body)
                            ∙ (append-nil (added all) ∙ added-add_all (values w.header))))
                    ∙ (ap (λ c. added w.sent ++ (if c then [] else values w.header)) (sym open')
                        ∙ g.whole)));
        fresh = inl refl;
      })

write-Keeps :
    (b : List ℕ) (w : BufferedResponseWriter) (h : Header) → Keeps w h → Keeps (write b w) h
unfolding write
write-Keeps b w h g =
    let below = record w { sent = w.sent ++ (writes_body b ∷ []) } in
    let buffered = record w { status = or_ok w.status; body = w.body ++ b } in
    elim (Bool-cases w.committed) [
      | inl done ↦
          subst (λ c. Keeps (if c then below else buffered) h) (sym done)
            (also-Keeps w h (writes_body b ∷ []) refl g)
      | inr open' ↦
          subst (λ c. Keeps (if c then below else buffered) h) (sym open')
            (record { whole = g.whole; fresh = g.fresh })
    ]

write_header-Keeps :
    (n : ℕ) (w : BufferedResponseWriter) (h : Header) → Keeps w h → Keeps (write_header n w) h
unfolding write_header
write_header-Keeps n w h g = elim (Bool-cases (w.status == 0)) [
  | inl unset ↦ rw (unset, write_header) (record { whole = g.whole; fresh = g.fresh })
  | inr set ↦ rw (set, write_header) g
]

flush-Keeps : (w : BufferedResponseWriter) (h : Header) → Keeps w h → Keeps (flush w) h
unfolding flush
flush-Keeps w h g = also-Keeps (begin_flush w) h (flushes ∷ []) refl (elim (begin_flush-cases w) [
  | inr (e, idle) ↦ subst (λ v. Keeps v h) (sym e) g
  | inl (e, open', yes') ↦ subst (λ v. Keeps v h) (sym e) (commit_buffered-Keeps w h open' g)
])

serve-Keeps :
    (c : Call) (w : BufferedResponseWriter) (h : Header)
    → Keeps w h
    → Keeps (serve c w) (h ++ given (c ∷ []))
unfolding serve
serve-Keeps (adds k v) w h g = add_header-Keeps k v w h g
serve-Keeps (sets_status n) w h g =
    subst (Keeps (write_header n w)) (sym (append-nil h)) (write_header-Keeps n w h g)
serve-Keeps (writes b) w h g = subst (Keeps (write b w)) (sym (append-nil h)) (write-Keeps b w h g)
serve-Keeps flushed w h g = subst (Keeps (flush w)) (sym (append-nil h)) (flush-Keeps w h g)

given-step : (c : Call) (calls : List Call) → given (c ∷ calls) ≡ given (c ∷ []) ++ given calls
given-step (adds k v) calls = refl
given-step (sets_status n) calls = refl
given-step (writes b) calls = refl
given-step flushed calls = refl

pub serve_all-Keeps :
    (calls : List Call) (w : BufferedResponseWriter) (h : Header)
    → Keeps w h
    → Keeps (serve_all calls w) (h ++ given calls)
unfolding serve_all
serve_all-Keeps [] w h g = subst (Keeps w) (sym (append-nil h)) g
serve_all-Keeps (c ∷ calls) w h g =
    subst (Keeps (serve_all calls (serve c w)))
      (append_assoc h (given (c ∷ [])) (given calls) ∙ ap (◌++◌ h) (sym (given-step c calls)))
      (serve_all-Keeps calls (serve c w) (h ++ given (c ∷ [])) (serve-Keeps c w h g))

pub new_writer-Keeps : Keeps new_writer []
new_writer-Keeps = record { whole = refl; fresh = inr refl }

-- what is committed when the handler is done
pub committed_iff :
    (calls : List Call) (w : BufferedResponseWriter)
    → (serve_all calls w).committed ≡ (w.committed || is_flushed (begun w) calls)
unfolding serve_all
committed_iff [] w = ground arith
committed_iff (c ∷ calls) w = committed_iff calls (serve c w) ∙ future-serve c w calls

-- A header that is not committed stands in the writer.
pub kept :
    (w : BufferedResponseWriter) (h : Header)
    → w.committed ≡ false
    → Keeps w h
    → (values w.header ≡ h) × (added w.sent ≡ [])
kept w h open' g =
    let nothing : added w.sent ≡ [] = ground (arith, g.fresh, open') in
    (
      sym (ap (λ l. l ++ values w.header) nothing)
          ∙ (ap (λ c. added w.sent ++ (if c then [] else values w.header)) (sym open') ∙ g.whole),
      nothing,
    )

pub committed_header :
    (w : BufferedResponseWriter) (h : Header) → w.committed ≡ true → Keeps w h → added w.sent ≡ h
committed_header w h done g =
    sym (append-nil (added w.sent))
    ∙ (ap (λ c. added w.sent ++ (if c then [] else values w.header)) (sym done) ∙ g.whole)
