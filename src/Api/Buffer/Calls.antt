-- ===== src/Api/Buffer/Calls.antt =====
-- The calls of a handler on the buffered response of middleware.go, one by one.
use mathlib.Core.List.{append-nil, append_assoc}
use merm.Prelude.{
  ℕ, ◌≡◌, ◌⊎◌, inl, inr, refl, sym, ap, ◌∙◌, String, Bool, true, false, List, [], ◌∷◌, ◌++◌, arith,
  if◌then◌else◌, Bool-cases, ◌==◌, is_some,
}
use merm.Api.Buffer.{
  adds_header, writes_body, BufferedResponseWriter, begun, add_header, write_header, write, Call,
  adds, sets_status, writes, flushed,
}
use merm.Api.Buffer.Sends.{
  statuses, bytes_of, is_encoded, statuses-append, bytes_of-append, is_encoded-append,
}

-- the status of a handler: that of the first call that gives or implies one, which a `Flush` does where a
-- header has been made
abbrev pub status_from : Bool → List Call → ℕ
status_from begun [] = 0
status_from begun (adds k v ∷ calls) = status_from true calls
status_from begun (sets_status n ∷ calls) = if n == 0 then status_from begun calls else n
status_from begun (writes b ∷ calls) = 200
status_from begun (flushed ∷ calls) = if begun then 200 else status_from begun calls

-- the bytes that it writes
abbrev pub written : List Call → List ℕ
written [] = []
written (writes b ∷ calls) = b ++ written calls
written (_ ∷ calls) = written calls

-- What holds between the calls.
pub record IsGood (w : BufferedResponseWriter) : Type 0 where
  pub plain : is_encoded w.sent ≡ false
  pub wrote : ((w.status == 0) ≡ false) ⊎ (w.body ≡ [])
  pub before : (w.committed ≡ true) ⊎ ((statuses w.sent ≡ []) × (bytes_of w.sent ≡ []))
  pub after :
      (w.committed ≡ false)
      ⊎ ((statuses w.sent ≡ w.status ∷ []) × ((w.status == 0) ≡ false) × (w.body ≡ []))

-- the status that the calls to come end with
abbrev pub outcome : BufferedResponseWriter → List Call → ℕ
outcome w calls = if w.status == 0 then status_from (is_some w.header) calls else w.status

-- what the handler has written
abbrev pub content : BufferedResponseWriter → List ℕ
content w = bytes_of w.sent ++ w.body

pub record Serves (c : Call) (w v : BufferedResponseWriter) : Type 0 where
  pub good : IsGood v
  pub status : (calls : List Call) → outcome v calls ≡ outcome w (c ∷ calls)
  pub body : content v ≡ content w ++ written (c ∷ [])

pub write_header-Serves :
    (n : ℕ) (w : BufferedResponseWriter) → IsGood w → Serves (sets_status n) w (write_header n w)
unfolding write_header
write_header-Serves n w g = elim (Bool-cases (w.status == 0)) [
  | inr set ↦
      rw (set, write_header)
        (record {
          good = g;
          status = λ calls. ground (arith, set);
          body = sym (append-nil (content w));
        })
  | inl unset ↦
      rw (unset, write_header)
        (record {
          good = record {
            plain = g.plain;
            wrote = ground (arith, g.wrote, unset);
            before = g.before;
            after = ground (arith, g.after, unset);
          };
          status = λ calls. ground (arith, unset);
          body = sym (append-nil (content w));
        })
]

pub add_header-Serves :
    (k v : String) (w : BufferedResponseWriter) → IsGood w → Serves (adds k v) w (add_header k v w)
unfolding add_header
add_header-Serves k v w g = elim (Bool-cases w.committed) [
  | inr open' ↦
      rw (open', add_header)
        (record {
          good = record {
            plain = g.plain;
            wrote = g.wrote;
            before = ground (arith, g.before, open');
            after = inl refl;
          };
          status = λ calls. refl;
          body = sym (append-nil (content w));
        })
  | inl done ↦
      let more = adds_header k v ∷ [] in
      rw (done, add_header)
        (record {
          good = record {
            plain = ground (arith, g.plain, is_encoded-append w.sent more);
            wrote = g.wrote;
            before = inl refl;
            after =
                ground
                  (arith, g.after, done, statuses-append w.sent more, append-nil (statuses w.sent));
          };
          status = λ calls. ground (arith, g.after, done);
          body = ground (
            arith,
            bytes_of-append w.sent more,
            append-nil (bytes_of w.sent),
            append-nil (bytes_of w.sent ++ w.body),
          );
        })
]

pub write-Serves :
    (b : List ℕ) (w : BufferedResponseWriter) → IsGood w → Serves (writes b) w (write b w)
unfolding write
write-Serves b w g = elim (Bool-cases w.committed) [
  | inr open' ↦
      rw (open', write)
        (record {
          good = record {
            plain = g.plain;
            wrote = inl (ground arith);
            before = ground (arith, g.before, open');
            after = inl refl;
          };
          status = λ calls. ground arith;
          body = ground (arith, append-nil b, append_assoc (bytes_of w.sent) w.body b);
        })
  | inl done ↦
      let more = writes_body b ∷ [] in
      rw (done, write)
        (record {
          good = record {
            plain = ground (arith, g.plain, is_encoded-append w.sent more);
            wrote = g.wrote;
            before = inl refl;
            after =
                ground
                  (arith, g.after, done, statuses-append w.sent more, append-nil (statuses w.sent));
          };
          status = λ calls. ground (arith, g.after, done);
          body =
              (let empty : w.body ≡ [] = ground (arith, g.after, done) in
                rw empty (
                  append-nil (bytes_of (w.sent ++ more))
                  ∙ (bytes_of-append w.sent more
                      ∙ ap (λ l. l ++ (b ++ [])) (sym (append-nil (bytes_of w.sent))))));
        })
]
