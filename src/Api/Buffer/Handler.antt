-- ===== src/Api/Buffer/Handler.antt =====
-- A handler on the buffered response of middleware.go, call by call.
use mathlib.Core.List.{append-nil, append_assoc}
use merm.Prelude.{◌≡◌, inl, inr, refl, sym, ap, ◌∙◌, List, [], ◌∷◌, ◌++◌, arith}
use merm.Api.Buffer.{
  BufferedResponseWriter, new_writer, Call, adds, sets_status, writes, flushed, serve, serve_all,
}
use merm.Api.Buffer.Calls.{
  written, IsGood, outcome, content, Serves, write_header-Serves, add_header-Serves, write-Serves,
}
use merm.Api.Buffer.Flushes.{flush-Serves}

serve-Serves : (c : Call) (w : BufferedResponseWriter) → IsGood w → Serves c w (serve c w)
unfolding serve
serve-Serves (adds k v) w g = add_header-Serves k v w g
serve-Serves (sets_status n) w g = write_header-Serves n w g
serve-Serves (writes b) w g = write-Serves b w g
serve-Serves flushed w g = flush-Serves w g

written-step :
    (c : Call) (calls : List Call) → written (c ∷ calls) ≡ written (c ∷ []) ++ written calls
written-step (adds k v) calls = refl
written-step (sets_status n) calls = refl
written-step (writes b) calls = ap (λ l. l ++ written calls) (sym (append-nil b))
written-step flushed calls = refl

-- what holds when the handler is done
pub record Served (w v : BufferedResponseWriter) (calls : List Call) : Type 0 where
  pub good : IsGood v
  pub status : v.status ≡ outcome w calls
  pub body : content v ≡ content w ++ written calls

settled : (w : BufferedResponseWriter) → w.status ≡ outcome w []
settled w = ground arith

pub serve_all-Served :
    (calls : List Call) (w : BufferedResponseWriter) → IsGood w → Served w (serve_all calls w) calls
unfolding serve_all
serve_all-Served [] w g = record {
  good = g;
  status = settled w;
  body = sym (append-nil (content w));
}
serve_all-Served (c ∷ calls) w g =
    let one = serve-Serves c w g in
    let rest = serve_all-Served calls (serve c w) one.good in
    record {
      good = rest.good;
      status = rest.status ∙ one.status calls;
      body =
          rest.body
          ∙ (ap (λ l. l ++ written calls) one.body
              ∙ (append_assoc (content w) (written (c ∷ [])) (written calls)
                  ∙ ap (◌++◌ (content w)) (sym (written-step c calls))));
    }

pub new_writer-IsGood : IsGood new_writer
new_writer-IsGood = record {
  plain = refl;
  wrote = inr refl;
  before = inr (refl, refl);
  after = inl refl;
}
