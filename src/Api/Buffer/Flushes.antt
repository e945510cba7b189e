-- ===== src/Api/Buffer/Flushes.antt =====
-- `Flush` of the buffered response of middleware.go.
use mathlib.Core.List.{append-nil}
use merm.Prelude.{
  ◌≡◌, ◌⊎◌, inl, inr, refl, sym, ap, subst, ◌∙◌, Bool, true, false, List, [], ◌∷◌, ◌++◌, arith,
  if◌then◌else◌,
}
use merm.Api.Buffer.{
  flushes, BufferedResponseWriter, values, or_ok, commit_buffered, begun, begin_flush, flush, Call,
  flushed,
}
use merm.Api.Buffer.Sends.{
  statuses, bytes_of, statuses-append, bytes_of-append, is_encoded-append, begin, begin_only,
  sent_once,
}
use merm.Api.Buffer.Calls.{IsGood, outcome, content, Serves}

-- a call of `Flush` below
flushes-IsGood :
    (w : BufferedResponseWriter) → IsGood w → IsGood (record w { sent = w.sent ++ (flushes ∷ []) })
flushes-IsGood w g =
    let more = flushes ∷ [] in
    record {
      plain = ground (arith, g.plain, is_encoded-append w.sent more);
      wrote = g.wrote;
      before = ground (
        arith,
        g.before,
        statuses-append w.sent more,
        bytes_of-append w.sent more,
        append-nil (statuses w.sent),
        append-nil (bytes_of w.sent),
      );
      after = ground (arith, g.after, statuses-append w.sent more, append-nil (statuses w.sent));
    }

commit_buffered-IsGood :
    (w : BufferedResponseWriter)
    → IsGood w
    → w.committed ≡ false
    → IsGood (commit_buffered w) × (content (commit_buffered w) ≡ content w)
unfolding commit_buffered
commit_buffered-IsGood w g open' =
    let (one, all, plain) = begin_only (or_ok w.status) w.body in
    let none' : statuses w.sent ≡ [] = ground (arith, g.before, open') in
    let nothing : bytes_of w.sent ≡ [] = ground (arith, g.before, open') in
    let (one', all', mark) =
      sent_once w.sent (begin (or_ok w.status) w.body) (values w.header) (or_ok w.status) w.body
        none' nothing one all in
    rw (open', commit_buffered)
      (
        record {
          plain = ground (arith, mark, g.plain, plain);
          wrote = inr refl;
          before = inl refl;
          after = inr (one', ground arith, refl);
        },
        ground (arith, all', nothing, append-nil w.body),
      )

flushes-Serves :
    (w v : BufferedResponseWriter)
    → IsGood v
    → ((calls : List Call) → outcome v calls ≡ outcome w (flushed ∷ calls))
    → content v ≡ content w
    → Serves flushed w (record v { sent = v.sent ++ (flushes ∷ []) })
flushes-Serves w v g status body = record {
  good = flushes-IsGood v g;
  status = status;
  body =
      ap (λ l. l ++ v.body) (bytes_of-append v.sent (flushes ∷ []) ∙ append-nil (bytes_of v.sent))
      ∙ (body ∙ sym (append-nil (content w)));
}

pub begin_flush-cases :
    (w : BufferedResponseWriter)
    → ((begin_flush w ≡ commit_buffered w) × (w.committed ≡ false) × (begun w ≡ true))
      ⊎ ((begin_flush w ≡ w) × ((w.committed ≡ true) ⊎ (begun w ≡ false)))
unfolding begin_flush
begin_flush-cases w = cases w.committed (begun w) refl refl
  where
    cases :
        (c b : Bool)
        → w.committed ≡ c
        → begun w ≡ b
        → ((begin_flush w ≡ commit_buffered w) × (w.committed ≡ false) × (begun w ≡ true))
          ⊎ ((begin_flush w ≡ w) × ((w.committed ≡ true) ⊎ (begun w ≡ false)))
    cases true b e h =
        inr (ap (λ x. if x then w else if begun w then commit_buffered w else w) e, inl e)
    cases false true e h = inl (
      ap (λ x. if x then w else if begun w then commit_buffered w else w) e
          ∙ ap (λ x. if x then commit_buffered w else w) h,
      e,
      h,
    )
    cases false false e h = inr (
      ap (λ x. if x then w else if begun w then commit_buffered w else w) e
          ∙ ap (λ x. if x then commit_buffered w else w) h,
      inr h,
    )

pub flush-Serves : (w : BufferedResponseWriter) → IsGood w → Serves flushed w (flush w)
unfolding flush commit_buffered
flush-Serves w g = elim (begin_flush-cases w) [
  | inr (e, idle) ↦
      subst (λ v. Serves flushed w (record v { sent = v.sent ++ (flushes ∷ []) })) (sym e)
        (flushes-Serves w w g (λ calls. ground (arith, g.after, idle)) refl)
  | inl (e, open', yes') ↦
      let (g', same) = commit_buffered-IsGood w g open' in
      subst (λ v. Serves flushed w (record v { sent = v.sent ++ (flushes ∷ []) })) (sym e)
        (flushes-Serves w (commit_buffered w) g' (λ calls. ground (arith, g.wrote, open', yes'))
          same)
]
