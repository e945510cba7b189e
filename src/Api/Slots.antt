-- ===== src/Api/Slots.antt =====
-- internal/api/handler.go: the limit on parser invocations at a time. A `System` is the limiter with the
-- requests that hold a slot, numbered in the order in which they got it. The mutex makes each operation
-- one step, in any interleaving.
use merm.Prelude.{
  ℕ, suc, ◌+◌, ◌-◌, ◌≡◌, refl, Bool, true, false, ◌&&◌, List, [], ◌∷◌, arith, if◌then◌else◌, ltb,
  leb, ◌==◌, length, ℤ, pos_part,
}

-- `parserConcurrencyLimiter`
pub record ParserConcurrencyLimiter : Type 0 where
  pub limit : ℕ
  pub in_flight : ℕ

-- `newParserConcurrencyLimiter`
abbrev pub new_parser_concurrency_limiter : ParserConcurrencyLimiter
new_parser_concurrency_limiter = record { limit = 0; in_flight = 0 }

-- `SetLimit`
unfoldable pub set_limit : ℤ → ParserConcurrencyLimiter → ParserConcurrencyLimiter
set_limit limit l = record l { limit = pos_part limit }

-- `TryAcquire`
unfoldable pub try_acquire : ParserConcurrencyLimiter → Bool × ParserConcurrencyLimiter
try_acquire l =
    if ltb 0 l.limit && leb l.limit l.in_flight
    then (false, l)
    else (true, record l { in_flight = l.in_flight + 1 })

-- `Release`
unfoldable pub release : ParserConcurrencyLimiter → ParserConcurrencyLimiter
release l = if l.in_flight == 0 then l else record l { in_flight = l.in_flight - 1 }

pub record System : Type 0 where
  pub limiter : ParserConcurrencyLimiter
  pub open_slots : List ℕ
  pub next_slot : ℕ

-- the slots without one; whether it was there
unfoldable pub close_slot : ℕ → List ℕ → Bool × List ℕ
close_slot k [] = (false, [])
close_slot k (x ∷ xs) =
    let (found, rest) = close_slot k xs in if x == k then (true, xs) else (found, x ∷ rest)

pub data Event : Type 0 where
  acquires : Event
  releases : ℕ → Event
  limits : ℤ → Event

-- `tryAcquireParserSlot`, and the function that it returns, which calls `Release` at its first call only
unfoldable pub step : System → Event → System
step s acquires =
    let (ok, l) = try_acquire s.limiter in
    if ok
    then record {
      limiter = l;
      open_slots = s.next_slot ∷ s.open_slots;
      next_slot = suc s.next_slot;
    }
    else record s { limiter = l }
step s (releases slot) =
    let (first, rest) = close_slot slot s.open_slots in
    if first then record s { limiter = release s.limiter; open_slots = rest } else s
step s (limits limit) = record s { limiter = set_limit limit s.limiter }

unfoldable pub run : System → List Event → System
run s [] = s
run s (e ∷ events) = run (step s e) events

close_slot-length :
    (k : ℕ) (xs : List ℕ)
    → length xs ≡ (
        if (close_slot k xs).0
        then suc (length (close_slot k xs).1)
        else length (close_slot k xs).1)
unfolding close_slot
close_slot-length k [] = refl
close_slot-length k (x ∷ xs) = ground (arith, close_slot-length k xs)

-- `inFlight` counts the requests that hold a slot
abbrev IsCounted : System → Type 0
IsCounted s = s.limiter.in_flight ≡ length s.open_slots

step-IsCounted : (s : System) (e : Event) → IsCounted s → IsCounted (step s e)
unfolding step try_acquire release set_limit
step-IsCounted s acquires h = ground (arith, h)
step-IsCounted s (releases slot) h = ground (arith, h, close_slot-length slot s.open_slots)
step-IsCounted s (limits limit) h = h

run-IsCounted : (events : List Event) (s : System) → IsCounted s → IsCounted (run s events)
unfolding run
run-IsCounted [] s h = h
run-IsCounted (e ∷ events) s h = run-IsCounted events (step s e) (step-IsCounted s e h)

abbrev pub no_slots : System
no_slots = record { limiter = new_parser_concurrency_limiter; open_slots = []; next_slot = 0 }

-- Whatever requests acquire and release in any interleaving, however often they release, and however the
-- limit is changed meanwhile: `inFlight` is the number of requests that hold a slot, and the next request
-- gets one exactly if there is no limit or fewer hold one than the limit.
pub run-no_slots :
    (events : List Event)
    → let s = run no_slots events in
      (s.limiter.in_flight ≡ length s.open_slots)
      × ((try_acquire s.limiter).0
          ≡ (if s.limiter.limit == 0 then true else ltb (length s.open_slots) s.limiter.limit))
unfolding try_acquire
run-no_slots events =
    let counted = run-IsCounted events no_slots refl in (counted, ground (arith, counted))
