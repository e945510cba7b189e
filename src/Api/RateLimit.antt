-- ===== src/Api/RateLimit.antt =====
-- internal/api/middleware.go: the fixed-window rate limiter. The clock's reading is an argument, in
-- nanoseconds; the mutex makes each operation one step. `order` gives the keys of the map of the
-- clients in the order in which Go iterates over them. The limiter is not nil.
pub mod Log
pub mod Sheds
pub mod Fair
pub mod Quota
mod Tests
use merm.Prelude.{
  ℕ, suc, ◌+◌, ◌-◌, ◌*◌, ◌/◌, String, Bool, true, false, not, ◌||◌, Option, none, some, List, [],
  ◌∷◌, map, if◌then◌else◌, str_eq, lookup, is_some, length, ltb, leb, ℤ, pos, pos_part, leb_ℤ,
}

-- `clientWindow`
pub record ClientWindow : Type 0 where
  pub window_start : ℕ
  pub count : ℕ

abbrev pub Clients : Type 0
Clients = List (String × ClientWindow)

pub record RateLimiter : Type 0 where
  pub window : ℤ
  pub limit : ℤ
  pub clients : Clients
  pub max_clients : ℕ
  pub cleanup_batch_size : ℕ

-- what `Check` returns
pub record Decision : Type 0 where
  pub allowed : Bool
  pub remaining : ℤ
  pub reset_unix : ℕ
  pub limit : ℤ

unfoldable pub new_rate_limiter : ℤ → ℤ → RateLimiter
new_rate_limiter limit window = record {
  window = window;
  limit = limit;
  clients = [];
  max_clients = 10000;
  cleanup_batch_size = 128;
}

-- `delete` of a key of the map
unfoldable pub forget : String → Clients → Clients
forget id [] = []
forget id (c ∷ cs) =
    let rest = forget id cs in elim (str_eq c.0 id) [ true ↦ rest | false ↦ c ∷ rest ]

-- `Time.Unix`
abbrev pub unix : ℕ → ℕ
unix t = t / 1000000000

abbrev pub is_disabled : RateLimiter → Bool
is_disabled rl = leb_ℤ rl.limit (pos 0) || leb_ℤ rl.window (pos 0)

-- an entry that `deleteExpiredEntries` deletes
abbrev pub is_expired : ℕ → RateLimiter → ClientWindow → Bool
is_expired now rl e = ltb (pos_part rl.window * 2) (now - e.window_start)

-- its loop, at the keys that are left
unfoldable pub delete_loop : ℕ → ℕ → ℕ → List String → RateLimiter → RateLimiter
delete_loop now max_deletes deleted [] rl = rl
delete_loop now max_deletes deleted (id ∷ ids) rl = elim (lookup id rl.clients) [
  | none ↦ delete_loop now max_deletes deleted ids rl
  | some e ↦ elim (is_expired now rl e) [
    | false ↦ delete_loop now max_deletes deleted ids rl
    | true ↦
        let rl' = record rl { clients = forget id rl.clients } in
        elim (leb max_deletes (suc deleted)) [
          | true ↦ rl'
          | false ↦ delete_loop now max_deletes (suc deleted) ids rl'
        ]
  ]
]

-- `deleteExpiredEntries`
unfoldable pub delete_expired_entries :
    (List String → List String) → ℕ → ℕ → RateLimiter → RateLimiter
delete_expired_entries order now max_deletes rl =
    delete_loop now (if leb max_deletes 0 then 1 else max_deletes) 0
      (order (map (λ c. c.0) rl.clients)) rl

abbrev pub is_full : RateLimiter → Bool
is_full rl = leb rl.max_clients (length rl.clients)

-- the entry of a client in the window of a request
unfoldable pub current : ℕ → RateLimiter → Option ClientWindow → ClientWindow
current now rl none = record { window_start = now; count = 0 }
current now rl (some e) =
    if leb (pos_part rl.window) (now - e.window_start)
    then record { window_start = now; count = 0 }
    else e

-- `Check` for a client that has an entry, or room for one
unfoldable pub admit : ℕ → String → Option ClientWindow → RateLimiter → RateLimiter × Decision
admit now id entry rl =
    let e = current now rl entry in
    let allowed = ltb e.count (pos_part rl.limit) in
    let e' = if allowed then record e { count = suc e.count } else e in
    (
      record rl { clients = (id, e') ∷ forget id rl.clients },
      record {
        allowed = allowed;
        remaining = pos (pos_part rl.limit - e'.count);
        reset_unix = unix (e'.window_start + pos_part rl.window);
        limit = rl.limit;
      },
    )

-- `Check` where a client without an entry meets a full map
unfoldable pub make_room :
    (List String → List String) → ℕ → String → RateLimiter → RateLimiter × Decision
make_room order now id rl =
    let rl' = delete_expired_entries order now rl.cleanup_batch_size rl in
    if is_full rl'
    then (
      rl',
      record {
        allowed = false;
        remaining = pos 0;
        reset_unix = unix (now + pos_part rl.window);
        limit = rl.limit;
      },
    )
    else admit now id none rl'

-- `Check`
unfoldable pub check :
    (List String → List String) → ℕ → String → RateLimiter → RateLimiter × Decision
check order now id rl =
    let entry = lookup id rl.clients in
    if is_disabled rl
    then (
      rl,
      record { allowed = true; remaining = rl.limit; reset_unix = unix now; limit = rl.limit },
    )
    else if not (is_some entry)
    then (if is_full rl then make_room order now id rl else admit now id entry rl)
    else admit now id entry rl

-- `Remaining`
unfoldable pub remaining : ℕ → String → RateLimiter → ℤ
remaining now id rl = if is_disabled rl then rl.limit else elim (lookup id rl.clients) [
  | none ↦ rl.limit
  | some e ↦
      if leb (pos_part rl.window) (now - e.window_start)
      then rl.limit
      else pos (pos_part rl.limit - e.count)
]
