-- ===== src/Api/RateLimit/Fair.antt =====
-- The fixed-window limiter of middleware.go over any sequence of requests.
use merm.Prelude.{
  ℕ, suc, ◌+◌, ◌≤◌, ◌<◌, ◌≡◌, inl, inr, refl, subst, ◌≢◌, String, true, false, ◌&&◌, Option, none,
  some, List, [], ◌∷◌, arith, if◌then◌else◌, Bool-cases, Option-cases, String-cases, str_eq, eq_iff,
  lookup, length, ltb, pos_part, pos,
}
use merm.Api.RateLimit.{
  ClientWindow, RateLimiter, Decision, new_rate_limiter, forget, is_disabled, is_full,
  delete_expired_entries, current, admit, make_room, check,
}
use merm.Api.RateLimit.Log.{
  since, within, IsEntry, IsView, IsView-later, IsView-deleted, current-IsEntry, IsEntry-allowed,
  within_allowed,
}
use merm.Api.RateLimit.Sheds.{
  lookup-forget, length-forget, length-forget_present, Sheds, delete_expired_entries-Sheds,
}

-- The limiter keeps within its bounds; `log` holds the times of the requests of client `c` that it
-- allowed up to `clock`.
pub record IsFair (c : String) (w q most clock : ℕ) (rl : RateLimiter) (log : List ℕ) : Type 0 where
  pub window : pos_part rl.window ≡ w
  pub limit : pos_part rl.limit ≡ q
  pub max_clients : rl.max_clients ≡ most
  pub room : length rl.clients ≤ most
  pub view : IsView w q clock log (lookup c rl.clients)
  pub spans : (t : ℕ) → within t w log ≤ q + q

-- the log behind a decision
unfoldable pub logged : String → ℕ → String → Decision → List ℕ → List ℕ
logged c now id d log = if d.allowed && str_eq id c then now ∷ log else log

-- requests one after the other, with the log of client `c`
unfoldable pub serve :
    (List String → List String)
    → String
    → List (ℕ × String)
    → RateLimiter
    → List ℕ
    → RateLimiter × List ℕ
serve order c [] rl log = (rl, log)
serve order c ((now, id) ∷ calls) rl log =
    let (rl', d) = check order now id rl in serve order c calls rl' (logged c now id d log)

-- the clock does not run backwards
unfoldable pub IsTimed : ℕ → List (ℕ × String) → Type 0
IsTimed clock [] = Unit
IsTimed clock ((now, id) ∷ calls) = clock ≤ now × IsTimed now calls

module _ (c : String) (w q most : ℕ) (positive : 0 < w) (limited : 0 < q) where
  Sheds-IsFair :
      (clock now : ℕ) (rl rl' : RateLimiter) (log : List ℕ)
      → clock ≤ now
      → IsFair c w q most clock rl log
      → Sheds now rl rl'
      → IsFair c w q most now rl' log
  Sheds-IsFair clock now rl rl' log le f s = record {
    window = ground (arith, f.window, s.window);
    limit = ground (arith, f.limit, s.limit);
    max_clients = ground (arith, f.max_clients, s.max_clients);
    room = omega (arith, f.room, s.shorter);
    view = elim (s.entry c) [
      | inl same ↦ rw same (IsView-later w q clock now log le (lookup c rl.clients) f.view)
      | inr (e, found, old, gone) ↦ rw gone (
          IsView-deleted w q clock now log le e (subst (IsView w q clock log) found f.view)
            (ground (arith, old, f.window)))
    ];
    spans = f.spans;
  }

  -- the map with a new entry of a client
  put-IsFair :
      (clock now : ℕ) (id : String) (e : ClientWindow) (rl : RateLimiter) (log log' : List ℕ)
      → IsFair c w q most clock rl log
      → suc (length (forget id rl.clients)) ≤ most
      → IsView w q now log' (lookup c ((id, e) ∷ forget id rl.clients))
      → ((t : ℕ) → within t w log' ≤ q + q)
      → IsFair c w q most now (record rl { clients = (id, e) ∷ forget id rl.clients }) log'
  put-IsFair clock now id e rl log log' f room view spans = record {
    window = f.window;
    limit = f.limit;
    max_clients = f.max_clients;
    room = room;
    view = view;
    spans = spans;
  }

  put_other :
      (clock now : ℕ) (id : String) (e : ClientWindow) (rl : RateLimiter) (log : List ℕ)
      → clock ≤ now
      → IsFair c w q most clock rl log
      → suc (length (forget id rl.clients)) ≤ most
      → id ≢ c
      → IsFair c w q most now (record rl { clients = (id, e) ∷ forget id rl.clients }) log
  unfolding lookup
  put_other clock now id e rl log le f room ne =
      let stays : lookup c ((id, e) ∷ forget id rl.clients) ≡ lookup c rl.clients =
        ground (arith, lookup-forget c id rl.clients, eq_iff id c) in
      put-IsFair clock now id e rl log log f room
        (rw stays (IsView-later w q clock now log le (lookup c rl.clients) f.view)) f.spans

  put_same :
      (clock now : ℕ) (id : String) (e : ClientWindow) (rl : RateLimiter) (log log' : List ℕ)
      → IsFair c w q most clock rl log
      → suc (length (forget id rl.clients)) ≤ most
      → id ≡ c
      → IsEntry w q now log' e
      → ((t : ℕ) → within t w log' ≤ q + q)
      → IsFair c w q most now (record rl { clients = (id, e) ∷ forget id rl.clients }) log'
  unfolding lookup
  put_same clock now id e rl log log' f room same v spans =
      let here : lookup c ((id, e) ∷ forget id rl.clients) ≡ some e = ground (arith, eq_iff id c) in
      put-IsFair clock now id e rl log log' f room (rw here v) spans

  admit-IsFair :
      (clock now : ℕ) (id : String) (entry : Option ClientWindow) (rl : RateLimiter) (log : List ℕ)
      → clock ≤ now
      → IsFair c w q most clock rl log
      → lookup id rl.clients ≡ entry
      → suc (length (forget id rl.clients)) ≤ most
      → IsFair c w q most now
          (admit now id entry rl).0
          (logged c now id (admit now id entry rl).1 log)
  unfolding admit logged
  admit-IsFair clock now id entry rl log le f found room = elim (String-cases id c) [
    | inr ne ↦
        let away : str_eq id c ≡ false = ground (arith, eq_iff id c) in
        elim (Bool-cases (ltb (current now rl entry).count (pos_part rl.limit))) [
          | inl free ↦ rw (free, away) (put_other clock now id _ rl log le f room ne)
          | inr used ↦ rw used (put_other clock now id _ rl log le f room ne)
        ]
    | inl same ↦
        let here : str_eq id c ≡ true = ground (arith, eq_iff id c) in
        let v : IsView w q clock log entry =
          subst (IsView w q clock log) (subst (λ k. lookup k rl.clients ≡ entry) same found)
            f.view in
        let (e, in_time) = current-IsEntry w q clock now log le rl entry f.window positive v in
        elim (Bool-cases (ltb (current now rl entry).count (pos_part rl.limit))) [
          | inl free ↦
              let below : (current now rl entry).count < q = ground (arith, free, f.limit) in
              rw (free, here)
                (put_same clock now id _ rl log (now ∷ log) f room same
                  (IsEntry-allowed w q now log _ e in_time below)
                  (λ t. within_allowed w q now log _ t e below (f.spans t)))
          | inr used ↦ rw used (put_same clock now id _ rl log log f room same e f.spans)
        ]
  ]

  make_room-IsFair :
      (order : List String → List String) (clock now : ℕ) (id : String) (rl : RateLimiter)
      (log : List ℕ)
      → clock ≤ now
      → IsFair c w q most clock rl log
      → lookup id rl.clients ≡ none
      → IsFair c w q most now
          (make_room order now id rl).0
          (logged c now id (make_room order now id rl).1 log)
  unfolding make_room logged
  make_room-IsFair order clock now id rl log le f absent =
      let rl' = delete_expired_entries order now rl.cleanup_batch_size rl in
      let s = delete_expired_entries-Sheds order now rl.cleanup_batch_size rl in
      let f' = Sheds-IsFair clock now rl rl' log le f s in
      elim (Bool-cases (is_full rl')) [
        | inl full ↦ rw (full, logged) f'
        | inr free ↦
            let absent' : lookup id rl'.clients ≡ none = ground (arith, s.entry id, absent) in
            rw free (
              admit-IsFair now now id none rl' log (omega arith) f' absent'
                (ground (arith, length-forget id rl'.clients, free, f'.max_clients)))
      ]

  -- `Check`
  check-IsFair :
      (order : List String → List String) (clock now : ℕ) (id : String) (rl : RateLimiter)
      (log : List ℕ)
      → clock ≤ now
      → IsFair c w q most clock rl log
      → IsFair c w q most now
          (check order now id rl).0
          (logged c now id (check order now id rl).1 log)
  unfolding check
  check-IsFair order clock now id rl log le f =
      let on : is_disabled rl ≡ false = ground (arith, f.window, f.limit) in
      elim (Option-cases (lookup id rl.clients)) [
        | inr (e, found) ↦
            rw (on, found, check)
              (admit-IsFair clock now id (some e) rl log le f found
                (ground (arith, length-forget_present id rl.clients e found, f.room)))
        | inl absent ↦ elim (Bool-cases (is_full rl)) [
          | inl full ↦
              rw (on, absent, full, check) (make_room-IsFair order clock now id rl log le f absent)
          | inr free ↦
              rw (on, absent, free, check)
                (admit-IsFair clock now id none rl log le f absent
                  (ground (arith, length-forget id rl.clients, free, f.max_clients)))
        ]
      ]

  serve-IsFair :
      (order : List String → List String) (calls : List (ℕ × String)) (clock : ℕ) (rl : RateLimiter)
      (log : List ℕ)
      → IsTimed clock calls
      → IsFair c w q most clock rl log
      → (last : ℕ) × IsFair c w q most last
          (serve order c calls rl log).0
          (serve order c calls rl log).1
  unfolding serve IsTimed
  serve-IsFair order [] clock rl log timed f = (clock, f)
  serve-IsFair order ((now, id) ∷ calls) clock rl log timed f =
      serve-IsFair order calls now _ _ timed.1 (check-IsFair order clock now id rl log timed.0 f)

-- From a new limiter with a positive limit and window, whatever requests come at times that do not
-- go backwards, and whatever the order in which Go iterates over the map of the clients: there are
-- never more than 10,000 clients in the map, and no span of the length of the window has more than
-- twice the limit of allowed requests of one client.
pub serve-new_rate_limiter :
    (order : List String → List String) (c : String) (calls : List (ℕ × String))
    (limit window t : ℕ)
    → IsTimed 0 calls
    → (length
          (serve order c calls (new_rate_limiter (pos (suc limit)) (pos (suc window))) []).0.clients
        ≤ 10000)
      × (within t
            (suc window)
            (serve order c calls (new_rate_limiter (pos (suc limit)) (pos (suc window))) []).1
          ≤ suc limit + suc limit)
unfolding new_rate_limiter lookup since within
serve-new_rate_limiter order c calls limit window t timed =
    let (last, f) =
      serve-IsFair c (suc window) (suc limit) 10000 (omega arith) (omega arith) order calls 0
        (new_rate_limiter (pos (suc limit)) (pos (suc window))) [] timed
        (record {
          window = refl;
          limit = refl;
          max_clients = refl;
          room = omega arith;
          view = λ u. inr refl;
          spans = λ u. omega arith;
        }) in
    (f.room, f.spans t)
