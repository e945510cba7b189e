-- ===== src/Api/RateLimit/Sheds.antt =====
-- What the deletions of old entries by the limiter of middleware.go leave.
use merm.Prelude.{
  ℕ, suc, ◌≤◌, ◌≡◌, ◌⊎◌, inl, inr, refl, ◌∙◌, subst, String, true, none, some, List, [], ◌∷◌, arith,
  if◌then◌else◌, Bool-cases, Option-cases, String-cases, str_eq, eq_iff, lookup, length, leb, map,
}
use merm.Api.RateLimit.{
  ClientWindow, Clients, RateLimiter, forget, is_expired, delete_loop, delete_expired_entries,
}

pub lookup-forget :
    (c id : String) (cs : Clients)
    → lookup c (forget id cs) ≡ (if str_eq id c then none else lookup c cs)
unfolding lookup forget
lookup-forget c id [] = ground arith
lookup-forget c id ((j, e) ∷ cs) =
    ground (arith, lookup-forget c id cs, eq_iff j id, eq_iff j c, eq_iff id c)

pub length-forget : (id : String) (cs : Clients) → length (forget id cs) ≤ length cs
unfolding forget
length-forget id [] = omega arith
length-forget id (x ∷ cs) = ground (arith, length-forget id cs)

pub length-forget_present :
    (id : String) (cs : Clients) (e : ClientWindow)
    → lookup id cs ≡ some e
    → suc (length (forget id cs)) ≤ length cs
unfolding lookup forget
length-forget_present id [] e h = absurd (ground arith)
length-forget_present id ((j, x) ∷ cs) e h =
    ground (arith, length-forget id cs, length-forget_present id cs e)

-- What deletions of old entries leave of a limiter.
pub record Sheds (now : ℕ) (rl rl' : RateLimiter) : Type 0 where
  pub window : rl'.window ≡ rl.window
  pub limit : rl'.limit ≡ rl.limit
  pub max_clients : rl'.max_clients ≡ rl.max_clients
  pub shorter : length rl'.clients ≤ length rl.clients
  pub entry :
      (c : String)
      → (lookup c rl'.clients ≡ lookup c rl.clients)
        ⊎ ((e : ClientWindow) × (lookup c rl.clients ≡ some e)
            × (is_expired now rl e ≡ true)
            × (lookup c rl'.clients ≡ none))

Sheds-refl : (now : ℕ) (rl : RateLimiter) → Sheds now rl rl
Sheds-refl now rl = record {
  window = refl;
  limit = refl;
  max_clients = refl;
  shorter = omega arith;
  entry = λ c. inl refl;
}

Sheds-trans : (now : ℕ) (a b c : RateLimiter) → Sheds now a b → Sheds now b c → Sheds now a c
Sheds-trans now a b c s t = record {
  window = t.window ∙ s.window;
  limit = t.limit ∙ s.limit;
  max_clients = t.max_clients ∙ s.max_clients;
  shorter = omega (arith, s.shorter, t.shorter);
  entry = λ k. ground (arith, s.entry k, t.entry k, s.window);
}

forget-Sheds :
    (now : ℕ) (id : String) (rl : RateLimiter) (e : ClientWindow)
    → lookup id rl.clients ≡ some e
    → is_expired now rl e ≡ true
    → Sheds now rl (record rl { clients = forget id rl.clients })
forget-Sheds now id rl e found old = record {
  window = refl;
  limit = refl;
  max_clients = refl;
  shorter = length-forget id rl.clients;
  entry = λ c. elim (String-cases id c) [
    | inl same ↦ inr (
      e,
      subst (λ k. lookup k rl.clients ≡ some e) same found,
      old,
      ground (arith, lookup-forget c id rl.clients, eq_iff id c),
    )
    | inr else' ↦ inl (ground (arith, lookup-forget c id rl.clients, eq_iff id c))
  ];
}

delete_loop-Sheds :
    (now max_deletes deleted : ℕ) (ids : List String) (rl : RateLimiter)
    → Sheds now rl (delete_loop now max_deletes deleted ids rl)
unfolding delete_loop
delete_loop-Sheds now max_deletes deleted [] rl = Sheds-refl now rl
delete_loop-Sheds now max_deletes deleted (id ∷ ids) rl =
    elim (Option-cases (lookup id rl.clients)) [
      | inl absent ↦ rw (absent, delete_loop) (delete_loop-Sheds now max_deletes deleted ids rl)
      | inr (e, found) ↦ elim (Bool-cases (is_expired now rl e)) [
        | inr young ↦
            rw (found, young, delete_loop) (delete_loop-Sheds now max_deletes deleted ids rl)
        | inl old ↦
            let s = forget-Sheds now id rl e found old in
            elim (Bool-cases (leb max_deletes (suc deleted))) [
              | inl last ↦ rw (found, old, last, delete_loop) s
              | inr more ↦
                  rw (found, old, more, delete_loop)
                    (Sheds-trans now rl _ _ s (
                      delete_loop-Sheds now max_deletes (suc deleted) ids
                        (record rl { clients = forget id rl.clients })))
            ]
      ]
    ]

pub delete_expired_entries-Sheds :
    (order : List String → List String) (now max_deletes : ℕ) (rl : RateLimiter)
    → Sheds now rl (delete_expired_entries order now max_deletes rl)
unfolding delete_expired_entries
delete_expired_entries-Sheds order now max_deletes rl =
    delete_loop-Sheds now (if leb max_deletes 0 then 1 else max_deletes) 0
      (order (map (λ c. c.0) rl.clients)) rl
