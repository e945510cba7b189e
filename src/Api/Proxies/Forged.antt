-- ===== src/Api/Proxies/Forged.antt =====
-- What a client can write into X-Forwarded-For, by middleware.go.
use Prim.Native.String
use mathlib.Core.List.{append-nil, append_assoc}
use merm.Prelude.{
  ◌≡◌, ◌⊎◌, inl, inr, refl, ap, sym, ◌∙◌, String, true, false, some, List, [], ◌∷◌, ◌++◌, Any,
  Bool-cases, Option-cases, str_eq,
}
use merm.Strings.{trim_space, split}
use merm.Strings.Laws.{split-append}
use merm.Api.Proxies.{
  Network, is_trusted_proxy, is_public_client_ip, parse_hops, parse_forwarded_for_chain, from_last,
  hop_loop, forwarded_client_ip, first_line, remote_ip_from_addr, client_identifier,
}

module _ {Addr : Type 0} (net : Network Addr) (env : String) where
  -- a hop that the code takes for the client
  abbrev pub IsClient : Addr → Type 0
  IsClient hop = (is_trusted_proxy net env hop ≡ false) × (is_public_client_ip net hop ≡ true)

  parse_hops-append :
      (xs ys : List String) → parse_hops net (xs ++ ys) ≡ parse_hops net xs ++ parse_hops net ys
  unfolding parse_hops
  parse_hops-append [] ys = refl
  parse_hops-append (x ∷ xs) ys = elim (Bool-cases (str_eq (trim_space x) "")) [
    | inl empty ↦ rw (empty, parse_hops) (parse_hops-append xs ys)
    | inr full ↦ elim (Option-cases (net.parse_addr (trim_space x))) [
      | inl bad ↦ rw (full, bad, parse_hops) (parse_hops-append xs ys)
      | inr (ip, good) ↦ rw (full, good, parse_hops) (ap (◌∷◌ ip) (parse_hops-append xs ys))
    ]
  ]

  -- the hops behind a client in the order of the loop do not matter
  hop_loop-append :
      (xs ys : List Addr) (first : Addr)
      → Any IsClient xs
      → hop_loop net env (xs ++ ys) first ≡ hop_loop net env xs first
  unfolding hop_loop
  hop_loop-append [] ys first h = absurd h
  hop_loop-append (x ∷ xs) ys first (inl h) = rw (h.0, h.1, hop_loop) refl
  hop_loop-append (x ∷ xs) ys first (inr h) = elim (Bool-cases (is_trusted_proxy net env x)) [
    | inl trusted ↦ rw (trusted, hop_loop) (hop_loop-append xs ys first h)
    | inr untrusted ↦ elim (Bool-cases (is_public_client_ip net x)) [
      | inl public ↦ rw (untrusted, public, hop_loop) refl
      | inr private ↦ rw (untrusted, private, hop_loop) (hop_loop-append xs ys _ h)
    ]
  ]

  from_last-append :
      (xs ys : List Addr) → from_last net (xs ++ ys) ≡ from_last net ys ++ from_last net xs
  unfolding from_last
  from_last-append [] ys = sym (append-nil (from_last net ys))
  from_last-append (x ∷ xs) ys =
      ap (λ l. l ++ (x ∷ [])) (from_last-append xs ys)
      ∙ append_assoc (from_last net ys) (from_last net xs) (x ∷ [])

  Any-left : (xs ys : List Addr) → Any IsClient xs → Any IsClient (xs ++ ys)
  Any-left [] ys h = absurd h
  Any-left (x ∷ xs) ys (inl h) = inl h
  Any-left (x ∷ xs) ys (inr h) = inr (Any-left xs ys h)

  Any-last : (xs : List Addr) (y : Addr) → IsClient y → Any IsClient (xs ++ (y ∷ []))
  Any-last [] y h = inl h
  Any-last (x ∷ xs) y h = inr (Any-last xs y h)

  Any-from_last : (xs : List Addr) → Any IsClient xs → Any IsClient (from_last net xs)
  unfolding from_last
  Any-from_last [] h = absurd h
  Any-from_last (x ∷ xs) (inl h) = Any-last (from_last net xs) x h
  Any-from_last (x ∷ xs) (inr h) = Any-left (from_last net xs) (x ∷ []) (Any-from_last xs h)

  forwarded_client_ip-append :
      (forged header : String)
      → Any IsClient (parse_forwarded_for_chain net header)
      → forwarded_client_ip net env (String.◌++◌ forged (String.◌∷◌ "," header))
        ≡ forwarded_client_ip net env header
  unfolding forwarded_client_ip parse_forwarded_for_chain
  forwarded_client_ip-append forged header h =
      let joined : parse_hops net (split 44 (String.◌++◌ forged (String.◌∷◌ "," header)))
          ≡ parse_hops net (split 44 forged) ++ parse_hops net (split 44 header) =
        ap (parse_hops net) (split-append "," forged header)
        ∙ parse_hops-append (split 44 forged) (split 44 header) in
      ap (λ l. hop_loop net env (from_last net l) net.zero_addr) joined
      ∙ (ap (λ l. hop_loop net env l net.zero_addr)
            (from_last-append (parse_hops net (split 44 forged)) (parse_hops net (split 44 header)))
          ∙ hop_loop-append (from_last net (parse_hops net (split 44 header)))
              (from_last net (parse_hops net (split 44 forged))) net.zero_addr (Any-from_last _ h))

-- What is written into the first field line of X-Forwarded-For in front of the hops that the proxies add to
-- that line, and what stands in further field lines, does not change by what name a request is counted, if the
-- peer is no trusted proxy, or if among those hops there is one that is no trusted proxy and has a public
-- address.
pub client_identifier_forged :
    {Addr : Type 0} (net : Network Addr) (env remote forged header : String)
    (lines others : List String)
    → ((ip : Addr) × (remote_ip_from_addr net remote ≡ some ip)
        × (is_trusted_proxy net env ip ≡ false))
      ⊎ Any (IsClient net env) (parse_forwarded_for_chain net header)
    → client_identifier net env remote (String.◌++◌ forged (String.◌∷◌ "," header) ∷ lines)
      ≡ client_identifier net env remote (header ∷ others)
unfolding client_identifier first_line
client_identifier_forged net env remote forged header lines others (inl (ip, peer, untrusted)) =
    rw (peer, untrusted, client_identifier) refl
client_identifier_forged net env remote forged header lines others (inr h) =
    elim (Option-cases (remote_ip_from_addr net remote)) [
      | inl absent ↦ rw (absent, client_identifier) refl
      | inr (ip, peer) ↦ elim (Bool-cases (is_trusted_proxy net env ip)) [
        | inr untrusted ↦ rw (peer, untrusted, client_identifier) refl
        | inl trusted ↦
            rw
              (peer, trusted, forwarded_client_ip-append net env forged header h, client_identifier)
              refl
      ]
    ]
