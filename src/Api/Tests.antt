-- ===== src/Api/Tests.antt =====
-- The theorems on addresses and origins (middleware.go) and on slots (handler.go) at concrete inputs.
use Prim.Native.String
use merm.Prelude.{
  List, ◌≡◌, ◌⊎◌, ◌↔◌, inl, inr, refl, String, true, false, none, some, [], ◌∷◌, if◌then◌else◌,
  str_eq, ltb, ◌==◌, length, pos, contains, Any,
}
use merm.Strings.{
  trim_space, trim_left, trim_right, is_space, split, has_char, count_char, strip_prefix,
  has_suffix,
}
use merm.Api.Proxies.{
  Network, trusts_any, is_trusted_proxy, is_public_client_ip, parse_hops, parse_forwarded_for_chain,
  client_identifier,
}
use merm.Api.Proxies.Forged.{IsClient, client_identifier_forged}
use merm.Api.Origins.{
  CorsOriginMatcher, parse_wildcard_origin, add_origins, new_cors_origin_matcher, has_prefix, size,
  slice, middle, matches_any, is_allowed,
}
use merm.Api.Origins.Matches.{AllowedBy, PanicsBy}
use merm.Api.Origins.Allowed.{is_allowed_iff}
use merm.Api.Slots.{acquires, releases, limits, Event, no_slots, run, try_acquire, run-no_slots}

-- addresses that are their own text, all public
abbrev net : Network String
net = record {
  parse_addr = λ s. if str_eq s "" then none else some s;
  parse_prefix = λ s. none;
  split_host_port = λ s. none;
  same = str_eq;
  zero_addr = "";
  print = λ s. s;
  is_valid = λ s. true;
  is_private = λ s. false;
  is_loopback = λ s. false;
  is_link_local_unicast = λ s. false;
  is_link_local_multicast = λ s. false;
  is_multicast = λ s. false;
  is_interface_local_multicast = λ s. false;
  is_unspecified = λ s. false;
}

hops : Any (IsClient net "10.0.0.1") (parse_forwarded_for_chain net "8.8.8.8, 10.0.0.1")
unfolding parse_forwarded_for_chain parse_hops split trim_space trim_left trim_right is_space
    is_trusted_proxy trusts_any is_public_client_ip has_char
hops = inl (refl, refl)

client_identifier_forged_example :
    client_identifier net "10.0.0.1" "10.0.0.1"
      (String.◌++◌ "1.2.3.4" (String.◌∷◌ "," "8.8.8.8, 10.0.0.1") ∷ "5.6.7.8" ∷ [])
    ≡ client_identifier net "10.0.0.1" "10.0.0.1" ("8.8.8.8, 10.0.0.1" ∷ [])
client_identifier_forged_example =
    client_identifier_forged net "10.0.0.1" "10.0.0.1" "1.2.3.4" "8.8.8.8, 10.0.0.1"
      ("5.6.7.8" ∷ []) [] (inr hops)

abbrev matcher : CorsOriginMatcher
matcher = new_cors_origin_matcher "https://example.com, https://app.*.example.com"

is_allowed_iff_example :
    ((is_allowed matcher "https://app.example.com" ≡ some true) ↔ (
      (contains "https://app.example.com" matcher.exact ≡ true)
      ⊎ AllowedBy matcher.wildcards "https://app.example.com"))
    × ((is_allowed matcher "https://app.example.com" ≡ none) ↔ (
        (contains "https://app.example.com" matcher.exact ≡ false)
        × PanicsBy matcher.wildcards "https://app.example.com"))
is_allowed_iff_example = is_allowed_iff matcher "https://app.example.com"

-- the dot in front of `example` is in the prefix and in the suffix
overlap_panics : is_allowed matcher "https://app.example.com" ≡ none
unfolding is_allowed matches_any middle slice size has_prefix strip_prefix has_suffix contains
    new_cors_origin_matcher add_origins parse_wildcard_origin count_char split trim_space trim_left
    trim_right is_space
overlap_panics = refl

-- the second request finds no slot, the first releases its slot twice
abbrev events : List Event
events = limits (pos 1) ∷ acquires ∷ acquires ∷ releases 0 ∷ releases 0 ∷ acquires ∷ []

run-no_slots_example :
    ((run no_slots events).limiter.in_flight ≡ length (run no_slots events).open_slots)
    × ((try_acquire (run no_slots events).limiter).0 ≡ (
        if (run no_slots events).limiter.limit == 0
        then true
        else ltb (length (run no_slots events).open_slots) (run no_slots events).limiter.limit))
run-no_slots_example = run-no_slots events
