-- ===== src/Api/Proxies.antt =====
-- internal/api/middleware.go: which client a request is counted for. The packages net and net/netip are the
-- parameter `Network`. The remote address and the environment's list of trusted proxies are texts, and the
-- header X-Forwarded-For is the list of its field lines.
pub mod Forged
use merm.Prelude.{
  String, Bool, true, false, not, ◌&&◌, ◌||◌, Option, none, some, List, [], ◌∷◌, ◌++◌,
  if◌then◌else◌, str_eq,
}
use merm.Strings.{trim_space, split, has_char}

-- an address, with what the code calls on it
pub record Network (Addr : Type 0) : Type 0 where
  pub parse_addr : String → Option Addr
  -- `netip.ParsePrefix`, with `Contains` of the prefix
  pub parse_prefix : String → Option (Addr → Bool)
  -- the host of `net.SplitHostPort`
  pub split_host_port : String → Option String
  pub same : Addr → Addr → Bool
  pub zero_addr : Addr
  pub print : Addr → String
  pub is_valid : Addr → Bool
  pub is_private : Addr → Bool
  pub is_loopback : Addr → Bool
  pub is_link_local_unicast : Addr → Bool
  pub is_link_local_multicast : Addr → Bool
  pub is_multicast : Addr → Bool
  pub is_interface_local_multicast : Addr → Bool
  pub is_unspecified : Addr → Bool

module _ {Addr : Type 0} (net : Network Addr) where
  -- the loop of `isTrustedProxy`
  unfoldable pub trusts_any : List String → Addr → Bool
  trusts_any [] ip = false
  trusts_any (part ∷ parts) ip =
      let token = trim_space part in
      let rest = trusts_any parts ip in
      let here : Bool =
        if has_char 47 token
        then elim (net.parse_prefix token) [ none ↦ false | some contains ↦ contains ip ]
        else elim (net.parse_addr token) [ none ↦ false | some proxy ↦ net.same proxy ip ] in
      if str_eq token "" then rest else here || rest

  -- `isTrustedProxy`
  unfoldable pub is_trusted_proxy : String → Addr → Bool
  is_trusted_proxy env ip =
      if str_eq (trim_space env) "" then false else trusts_any (split 44 (trim_space env)) ip

  -- `isPublicClientIP`
  unfoldable pub is_public_client_ip : Addr → Bool
  is_public_client_ip ip =
      net.is_valid ip
      && not (net.is_private ip)
      && not (net.is_loopback ip)
      && not (net.is_link_local_unicast ip)
      && not (net.is_link_local_multicast ip)
      && not (net.is_multicast ip)
      && not (net.is_interface_local_multicast ip)
      && not (net.is_unspecified ip)

  -- the loop of `parseForwardedForChain`
  unfoldable pub parse_hops : List String → List Addr
  parse_hops [] = []
  parse_hops (part ∷ parts) =
      let rest = parse_hops parts in
      if str_eq (trim_space part) ""
      then rest
      else elim (net.parse_addr (trim_space part)) [ none ↦ rest | some ip ↦ ip ∷ rest ]

  -- `parseForwardedForChain`
  unfoldable pub parse_forwarded_for_chain : String → List Addr
  parse_forwarded_for_chain header = parse_hops (split 44 header)

  -- the elements from the last one on
  unfoldable pub from_last : List Addr → List Addr
  from_last [] = []
  from_last (hop ∷ hops) = from_last hops ++ (hop ∷ [])

  -- the loop of `forwardedClientIP`, from the last hop on, with `firstUntrusted`
  unfoldable pub hop_loop : String → List Addr → Addr → Option Addr
  hop_loop env [] first_untrusted =
      if net.same first_untrusted net.zero_addr then none else some first_untrusted
  hop_loop env (hop ∷ hops) first_untrusted =
      let first = if net.same first_untrusted net.zero_addr then hop else first_untrusted in
      elim (is_trusted_proxy env hop) [
        | true ↦ hop_loop env hops first_untrusted
        | false ↦ elim (is_public_client_ip hop) [
          | true ↦ some hop
          | false ↦ hop_loop env hops first
        ]
      ]

  -- `forwardedClientIP`
  unfoldable pub forwarded_client_ip : String → String → Option Addr
  forwarded_client_ip env header =
      hop_loop env (from_last (parse_forwarded_for_chain header)) net.zero_addr

  -- `remoteIPFromAddr`
  unfoldable pub remote_ip_from_addr : String → Option Addr
  remote_ip_from_addr addr = elim (net.split_host_port (trim_space addr)) [
    | none ↦ net.parse_addr (trim_space addr)
    | some host ↦ net.parse_addr host
  ]

  -- `clientIdentifier` where the remote address is no address of a host
  unfoldable pub unparsed_identifier : String → String
  unparsed_identifier remote =
      let text = if str_eq (trim_space remote) "" then "unknown" else trim_space remote in
      elim (net.split_host_port (trim_space remote)) [
        | none ↦ text
        | some host ↦ if str_eq host "" then text else host
      ]

  -- `r.Header.Get`: the first field line
  unfoldable pub first_line : List String → String
  first_line [] = ""
  first_line (line ∷ lines) = line

  -- `clientIdentifier`, with the trusted proxies, the remote address and X-Forwarded-For
  unfoldable pub client_identifier : String → String → List String → String
  client_identifier env remote lines = elim (remote_ip_from_addr remote) [
    | none ↦ unparsed_identifier remote
    | some ip ↦
        let forwarded : String = elim (forwarded_client_ip env (first_line lines)) [
          | none ↦ net.print ip
          | some client ↦ net.print client
        ] in
        if is_trusted_proxy env ip then forwarded else net.print ip
  ]
