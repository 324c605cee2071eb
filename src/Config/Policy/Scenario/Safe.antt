-- ===== src/Config/Policy/Scenario/Safe.antt =====
-- What `validate_scenario_safety` accepts, as conditions on the configuration.
use minimalrouter.Config.Model.{DnsRecord, FirewallRule, SystemConfig, WgClientConfig, items}
use minimalrouter.Config.Policy.Scenario.{
  add_each, add_if, denies_input, endpoint_bad, is_private_site_network, leaves_site, tunnel_errors,
  valid_dns_name_strict, validate_scenario_safety,
}
use minimalrouter.Config.Policy.Scenario.Host.{IsHost, address_errors-IsHost}
use minimalrouter.Net.Address.{Ip, to4, v4}
use minimalrouter.Net.HostPort.{AddrError, split_host_port}
use minimalrouter.Net.Network.{IpNet, parse_cidr}
use minimalrouter.Net.Parse.{Ipv6Std, parse_ip}
use minimalrouter.Prelude.{
  All, Bool, Bool-cases, Bytes, List, Message, Option-cases, Result-cases, [], arith, bytes_eq,
  bytes_eq_iff, bytes_eq→eq, codes, err, false, if◌then◌else◌, inl, inr, is_none, is_some, none,
  not, ok, refl, some, suc, sym, true, ℕ, ◌&&◌, ◌++◌, ◌↔◌, ◌∷◌, ◌≡◌, ◌≢◌, ◌⊎◌,
}

add_if-nil : (b : Bool) (field message : Message) → (add_if b field message ≡ []) ↔ (b ≡ false)
add_if-nil true field message = (λ h. absurd (ground arith), λ h. absurd (ground arith))
add_if-nil false field message = (λ h. refl, λ h. refl)

-- A guard that must not add an error, for the condition it stands for.
add_unless-nil :
    (b : Bool) (field message : Message) → (add_if (not b) field message ≡ []) ↔ (b ≡ true)
add_unless-nil true field message = (λ h. refl, λ h. refl)
add_unless-nil false field message = (λ h. absurd (ground arith), λ h. absurd (ground arith))

append-nil_iff : {A : Type 0} (xs ys : List A) → (xs ++ ys ≡ []) ↔ ((xs ≡ []) × (ys ≡ []))
append-nil_iff [] ys = (λ h. (refl, h), λ h. h.1)
append-nil_iff (x ∷ xs) ys = (λ h. absurd (ground arith), λ h. absurd (let e = h.0 in ground arith))

append_iff :
    {A P Q : Type 0} {xs ys : List A} → (xs ≡ []) ↔ P → (ys ≡ []) ↔ Q → (xs ++ ys ≡ []) ↔ (P × Q)
append_iff {xs = xs} {ys} p q =
    let both = append-nil_iff xs ys in
    (λ h. let (h0, h1) = both.0 h in (p.0 h0, q.0 h1), λ h. both.1 (p.1 h.0, q.1 h.1))

-- Errors that are looked for under a condition only.
if_iff :
    {A P : Type 0} (b : Bool) {xs : List A}
    → (xs ≡ []) ↔ P
    → ((if b then xs else []) ≡ []) ↔ ((b ≡ false) ⊎ P)
if_iff true p = (λ h. inr (p.0 h), elim [ inl e ↦ absurd (ground arith) | inr h ↦ p.1 h ])
if_iff false p = (λ h. inl refl, λ h. refl)

trans_iff : {P Q R : Type 0} → P ↔ Q → Q ↔ R → P ↔ R
trans_iff p q = (λ h. q.0 (p.0 h), λ h. p.1 (q.1 h))

-- Each item meets `P` exactly when the test is false of it.
module _ {A : Type 0} {P : A → Type 0} {bad : A → Bool} (field : ℕ → Message) (message : Message)
    (iff : (x : A) → (bad x ≡ false) ↔ P x) where
  add_each-All : (i : ℕ) (xs : List A) → (add_each bad field message i xs ≡ []) ↔ All P xs
  unfolding add_each
  add_each-All i [] = (λ h. tt, λ h. refl)
  add_each-All i (x ∷ xs) =
      let rest = add_each-All (suc i) xs in
      let both =
        append-nil_iff (add_if (bad x) (field i) message) (add_each bad field message (suc i) xs) in
      let here = add_if-nil (bad x) (field i) message in
      (
        λ h. let (h0, h1) = both.0 h in ((iff x).0 (here.0 h0), rest.0 h1),
        λ h. both.1 (here.1 ((iff x).1 h.0), rest.1 h.1),
      )

abbrev pub IsAdmitted : FirewallRule → Type 0
IsAdmitted rule =
    (rule.enabled ≡ false) ⊎ ((rule.direction ≢ codes "input") ⊎ (rule.action ≢ codes "deny"))

bytes_eq-false : (a b : Bytes) → (bytes_eq a b ≡ false) ↔ (a ≢ b)
bytes_eq-false a b = (
  λ h e. let same = (bytes_eq_iff a b).1 e in ground (arith, same),
  λ differs. elim (Bool-cases (bytes_eq a b)) [
    | inl same ↦ absurd (differs (bytes_eq→eq a b same))
    | inr h ↦ h
  ],
)

and-false : (a b : Bool) → (a && b ≡ false) ↔ ((a ≡ false) ⊎ (b ≡ false))
and-false true b = (λ h. inr h, elim [ inl e ↦ absurd (ground arith) | inr h ↦ h ])
and-false false b = (λ h. inl refl, λ h. refl)

denies_input-IsAdmitted : (rule : FirewallRule) → (denies_input rule ≡ false) ↔ IsAdmitted rule
unfolding denies_input
denies_input-IsAdmitted rule =
    let input = bytes_eq-false rule.direction (codes "input") in
    let deny = bytes_eq-false rule.action (codes "deny") in
    let outer =
      and-false rule.enabled
        (bytes_eq rule.direction (codes "input") && bytes_eq rule.action (codes "deny")) in
    let inner =
      and-false (bytes_eq rule.direction (codes "input")) (bytes_eq rule.action (codes "deny")) in
    (
      λ h. elim (outer.0 h) [
        | inl e ↦ inl e
        | inr k ↦ elim (inner.0 k) [ inl e ↦ inr (inl (input.0 e)) | inr e ↦ inr (inr (deny.0 e)) ]
      ],
      elim [
        | inl e ↦ outer.1 (inl e)
        | inr (inl e) ↦ outer.1 (inr (inner.1 (inl (input.1 e))))
        | inr (inr e) ↦ outer.1 (inr (inner.1 (inr (deny.1 e))))
      ],
    )

module _ (std : Ipv6Std) (trim : Bytes → Bytes) where
  -- What is routed into the tunnel: an IPv4 network lies in a private zone.
  abbrev pub StaysPrivate : Bytes → Type 0
  StaysPrivate entry =
      (parse_cidr std (trim entry) ≡ none)
      ⊎ ((ip : Ip) × (net : IpNet) × (parse_cidr std (trim entry) ≡ some (ip, net))
          × ((is_some (to4 net.ip) ≡ false) ⊎ (is_private_site_network std trim net ≡ true)))

  -- The other end, where it is written with a port: an address, or a name of DNS labels.
  abbrev pub IsEndpoint : Bytes → Type 0
  IsEndpoint endpoint =
      ((e : AddrError) × (split_host_port endpoint ≡ err e))
      ⊎ ((host : Bytes) × (port : Bytes) × (split_host_port endpoint ≡ ok (host, port))
          × ((is_none (parse_ip std host) ≡ false) ⊎ (valid_dns_name_strict std trim host ≡ true)))

  leaves_site-StaysPrivate :
      (entry : Bytes) → (leaves_site std trim entry ≡ false) ↔ StaysPrivate entry
  unfolding leaves_site
  leaves_site-StaysPrivate entry = (
    λ h. elim (Option-cases (parse_cidr std (trim entry))) [
      | inl e ↦ inl e
      | inr ((ip, net), e) ↦ elim (Bool-cases (is_some (to4 net.ip))) [
        | inl v4 ↦ inr (ip, net, e, inr (ground (arith, h, e, v4)))
        | inr v6 ↦ inr (ip, net, e, inl v6)
      ]
    ],
    elim [
      | inl e ↦ ground (arith, e)
      | inr (ip, net, e, inl v6) ↦ ground (arith, e, v6)
      | inr (ip, net, e, inr holds) ↦ ground (arith, e, holds)
    ],
  )

  endpoint_bad-IsEndpoint :
      (endpoint : Bytes) → (endpoint_bad std trim endpoint ≡ false) ↔ IsEndpoint endpoint
  unfolding endpoint_bad
  endpoint_bad-IsEndpoint endpoint = (
    λ h. elim (Result-cases (split_host_port endpoint)) [
      | inl ((host, port), e) ↦ elim (Bool-cases (is_none (parse_ip std host))) [
        | inl name ↦ inr (host, port, e, inr (ground (arith, h, e, name)))
        | inr address ↦ inr (host, port, e, inl address)
      ]
      | inr (why, e) ↦ inl (why, e)
    ],
    elim [
      | inl (why, e) ↦ ground (arith, e)
      | inr (host, port, e, inl address) ↦ ground (arith, e, address)
      | inr (host, port, e, inr name) ↦ ground (arith, e, name)
    ],
  )

  abbrev pub IsSafeTunnel : WgClientConfig → Type 0
  IsSafeTunnel tunnel =
      IsHost std trim (trim tunnel.address)
      × (All StaysPrivate (items tunnel.allowed_ips) × IsEndpoint tunnel.endpoint)

  abbrev pub IsSafe : SystemConfig → Type 0
  IsSafe c =
      (valid_dns_name_strict std trim c.system.domain ≡ true)
      × (All (λ (r : DnsRecord). valid_dns_name_strict std trim r.name ≡ true) (items c.dns.records)
          × (((c.wg_client.enabled ≡ false) ⊎ IsSafeTunnel c.wg_client)
              × All IsAdmitted (items c.firewall.custom_rules)))

  not-false : (b : Bool) → (not b ≡ false) ↔ (b ≡ true)
  not-false true = (λ h. refl, λ h. refl)
  not-false false = (λ h. sym h, λ h. sym h)

  tunnel_errors-IsSafeTunnel :
      (tunnel : WgClientConfig)
      → (tunnel_errors std trim tunnel ≡ []) ↔ ((tunnel.enabled ≡ false) ⊎ IsSafeTunnel tunnel)
  unfolding tunnel_errors
  tunnel_errors-IsSafeTunnel tunnel = if_iff tunnel.enabled (
      append_iff (address_errors-IsHost std trim (trim tunnel.address)) (
        append_iff (add_each-All _ _ leaves_site-StaysPrivate 0 (items tunnel.allowed_ips)) (
          trans_iff (add_if-nil (endpoint_bad std trim tunnel.endpoint) _ _)
            (endpoint_bad-IsEndpoint tunnel.endpoint))))

  -- A configuration is accepted exactly when its domain and the names of its DNS records are DNS names,
  -- no enabled custom rule denies input, and, where the outbound tunnel is enabled: its address is
  -- written as one IPv4 address with the full mask (`a.b.c.d/32`), or as an IPv4 address in an IPv6
  -- spelling with a mask of 32 ones of 128 (`::ffff:a.b.c.d/32`), which the code lets through as well;
  -- its endpoint is not a host and port that is neither an address nor a DNS name; and each IPv4 network
  -- it routes lies in a private zone.
  pub validate_scenario_safety-IsSafe :
      (c : SystemConfig) → (validate_scenario_safety std trim c ≡ []) ↔ IsSafe c
  unfolding validate_scenario_safety
  validate_scenario_safety-IsSafe c =
      append_iff (add_unless-nil (valid_dns_name_strict std trim c.system.domain) _ _) (
        append_iff
          (add_each-All _ _ (λ (r : DnsRecord). not-false (valid_dns_name_strict std trim r.name)) 0
            (items c.dns.records))
          (append_iff (tunnel_errors-IsSafeTunnel c.wg_client)
            (add_each-All _ _ denies_input-IsAdmitted 0 (items c.firewall.custom_rules))))
