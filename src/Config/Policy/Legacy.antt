-- ===== src/Config/Policy/Legacy.antt =====
-- rust/crates/mr-config/src/config/policy.rs, `migrate_legacy_fields`: the router's address in an extra
-- LAN that was saved without one. `str::trim` is a parameter.
use mathlib.Core.Path.{subst}
use minimalrouter.Config.Model.{ExtraLanConfig, GoList, SystemConfig, nil, slice}
use minimalrouter.Net.Address.{Ip, byte_at, to4}
use minimalrouter.Net.Mask.{size}
use minimalrouter.Net.Network.{IpNet, parse_cidr}
use minimalrouter.Net.Parse.{Ipv6Std}
use minimalrouter.Net.Show.{decimal, digits_from, show_ip, show_octets}
use minimalrouter.Prelude.{
  Bool, Bool-cases, Bytes, List, Option, Option-cases, [], ap, arith, bit_or, false, if◌then◌else◌,
  inl, inr, is_ascii_digit, is_empty, leb, ltb, map, none, not, refl, some, suc, sym, tests, true,
  zero, ℕ, ◌%◌, ◌*◌, ◌++◌, ◌+◌, ◌-◌, ◌/◌, ◌<◌, ◌==◌, ◌^◌, ◌||◌, ◌∙◌, ◌∷◌, ◌≡◌,
}

-- `u32::from_be_bytes` and `to_be_bytes`.
unfoldable pub from_be32 : Bytes → ℕ
from_be32 b = ((byte_at b 0 * 256 + byte_at b 1) * 256 + byte_at b 2) * 256 + byte_at b 3

unfoldable pub be32 : ℕ → Bytes
be32 n = n / 2 ^ 24 % 256 ∷ n / 2 ^ 16 % 256 ∷ n / 2 ^ 8 % 256 ∷ n % 256 ∷ []

-- The first host of a network, with the network's prefix: none where there is no room for one.
unfoldable pub first_host : IpNet → Option (Ip × ℕ)
first_host network = elim (to4 network.ip) [
  | none ↦ none
  | some network_v4 ↦
      let (prefix, bits) = size network.mask in
      let network_value = from_be32 network_v4 in
      let broadcast_value = bit_or network_value (2 ^ 32 - 1 - from_be32 network.mask) in
      let gateway_value = (network_value + 1) % 2 ^ 32 in
      if not (bits == 32) || leb 31 prefix
      then none
      else if leb broadcast_value gateway_value
      then none
      else some (be32 gateway_value, prefix)
]

module _ (std : Ipv6Std) (trim : Bytes → Bytes) where
  unfoldable pub router_address_of : ExtraLanConfig → Option Bytes
  router_address_of lan = elim (parse_cidr std (trim lan.cidr)) [
    | none ↦ none
    | some (_, network) ↦ elim (first_host network) [
      | none ↦ none
      | some (gateway, prefix) ↦ some (show_ip std gateway ++ (b'/' ∷ decimal prefix))
    ]
  ]

  unfoldable pub migrate_lan : ExtraLanConfig → ExtraLanConfig
  migrate_lan lan =
      if not lan.enabled || not (is_empty (trim lan.router_address))
      then lan
      else elim (router_address_of lan) [
        | none ↦ lan
        | some text_of ↦ record lan { router_address = text_of }
      ]

  unfoldable pub migrate_lans : GoList ExtraLanConfig → GoList ExtraLanConfig
  migrate_lans nil = nil
  migrate_lans (slice lans) = slice (map migrate_lan lans)

  unfoldable pub migrate_legacy_fields : SystemConfig → SystemConfig
  migrate_legacy_fields c = record c {
    firewall = record c.firewall { extra_lans = migrate_lans c.firewall.extra_lans };
  }

abbrev starts_digit : Bytes → Bool
starts_digit [] = false
starts_digit (c ∷ _) = is_ascii_digit c

starts_digit-append : (xs ys : Bytes) → starts_digit xs ≡ true → starts_digit (xs ++ ys) ≡ true
starts_digit-append [] ys h = absurd (ground arith)
starts_digit-append (x ∷ xs) ys h = h

starts_digit-digits_from :
    (fuel n : ℕ) (acc : Bytes) → n < fuel → starts_digit (digits_from fuel n acc) ≡ true
unfolding digits_from
starts_digit-digits_from zero n acc h = absurd (omega arith)
starts_digit-digits_from (suc fuel) n acc h = elim (Bool-cases (ltb n 10)) [
  | inl small ↦ ground (arith, small)
  | inr big ↦
      let ih =
        starts_digit-digits_from fuel (n / 10) ((n % 10 + b'0') ∷ acc) (omega (tests, big)) in
      rw big ih
]

starts_digit-decimal : (n : ℕ) → starts_digit (decimal n) ≡ true
unfolding decimal
starts_digit-decimal n = starts_digit-digits_from (suc n) n [] (omega arith)

starts_digit-show_ip : (std : Ipv6Std) (n : ℕ) → starts_digit (show_ip std (be32 n)) ≡ true
unfolding show_ip show_octets to4 be32
starts_digit-show_ip std n =
    starts_digit-append (decimal (n / 2 ^ 24 % 256)) _ (starts_digit-decimal (n / 2 ^ 24 % 256))

starts_digit-first_host :
    (std : Ipv6Std) (network : IpNet) {gateway : Ip} {prefix : ℕ}
    → first_host network ≡ some (gateway, prefix)
    → starts_digit (show_ip std gateway) ≡ true
unfolding first_host
starts_digit-first_host std network {gateway} {prefix} h = elim (Option-cases (to4 network.ip)) [
  | inl e ↦ absurd (ground (arith, h, e))
  | inr (v, e) ↦
      let same : be32 ((from_be32 v + 1) % 2 ^ 32) ≡ gateway = ground (arith, h, e) in
      subst (λ g. starts_digit (show_ip std g) ≡ true) same
        (starts_digit-show_ip std ((from_be32 v + 1) % 2 ^ 32))
]

-- `trim` leaves something of a text that starts with a digit.
abbrev pub KeepsDigits : (Bytes → Bytes) → Type 0
KeepsDigits trim = (s : Bytes) → starts_digit s ≡ true → is_empty (trim s) ≡ false

module _ (std : Ipv6Std) (trim : Bytes → Bytes) (keeps : KeepsDigits trim) where
  starts_digit-router_address_of :
      (lan : ExtraLanConfig) {t : Bytes}
      → router_address_of std trim lan ≡ some t
      → starts_digit t ≡ true
  unfolding router_address_of
  starts_digit-router_address_of lan {t} h = elim (Option-cases (parse_cidr std (trim lan.cidr))) [
    | inl e ↦ absurd (ground (arith, h, e))
    | inr ((ip, network), e) ↦ elim (Option-cases (first_host network)) [
      | inl f ↦ absurd (ground (arith, h, e, f))
      | inr ((gateway, prefix), f) ↦
          let same : show_ip std gateway ++ (b'/' ∷ decimal prefix) ≡ t = ground (arith, h, e, f) in
          subst (λ x. starts_digit x ≡ true) same
            (starts_digit-append (show_ip std gateway) (b'/' ∷ decimal prefix)
              (starts_digit-first_host std network f))
    ]
  ]

  -- A record with an address is left alone.
  migrate_lan_addressed :
      (lan : ExtraLanConfig)
      → is_empty (trim lan.router_address) ≡ false
      → migrate_lan std trim lan ≡ lan
  unfolding migrate_lan
  migrate_lan_addressed lan e = ground (arith, e)

  migrate_lan_kept :
      (lan : ExtraLanConfig)
      → (not lan.enabled || not (is_empty (trim lan.router_address))) ≡ true
      → migrate_lan std trim lan ≡ lan
  unfolding migrate_lan
  migrate_lan_kept lan e = rw e refl

  migrate_lan_underivable :
      (lan : ExtraLanConfig)
      → router_address_of std trim lan ≡ none
      → migrate_lan std trim lan ≡ lan
  unfolding migrate_lan
  migrate_lan_underivable lan e =
      elim (Bool-cases (not lan.enabled || not (is_empty (trim lan.router_address)))) [
        | inl kept ↦ rw kept refl
        | inr absent ↦ rw (absent, e) refl
      ]

  migrate_lan_filled :
      (lan : ExtraLanConfig) {t : Bytes}
      → (not lan.enabled || not (is_empty (trim lan.router_address))) ≡ false
      → router_address_of std trim lan ≡ some t
      → migrate_lan std trim lan ≡ record lan { router_address = t }
  unfolding migrate_lan
  migrate_lan_filled lan absent e = rw (absent, e) refl

  migrate_lan_twice :
      (lan : ExtraLanConfig)
      → migrate_lan std trim (migrate_lan std trim lan) ≡ migrate_lan std trim lan
  migrate_lan_twice lan =
      elim (Bool-cases (not lan.enabled || not (is_empty (trim lan.router_address)))) [
        | inl kept ↦ ap (migrate_lan std trim) (migrate_lan_kept lan kept)
        | inr absent ↦ elim (Option-cases (router_address_of std trim lan)) [
          | inl e ↦ ap (migrate_lan std trim) (migrate_lan_underivable lan e)
          | inr (t, e) ↦
              let first = migrate_lan_filled lan absent e in
              let stays =
                migrate_lan_addressed (record lan { router_address = t })
                  (keeps t (starts_digit-router_address_of lan e)) in
              ap (migrate_lan std trim) first ∙ (stays ∙ sym first)
        ]
      ]

  map_twice :
      (lans : List ExtraLanConfig)
      → map (migrate_lan std trim) (map (migrate_lan std trim) lans)
        ≡ map (migrate_lan std trim) lans
  map_twice [] = refl
  map_twice (lan ∷ lans) = cc (migrate_lan_twice lan, map_twice lans)

  migrate_lans_twice :
      (lans : GoList ExtraLanConfig)
      → migrate_lans std trim (migrate_lans std trim lans) ≡ migrate_lans std trim lans
  unfolding migrate_lans
  migrate_lans_twice nil = refl
  migrate_lans_twice (slice lans) = ap slice (map_twice lans)

  -- Migrating a configuration that has been migrated changes nothing more: where `trim` leaves something of
  -- each text that starts with a digit, an address that is filled in counts as one that was there.
  pub migrate_legacy_fields_idem :
      (c : SystemConfig)
      → migrate_legacy_fields std trim (migrate_legacy_fields std trim c)
        ≡ migrate_legacy_fields std trim c
  unfolding migrate_legacy_fields
  migrate_legacy_fields_idem c = rw (migrate_lans_twice c.firewall.extra_lans) refl
