-- ===== src/Config/Policy/Trust.antt =====
-- rust/crates/mr-config/src/config/policy.rs, `is_trusted_client_address` with `parse_remote_ip`: which
-- peers of a connection may manage the router. `str::trim` is a parameter.
use minimalrouter.Config.Model.{SystemConfig, items}
use minimalrouter.Net.Address.{Ip, is_loopback, to4}
use minimalrouter.Net.HostPort.{
  Plain, join_host_port, rsplit_once, split_host_port, split_host_port-join_host_port,
}
use minimalrouter.Net.Network.{IpNet, contains, parse_cidr}
use minimalrouter.Net.Parse.{Ipv6Std, parse_ip}
use minimalrouter.Prelude.{
  Bool, Bool-cases, Bytes, List, Option, Option-cases, [], any, any_at, any_inv, arith,
  contains_byte, err, false, get_elem?, if◌then◌else◌, inl, inr, is_empty, length, length-drop,
  none, ok, refl, some, sym, true, ℕ, ◌||◌, ◌↔◌, ◌∷◌, ◌≡◌, ◌⊎◌,
}

-- The address that is compared: an IPv4-mapped one becomes IPv4.
unfoldable pub unmapped : Ip → Ip
unmapped ip = elim (to4 ip) [ some v ↦ v | none ↦ ip ]

module _ (std : Ipv6Std) where
  unfoldable pub parse_remote_ip : (Bytes → Bytes) → Bytes → Option Ip
  parse_remote_ip trim remote_addr =
      if is_empty remote_addr then none else elim (split_host_port remote_addr) [
        | ok (host, port) ↦ parse_ip std host
        | err e ↦ parse_ip std (trim remote_addr)
      ]

  -- One trusted network.
  unfoldable pub network_holds : Ip → Bytes → Bool
  network_holds ip network = elim (parse_cidr std network) [
    | none ↦ false
    | some (_, n) ↦ contains n ip
  ]

  unfoldable pub is_trusted_client_address : (Bytes → Bytes) → SystemConfig → Bytes → Bool
  is_trusted_client_address trim c remote_addr = elim (parse_remote_ip trim remote_addr) [
    | none ↦ false
    | some ip ↦
        is_loopback (unmapped ip) || any (network_holds (unmapped ip)) (items c.trusted_networks)
  ]

  -- One of the networks, as it reads, contains the address.
  abbrev pub Holds : Ip → List Bytes → Type 0
  Holds ip networks =
      (i : ℕ) × (network : Bytes) × (get_elem? networks i ≡ some network)
      × (address : Ip) × (net : IpNet) × (parse_cidr std network ≡ some (address, net))
      × (contains net ip ≡ true)

length-to4 : (ip : Ip) {v : Ip} → to4 ip ≡ some v → length v ≡ 4
unfolding to4
length-to4 ip {v} h = ground (arith, length-drop 12 ip)

to4-to4 : (ip : Ip) {v : Ip} → to4 ip ≡ some v → to4 v ≡ some v
unfolding to4
to4-to4 ip {v} h = rw (length-to4 ip h) refl

is_loopback-unmapped : (ip : Ip) → is_loopback (unmapped ip) ≡ is_loopback ip
unfolding is_loopback unmapped
is_loopback-unmapped ip = elim (Option-cases (to4 ip)) [
  | inl e ↦ ground (arith, e)
  | inr (v, e) ↦ ground (arith, e, to4-to4 ip e)
]

contains-unmapped : (n : IpNet) (ip : Ip) → contains n (unmapped ip) ≡ contains n ip
unfolding contains unmapped
contains-unmapped n ip = elim (Option-cases (to4 ip)) [
  | inl e ↦ ground (arith, e)
  | inr (v, e) ↦ ground (arith, e, to4-to4 ip e)
]

network_holds_inv :
    (std : Ipv6Std) (ip : Ip) (network : Bytes)
    → network_holds std ip network ≡ true
    → (address : Ip) × (net : IpNet) × (parse_cidr std network ≡ some (address, net))
      × (contains net ip ≡ true)
unfolding network_holds
network_holds_inv std ip network h = elim (Option-cases (parse_cidr std network)) [
  | inl e ↦ ground (arith, e)
  | inr ((address, net), e) ↦ (address, net, e, ground (arith, e))
]

network_holds_intro :
    (std : Ipv6Std) (ip : Ip) (network : Bytes) {address : Ip} {net : IpNet}
    → parse_cidr std network ≡ some (address, net)
    → contains net ip ≡ true
    → network_holds std ip network ≡ true
unfolding network_holds
network_holds_intro std ip network e h = ground (arith, e, h)

is_empty-split_host_port :
    (s : Bytes) {r : Bytes × Bytes} → split_host_port s ≡ ok r → is_empty s ≡ false
unfolding split_host_port rsplit_once
is_empty-split_host_port [] h = cc
is_empty-split_host_port (_ ∷ _) h = refl

either_iff :
    {x a b : Bool} {P : Type 0}
    → x ≡ (a || b)
    → (b ≡ true → P)
    → (P → b ≡ true)
    → (x ≡ true) ↔ ((a ≡ true) ⊎ P)
either_iff {x} {a} {b} e there back = elim (Bool-cases a) [
  | inl f ↦ (λ _. inl f, λ _. ground arith)
  | inr f ↦ (
    λ h. inr (there (ground arith)),
    elim [ inl g ↦ ground arith | inr q ↦ let r = back q in ground arith ],
  )
]

module _ (std : Ipv6Std) (trim : Bytes → Bytes) (c : SystemConfig) where
  Holds-any :
      (ip : Ip)
      → any (network_holds std (unmapped ip)) (items c.trusted_networks) ≡ true
      → Holds std ip (items c.trusted_networks)
  Holds-any ip h =
      let (i, network, at, holds) =
        any_inv (network_holds std (unmapped ip)) (items c.trusted_networks) h in
      let (address, net, e, inside) = network_holds_inv std (unmapped ip) network holds in
      (i, network, at, address, net, e, rw (sym (contains-unmapped net ip)) inside)

  any-Holds :
      (ip : Ip)
      → Holds std ip (items c.trusted_networks)
      → any (network_holds std (unmapped ip)) (items c.trusted_networks) ≡ true
  any-Holds ip (i, network, at, address, net, e, inside) =
      any_at (network_holds std (unmapped ip)) (items c.trusted_networks) i at
        (network_holds_intro std (unmapped ip) network e (rw (contains-unmapped net ip) inside))

  module _ (host port : Bytes) {ip : Ip} (h : Plain host) (p : Plain port)
      (f : contains_byte b':' port ≡ false) (e : parse_ip std host ≡ some ip) where
    parse_remote_ip-join : parse_remote_ip std trim (join_host_port host port) ≡ some ip
    unfolding parse_remote_ip
    parse_remote_ip-join =
        let split = split_host_port-join_host_port host port h p f in
        let some_text = is_empty-split_host_port (join_host_port host port) split in
        ground (arith, split, some_text, e)

    is_trusted_client_address-join :
        is_trusted_client_address std trim c (join_host_port host port)
        ≡ (is_loopback ip || any (network_holds std (unmapped ip)) (items c.trusted_networks))
    unfolding is_trusted_client_address
    is_trusted_client_address-join = ground (arith, parse_remote_ip-join, is_loopback-unmapped ip)

    -- A peer whose address is spelled `host`, in brackets where it has colons, and whose port is spelled
    -- `port` is let in exactly when the address is a loopback address or one of the trusted networks
    -- contains it.
    pub is_trusted_client_address_iff :
        (is_trusted_client_address std trim c (join_host_port host port) ≡ true)
        ↔ ((is_loopback ip ≡ true) ⊎ Holds std ip (items c.trusted_networks))
    unfolding is_trusted_client_address
    is_trusted_client_address_iff =
        either_iff is_trusted_client_address-join (Holds-any ip) (any-Holds ip)
