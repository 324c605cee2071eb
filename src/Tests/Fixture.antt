-- ===== src/Tests/Fixture.antt =====
-- A small router: a clock that advances by one, a store that takes every configuration, and a helper that
-- verifies every request.
use minimalrouter.Apply.Engine.{Environment, Machine, received}
use minimalrouter.Apply.Engine.Invariant.{Inv}
use minimalrouter.Apply.Engine.Invariant.Process.{process-Inv}
use minimalrouter.Apply.Engine.Process.{process}
use minimalrouter.Apply.Ipc.{ApplyResponse}
use minimalrouter.Apply.Safety.{same_ipv4_network, same_net}
use minimalrouter.Config.Model.{SystemConfig, nil}
use minimalrouter.Net.Address.{equal, to4, v4}
use minimalrouter.Net.Mask.{
  and_bytes, cidr, cidr_bytes, leading_ones, mask, mask_length_from, simple_mask_length, size,
}
use minimalrouter.Net.Network.{
  IpNet, dtoi, dtoi_from, parse_cidr, parse_cidr_address, parse_network,
}
use minimalrouter.Net.Parse.{
  Ipv6Std, decimal_from, from_octets, parse_ipv4_strict, parse_octet, parse_octets,
}
use minimalrouter.Prelude.{
  [], arith, bytes_eq, codes, false, none, ok, refl, some, split, split_once, true, ℕ, ◌+◌, ◌∷◌,
  ◌≡◌,
}
use minimalrouter.Prelude.Int.{pos}

-- A configuration that names its LAN and nothing else.
abbrev pub plain : SystemConfig
plain = record {
  revision = 7;
  updated_at = 0;
  system = record {
    hostname = codes "router";
    domain = codes "lan";
    https_enabled = true;
    https_port = pos 443;
    management_access = codes "lan";
  };
  wan = record {
    interface = codes "eth0";
    enabled = true;
    username = [];
    password = [];
    mtu = pos 1492;
  };
  lan = record {
    interface = codes "eth1";
    ip_address = codes "192.168.1.1";
    netmask = codes "255.255.255.0";
    cidr = codes "192.168.1.0/24";
  };
  dhcp = record {
    enabled = true;
    dns_enabled = true;
    range_start = codes "192.168.1.100";
    range_end = codes "192.168.1.200";
    lease_time = codes "12h";
    dns_servers = nil;
    static_leases = nil;
  };
  dns = record { records = nil };
  firewall = record {
    default_wan_input_policy = codes "drop";
    wan_ingress_mode = [];
    stateful_firewall = true;
    port_forwards = nil;
    custom_rules = nil;
    extra_lans = nil;
  };
  wireguard = record {
    enabled = false;
    interface = codes "wg0";
    private_key = [];
    listen_port = pos 51820;
    address = [];
    peers = nil;
  };
  wg_client = record {
    enabled = false;
    interface = codes "wg1";
    private_key = [];
    address = [];
    public_key = [];
    preshared_key = [];
    endpoint = [];
    allowed_ips = nil;
    persistent_keepalive = pos 25;
  };
  cloudflare = record {
    ddns_enabled = false;
    ddns_provider = [];
    ddns_user = [];
    api_token = [];
    zone_id = [];
    zone_name = [];
    domain = [];
    tunnel_enabled = false;
    tunnel_hostname = [];
    tunnel_token = [];
  };
  squid_proxy = record {
    enabled = false;
    port = pos 3128;
    username = [];
    password = [];
    restricted_ips = nil;
  };
  adguard = record {
    enabled = false;
    blocklist_url = [];
    last_updated = [];
    filter_devices = nil;
    device_profiles = nil;
  };
  qos = record {
    enabled = true;
    algorithm = codes "cake";
    download_limit_mbps = pos 100;
    upload_limit_mbps = pos 20;
  };
  wifi = record {
    enabled = false;
    interface = [];
    ssid = [];
    passphrase = [];
    band = [];
    channel = pos 0;
    hide_ssid = false;
  };
  accounting = record { enabled = false; retention_months = pos 0 };
  trusted_networks = nil;
}

-- The candidate: a longer lease time.
abbrev pub longer_lease : SystemConfig
longer_lease = record plain { dhcp = record plain.dhcp { lease_time = codes "24h" } }

-- The candidate: another address of the router in its LAN, which wants a confirmation.
abbrev pub moved : SystemConfig
moved = record plain { lan = record plain.lan { ip_address = codes "192.168.1.2" } }

abbrev pub plain_ipv6 : Ipv6Std
plain_ipv6 = record { parse = λ s. none; print = λ o. o; parse_length = λ s o h. ground (arith, h) }

abbrev verified_answer : ApplyResponse
verified_answer = record {
  id = [];
  success = true;
  error = none;
  logs = [];
  verified = true;
  rolled_back = false;
  recovery_required = false;
  timestamp = pos 0;
  tunnel_status = none;
  firewall_counters = none;
}

abbrev pub good_response : ApplyResponse
good_response = verified_answer

abbrev pub router_env : Environment
router_env = record {
  World = ℕ;
  now = λ w. (w, w + 1);
  instant = λ w. (w, w + 1);
  apply = λ deadline req w. (ok good_response, w);
  has_store = true;
  create_snapshot = λ cfg w. (none, w);
  save_config = λ cfg w. (none, w);
  append_audit = λ e w. w;
  dhcp_leases = λ w. (
    record {
      status = record {
        available = true;
        collected_at = 0;
        truncated = false;
        rejected_entries = pos 0;
        error = [];
      };
      leases = [];
    },
    w,
  );
  generate_nftables = λ cfg. ok [];
  generate_pppoe = λ cfg. ok ([], []);
  generate_dnsmasq = λ cfg. ok [];
  generate_hostapd = λ cfg. ok [];
  generate_wireguard = λ cfg. ok [];
  rules = record { validate = λ cfg. none; scenario_safety = λ cfg. none };
  json = record {
    firewall = λ f. some [];
    wireguard = λ w. some [];
    wg_client = λ w. some [];
    wifi = λ w. some [];
    trusted_networks = λ t. some [];
    static_leases = λ s. some [];
  };
  ipv6 = plain_ipv6;
}

-- A router that has just started.
abbrev pub started : Machine router_env
started = record {
  world = 1000;
  engine = record {
    active_tx = none;
    applying = false;
    current_config = plain;
    pending = none;
    recovery_required = false;
    recovery_reason = none;
  };
  heap = λ r. record {
    id = [];
    current_state = received;
    config = plain;
    diff = [];
    error = none;
    created_at = 0;
    confirmed_at = none;
    confirmation_deadline = none;
    firewall_changed = false;
  };
  next = 0;
  log = [];
}

pub started-Inv : Inv router_env plain started
started-Inv = record { durable = λ st. refl; idle = refl; pending_ok = tt }

-- The router with a change that waits for its confirmation.
abbrev pub waiting : Machine router_env
waiting = (process router_env (codes "tx-1") moved false none started).1

pub waiting-Inv : Inv router_env plain waiting
waiting-Inv = process-Inv router_env plain (codes "tx-1") moved false none started started-Inv

-- The LAN's network, spelled by another of its addresses.
abbrev pub other_spelling : SystemConfig
other_spelling = record plain { lan = record plain.lan { cidr = codes "192.168.1.9/24" } }

abbrev pub lan_net : IpNet
lan_net = record { ip = 192 ∷ 168 ∷ 1 ∷ 0 ∷ []; mask = 255 ∷ 255 ∷ 255 ∷ 0 ∷ [] }

pub lan_parsed : parse_cidr plain_ipv6 (codes "192.168.1.7/24") ≡ some (v4 192 168 1 7, lan_net)
unfolding parse_cidr parse_cidr_address parse_network parse_ipv4_strict parse_octets parse_octet
    decimal_from from_octets dtoi dtoi_from cidr cidr_bytes mask and_bytes split_once split v4
    bytes_eq
lan_parsed = refl

pub same_lan : same_ipv4_network plain_ipv6 plain.lan.cidr other_spelling.lan.cidr ≡ true
unfolding same_ipv4_network same_net parse_cidr parse_cidr_address parse_network parse_ipv4_strict
    parse_octets parse_octet decimal_from from_octets dtoi dtoi_from cidr cidr_bytes mask and_bytes
    split_once split to4 equal size simple_mask_length mask_length_from leading_ones bytes_eq v4
same_lan = refl
