-- ===== src/Config/Model.antt =====
-- rust/crates/mr-config/src/config/model.rs: the canonical configuration, field for field. Text is its
-- bytes, an `i64` is an integer, a `BTreeMap` the list of its entries.
use minimalrouter.Prelude.{ℕ, Bool, List, [], Bytes, codes, if◌then◌else◌}
use minimalrouter.Prelude.Int.{ℤ}

-- `goish::json::List`: a Go slice, which may be nil.
pub data GoList {ℓ} (A : Type ℓ) : Type ℓ where
  nil : GoList A
  slice : List A → GoList A

abbrev pub items {ℓ} : {A : Type ℓ} → GoList A → List A
items nil = []
items (slice xs) = xs

-- u64
abbrev pub Revision : Type 0
Revision = ℕ

-- Nanoseconds since the epoch.
abbrev pub Time : Type 0
Time = ℕ

pub record WireGuardPeer : Type 0 where
  pub id : Bytes
  pub name : Bytes
  pub public_key : Bytes
  pub preshared_key : Bytes
  pub allowed_ips : GoList Bytes
  pub endpoint : Bytes
  pub enabled : Bool

pub record WireGuardConfig : Type 0 where
  pub enabled : Bool
  pub interface : Bytes
  pub private_key : Bytes
  pub listen_port : ℤ
  pub address : Bytes
  pub peers : GoList WireGuardPeer

pub record WgClientConfig : Type 0 where
  pub enabled : Bool
  pub interface : Bytes
  pub private_key : Bytes
  pub address : Bytes
  pub public_key : Bytes
  pub preshared_key : Bytes
  pub endpoint : Bytes
  pub allowed_ips : GoList Bytes
  pub persistent_keepalive : ℤ

pub record CloudflareConfig : Type 0 where
  pub ddns_enabled : Bool
  pub ddns_provider : Bytes
  pub ddns_user : Bytes
  pub api_token : Bytes
  pub zone_id : Bytes
  pub zone_name : Bytes
  pub domain : Bytes
  pub tunnel_enabled : Bool
  pub tunnel_hostname : Bytes
  pub tunnel_token : Bytes

pub record WifiConfig : Type 0 where
  pub enabled : Bool
  pub interface : Bytes
  pub ssid : Bytes
  pub passphrase : Bytes
  pub band : Bytes
  pub channel : ℤ
  pub hide_ssid : Bool

pub record QosConfig : Type 0 where
  pub enabled : Bool
  pub algorithm : Bytes
  pub download_limit_mbps : ℤ
  pub upload_limit_mbps : ℤ

pub record AccessWindow : Type 0 where
  pub start : Bytes
  pub end : Bytes

pub record WeeklyAccessSchedule : Type 0 where
  pub day_windows : List (Bytes × GoList AccessWindow)
  pub weekday_windows : GoList AccessWindow
  pub weekend_mode : Bytes
  pub weekend_windows : GoList AccessWindow

pub record DeviceProfile : Type 0 where
  pub id : Bytes
  pub name : Bytes
  pub ip_addresses : GoList Bytes
  pub services : GoList Bytes
  pub schedule : WeeklyAccessSchedule
  pub enabled : Bool

pub record FilterDeviceRule : Type 0 where
  pub id : Bytes
  pub hostname : Bytes
  pub ip_address : Bytes
  pub blocked_services : GoList Bytes
  pub enabled : Bool

pub record DnsFilterConfig : Type 0 where
  pub enabled : Bool
  pub blocklist_url : Bytes
  pub last_updated : Bytes
  pub filter_devices : GoList FilterDeviceRule
  pub device_profiles : GoList DeviceProfile

pub record RestrictedIpItem : Type 0 where
  pub hostname : Bytes
  pub ip_address : Bytes
  pub enabled : Bool

pub record SquidProxyConfig : Type 0 where
  pub enabled : Bool
  pub port : ℤ
  pub username : Bytes
  pub password : Bytes
  pub restricted_ips : GoList RestrictedIpItem

pub record SystemSettings : Type 0 where
  pub hostname : Bytes
  pub domain : Bytes
  pub https_enabled : Bool
  pub https_port : ℤ
  pub management_access : Bytes

pub record WanSettings : Type 0 where
  pub interface : Bytes
  pub enabled : Bool
  pub username : Bytes
  pub password : Bytes
  pub mtu : ℤ

pub record LanSettings : Type 0 where
  pub interface : Bytes
  pub ip_address : Bytes
  pub netmask : Bytes
  pub cidr : Bytes

pub record StaticLease : Type 0 where
  pub id : Bytes
  pub hostname : Bytes
  pub mac : Bytes
  pub ip_address : Bytes

pub record DhcpSettings : Type 0 where
  pub enabled : Bool
  pub dns_enabled : Bool
  pub range_start : Bytes
  pub range_end : Bytes
  pub lease_time : Bytes
  pub dns_servers : GoList Bytes
  pub static_leases : GoList StaticLease

pub record DnsRecord : Type 0 where
  pub name : Bytes
  pub ip : Bytes

pub record DnsSettings : Type 0 where
  pub records : GoList DnsRecord

pub record ExtraLanConfig : Type 0 where
  pub id : Bytes
  pub name : Bytes
  pub interface : Bytes
  pub cidr : Bytes
  pub router_address : Bytes
  pub dst_ip : Bytes
  pub dst_port : ℤ
  pub protocol : Bytes
  pub allow_from : GoList Bytes
  pub enabled : Bool

pub record PortForwardRule : Type 0 where
  pub id : Bytes
  pub name : Bytes
  pub protocol : Bytes
  pub external_port : ℤ
  pub internal_ip : Bytes
  pub internal_port : ℤ
  pub enabled : Bool

pub record FirewallRule : Type 0 where
  pub id : Bytes
  pub name : Bytes
  pub action : Bytes
  pub direction : Bytes
  pub protocol : Bytes
  pub src_ip : Bytes
  pub dst_port : ℤ
  pub enabled : Bool
  pub scope : Bytes
  pub preset_id : Bytes

pub record FirewallConfig : Type 0 where
  pub default_wan_input_policy : Bytes
  pub wan_ingress_mode : Bytes
  pub stateful_firewall : Bool
  pub port_forwards : GoList PortForwardRule
  pub custom_rules : GoList FirewallRule
  pub extra_lans : GoList ExtraLanConfig

pub record AccountingConfig : Type 0 where
  pub enabled : Bool
  pub retention_months : ℤ

pub record SystemConfig : Type 0 where
  pub revision : Revision
  pub updated_at : Time
  pub system : SystemSettings
  pub wan : WanSettings
  pub lan : LanSettings
  pub dhcp : DhcpSettings
  pub dns : DnsSettings
  pub firewall : FirewallConfig
  pub wireguard : WireGuardConfig
  pub wg_client : WgClientConfig
  pub cloudflare : CloudflareConfig
  pub squid_proxy : SquidProxyConfig
  pub adguard : DnsFilterConfig
  pub qos : QosConfig
  pub wifi : WifiConfig
  pub accounting : AccountingConfig
  pub trusted_networks : GoList Bytes

abbrev pub wifi_bridge_interface : Bytes
wifi_bridge_interface = codes "br-lan"

-- The interface that owns the LAN address: Wi-Fi clients join the same LAN through a bridge.
unfoldable pub runtime_lan_interface : SystemConfig → Bytes
runtime_lan_interface c = if c.wifi.enabled then wifi_bridge_interface else c.lan.interface
