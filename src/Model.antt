-- ===== src/Model.antt =====
-- internal/model: the nodes and links of a lab, and the shape and resources that it is planned with. Times are left
-- out. An `int` field whose values the program takes from its own counters is a natural number.
use Prim.Native.String.{◌++◌ as append}
use dc_net_lab.Prelude.{ℕ, ℤ, pos, String, List, [], Option, ◌==◌, Bool, string_eq}
use dc_net_lab.NetIp.{Addr, Prefix, zero_addr, zero_prefix}

-- `Sprintf` of texts one after the other
infixr 65 ◌+s+◌
abbrev pub ◌+s+◌ : String → String → String
a +s+ b = append a b

pub record ResourceError : Type 0 where
  pub code : String
  pub message : String

pub record Meta : Type 0 where
  pub id : String
  pub name : String
  pub generation : ℤ
  pub observed_generation : ℤ
  pub phase : String
  pub last_error : Option ResourceError

-- `NodeRole`
abbrev pub role_external : String
role_external = "external"

abbrev pub role_dc_edge : String
role_dc_edge = "dc-edge"

abbrev pub role_superspine : String
role_superspine = "superspine"

abbrev pub role_spine : String
role_spine = "spine"

abbrev pub role_leaf : String
role_leaf = "leaf"

abbrev pub role_server : String
role_server = "server"

abbrev pub runtime_frr : String
runtime_frr = "frr"

pub record NodeSpec : Type 0 where
  pub lab_id : String
  pub role : String
  pub pod_id : String
  pub rack_id : String
  pub asn : ℕ
  pub loopback : Prefix
  pub mgmt_ip : Addr
  pub runtime_type : String
  pub mlag_peer : String
  pub vlan_id : ℤ
  pub vlan_ip : Prefix
  pub gateway_ip : Addr
  pub gateway_mac : String
  pub vrrp_group : ℤ
  pub vrrp_priority : ℤ
  pub address : Prefix
  pub default_gateway : Addr
  pub bgp_peers : List Addr

-- the zero value
abbrev pub zero_node_spec : NodeSpec
zero_node_spec = record {
  lab_id = "";
  role = "";
  pod_id = "";
  rack_id = "";
  asn = 0;
  loopback = zero_prefix;
  mgmt_ip = zero_addr;
  runtime_type = "";
  mlag_peer = "";
  vlan_id = pos 0;
  vlan_ip = zero_prefix;
  gateway_ip = zero_addr;
  gateway_mac = "";
  vrrp_group = pos 0;
  vrrp_priority = pos 0;
  address = zero_prefix;
  default_gateway = zero_addr;
  bgp_peers = [];
}

pub record InterfaceStatus : Type 0 where
  pub name : String
  pub up : Bool
  pub missing : Bool

pub record NodeStatus : Type 0 where
  pub runtime_state : String
  pub container_id : String
  pub route_count : ℤ
  pub bgp_established : ℤ
  pub bgp_configured : ℤ
  pub interfaces_up : ℤ
  pub interfaces_total : ℤ
  pub interfaces : List InterfaceStatus
  pub vrrp_state : String
  pub agent_state : String

abbrev pub zero_node_status : NodeStatus
zero_node_status = record {
  runtime_state = "";
  container_id = "";
  route_count = pos 0;
  bgp_established = pos 0;
  bgp_configured = pos 0;
  interfaces_up = pos 0;
  interfaces_total = pos 0;
  interfaces = [];
  vrrp_state = "";
  agent_state = "";
}

pub record Node : Type 0 where
  pub meta : Meta
  pub spec : NodeSpec
  pub status : NodeStatus

-- `IsRouter`
abbrev pub is_router : NodeSpec → Bool
is_router s = s.runtime_type == runtime_frr

pub record LinkEndpoint : Type 0 where
  pub node_id : String
  pub node_name : String
  pub interface : String
  pub address : Prefix

-- `LinkKind`
abbrev pub link_fabric : String
link_fabric = "fabric"

abbrev pub link_server_access : String
link_server_access = "server-access"

abbrev pub link_mlag_peer : String
link_mlag_peer = "mlag-peer"

pub record LinkSpec : Type 0 where
  pub lab_id : String
  pub kind : String
  pub vlan_id : ℤ
  pub endpoint_a : LinkEndpoint
  pub endpoint_b : LinkEndpoint
  pub mtu : ℤ

pub record LinkStatus : Type 0 where
  pub admin_up : Bool
  pub oper_up : Bool

pub record Link : Type 0 where
  pub meta : Meta
  pub spec : LinkSpec
  pub status : LinkStatus

-- `AddressPoolName`
abbrev pub pool_loopback : String
pool_loopback = "loopback"

abbrev pub pool_fabric_p2p : String
pool_fabric_p2p = "fabricP2P"

abbrev pub pool_server_vlan : String
pool_server_vlan = "serverVlan"

-- The CIDR is parsed: `none` is a text that netip.ParsePrefix refuses.
pub record AddressPool : Type 0 where
  pub name : String
  pub cidr : Option Prefix
  pub allocation_prefix : ℤ

-- A count below zero is no device, as 0 is.
pub record PodSpec : Type 0 where
  pub name : String
  pub spines : ℕ
  pub racks : ℕ
  pub servers_per_rack : ℕ

pub record TopologySpec : Type 0 where
  pub external_routers : ℕ
  pub dc_edges : ℕ
  pub super_spines : ℕ
  pub pods : List PodSpec
  pub internet_access : Bool

-- What a topology is: `Base`, and `Result` without the allocations.
pub record Topology : Type 0 where
  pub nodes : List Node
  pub links : List Link
