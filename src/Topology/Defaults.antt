-- ===== src/Topology/Defaults.antt =====
-- controller/internal/topology/defaults.go: the default pools, ASN ranges and profiles. The CIDRs are parsed.
use dc_net_lab.Prelude.{ℕ, List, [], ◌∷◌, false, some, pos, ◌+◌, ◌*◌, ◌^◌}
use dc_net_lab.NetIp.{Prefix, ip4}
use dc_net_lab.Asn.{AsnRange}
use dc_net_lab.Model.{
  AddressPool, TopologySpec, role_external, role_dc_edge, role_superspine, role_spine,
  pool_fabric_p2p, pool_loopback, pool_server_vlan,
}

-- a.b.0.0/bits
abbrev cidr : ℕ → ℕ → ℕ → Prefix
cidr a b bits = record {
  addr = record { family = ip4; value = (a * 256 + b) * 2 ^ 16 };
  bits = some bits;
}

unfoldable pub default_pools : List AddressPool
default_pools =
    record { name = pool_fabric_p2p; cidr = some (cidr 10 0 16); allocation_prefix = pos 31 }
    ∷ record { name = pool_loopback; cidr = some (cidr 10 1 16); allocation_prefix = pos 32 }
    ∷ record { name = "vtep"; cidr = some (cidr 10 2 16); allocation_prefix = pos 32 }
    ∷ record { name = "management"; cidr = some (cidr 10 3 16); allocation_prefix = pos 32 }
    ∷ record { name = pool_server_vlan; cidr = some (cidr 10 100 16); allocation_prefix = pos 24 }
    ∷ record { name = "workload"; cidr = some (cidr 10 128 9); allocation_prefix = pos 24 }
    ∷ record { name = "public"; cidr = some (cidr 198 18 15); allocation_prefix = pos 32 }
    ∷ []

unfoldable pub default_asn_ranges : List AsnRange
default_asn_ranges =
    record { role = role_external; start = 64500; end = 64599 }
    ∷ record { role = role_dc_edge; start = 64600; end = 64699 }
    ∷ record { role = role_superspine; start = 65100; end = 65199 }
    ∷ record { role = role_spine; start = 65200; end = 65999 }
    ∷ []

-- the two entries of `Profiles`
pub micro : TopologySpec
micro = record {
  external_routers = 1;
  dc_edges = 1;
  super_spines = 1;
  pods = record { name = "pod-1"; spines = 2; racks = 1; servers_per_rack = 2 } ∷ [];
  internet_access = false;
}

pub standard : TopologySpec
standard = record {
  external_routers = 1;
  dc_edges = 2;
  super_spines = 2;
  pods =
      record { name = "pod-1"; spines = 2; racks = 2; servers_per_rack = 2 }
      ∷ record { name = "pod-2"; spines = 2; racks = 2; servers_per_rack = 2 }
      ∷ [];
  internet_access = false;
}
