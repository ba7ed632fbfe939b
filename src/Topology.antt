-- ===== src/Topology.antt =====
-- controller/internal/topology/builder.go: the builder's state, what it takes over from the deployed topology, and
-- its allocations. `Topology/Build` has the topology that is built.
pub mod Build
pub mod Pins
pub mod Restored
pub mod Empty
pub mod Keeps
pub mod Shapes
pub mod Leaves
pub mod Racks
pub mod Interfaces
pub mod Steps
pub mod Defaults
pub mod Derive
mod Examples
use dc_net_lab.Prelude.{
  ℕ, zero, suc, ◌+◌, ◌-◌, ◌%◌, ◌^◌, String, List, [], ◌∷◌, ◌++◌, Bool, true, false, Option, none,
  some, ℤ, pos, negsuc, ltb_ℤ, to_nat, leb, if◌then◌else◌, Result, ok, err, ◌>>=◌, ◌==◌, string_eq,
  length, get_elem?,
}
use dc_net_lab.Prelude.Map
use dc_net_lab.Prelude.Map.{Map}
use dc_net_lab.NetIp.{Prefix, masked, is_valid}
use dc_net_lab.Asn
use dc_net_lab.Asn.{AsnRange, Allocator}
use dc_net_lab.Ipam
use dc_net_lab.Ipam.{Pool}
use dc_net_lab.GoFmt.{sscanf, sort_ints}
use dc_net_lab.Model.{
  ◌+s+◌, Node, Link, LinkEndpoint, AddressPool, Topology, role_leaf, role_server, link_fabric,
  pool_loopback, pool_fabric_p2p, pool_server_vlan,
}

-- `panics` is the call of a method of a pool that does not exist.
pub data Error : Type 0 where
  pool_refused : String → Ipam.Error → Error
  ranges_refused : Asn.Error → Error
  no_pool : String → Prefix → String → Error
  subnet_refused : String → Ipam.Error → Error
  asn_refused : String → Asn.Error → Error
  bad_rack : String → String → Error
  bad_interface : String → String → Error
  no_subnet : Ipam.Error → Error
  no_asn : Asn.Error → Error
  panics : Error

-- The value of an allocation, which the source prints.
pub data Value : Type 0 where
  asn_value : ℕ → Value
  subnet_value : Prefix → Value

pub record Allocation : Type 0 where
  pub pool : String
  pub value : Value
  pub owner : String

-- `nodes`, `links` and `allocations` are those of `result`, the newest first. `made` counts the ids that have been
-- made. The source's nodeByName is never read.
pub record Builder : Type 0 where
  pub lab_id : String
  pub pools : Map String Pool
  pub asns : Allocator
  pub if_index : Map String ℕ
  pub max_rack : ℕ
  pub rack_slots : Map String (List ℤ)
  pub base_links : Map String Link
  pub base_owners : Map String Bool
  pub pinned_sub : Map String (Map String Prefix)
  pub pinned_asn : Map String (Map String ℕ)
  pub nodes : List Node
  pub links : List Link
  pub allocations : List Allocation
  pub made : ℕ

-- m[k] with a zero value
abbrev pub get_or {ℓ} : {V : Type ℓ} → V → Map String V → String → V
get_or v m k = elim (Map.get m k) [ none ↦ v | some w ↦ w ]

-- m[k][j] and m[k][j] = v, where the inner map may not have been made
abbrev pub get2 {ℓ} : {V : Type ℓ} → Map String (Map String V) → String → String → Option V
get2 m k j = Map.get (get_or Map.empty m k) j

abbrev pub put2 {ℓ} :
    {V : Type ℓ} → Map String (Map String V) → String → String → V → Map String (Map String V)
put2 m k j v = Map.put m k (Map.put (get_or Map.empty m k) j v)

-- "pool|owner" and "asn:role"
abbrev pub owner_key : String → String → String
owner_key pool owner = pool +s+ ("|" +s+ owner)

abbrev pub asn_pool : String → String
asn_pool role = "asn:" +s+ role

abbrev pub rack_owner : String → String → String
rack_owner pod_id rack_id = pod_id +s+ ("/" +s+ rack_id)

-- `pin`
unfoldable pub pin : Builder → String → String → Prefix → Result Error Builder
pin b pool owner sub = elim (Map.get b.pools pool) [
  | none ↦ err (no_pool pool sub owner)
  | some p ↦ elim (Ipam.restore p sub owner) [
    | err e ↦ err (subnet_refused owner e)
    | ok p' ↦ ok (record b {
      pools = Map.put b.pools pool p';
      pinned_sub = put2 b.pinned_sub pool owner sub;
      base_owners = Map.put b.base_owners (owner_key pool owner) true;
    })
  ]
]

-- `pinASN`
unfoldable pub pin_asn : Builder → String → String → ℕ → Result Error Builder
pin_asn b role owner val = elim (Asn.restore b.asns role val owner) [
  | err e ↦ err (asn_refused owner e)
  | ok a ↦ ok (record b {
    asns = a;
    pinned_asn = put2 b.pinned_asn role owner val;
    base_owners = Map.put b.base_owners (owner_key (asn_pool role) owner) true;
  })
]

-- `IsNewAllocation`
pub is_new_allocation : Builder → Allocation → Bool
is_new_allocation b a =
    if get_or false b.base_owners (owner_key a.pool a.owner) then false else true

-- `allocate`
unfoldable pub allocate : Builder → String → String → Result Error (Prefix × Builder)
allocate b pool owner = elim (get2 b.pinned_sub pool owner) [
  | some sub ↦ ok (sub, b)
  | none ↦ elim (Map.get b.pools pool) [
    | none ↦ err panics
    | some p ↦ elim (Ipam.allocate p owner) [
      | err e ↦ err (no_subnet e)
      | ok (sub, p') ↦ ok (sub, record b { pools = Map.put b.pools pool p' })
    ]
  ]
]

-- `allocateASN`
unfoldable pub allocate_asn : Builder → String → String → Result Error (ℕ × Builder)
allocate_asn b role owner = elim (get2 b.pinned_asn role owner) [
  | some val ↦ ok (val, b)
  | none ↦ elim (Asn.allocate b.asns role owner) [
    | err e ↦ err (no_asn e)
    | ok (val, a) ↦ ok (val, record b { asns = a })
  ]
]

-- `rackNumForSlot`; slots count from 1.
unfoldable pub rack_num_for_slot : Builder → String → ℕ → ℤ × Builder
rack_num_for_slot b pod_id slot = elim (get_elem? (get_or [] b.rack_slots pod_id) (slot - 1)) [
  | some num ↦ (num, b)
  | none ↦ (pos (b.max_rack + 1), record b { max_rack = b.max_rack + 1 })
]

-- a rack of the deployed topology that is seen for the first time
abbrev pub new_slot : Builder → String → String → ℤ → Builder
new_slot b pod_id owner num = record b {
  rack_slots = Map.put b.rack_slots pod_id (get_or [] b.rack_slots pod_id ++ (num ∷ []));
  max_rack = if ltb_ℤ (pos b.max_rack) num then to_nat num else b.max_rack;
  base_owners = Map.put b.base_owners (owner_key (asn_pool role_leaf) owner) true;
}

-- The state of the loop over the deployed nodes: the racks seen, and the builder.
abbrev pub Restoring : Type 0
Restoring = Map String Bool × Builder

unfoldable pub restore_leaf : Restoring → Node → Result Error Restoring
restore_leaf (seen, b) n = elim (sscanf "rack-" n.spec.rack_id) [
  | none ↦ err (bad_rack n.meta.name n.spec.rack_id)
  | some num ↦
      let owner = rack_owner n.spec.pod_id n.spec.rack_id in
      if get_or false seen owner
      then ok (seen, b)
      else pin (new_slot b n.spec.pod_id owner num) pool_server_vlan owner (masked n.spec.vlan_ip)
        >>= λ b'. ok (Map.put seen owner true, b')
]

abbrev pub restore_loopback : Builder → Node → Result Error Builder
restore_loopback b n =
    if is_valid n.spec.loopback then pin b pool_loopback n.meta.name n.spec.loopback else ok b

-- the `switch` on the role
unfoldable pub restore_role : Restoring → Node → Result Error Restoring
unfolding restore_leaf
restore_role (seen, b) n =
    if n.spec.role == role_server
    then ok (seen, b)
    else if n.spec.role == role_leaf
    then restore_leaf (seen, b) n
    else pin_asn b n.spec.role n.meta.name n.spec.asn >>= λ b'. ok (seen, b')

unfoldable pub restore_nodes : Restoring → List Node → Result Error Restoring
restore_nodes s [] = ok s
restore_nodes (seen, b) (n ∷ ns) =
    restore_loopback b n >>= λ b'. restore_role (seen, b') n >>= λ s'. restore_nodes s' ns

-- the interface counter of one end of a deployed link
unfoldable pub restore_interface : Builder → String → LinkEndpoint → Result Error Builder
restore_interface b link_name ep = elim (sscanf "eth" ep.interface) [
  | none ↦ err (bad_interface link_name ep.interface)
  | some idx ↦ ok (
      if ltb_ℤ (pos (get_or 0 b.if_index ep.node_name)) idx
      then record b { if_index = Map.put b.if_index ep.node_name (to_nat idx) }
      else b)
]

abbrev pub restore_subnet : Builder → Link → Result Error Builder
restore_subnet b l =
    if l.spec.kind == link_fabric
    then pin b pool_fabric_p2p l.meta.name (masked l.spec.endpoint_a.address)
    else ok b

unfoldable pub restore_link : Builder → Link → Result Error Builder
restore_link b l = do
  b1 ← restore_subnet (record b { base_links = Map.put b.base_links l.meta.name l }) l
  b2 ← restore_interface b1 l.meta.name l.spec.endpoint_a
  restore_interface b2 l.meta.name l.spec.endpoint_b

unfoldable pub restore_links : Builder → List Link → Result Error Builder
restore_links b [] = ok b
restore_links b (l ∷ ls) = restore_link b l >>= λ b'. restore_links b' ls

-- `restore`
unfoldable pub restore : Builder → Topology → Result Error Builder
restore b base = do
  s ← restore_nodes (Map.empty, b) base.nodes
  restore_links (record (s.1) { rack_slots = Map.map_values sort_ints s.1.rack_slots }) base.links

unfoldable pub make_pools : Map String Pool → List AddressPool → Result Error (Map String Pool)
make_pools m [] = ok m
make_pools m (p ∷ ps) = elim (Ipam.new_pool p.name p.cidr p.allocation_prefix) [
  | err e ↦ err (pool_refused p.name e)
  | ok pool ↦ make_pools (Map.put m p.name pool) ps
]

abbrev pub empty_builder : String → Map String Pool → Allocator → Builder
empty_builder lab_id pools asns = record {
  lab_id = lab_id;
  pools = pools;
  asns = asns;
  if_index = Map.empty;
  max_rack = 0;
  rack_slots = Map.empty;
  base_links = Map.empty;
  base_owners = Map.empty;
  pinned_sub = Map.empty;
  pinned_asn = Map.empty;
  nodes = [];
  links = [];
  allocations = [];
  made = 0;
}

unfoldable pub make_asns : List AsnRange → Result Error Allocator
make_asns ranges = elim (Asn.new ranges) [ err e ↦ err (ranges_refused e) | ok a ↦ ok a ]

-- `NewBuilder`
unfoldable pub new_builder :
    String → List AddressPool → List AsnRange → Option Topology → Result Error Builder
unfolding make_asns
new_builder lab_id pools asns base = do
  ps ← make_pools Map.empty pools
  ranges ← make_asns asns
  elim base [
    | none ↦ ok (empty_builder lab_id ps ranges)
    | some t ↦ restore (empty_builder lab_id ps ranges) t
  ]
