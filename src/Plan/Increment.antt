-- ===== src/Plan/Increment.antt =====
-- controller/internal/biz/increment.go: the increment of a deployed topology. A rendered configuration is `none` where it
-- cannot be read.
use dc_net_lab.Prelude.{
  String, List, [], ◌∷◌, ◌++◌, Bool, false, not, ◌&&◌, ◌||◌, Option, none, some, if◌then◌else◌,
  Result, ok, err, ◌>>=◌, ◌==◌, string_eq, ℤ,
}
use dc_net_lab.Prelude.Map
use dc_net_lab.Prelude.Map.{Map}
use dc_net_lab.GoFmt.{show_int}
use dc_net_lab.Model.{◌+s+◌, Node, Link, Topology, link_server_access}

pub data Error : Type 0 where
  both_survive : String → Error
  unreadable : String → Error

pub record IncrementEndpoint : Type 0 where
  pub node : String
  pub interface : String

pub record IncrementLink : Type 0 where
  pub a : IncrementEndpoint
  pub b : IncrementEndpoint

pub record Increment : Type 0 where
  pub lab_name : String
  pub add_nodes : List String
  pub add_links : List IncrementLink
  pub remove_nodes : List String
  pub reload_nodes : List String
  pub node_exec : Map String (List String)

-- `m[name]` of the sets of names
unfoldable pub named_node : List Node → String → Bool
named_node [] x = false
named_node (n ∷ ns) x = let rest = named_node ns x in n.meta.name == x || rest

unfoldable pub named_link : List Link → String → Bool
named_link [] x = false
named_link (l ∷ ls) x = let rest = named_link ls x in l.meta.name == x || rest

-- the names of the nodes that are not in the other topology
unfoldable pub missing_nodes : List Node → List Node → List String
missing_nodes other [] = []
missing_nodes other (n ∷ ns) =
    let rest = missing_nodes other ns in
    if named_node other n.meta.name then rest else n.meta.name ∷ rest

-- `AccessPortAttach`
unfoldable pub access_port_attach : String → ℤ → List String
access_port_attach iface vlan_id =
    ("ip link set " +s+ (iface +s+ " master br0"))
    ∷ ("bridge vlan add dev " +s+ (iface +s+ (" vid " +s+ (show_int vlan_id +s+ " pvid untagged"))))
    ∷ []

abbrev commands_of : Map String (List String) → String → List String
commands_of m k = elim (Map.get m k) [ none ↦ [] | some cs ↦ cs ]

-- one new link
abbrev increment_link : Link → IncrementLink
increment_link l = record {
  a = record { node = l.spec.endpoint_a.node_name; interface = l.spec.endpoint_a.interface };
  b = record { node = l.spec.endpoint_b.node_name; interface = l.spec.endpoint_b.interface };
}

-- the loop over the new links
unfoldable pub added_links :
    Topology → List Link → Map String (List String) → List IncrementLink × Map String (List String)
unfolding access_port_attach
added_links base [] exec = ([], exec)
added_links base (l ∷ ls) exec =
    let a = l.spec.endpoint_a in
    let attached =
      if l.spec.kind == link_server_access && named_node base.nodes a.node_name
      then Map.put exec a.node_name
          (commands_of exec a.node_name ++ access_port_attach a.interface l.spec.vlan_id)
      else exec in
    let skipped = added_links base ls exec in
    let rest = added_links base ls attached in
    if named_link base.links l.meta.name then skipped else (increment_link l ∷ rest.0, rest.1)

-- the loop over the deployed links
unfoldable pub check_links : List Node → List Link → List Link → Result Error (Unit {0})
check_links nodes links [] = ok tt
check_links nodes links (l ∷ ls) =
    let rest = check_links nodes links ls in
    if named_link links l.meta.name
    then rest
    else if named_node nodes l.spec.endpoint_a.node_name
        && named_node nodes l.spec.endpoint_b.node_name
    then err (both_survive l.meta.name)
    else rest

abbrev same_config : Option String → String → Bool
same_config none new = false
same_config (some old) new = old == new

-- the loop over the surviving nodes
unfoldable pub reloads :
    List Node
    → (String → Option String)
    → (String → Option String)
    → List Node
    → Result Error (List String)
reloads base_nodes old_conf new_conf [] = ok []
reloads base_nodes old_conf new_conf (n ∷ ns) =
    let rest = reloads base_nodes old_conf new_conf ns in
    let name = n.meta.name in
    if not (named_node base_nodes name) then rest else elim (new_conf name) [
      | none ↦ err (unreadable name)
      | some new ↦
          if same_config (old_conf name) new then rest else rest >>= λ names. ok (name ∷ names)
    ]

-- `buildIncrement`
unfoldable pub build_increment :
    String
    → Topology
    → List Node
    → List Link
    → (String → Option String)
    → (String → Option String)
    → Result Error Increment
unfolding named_node named_link missing_nodes added_links check_links reloads
build_increment lab_name base nodes links old_conf new_conf =
    let added = added_links base links Map.empty in
    check_links nodes links base.links >>= λ _.
    reloads base.nodes old_conf new_conf nodes >>= λ names. ok (record {
      lab_name = lab_name;
      add_nodes = missing_nodes base.nodes nodes;
      add_links = added.0;
      remove_nodes = missing_nodes nodes base.nodes;
      reload_nodes = names;
      node_exec = added.1;
    })

abbrev pub fresh_nodes : List Node → List Node → List Node
fresh_nodes base [] = []
fresh_nodes base (n ∷ ns) =
    let rest = fresh_nodes base ns in if named_node base n.meta.name then rest else n ∷ rest

-- `restoreScope`
unfoldable pub restore_scope : Option Topology → List Node → List Node
restore_scope base nodes = elim base [ none ↦ nodes | some t ↦ fresh_nodes t.nodes nodes ]
