-- ===== src/Plan.antt =====
-- controller/internal/biz/plandiff.go and increment.go: what changes between the deployed topology and a new one.
-- A summary is kept as the values that are formatted into it. reflect.DeepEqual on two node specs is `Comparable NodeSpec`,
-- and the rendered configurations of the two generations are read by functions.
pub mod Increment
pub mod Names
pub mod Diff
pub mod Updates
pub mod Wiring
pub mod Identity
mod Examples
use dc_net_lab.Prelude.{
  ℕ, suc, ◌+◌, String, List, [], ◌∷◌, ◌++◌, Bool, true, false, not, ◌&&◌, ◌||◌, Option, none, some,
  eqb, if◌then◌else◌, Result, ok, err, ◌==◌, string_eq, Comparable, map, length, ℤ,
}
use dc_net_lab.Prelude.Map
use dc_net_lab.Prelude.Map.{Map}
use dc_net_lab.NetIp.{Prefix}
use dc_net_lab.GoFmt.{sort_texts}
use dc_net_lab.Model.{
  Meta, Node, NodeSpec, Link, LinkEndpoint, Topology, role_server, link_server_access, is_router,
}

-- `PlanOperation`, with its type as the constructor
pub data PlanOperation : Type 0 where
  create_router : String → String → ℕ → Prefix → PlanOperation
  create_host : String → String → PlanOperation
  create_link : String → LinkEndpoint → LinkEndpoint → PlanOperation
  delete_link : String → LinkEndpoint → LinkEndpoint → PlanOperation
  delete_node : String → String → PlanOperation
  spec_changed : String → PlanOperation
  links_changed : String → ℕ → PlanOperation

-- map[string]*T by the names, the last one of a name counts
pub nodes_by_name : Map String Node → List Node → Map String Node
nodes_by_name m [] = m
nodes_by_name m (n ∷ ns) = nodes_by_name (Map.put m n.meta.name n) ns

pub links_by_name : Map String Link → List Link → Map String Link
links_by_name m [] = m
links_by_name m (l ∷ ls) = links_by_name (Map.put m l.meta.name l) ls

abbrev pub node_map : List Node → Map String Node
node_map ns = nodes_by_name Map.empty ns

abbrev pub link_map : List Link → Map String Link
link_map ls = links_by_name Map.empty ls

abbrev pub has {ℓ} : {V : Type ℓ} → Map String V → String → Bool
has m k = elim (Map.get m k) [ none ↦ false | some v ↦ true ]

-- the two loops of `carryOverIdentity`
pub carry_node : Map String Node → Node → Node
carry_node known n = elim (Map.get known n.meta.name) [
  | none ↦ n
  | some cur ↦ record n { meta = cur.meta; status = cur.status }
]

pub ids_by_name : Map String String → List Node → Map String String
ids_by_name m [] = m
ids_by_name m (n ∷ ns) = ids_by_name (Map.put m n.meta.name n.meta.id) ns

abbrev pub id_of : Map String String → String → String
id_of m name = elim (Map.get m name) [ none ↦ "" | some id ↦ id ]

pub carry_link : Map String Link → Map String String → Link → Link
carry_link known ids l =
    let a = record (l.spec.endpoint_a) { node_id = id_of ids l.spec.endpoint_a.node_name } in
    let b = record (l.spec.endpoint_b) { node_id = id_of ids l.spec.endpoint_b.node_name } in
    let spec = record (l.spec) { endpoint_a = a; endpoint_b = b } in
    elim (Map.get known l.meta.name) [
      | none ↦ record l { spec = spec }
      | some cur ↦ record { meta = cur.meta; spec = spec; status = cur.status }
    ]

-- `carryOverIdentity`
pub carry_over_identity : Topology → List Node → List Link → Topology
unfolding carry_node carry_link ids_by_name
carry_over_identity res nodes links =
    let ns = map (carry_node (node_map nodes)) res.nodes in
    record {
      nodes = ns;
      links = map (carry_link (link_map links) (ids_by_name Map.empty ns)) res.links;
    }

-- the loops of `planChanges`
pub created_nodes : Map String Node → List Node → List PlanOperation
created_nodes in_base [] = []
created_nodes in_base (n ∷ ns) =
    let rest = created_nodes in_base ns in
    if has in_base n.meta.name
    then rest
    else (if is_router n.spec
        then create_router n.meta.name n.spec.role n.spec.asn n.spec.loopback
        else create_host n.meta.name n.spec.role)
      ∷ rest

pub created_links : Map String Link → List Link → List PlanOperation
created_links in_base [] = []
created_links in_base (l ∷ ls) =
    let rest = created_links in_base ls in
    if has in_base l.meta.name
    then rest
    else create_link l.meta.name l.spec.endpoint_a l.spec.endpoint_b ∷ rest

pub deleted_links : Map String Link → List Link → List PlanOperation
deleted_links in_res [] = []
deleted_links in_res (l ∷ ls) =
    let rest = deleted_links in_res ls in
    if has in_res l.meta.name
    then rest
    else delete_link l.meta.name l.spec.endpoint_a l.spec.endpoint_b ∷ rest

pub deleted_nodes : Map String Node → List Node → List PlanOperation
deleted_nodes in_res [] = []
deleted_nodes in_res (n ∷ ns) =
    let rest = deleted_nodes in_res ns in
    if has in_res n.meta.name then rest else delete_node n.meta.name n.spec.role ∷ rest

abbrev pub count_of : Map String ℕ → String → ℕ
count_of m k = elim (Map.get m k) [ none ↦ 0 | some n ↦ n ]

-- touched[name]++, if the test allows it
abbrev pub touch : (String → Bool) → Map String ℕ → String → Map String ℕ
touch survives m name = if survives name then Map.put m name (count_of m name + 1) else m

-- the counts of the loop over the links that are not in the other topology
pub touch_links : (String → Bool) → Map String Link → Map String ℕ → List Link → Map String ℕ
touch_links survives other m [] = m
touch_links survives other m (l ∷ ls) =
    let next =
      touch survives (touch survives m l.spec.endpoint_a.node_name) l.spec.endpoint_b.node_name in
    if has other l.meta.name
    then touch_links survives other m ls
    else touch_links survives other next ls

module _ ⦃same : Comparable NodeSpec⦄ where
  pub updated_nodes : Map String Node → Map String ℕ → List Node → List PlanOperation
  updated_nodes in_base touched [] = []
  updated_nodes in_base touched (n ∷ ns) =
      let rest = updated_nodes in_base touched ns in
      let count = count_of touched n.meta.name in
      elim (Map.get in_base n.meta.name) [
        | none ↦ rest
        | some old ↦
            let changed = not (old.spec == n.spec) in
            if not changed && eqb count 0
            then rest
            else (if changed then spec_changed n.meta.name else links_changed n.meta.name count)
              ∷ rest
      ]

  abbrev pub base_of : Option Topology → Topology
  base_of base = elim base [ none ↦ record { nodes = []; links = [] } | some t ↦ t ]

  -- the counts after both loops
  pub touched_of : Topology → Topology → Map String ℕ
  unfolding touch_links
  touched_of old res =
      let in_base = has (node_map old.nodes) in
      let in_res = has (node_map res.nodes) in
      let first = touch_links in_base (link_map old.links) Map.empty res.links in
      touch_links (λ name. in_res name && in_base name) (link_map res.links) first old.links

  -- `planChanges` without the warnings
  pub plan_changes : Option Topology → Topology → List PlanOperation
  unfolding created_nodes created_links deleted_links deleted_nodes updated_nodes touched_of
  plan_changes base res =
      let old = base_of base in
      created_nodes (node_map old.nodes) res.nodes
      ++ (created_links (link_map old.links) res.links
          ++ (deleted_links (link_map res.links) old.links
              ++ (deleted_nodes (node_map res.nodes) old.nodes
                  ++ updated_nodes (node_map old.nodes) (touched_of old res) res.nodes)))

-- A deployed program: its name and the server it lives on.
pub record Program : Type 0 where
  pub name : String
  pub server_name : String

pub record Warning : Type 0 where
  pub server : String
  pub programs : List String

programs_on : String → List Program → List String
programs_on server [] = []
programs_on server (p ∷ ps) =
    let rest = programs_on server ps in if p.server_name == server then p.name ∷ rest else rest

-- `removedServerWarnings`
pub removed_server_warnings : List Node → Map String Node → List Program → List Warning
unfolding programs_on
removed_server_warnings [] in_res programs = []
removed_server_warnings (n ∷ ns) in_res programs =
    let rest = removed_server_warnings ns in_res programs in
    let names = programs_on n.meta.name programs in
    if not (n.spec.role == role_server) || has in_res n.meta.name
    then rest
    else if eqb (length names) 0
    then rest
    else record { server = n.meta.name; programs = sort_texts names } ∷ rest
