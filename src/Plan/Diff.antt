-- ===== src/Plan/Diff.antt =====
-- controller/internal/biz/plandiff.go: what the operations of a plan do to the names of a topology.
use dc_net_lab.Prelude.{
  ℕ, ◌≡◌, refl, ap, arith, String, List, [], ◌∷◌, ◌++◌, Bool, true, false, not, ◌&&◌, ◌||◌, Option,
  Bool-cases, inl, inr, ◌==◌, string_eq, eq_iff, Comparable,
}
use dc_net_lab.Prelude.Map.{Map}
use dc_net_lab.Model.{Node, NodeSpec, Link, Topology}
use dc_net_lab.Plan.{
  PlanOperation, create_router, create_host, create_link, delete_link, delete_node, spec_changed,
  links_changed, node_map, link_map, has, created_nodes, created_links, deleted_links,
  deleted_nodes, updated_nodes, touched_of, base_of, plan_changes,
}
use dc_net_lab.Plan.Increment.{named_node, named_link}
use dc_net_lab.Plan.Names.{has-node_map, has-link_map}

-- Whether there is a node, or a link, of the name x after an operation.
abbrev node_after : String → PlanOperation → Bool → Bool
node_after x (create_router name role asn lo) v = name == x || v
node_after x (create_host name role) v = name == x || v
node_after x (delete_node name role) v = not (name == x) && v
node_after x (create_link name a b) v = v
node_after x (delete_link name a b) v = v
node_after x (spec_changed name) v = v
node_after x (links_changed name n) v = v

abbrev link_after : String → PlanOperation → Bool → Bool
link_after x (create_link name a b) v = name == x || v
link_after x (delete_link name a b) v = not (name == x) && v
link_after x (create_router name role asn lo) v = v
link_after x (create_host name role) v = v
link_after x (delete_node name role) v = v
link_after x (spec_changed name) v = v
link_after x (links_changed name n) v = v

-- one operation after the other
pub nodes_after : String → List PlanOperation → Bool → Bool
nodes_after x [] v = v
nodes_after x (o ∷ os) v = nodes_after x os (node_after x o v)

pub links_after : String → List PlanOperation → Bool → Bool
links_after x [] v = v
links_after x (o ∷ os) v = links_after x os (link_after x o v)

nodes_after-append :
    (x : String) (os ps : List PlanOperation) (v : Bool)
    → nodes_after x (os ++ ps) v ≡ nodes_after x ps (nodes_after x os v)
unfolding nodes_after
nodes_after-append x [] ps v = refl
nodes_after-append x (o ∷ os) ps v = nodes_after-append x os ps (node_after x o v)

links_after-append :
    (x : String) (os ps : List PlanOperation) (v : Bool)
    → links_after x (os ++ ps) v ≡ links_after x ps (links_after x os v)
unfolding links_after
links_after-append x [] ps v = refl
links_after-append x (o ∷ os) ps v = links_after-append x os ps (link_after x o v)

same_name : {V : Type 0} (m : Map String V) (k x : String) → (k == x) ≡ true → has m k ≡ has m x
same_name m k x e = ap (has m) ((eq_iff k x).0 e)

nodes_after-created_nodes :
    (x : String) (m : Map String Node) (ns : List Node) (v : Bool)
    → nodes_after x (created_nodes m ns) v ≡ (v || (named_node ns x && not (has m x)))
unfolding nodes_after created_nodes named_node
nodes_after-created_nodes x m [] v = ground arith
nodes_after-created_nodes x m (n ∷ ns) v =
    let ih = nodes_after-created_nodes x m ns v in
    let ih_true = nodes_after-created_nodes x m ns true in
    elim (Bool-cases (n.meta.name == x)) [
      | inl e ↦ let same = same_name m n.meta.name x e in ground (arith, e, same, ih, ih_true)
      | inr e ↦ ground (arith, e, ih)
    ]

nodes_after-deleted_nodes :
    (x : String) (m : Map String Node) (ns : List Node) (v : Bool)
    → nodes_after x (deleted_nodes m ns) v ≡ (v && not (named_node ns x && not (has m x)))
unfolding nodes_after deleted_nodes named_node
nodes_after-deleted_nodes x m [] v = ground arith
nodes_after-deleted_nodes x m (n ∷ ns) v =
    let ih = nodes_after-deleted_nodes x m ns v in
    let ih_false = nodes_after-deleted_nodes x m ns false in
    elim (Bool-cases (n.meta.name == x)) [
      | inl e ↦ let same = same_name m n.meta.name x e in ground (arith, e, same, ih, ih_false)
      | inr e ↦ ground (arith, e, ih)
    ]

links_after-created_links :
    (x : String) (m : Map String Link) (ls : List Link) (v : Bool)
    → links_after x (created_links m ls) v ≡ (v || (named_link ls x && not (has m x)))
unfolding links_after created_links named_link
links_after-created_links x m [] v = ground arith
links_after-created_links x m (l ∷ ls) v =
    let ih = links_after-created_links x m ls v in
    let ih_true = links_after-created_links x m ls true in
    elim (Bool-cases (l.meta.name == x)) [
      | inl e ↦ let same = same_name m l.meta.name x e in ground (arith, e, same, ih, ih_true)
      | inr e ↦ ground (arith, e, ih)
    ]

links_after-deleted_links :
    (x : String) (m : Map String Link) (ls : List Link) (v : Bool)
    → links_after x (deleted_links m ls) v ≡ (v && not (named_link ls x && not (has m x)))
unfolding links_after deleted_links named_link
links_after-deleted_links x m [] v = ground arith
links_after-deleted_links x m (l ∷ ls) v =
    let ih = links_after-deleted_links x m ls v in
    let ih_false = links_after-deleted_links x m ls false in
    elim (Bool-cases (l.meta.name == x)) [
      | inl e ↦ let same = same_name m l.meta.name x e in ground (arith, e, same, ih, ih_false)
      | inr e ↦ ground (arith, e, ih)
    ]

-- the loops over links do not touch nodes, and those over nodes no links
nodes_after-created_links :
    (x : String) (m : Map String Link) (ls : List Link) (v : Bool)
    → nodes_after x (created_links m ls) v ≡ v
unfolding nodes_after created_links
nodes_after-created_links x m [] v = refl
nodes_after-created_links x m (l ∷ ls) v = ground (arith, nodes_after-created_links x m ls v)

nodes_after-deleted_links :
    (x : String) (m : Map String Link) (ls : List Link) (v : Bool)
    → nodes_after x (deleted_links m ls) v ≡ v
unfolding nodes_after deleted_links
nodes_after-deleted_links x m [] v = refl
nodes_after-deleted_links x m (l ∷ ls) v = ground (arith, nodes_after-deleted_links x m ls v)

links_after-created_nodes :
    (x : String) (m : Map String Node) (ns : List Node) (v : Bool)
    → links_after x (created_nodes m ns) v ≡ v
unfolding links_after created_nodes
links_after-created_nodes x m [] v = refl
links_after-created_nodes x m (n ∷ ns) v = ground (arith, links_after-created_nodes x m ns v)

links_after-deleted_nodes :
    (x : String) (m : Map String Node) (ns : List Node) (v : Bool)
    → links_after x (deleted_nodes m ns) v ≡ v
unfolding links_after deleted_nodes
links_after-deleted_nodes x m [] v = refl
links_after-deleted_nodes x m (n ∷ ns) v = ground (arith, links_after-deleted_nodes x m ns v)

-- created, and then deleted
diff : (old res : Bool) → ((old || (res && not old)) && not (old && not res)) ≡ res
diff old res = ground arith

module _ ⦃same : Comparable NodeSpec⦄ where
  nodes_after-updated_nodes :
      (x : String) (m : Map String Node) (touched : Map String ℕ) (ns : List Node) (v : Bool)
      → nodes_after x (updated_nodes m touched ns) v ≡ v
  unfolding nodes_after updated_nodes
  nodes_after-updated_nodes x m touched [] v = refl
  nodes_after-updated_nodes x m touched (n ∷ ns) v =
      ground (arith, nodes_after-updated_nodes x m touched ns v)

  links_after-updated_nodes :
      (x : String) (m : Map String Node) (touched : Map String ℕ) (ns : List Node) (v : Bool)
      → links_after x (updated_nodes m touched ns) v ≡ v
  unfolding links_after updated_nodes
  links_after-updated_nodes x m touched [] v = refl
  links_after-updated_nodes x m touched (n ∷ ns) v =
      ground (arith, links_after-updated_nodes x m touched ns v)

  -- Take the names of the deployed nodes and links, and carry out the operations of the plan one after the other, each creating or
  -- deleting the node or link of its name: what is there in the end are the names of the new topology.
  pub plan_changes-applies :
      (base : Option Topology) (res : Topology) (x : String)
      → (nodes_after x (plan_changes base res) (named_node (base_of base).nodes x)
          ≡ named_node res.nodes x)
        × (links_after x (plan_changes base res) (named_link (base_of base).links x)
            ≡ named_link res.links x)
  unfolding plan_changes
  plan_changes-applies base res x =
      let old = base_of base in
      let ups = updated_nodes (node_map old.nodes) (touched_of old res) res.nodes in
      let gone = deleted_nodes (node_map res.nodes) old.nodes in
      let cut = deleted_links (link_map res.links) old.links in
      let wired = created_links (link_map old.links) res.links in
      let made = created_nodes (node_map old.nodes) res.nodes in
      let (n, l) : Bool × Bool = (named_node old.nodes x, named_link old.links x) in
      (
        rw
            (
              plan_changes,
              nodes_after-append x made,
              nodes_after-append x wired,
              nodes_after-append x cut,
              nodes_after-append x gone,
              nodes_after-updated_nodes,
              nodes_after-deleted_nodes,
              nodes_after-deleted_links,
              nodes_after-created_links,
              nodes_after-created_nodes,
              has-node_map old.nodes,
              has-node_map res.nodes,
            )
            (diff n (named_node res.nodes x)),
        rw
            (
              plan_changes,
              links_after-append x made,
              links_after-append x wired,
              links_after-append x cut,
              links_after-append x gone,
              links_after-updated_nodes,
              links_after-deleted_nodes,
              links_after-deleted_links,
              links_after-created_links,
              links_after-created_nodes,
              has-link_map old.links,
              has-link_map res.links,
            )
            (diff l (named_link res.links x)),
      )
