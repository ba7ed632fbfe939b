-- ===== src/Plan/Identity.antt =====
-- controller/internal/biz/plandiff.go and increment.go: what a resource keeps through `carryOverIdentity`, and whom a deploy
-- creates fresh.
use dc_net_lab.Prelude.{
  ◌≡◌, ◌≢◌, refl, sym, ap, subst, ◌∙◌, arith, String, List, [], ◌∷◌, map, Option, none, some,
  Option-cases, Bool-cases, inl, inr, string_eq, All, All-imp, Distinct, ok, bind-ok, ok-inj, ◌==◌,
  eq_iff, ==-ne,
}
use dc_net_lab.Prelude.Map
use dc_net_lab.Prelude.Map.{Map, get-put_self, get-put_ne, get-put_cases, get-empty}
use dc_net_lab.Model.{Node, Link, Topology}
use dc_net_lab.Plan.{
  nodes_by_name, node_map, link_map, carry_node, carry_link, ids_by_name, id_of,
  carry_over_identity,
}
use dc_net_lab.Plan.Increment.{
  Increment, missing_nodes, check_links, reloads, build_increment, restore_scope, fresh_nodes,
}

abbrev node_or : Node → Option Node → Node
node_or n o = elim o [ none ↦ n | some m ↦ m ]

-- What a map by names holds has the name that it is held under.
nodes_by_name-names :
    (m : Map String Node) (ns : List Node)
    → ((x : String) (n : Node) → Map.get m x ≡ some n → n.meta.name ≡ x)
    → (x : String) (n : Node) → Map.get (nodes_by_name m ns) x ≡ some n
    → n.meta.name ≡ x
unfolding nodes_by_name
nodes_by_name-names m [] h x n e = h x n e
nodes_by_name-names m (k ∷ ks) h x n e =
    nodes_by_name-names (Map.put m k.meta.name k) ks
      (λ y v f. elim (Bool-cases (k.meta.name == y)) [
        | inl g ↦
            let same = (eq_iff k.meta.name y).0 g in
            let found : some k ≡ some v =
              sym (get-put_self m k.meta.name k.meta.name k)
              ∙ subst (λ z. Map.get (Map.put m k.meta.name k) z ≡ some v) (sym same) f in
            ap (λ o. (node_or k o).meta.name) (sym found) ∙ same
        | inr g ↦ h y v (sym (get-put_ne m k.meta.name y k (==-ne k.meta.name y g)) ∙ f)
      ])
      x n e

node_map-names :
    (ns : List Node) (x : String) (n : Node) → Map.get (node_map ns) x ≡ some n → n.meta.name ≡ x
node_map-names ns =
    nodes_by_name-names Map.empty ns (λ x n e. absurd (cc (e, get-empty {V = Node} x)))

carry_node-keeps :
    (nodes : List Node) (n : Node)
    → let r = carry_node (node_map nodes) n in
      (r.meta.name ≡ n.meta.name)
      × (r.spec ≡ n.spec)
      × ((cur : Node)
          → Map.get (node_map nodes) r.meta.name ≡ some cur
          → (r.meta ≡ cur.meta) × (r.status ≡ cur.status))
unfolding carry_node
carry_node-keeps nodes n = elim (Option-cases (Map.get (node_map nodes) n.meta.name)) [
  | inl e ↦ rw (carry_node, e) (refl, refl, λ cur f. absurd (cc (e, f)))
  | inr (cur, e) ↦
      let same = node_map-names nodes n.meta.name cur e in
      rw (carry_node, e)
        (
          same,
          refl,
          λ other f.
              let found : some cur ≡ some other =
                sym e ∙ ap (Map.get (node_map nodes)) (sym same) ∙ f in
              (ap (λ o. (node_or cur o).meta) found, ap (λ o. (node_or cur o).status) found),
        )
]

carry_nodes-names :
    (nodes ns : List Node)
    → map (λ n. n.meta.name) (map (carry_node (node_map nodes)) ns) ≡ map (λ n. n.meta.name) ns
carry_nodes-names nodes [] = refl
carry_nodes-names nodes (n ∷ ns) =
    λ i. (carry_node-keeps nodes n).0 i ∷ carry_nodes-names nodes ns i

-- the last id of a name, which is the only one where names differ
ids-other :
    (m : Map String String) (ns : List Node) (x : String)
    → All (λ y. x ≢ y) (map (λ n. n.meta.name) ns)
    → Map.get (ids_by_name m ns) x ≡ Map.get m x
unfolding ids_by_name
ids-other m [] x h = refl
ids-other m (n ∷ ns) x h =
    ids-other (Map.put m n.meta.name n.meta.id) ns x h.1
    ∙ get-put_ne m n.meta.name x n.meta.id (λ e. h.0 (sym e))

ids-own :
    (m : Map String String) (ns : List Node)
    → Distinct (map (λ n. n.meta.name) ns)
    → All (λ n. Map.get (ids_by_name m ns) n.meta.name ≡ some n.meta.id) ns
unfolding ids_by_name
ids-own m [] h = tt
ids-own m (n ∷ ns) h =
    let next = Map.put m n.meta.name n.meta.id in
    (
      ids-other next ns n.meta.name h.0 ∙ get-put_self m n.meta.name n.meta.name n.meta.id,
      ids-own next ns h.1,
    )

-- both ends of the link point at the node, where they bear its name
abbrev pub PointsAt : Node → Link → Type 0
PointsAt n l =
    (n.meta.name ≡ l.spec.endpoint_a.node_name → l.spec.endpoint_a.node_id ≡ n.meta.id)
    × (n.meta.name ≡ l.spec.endpoint_b.node_name → l.spec.endpoint_b.node_id ≡ n.meta.id)

carry_link-PointsAt :
    (known : Map String Link) (ids : Map String String) (n : Node) (l : Link)
    → Map.get ids n.meta.name ≡ some n.meta.id
    → PointsAt n (carry_link known ids l)
unfolding carry_link
carry_link-PointsAt known ids n l e =
    let at : (name : String) → n.meta.name ≡ name → id_of ids name ≡ n.meta.id =
      λ name f. ap (λ o. elim o [ none ↦ "" | some id ↦ id ]) (ap (Map.get ids) (sym f) ∙ e) in
    elim (Option-cases (Map.get known l.meta.name)) [
      | inl k ↦ rw (carry_link, k) (at l.spec.endpoint_a.node_name, at l.spec.endpoint_b.node_name)
      | inr (cur, k) ↦
          rw (carry_link, k) (at l.spec.endpoint_a.node_name, at l.spec.endpoint_b.node_name)
    ]

map-All :
    {A B : Type 0} (f : A → B) (P : B → Type 0) (xs : List A)
    → ((a : A) → P (f a))
    → All P (map f xs)
map-All f P [] h = tt
map-All f P (x ∷ xs) h = (h x, map-All f P xs h)

-- Carrying identities over leaves the nodes' names. A node whose name is stored has the stored meta, its id included, and
-- the stored status; and where the names of the new nodes differ, both ends of every link bear the id that the node of
-- their name then has.
pub carry_over_identity-keeps :
    (res : Topology) (nodes : List Node) (links : List Link)
    → Distinct (map (λ n. n.meta.name) res.nodes)
    → let t = carry_over_identity res nodes links in
      (map (λ n. n.meta.name) t.nodes ≡ map (λ n. n.meta.name) res.nodes)
      × All
          (λ n.
            (cur : Node)
            → Map.get (node_map nodes) n.meta.name ≡ some cur
            → (n.meta ≡ cur.meta) × (n.status ≡ cur.status))
          t.nodes
      × All (λ n. All (PointsAt n) t.links) t.nodes
unfolding carry_over_identity
carry_over_identity-keeps res nodes links h =
    let ns = map (carry_node (node_map nodes)) res.nodes in
    let names = carry_nodes-names nodes res.nodes in
    let ids = ids_by_name Map.empty ns in
    (
      names,
      map-All (carry_node (node_map nodes)) _ res.nodes (λ n. (carry_node-keeps nodes n).2),
      All-imp
          (λ n own.
            map-All (carry_link (link_map links) ids) (PointsAt n) res.links
              (λ l. carry_link-PointsAt (link_map links) ids n l own))
          ns (ids-own Map.empty ns (subst Distinct (sym names) h)),
    )

fresh_nodes-names :
    (base ns : List Node) → map (λ n. n.meta.name) (fresh_nodes base ns) ≡ missing_nodes base ns
unfolding missing_nodes
fresh_nodes-names base [] = refl
fresh_nodes-names base (n ∷ ns) = ground (arith, fresh_nodes-names base ns)

-- The nodes that are restored after an increment are those that the increment adds, in the same order.
pub restore_scope-build_increment :
    (lab_name : String) (base : Topology) (nodes : List Node) (links : List Link)
    (old_conf new_conf : String → Option String) (inc : Increment)
    → build_increment lab_name base nodes links old_conf new_conf ≡ ok inc
    → map (λ n. n.meta.name) (restore_scope (some base) nodes) ≡ inc.add_nodes
unfolding build_increment restore_scope
restore_scope-build_increment lab_name base nodes links old_conf new_conf inc h =
    let (u, e, h1) = bind-ok (check_links nodes links base.links) _ inc h in
    let (names, f, k) = bind-ok (reloads base.nodes old_conf new_conf nodes) _ inc h1 in
    fresh_nodes-names base.nodes nodes ∙ ap (λ (i : Increment). i.add_nodes) (ok-inj k)
