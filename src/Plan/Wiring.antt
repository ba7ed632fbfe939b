-- ===== src/Plan/Wiring.antt =====
-- controller/internal/biz/increment.go: what an increment does to the nodes and links that are deployed.
use dc_net_lab.Prelude.{
  ◌≡◌, refl, sym, ap, ◌∙◌, arith, String, List, [], ◌∷◌, Bool, true, false, not, ◌&&◌, ◌||◌, Option,
  Bool-cases, inl, inr, ◌==◌, string_eq, eq_iff, All, All-imp₂, ok, bind-ok, ok-inj,
}
use dc_net_lab.Model.{Node, Link, Topology}
use dc_net_lab.Plan.Increment.{
  Increment, named_node, named_link, missing_nodes, check_links, reloads, build_increment,
}

-- a name in a list
pub named : List String → String → Bool
named [] x = false
named (y ∷ ys) x = let rest = named ys x in y == x || rest

named-missing_nodes :
    (other ns : List Node) (x : String)
    → named (missing_nodes other ns) x ≡ (named_node ns x && not (named_node other x))
unfolding named missing_nodes named_node
named-missing_nodes other [] x = refl
named-missing_nodes other (n ∷ ns) x =
    let ih = named-missing_nodes other ns x in
    elim (Bool-cases (n.meta.name == x)) [
      | inl e ↦
          let at = ap (named_node other) ((eq_iff n.meta.name x).0 e) in ground (arith, e, at, ih)
      | inr e ↦ ground (arith, e, ih)
    ]

-- a deployed link that the new topology does not have
abbrev Vanishes : List Node → List Link → Link → Type 0
Vanishes nodes links l =
    named_link links l.meta.name ≡ false
    → (named_node nodes l.spec.endpoint_a.node_name && named_node nodes l.spec.endpoint_b.node_name)
      ≡ false

check_links-Vanishes :
    (nodes : List Node) (links ls : List Link)
    → check_links nodes links ls ≡ ok tt
    → All (Vanishes nodes links) ls
unfolding check_links
check_links-Vanishes nodes links [] h = tt
check_links-Vanishes nodes links (l ∷ ls) h = elim (Bool-cases (named_link links l.meta.name)) [
  | inl e ↦
      (λ f. absurd (cc (e, f)), check_links-Vanishes nodes links ls (rw (check_links, e) at h))
  | inr e ↦
      elim (Bool-cases (
        named_node nodes l.spec.endpoint_a.node_name
        && named_node nodes l.spec.endpoint_b.node_name)) [
          | inl f ↦ absurd (cc (rw (check_links, e, f) at h))
          | inr f ↦ (λ g. f, check_links-Vanishes nodes links ls (rw (check_links, e, f) at h))
        ]
]

-- Both ends of the link are nodes of the topology.
abbrev pub Wired : List Node → Link → Type 0
Wired nodes l =
    (named_node nodes l.spec.endpoint_a.node_name ≡ true)
    × (named_node nodes l.spec.endpoint_b.node_name ≡ true)

-- An increment of a topology whose links have both ends among its nodes: the deployed nodes without the removed and with the
-- added ones are the new nodes, no added node is deployed, and every deployed link that the new topology does not have loses
-- one of its nodes, which takes it down.
pub build_increment-applies :
    (lab_name : String) (base : Topology) (nodes : List Node) (links : List Link)
    (old_conf new_conf : String → Option String) (inc : Increment)
    → All (Wired base.nodes) base.links
    → build_increment lab_name base nodes links old_conf new_conf ≡ ok inc
    → ((x : String)
        → ((named inc.add_nodes x || (named_node base.nodes x && not (named inc.remove_nodes x)))
            ≡ named_node nodes x)
          × ((named inc.add_nodes x && named_node base.nodes x) ≡ false))
      × All
          (λ l.
            named_link links l.meta.name ≡ false
            → (named inc.remove_nodes l.spec.endpoint_a.node_name
                || named inc.remove_nodes l.spec.endpoint_b.node_name)
              ≡ true)
          base.links
unfolding build_increment
build_increment-applies lab_name base nodes links old_conf new_conf inc wired h =
    let (u, e, h1) = bind-ok (check_links nodes links base.links) _ inc h in
    let (names, f, k) = bind-ok (reloads base.nodes old_conf new_conf nodes) _ inc h1 in
    let vanish = check_links-Vanishes nodes links base.links e in
    let removed : (x : String)
        → named inc.remove_nodes x ≡ (named_node base.nodes x && not (named_node nodes x)) =
      λ x.
        ap (λ (i : Increment). named i.remove_nodes x) (sym (ok-inj k))
        ∙ named-missing_nodes nodes base.nodes x in
    let added : (x : String)
        → named inc.add_nodes x ≡ (named_node nodes x && not (named_node base.nodes x)) =
      λ x.
        ap (λ (i : Increment). named i.add_nodes x) (sym (ok-inj k))
        ∙ named-missing_nodes base.nodes nodes x in
    (
      λ x. (ground (arith, removed x, added x), ground (arith, added x)),
      All-imp₂
          (λ l w v g.
            let down = v g in
            ground (
              arith,
              removed l.spec.endpoint_a.node_name,
              removed l.spec.endpoint_b.node_name,
              w.0,
              w.1,
              down,
            ))
          base.links wired vanish,
    )
