-- ===== src/Plan/Updates.antt =====
-- controller/internal/biz/plandiff.go: which nodes a plan updates.
use dc_net_lab.Prelude.{
  ℕ, ◌+◌, ◌≡◌, refl, sym, ap, ◌∙◌, arith, String, List, [], ◌∷◌, ◌++◌, Bool, true, false, not, ◌&&◌,
  ◌||◌, Option, none, some, eqb, Option-cases, Bool-cases, inl, inr, ◌==◌, ==-refl, string_eq,
  eq_iff, Comparable, if◌then◌else◌, All, All-imp,
}
use dc_net_lab.Prelude.Map
use dc_net_lab.Prelude.Map.{Map, get-put, get-empty}
use dc_net_lab.Model.{Node, NodeSpec, Link, Topology}
use dc_net_lab.Plan.{
  PlanOperation, spec_changed, links_changed, node_map, link_map, has, created_nodes, created_links,
  deleted_links, deleted_nodes, updated_nodes, touch, touch_links, touched_of, base_of,
  plan_changes, count_of,
}
use dc_net_lab.Plan.Increment.{named_node, named_link}
use dc_net_lab.Plan.Names.{has-node_map, has-link_map}

-- the nodes that the operations update
pub updates_of : List PlanOperation → List String
updates_of [] = []
updates_of (o ∷ os) = elim o [
  | spec_changed name ↦ name ∷ updates_of os
  | links_changed name n ↦ name ∷ updates_of os
  | _ ↦ updates_of os
]

-- whether a link that is not in the other topology ends at the node x
pub cabled : String → List Link → List Link → Bool
cabled x other [] = false
cabled x other (l ∷ ls) =
    let rest = cabled x other ls in
    (not (named_link other l.meta.name)
      && (l.spec.endpoint_a.node_name == x || l.spec.endpoint_b.node_name == x))
    || rest

module _ ⦃same : Comparable NodeSpec⦄ where
  -- A node of both topologies whose spec is another one, or at which a link is new or gone.
  pub is_stale : Topology → Topology → Node → Bool
  is_stale old res n = elim (Map.get (node_map old.nodes) n.meta.name) [
    | none ↦ false
    | some was ↦
        not (was.spec == n.spec)
        || cabled n.meta.name old.links res.links
        || cabled n.meta.name res.links old.links
  ]

  pub stale_names : Topology → Topology → List Node → List String
  unfolding is_stale
  stale_names old res [] = []
  stale_names old res (n ∷ ns) =
      let rest = stale_names old res ns in if is_stale old res n then n.meta.name ∷ rest else rest

updates_of-append :
    (os ps : List PlanOperation) → updates_of (os ++ ps) ≡ updates_of os ++ updates_of ps
unfolding updates_of
updates_of-append [] ps = refl
updates_of-append (o ∷ os) ps = ground (arith, updates_of-append os ps)

updates_of-created_nodes :
    (m : Map String Node) (ns : List Node) → updates_of (created_nodes m ns) ≡ []
unfolding updates_of created_nodes
updates_of-created_nodes m [] = refl
updates_of-created_nodes m (n ∷ ns) = ground (arith, updates_of-created_nodes m ns)

updates_of-created_links :
    (m : Map String Link) (ls : List Link) → updates_of (created_links m ls) ≡ []
unfolding updates_of created_links
updates_of-created_links m [] = refl
updates_of-created_links m (l ∷ ls) = ground (arith, updates_of-created_links m ls)

updates_of-deleted_links :
    (m : Map String Link) (ls : List Link) → updates_of (deleted_links m ls) ≡ []
unfolding updates_of deleted_links
updates_of-deleted_links m [] = refl
updates_of-deleted_links m (l ∷ ls) = ground (arith, updates_of-deleted_links m ls)

updates_of-deleted_nodes :
    (m : Map String Node) (ns : List Node) → updates_of (deleted_nodes m ns) ≡ []
unfolding updates_of deleted_nodes
updates_of-deleted_nodes m [] = refl
updates_of-deleted_nodes m (n ∷ ns) = ground (arith, updates_of-deleted_nodes m ns)

-- a node has no count yet
abbrev untouched : Map String ℕ → String → Bool
untouched m x = eqb (count_of m x) 0

untouched-touch :
    (survives : String → Bool) (m : Map String ℕ) (k x : String)
    → untouched (touch survives m k) x ≡ (untouched m x && not (survives x && k == x))
untouched-touch survives m k x = elim (Bool-cases (k == x)) [
  | inl e ↦
      let at : survives k ≡ survives x = ap survives ((eq_iff k x).0 e) in
      ground (arith, e, at, get-put m k x (count_of m k + 1), ap (count_of m) ((eq_iff k x).0 e))
  | inr e ↦ ground (arith, e, get-put m k x (count_of m k + 1))
]

known_link :
    (u s a b named rest : Bool)
    → named ≡ true
    → (u && not (s && rest)) ≡ (u && not (s && ((not named && (a || b)) || rest)))
known_link u s a b named rest e = ground (arith, e)

new_link :
    (u s a b named rest : Bool)
    → named ≡ false
    → (((u && not (s && a)) && not (s && b)) && not (s && rest))
      ≡ (u && not (s && ((not named && (a || b)) || rest)))
new_link u s a b named rest e = ground (arith, e)

untouched-touch_links :
    (survives : String → Bool) (others : List Link) (m : Map String ℕ) (ls : List Link) (x : String)
    → untouched (touch_links survives (link_map others) m ls) x
      ≡ (untouched m x && not (survives x && cabled x others ls))
unfolding touch_links cabled
untouched-touch_links survives others m [] x = ground arith
untouched-touch_links survives others m (l ∷ ls) x =
    let (a, b) : String × String = (l.spec.endpoint_a.node_name, l.spec.endpoint_b.node_name) in
    let once = touch survives m a in
    let twice = touch survives once b in
    let once = touch survives m a in
    let (s, named, rest) : Bool × Bool × Bool =
      (survives x, named_link others l.meta.name, cabled x others ls) in
    let known = has-link_map others l.meta.name in
    elim (Bool-cases (has (link_map others) l.meta.name)) [
      | inl e ↦
          rw (touch_links, e)
            (untouched-touch_links survives others m ls x
              ∙ known_link (untouched m x) s (a == x) (b == x) named rest (sym known ∙ e))
      | inr e ↦
          rw (touch_links, e)
            (untouched-touch_links survives others (touch survives once b) ls x
              ∙ ap (λ u. u && not (s && rest)) (untouched-touch survives once b x)
              ∙ ap (λ u. (u && not (s && (b == x))) && not (s && rest))
                  (untouched-touch survives m a x)
              ∙ new_link (untouched m x) s (a == x) (b == x) named rest (sym known ∙ e))
    ]

-- the counts of a node of both topologies
untouched-touched_of :
    ⦃same : Comparable NodeSpec⦄ (old res : Topology) (x : String)
    → named_node old.nodes x ≡ true
    → named_node res.nodes x ≡ true
    → untouched (touched_of old res) x
      ≡ (not (cabled x old.links res.links) && not (cabled x res.links old.links))
unfolding touched_of
untouched-touched_of old res x h k =
    let in_base = has (node_map old.nodes) in
    let in_res = has (node_map res.nodes) in
    let first = touch_links in_base (link_map old.links) Map.empty res.links in
    let zero : untouched (Map.empty {K = String} {V = ℕ}) x ≡ true =
      ap (λ o. eqb (elim o [ none ↦ 0 | some n ↦ n ]) 0) (get-empty {V = ℕ} x) in
    let last = untouched-touch_links (λ y. in_res y && in_base y) res.links first old.links x in
    let before = untouched-touch_links in_base old.links Map.empty res.links x in
    let there = has-node_map old.nodes x ∙ h in
    let here = has-node_map res.nodes x ∙ k in ground (arith, last, before, zero, there, here)

module _ ⦃same : Comparable NodeSpec⦄ where
  updates_of-updated_nodes :
      (old res : Topology) (ns : List Node)
      → All (λ n. named_node res.nodes n.meta.name ≡ true) ns
      → updates_of (updated_nodes (node_map old.nodes) (touched_of old res) ns)
        ≡ stale_names old res ns
  unfolding updates_of updated_nodes stale_names is_stale
  updates_of-updated_nodes old res [] h = refl
  updates_of-updated_nodes old res (n ∷ ns) h =
      let name = n.meta.name in
      let ih = updates_of-updated_nodes old res ns h.1 in
      elim (Option-cases (Map.get (node_map old.nodes) name)) [
        | inl e ↦ rw (updated_nodes, is_stale, e) ih
        | inr (was, e) ↦
            let there : named_node old.nodes name ≡ true =
              sym (has-node_map old.nodes name)
              ∙ ap (λ o. elim o [ none ↦ false | some v ↦ true ]) e in
            let counts = untouched-touched_of old res name there h.0 in
            ground (arith, e, counts, ih)
      ]

named_more :
    (n : Node) (ns ms : List Node)
    → All (λ m. named_node ns m.meta.name ≡ true) ms
    → All (λ m. named_node (n ∷ ns) m.meta.name ≡ true) ms
unfolding named_node
named_more n ns ms h = All-imp (λ m k. ground (arith, k)) ms h

named_self : (ns : List Node) → All (λ n. named_node ns n.meta.name ≡ true) ns
unfolding named_node
named_self [] = tt
named_self (n ∷ ns) = (
  ap (λ b. b || named_node ns n.meta.name) (==-refl n.meta.name),
  named_more n ns ns (named_self ns),
)

-- The nodes that a plan updates are, in their order, those of the new topology that are deployed already and whose spec is
-- another one than the deployed, or at one of whose ends a link is new or gone; no other node is updated.
pub plan_changes-stale_names :
    ⦃same : Comparable NodeSpec⦄ (base : Option Topology) (res : Topology)
    → updates_of (plan_changes base res) ≡ stale_names (base_of base) res res.nodes
unfolding plan_changes
plan_changes-stale_names base res =
    let old = base_of base in
    let ups = updated_nodes (node_map old.nodes) (touched_of old res) res.nodes in
    let gone = deleted_nodes (node_map res.nodes) old.nodes in
    let cut = deleted_links (link_map res.links) old.links in
    let wired = created_links (link_map old.links) res.links in
    let made = created_nodes (node_map old.nodes) res.nodes in
    rw
      (
        plan_changes,
        updates_of-append made,
        updates_of-append wired,
        updates_of-append cut,
        updates_of-append gone,
        updates_of-created_nodes,
        updates_of-created_links,
        updates_of-deleted_links,
        updates_of-deleted_nodes,
      )
      (updates_of-updated_nodes old res res.nodes (named_self res.nodes))
