-- ===== src/Topology/Shapes.antt =====
-- controller/internal/topology/builder.go: the builder after each step of `Build`, field by field.
use dc_net_lab.Prelude.{
  ℕ, suc, ◌≡◌, refl, sym, ap, ◌∙◌, String, [], ◌∷◌, ◌++◌, none, some, ℤ, pos, ◌-◌, get_elem?, ok,
  bind-ok, ok-inj, Option-cases, inl, inr, string_eq, ◌⊎◌, ◌+◌,
}
use dc_net_lab.Prelude.Map.{Map}
use dc_net_lab.Asn.{Allocator}
use dc_net_lab.Ipam.{Pool}
use dc_net_lab.NetIp.{Prefix}
use dc_net_lab.Model.{◌+s+◌, Node, NodeSpec, link_fabric, pool_loopback, pool_fabric_p2p}
use dc_net_lab.Topology.{Builder, allocate, allocate_asn, rack_num_for_slot, subnet_value, get_or}
use dc_net_lab.Topology.Build.{
  add_node, Rack, add_router, add_leaf, add_leaves, add_link, join, new_router, new_leaf, new_link,
  router_takes, rack_takes, loopback_taken, with_peer, leaf_spec, link_name, first_end, second_end,
}
use dc_net_lab.Topology.Pins.{allocate-ok, allocate_asn-ok}
use dc_net_lab.Topology.Keeps.{ends_of, join-ok}

module _ (new_id : String → ℕ → String) where
  -- `addRouter` after its two allocations
  abbrev pub with_router :
      Builder → Map String Pool → Allocator → String → String → String → ℕ → Prefix → Builder
  with_router b ps as' name role pod_id asn sub = record b {
    pools = ps;
    asns = as';
    nodes = new_router new_id b name role pod_id asn sub ∷ b.nodes;
    allocations = router_takes new_id name role asn sub ++ b.allocations;
    made = suc b.made;
  }

  two_allocations :
      (b b1 b2 : Builder)
      → record b { asns = b1.asns } ≡ b1
      → record b1 { pools = b2.pools } ≡ b2
      → b2 ≡ record b { pools = b2.pools; asns = b1.asns }
  two_allocations b b1 b2 e f = sym f ∙ ap (λ (c : Builder). record c { pools = b2.pools }) (sym e)

  pub add_router-ok :
      (b : Builder) (name role pod_id : String) (n : Node) (b' : Builder)
      → add_router new_id b name role pod_id ≡ ok (n, b')
      → (ps : Map String Pool) × (as' : Allocator) × (asn : ℕ) × (sub : Prefix) × (b'
          ≡ with_router b ps as' name role pod_id asn sub)
  unfolding add_router
  add_router-ok b name role pod_id n b' h =
      let ((v, b1), e, h1) = bind-ok (allocate_asn b role name) _ (n, b') h in
      let ((sub, b2), g, k) = bind-ok (allocate b1 pool_loopback name) _ (n, b') h1 in
      let moved =
        two_allocations b b1 b2 (allocate_asn-ok b role name v b1 e).0
          (allocate-ok b1 pool_loopback name sub b2 g).0 in
      (
        b2.pools,
        b1.asns,
        v,
        sub,
        sym (ap (λ r. r.1) (ok-inj k))
            ∙ ap
                (λ (c : Builder).
                  add_node c (new_router new_id c name role pod_id v sub)
                    (router_takes new_id name role v sub))
                moved,
      )

  -- `addLeaf` after its allocation
  abbrev with_leaf : Builder → Map String Pool → String → NodeSpec → Prefix → Builder
  with_leaf b ps name spec sub = record b {
    pools = ps;
    nodes = new_leaf new_id b name spec sub ∷ b.nodes;
    allocations = loopback_taken new_id name sub ∷ b.allocations;
    made = suc b.made;
  }

  add_leaf-ok :
      (b : Builder) (name : String) (spec : NodeSpec) (n : Node) (b' : Builder)
      → add_leaf new_id b name spec ≡ ok (n, b')
      → (ps : Map String Pool) × (sub : Prefix) × (n ≡ new_leaf new_id b name spec sub)
        × (b' ≡ with_leaf b ps name spec sub)
  unfolding add_leaf
  add_leaf-ok b name spec n b' h =
      let ((sub, b1), e, k) = bind-ok (allocate b pool_loopback name) _ (n, b') h in
      let moved = sym (allocate-ok b pool_loopback name sub b1 e).0 in
      (
        b1.pools,
        sub,
        sym (ap (λ r. r.0) (ok-inj k))
            ∙ ap (λ (c : Builder). new_leaf new_id c name spec sub) moved,
        sym (ap (λ r. r.1) (ok-inj k))
            ∙ ap
                (λ (c : Builder).
                  add_node c (new_leaf new_id c name spec sub)
                    (loopback_taken new_id name sub ∷ []))
                moved,
      )

  -- the two leaves of a rack, before they know each other
  abbrev pub leaf_a_of : Builder → Rack new_id → ℤ → Prefix → Node
  leaf_a_of b r num sub =
      new_leaf new_id b (r.name +s+ "-leaf-a") (leaf_spec new_id r num 2 200) sub

  abbrev pub leaf_b_of : Builder → Rack new_id → ℤ → Prefix → Node
  leaf_b_of b r num sub =
      new_leaf new_id (record b { made = suc b.made }) (r.name +s+ "-leaf-b")
        (leaf_spec new_id r num 3 100) sub

  abbrev pub with_leaves : Builder → Map String Pool → Rack new_id → ℤ → Prefix → Prefix → Builder
  with_leaves b ps r num sub_a sub_b =
      let leaf_a = leaf_a_of b r num sub_a in
      let leaf_b = leaf_b_of b r num sub_b in
      record b {
        pools = ps;
        nodes = with_peer new_id leaf_b leaf_a ∷ with_peer new_id leaf_a leaf_b ∷ b.nodes;
        allocations =
            rack_takes new_id r num
            ++ (loopback_taken new_id leaf_b.meta.name sub_b
                ∷ loopback_taken new_id leaf_a.meta.name sub_a
                ∷ b.allocations);
        made = suc (suc b.made);
      }

  pub add_leaves-ok :
      (b : Builder) (r : Rack new_id) (num : ℤ) (ns : Node × Node) (b' : Builder)
      → add_leaves new_id b r num ≡ ok (ns, b')
      → (ps : Map String Pool) × (sub_a sub_b : Prefix) × (b' ≡ with_leaves b ps r num sub_a sub_b)
  unfolding add_leaves
  add_leaves-ok b r num ns b' h =
      let name_a = r.name +s+ "-leaf-a" in
      let name_b = r.name +s+ "-leaf-b" in
      let spec_a = leaf_spec new_id r num 2 200 in
      let spec_b = leaf_spec new_id r num 3 100 in
      let ((a, b1), e, h1) = bind-ok (add_leaf new_id b name_a spec_a) _ (ns, b') h in
      let ((z, b2), g, k) = bind-ok (add_leaf new_id b1 name_b spec_b) _ (ns, b') h1 in
      let (ps1, sub_a, node_a, at_1) = add_leaf-ok b name_a spec_a a b1 e in
      let (ps2, sub_b, node_b, at_2) = add_leaf-ok b1 name_b spec_b z b2 g in
      let at = at_2 ∙ ap (λ (c : Builder). with_leaf c ps2 name_b spec_b sub_b) at_1 in
      let node = node_b ∙ ap (λ (c : Builder). new_leaf new_id c name_b spec_b sub_b) at_1 in
      let last : Node → Node → Builder → Builder = λ x y c. record c {
        nodes = with_peer new_id y x ∷ with_peer new_id x y ∷ b.nodes;
        allocations = rack_takes new_id r num ++ c.allocations;
      } in
      (
        ps2,
        sub_a,
        sub_b,
        sym (ap (λ t. t.1) (ok-inj k))
            ∙ ap (λ x. last x z b2) node_a
            ∙ ap (λ y. last (leaf_a_of b r num sub_a) y b2) node
            ∙ ap (λ c. last (leaf_a_of b r num sub_a) (leaf_b_of b r num sub_b) c) at,
      )

  -- `addLink` after its allocation
  abbrev pub with_link : Builder → Map String Pool → Node → Node → Prefix → Builder
  with_link b ps a z sub =
      let name = link_name a.meta.name z.meta.name in
      let (r, s) = ends_of new_id (record b { pools = ps }) a z (first_end sub) (second_end sub) in
      record b {
        pools = ps;
        if_index = s.1.if_index;
        links = new_link new_id b name link_fabric (pos 0) r.0 s.0 ∷ b.links;
        allocations =
            record { pool = pool_fabric_p2p; value = subnet_value sub; owner = name }
            ∷ b.allocations;
        made = suc b.made;
      }

  pub add_link-ok :
      (b : Builder) (a z : Node) (b' : Builder)
      → add_link new_id b a z ≡ ok b'
      → (ps : Map String Pool) × (sub : Prefix) × (b' ≡ with_link b ps a z sub)
  unfolding add_link
  add_link-ok b a z b' h =
      let name = link_name a.meta.name z.meta.name in
      let ((sub, b1), e, k) = bind-ok (allocate b pool_fabric_p2p name) _ b' h in
      let moved : b1 ≡ record b { pools = b1.pools } =
        sym (allocate-ok b pool_fabric_p2p name sub b1 e).0 in
      let taken : Builder → Builder = λ c. record c {
        allocations =
            record { pool = pool_fabric_p2p; value = subnet_value sub; owner = name }
            ∷ c.allocations;
      } in
      (
        b1.pools,
        sub,
        sym (ok-inj k)
            ∙ ap
                (λ c.
                  taken (join new_id c a z link_fabric (pos 0) (first_end sub) (second_end sub)))
                moved
            ∙ ap taken (
                join-ok new_id (record b { pools = b1.pools }) a z link_fabric (pos 0)
                  (first_end sub) (second_end sub)),
      )

-- `rackNumForSlot` gives a deployed slot its number, and any other slot the next one.
pub rack_num_for_slot-cases :
    (b : Builder) (pod_id : String) (slot : ℕ)
    → let r = rack_num_for_slot b pod_id slot in
      ((num : ℤ) × (get_elem? (get_or [] b.rack_slots pod_id) (slot - 1) ≡ some num)
        × (r ≡ (num, b)))
      ⊎ ((get_elem? (get_or [] b.rack_slots pod_id) (slot - 1) ≡ none)
          × (r ≡ (pos (b.max_rack + 1), record b { max_rack = b.max_rack + 1 })))
unfolding rack_num_for_slot
rack_num_for_slot-cases b pod_id slot =
    elim (Option-cases (get_elem? (get_or [] b.rack_slots pod_id) (slot - 1))) [
      | inl e ↦ inr (e, rw (rack_num_for_slot, e) refl)
      | inr (num, e) ↦ inl (num, e, rw (rack_num_for_slot, e) refl)
    ]
