-- ===== src/Topology/Interfaces/Fresh.antt =====
-- controller/internal/topology/builder.go: the interfaces that new links get.
use dc_net_lab.Prelude.{
  ℕ, ◌+◌, ◌^◌, ◌≤◌, ◌<◌, ◌≡◌, ◌≢◌, refl, sym, ap, subst, ◌∙◌, arith, String, List, [], ◌∷◌, false,
  none, some, ℤ, pos, ltb_ℤ, ltb, ok, bind-ok, Option-cases, Bool-cases, inl, inr, ◌==◌, string_eq,
  eq_iff, All, All-imp, if◌then◌else◌,
}
use dc_net_lab.Prelude.Map
use dc_net_lab.Prelude.Map.{Map}
use dc_net_lab.NetIp.{Prefix, zero_prefix}
use dc_net_lab.GoFmt.{sscanf, show}
use dc_net_lab.GoFmt.Scan.{sscanf-show, show_inj}
use dc_net_lab.Model.{
  ◌+s+◌, Node, Link, LinkEndpoint, AddressPool, Topology, TopologySpec, pool_server_vlan,
}
use dc_net_lab.Asn.{AsnRange}
use dc_net_lab.Topology.{Builder, restore, restore_nodes, new_builder}
use dc_net_lab.Topology.Build.{
  endpoint, pinned_interfaces, link_name, first_end, second_end, add_server, add_l2_link, build,
}
use dc_net_lab.Topology.Pins.{allocate-ok}
use dc_net_lab.Topology.Empty.{new_builder-ok}
use dc_net_lab.Topology.Steps.{
  Step, router, number, rack_subnet, leaves, server, fabric, l2, Steps, here, next, build-Steps,
}
use dc_net_lab.Topology.Keeps.{ends_of, join-ok, endpoint-ok}
use dc_net_lab.Topology.Shapes.{add_router-ok, add_leaves-ok, add_link-ok, rack_num_for_slot-cases}
use dc_net_lab.Topology.Interfaces.{
  count_of, count-put_self, count-put-le, Counts, same-Counts, Counts-trans, Covered, ends,
  restore_links-Covered,
}

-- The ends of the links that the base does not have, the newest first.
pub fresh_ends : Map String Link → List Link → List LinkEndpoint
fresh_ends base [] = []
fresh_ends base (l ∷ ls) = elim (Map.get base l.meta.name) [
  | some m ↦ fresh_ends base ls
  | none ↦ l.spec.endpoint_b ∷ l.spec.endpoint_a ∷ fresh_ends base ls
]

-- Two ends are not the same interface of one node.
abbrev pub Apart : LinkEndpoint → LinkEndpoint → Type 0
Apart e f = e.node_name ≡ f.node_name → e.interface ≢ f.interface

abbrev pub AllApart : List LinkEndpoint → Type 0
AllApart [] = Unit
AllApart (e ∷ es) = All (Apart e) es × AllApart es

-- The end has an index of its own, above the deployed ones of its node.
record IsFresh (b c : Builder) (e : LinkEndpoint) : Type 0 where
  index : ℕ
  printed : e.interface ≡ "eth" +s+ show index
  above : count_of b e.node_name < index
  counted : index ≤ count_of c e.node_name

IsFresh-up : (b c d : Builder) (e : LinkEndpoint) → Counts c d → IsFresh b c e → IsFresh b d e
IsFresh-up b c d e h f = record {
  index = f.index;
  printed = f.printed;
  above = f.above;
  counted = omega (arith, f.counted, h.up e.node_name);
}

-- an end without a pinned interface gets the next index of its node
endpoint-fresh :
    (b : Builder) (n : Node) (addr : Prefix) (iface : String)
    → let r = endpoint b n addr iface in
      Counts b r.1
      × (iface ≡ ""
          → (r.0.interface ≡ "eth" +s+ show (count_of b n.meta.name + 1))
            × (count_of r.1 n.meta.name ≡ count_of b n.meta.name + 1))
unfolding endpoint
endpoint-fresh b n addr iface = elim (Bool-cases (iface == "")) [
  | inr e ↦ rw (endpoint, e) (same-Counts b b refl, λ f. absurd (cc (e, (eq_iff iface "").1 f)))
  | inl e ↦
      let next_count : ℕ = count_of b n.meta.name + 1 in
      rw (endpoint, e)
        (
          record { up = λ x. count-put-le b.if_index n.meta.name x next_count (omega arith) },
          λ f. (refl, count-put_self b.if_index n.meta.name next_count),
        )
]

record IsSafe (b c : Builder) : Type 0 where
  links : c.base_links ≡ b.base_links
  counts : Counts b c
  fresh : All (IsFresh b c) (fresh_ends b.base_links c.links)
  apart : AllApart (fresh_ends b.base_links c.links)

same-IsSafe :
    (b c d : Builder)
    → d.base_links ≡ c.base_links
    → d.if_index ≡ c.if_index
    → d.links ≡ c.links
    → IsSafe b c
    → IsSafe b d
same-IsSafe b c d e f g s = record {
  links = e ∙ s.links;
  counts = Counts-trans b c d s.counts (same-Counts c d f);
  fresh =
      subst (λ ls. All (IsFresh b d) (fresh_ends b.base_links ls)) (sym g)
        (All-imp (λ x k. IsFresh-up b c d x (same-Counts c d f) k) (fresh_ends b.base_links c.links)
          s.fresh);
  apart = subst (λ ls. AllApart (fresh_ends b.base_links ls)) (sym g) s.apart;
}

-- an index above the counter is above every index that was given
later-Apart :
    (b c : Builder) (e f : LinkEndpoint) (k : ℕ)
    → e.interface ≡ "eth" +s+ show k
    → count_of c e.node_name < k
    → IsFresh b c f
    → Apart e f
later-Apart b c e f k printed above h node same =
    let k_eq : k ≡ h.index = show_inj "eth" k h.index (sym printed ∙ same ∙ h.printed) in
    let at : count_of c e.node_name ≡ count_of c f.node_name = ap (count_of c) node in
    omega (arith, k_eq, at, h.counted, above)

new_end :
    (b d : Builder) (e : LinkEndpoint) (name : String) (k : ℕ)
    → e.node_name ≡ name
    → e.interface ≡ "eth" +s+ show k
    → count_of b name < k
    → k ≤ count_of d name
    → IsFresh b d e
new_end b d e name k node printed above counted =
    let at_b : count_of b e.node_name ≡ count_of b name = ap (count_of b) node in
    let at_d : count_of d e.node_name ≡ count_of d name = ap (count_of d) node in
    record {
      index = k;
      printed = printed;
      above = omega (arith, at_b, above);
      counted = omega (arith, at_d, counted);
    }

later_All :
    (b c : Builder) (e : LinkEndpoint) (name : String) (k : ℕ) (fs : List LinkEndpoint)
    → e.node_name ≡ name
    → e.interface ≡ "eth" +s+ show k
    → count_of c name < k
    → All (IsFresh b c) fs
    → All (Apart e) fs
later_All b c e name k fs node printed above h =
    let at : count_of c e.node_name ≡ count_of c name = ap (count_of c) node in
    All-imp (λ f g. later-Apart b c e f k printed (omega (arith, at, above)) g) fs h

module _ (new_id : String → ℕ → String) where
  -- the link that `join` adds to the builder d, which has the counters of c
  join-IsSafe :
      (b c d : Builder) (a z : Node) (addr_a addr_z : Prefix) (l : Link)
      → IsSafe b c
      → let (r, s) = ends_of new_id c a z addr_a addr_z in
        l.meta.name ≡ link_name a.meta.name z.meta.name
        → l.spec.endpoint_a ≡ r.0
        → l.spec.endpoint_b ≡ s.0
        → d.if_index ≡ s.1.if_index
        → d.links ≡ l ∷ c.links
        → d.base_links ≡ c.base_links
        → IsSafe b d
  unfolding fresh_ends pinned_interfaces
  join-IsSafe b c d a z addr_a addr_z l safe named at_a at_b counters links base =
      let name = link_name a.meta.name z.meta.name in
      let ifs = pinned_interfaces c name in
      let (r, s) = ends_of new_id c a z addr_a addr_z in
      let (up_r, fresh_r) = endpoint-fresh c a addr_a ifs.0 in
      let (up_s, fresh_s) = endpoint-fresh r.1 z addr_z ifs.1 in
      let node_r : r.0.node_name ≡ a.meta.name = (endpoint-ok c a addr_a ifs.0).3 in
      let node_s : s.0.node_name ≡ z.meta.name = (endpoint-ok r.1 z addr_z ifs.1).3 in
      let up_d : Counts s.1 d = same-Counts s.1 d counters in
      let up : Counts c d = Counts-trans c r.1 d up_r (Counts-trans r.1 s.1 d up_s up_d) in
      let old =
        All-imp (λ x k. IsFresh-up b c d x up k) (fresh_ends b.base_links c.links) safe.fresh in
      elim (Option-cases (Map.get b.base_links l.meta.name)) [
        | inr (m, e) ↦
            let same : fresh_ends b.base_links (l ∷ c.links) ≡ fresh_ends b.base_links c.links =
              rw (fresh_ends, e) refl in
            record {
              links = base ∙ safe.links;
              counts = Counts-trans b c d safe.counts up;
              fresh =
                  subst (λ ls. All (IsFresh b d) (fresh_ends b.base_links ls)) (sym links)
                    (subst (All (IsFresh b d)) (sym same) old);
              apart =
                  subst (λ ls. AllApart (fresh_ends b.base_links ls)) (sym links)
                    (subst AllApart (sym same) safe.apart);
            }
        | inl e ↦
            let none_c : Map.get c.base_links name ≡ none =
              ap (λ m. Map.get m name) safe.links ∙ ap (Map.get b.base_links) (sym named) ∙ e in
            let unpinned : ifs ≡ ("", "") = rw (pinned_interfaces, none_c) refl in
            let (eth_r, count_r) = fresh_r (ap (λ t. t.0) unpinned) in
            let (eth_s, count_s) = fresh_s (ap (λ t. t.1) unpinned) in
            let (k_r, k_s) : ℕ × ℕ = (count_of c a.meta.name + 1, count_of r.1 z.meta.name + 1) in
            let olds = fresh_ends b.base_links c.links in
            let (end_a, end_b) : LinkEndpoint × LinkEndpoint =
              (l.spec.endpoint_a, l.spec.endpoint_b) in
            let node_a : end_a.node_name ≡ a.meta.name =
              ap (λ (t : LinkEndpoint). t.node_name) at_a ∙ node_r in
            let node_b : end_b.node_name ≡ z.meta.name =
              ap (λ (t : LinkEndpoint). t.node_name) at_b ∙ node_s in
            let print_a : end_a.interface ≡ "eth" +s+ show k_r =
              ap (λ (t : LinkEndpoint). t.interface) at_a ∙ eth_r in
            let print_b : end_b.interface ≡ "eth" +s+ show k_s =
              ap (λ (t : LinkEndpoint). t.interface) at_b ∙ eth_s in
            let low_a : count_of b a.meta.name < k_r = omega (arith, safe.counts.up a.meta.name) in
            let low_b : count_of b z.meta.name < k_s =
              omega (arith, safe.counts.up z.meta.name, up_r.up z.meta.name) in
            let in_r : IsFresh b r.1 end_a =
              new_end b r.1 end_a a.meta.name k_r node_a print_a low_a (omega (arith, count_r)) in
            let in_d : IsFresh b d end_b =
              new_end b d end_b z.meta.name k_s node_b print_b low_b
                (omega (arith, count_s, up_d.up z.meta.name)) in
            let olds_r = All-imp (λ x k. IsFresh-up b c r.1 x up_r k) olds safe.fresh in
            let same : fresh_ends b.base_links (l ∷ c.links) ≡ end_b ∷ end_a ∷ olds =
              rw (fresh_ends, e) refl in
            record {
              links = base ∙ safe.links;
              counts = Counts-trans b c d safe.counts up;
              fresh =
                  subst (λ ls. All (IsFresh b d) (fresh_ends b.base_links ls)) (sym links)
                    (subst (All (IsFresh b d)) (sym same) (
                      in_d,
                      (IsFresh-up b r.1 d end_a (Counts-trans r.1 s.1 d up_s up_d) in_r, old),
                    ));
              apart =
                  subst (λ ls. AllApart (fresh_ends b.base_links ls)) (sym links)
                    (subst AllApart (sym same) (
                      later_All b r.1 end_b z.meta.name k_s (end_a ∷ olds) node_b print_b
                          (omega arith) (in_r, olds_r),
                      (
                        later_All b c end_a a.meta.name k_r olds node_a print_a (omega arith)
                            safe.fresh,
                        safe.apart,
                      ),
                    ));
            }
      ]

  Step-IsSafe : (b c d : Builder) → Step new_id c d → IsSafe b c → IsSafe b d
  unfolding add_server add_l2_link
  Step-IsSafe b c d (router name role pod_id n t h) s =
      let (ps, as', asn, sub, e) = add_router-ok new_id c name role pod_id n d h in
      same-IsSafe b c d (ap (λ (x : Builder). x.base_links) e) (ap (λ (x : Builder). x.if_index) e)
        (ap (λ (x : Builder). x.links) e) s
  Step-IsSafe b c d (number pod_id slot) s = elim (rack_num_for_slot-cases c pod_id slot) [
    | inl (num, e, f) ↦
        same-IsSafe b c d (ap (λ (r : ℤ × Builder). r.1.base_links) f)
          (ap (λ (r : ℤ × Builder). r.1.if_index) f) (ap (λ (r : ℤ × Builder). r.1.links) f) s
    | inr (e, f) ↦
        same-IsSafe b c d (ap (λ (r : ℤ × Builder). r.1.base_links) f)
          (ap (λ (r : ℤ × Builder). r.1.if_index) f) (ap (λ (r : ℤ × Builder). r.1.links) f) s
  ]
  Step-IsSafe b c d (rack_subnet owner sub h) s =
      let e = sym (allocate-ok c pool_server_vlan owner sub d h).0 in
      same-IsSafe b c d (ap (λ (x : Builder). x.base_links) e) (ap (λ (x : Builder). x.if_index) e)
        (ap (λ (x : Builder). x.links) e) s
  Step-IsSafe b c d (leaves r num ns h) s =
      let (ps, sub_a, sub_b, e) = add_leaves-ok new_id c r num ns d h in
      same-IsSafe b c d (ap (λ (x : Builder). x.base_links) e) (ap (λ (x : Builder). x.if_index) e)
        (ap (λ (x : Builder). x.links) e) s
  Step-IsSafe b c d (server name spec) s = same-IsSafe b c d refl refl refl s
  Step-IsSafe b c d (fabric a z h) s =
      let (ps, sub, e) = add_link-ok new_id c a z d h in
      let moved = same-IsSafe b c (record c { pools = ps }) refl refl refl s in
      join-IsSafe b (record c { pools = ps }) d a z (first_end sub) (second_end sub) _ moved refl
        refl refl (ap (λ (x : Builder). x.if_index) e) (ap (λ (x : Builder). x.links) e)
        (ap (λ (x : Builder). x.base_links) e)
  Step-IsSafe b c d (l2 a z kind ne) s =
      let e = join-ok new_id c a z kind (pos 1000) zero_prefix zero_prefix in
      join-IsSafe b c d a z zero_prefix zero_prefix _ s refl refl refl
        (ap (λ (x : Builder). x.if_index) e) (ap (λ (x : Builder). x.links) e)
        (ap (λ (x : Builder). x.base_links) e)

  Steps-IsSafe : (b c : Builder) → Steps new_id b c → IsSafe b b → IsSafe b c
  Steps-IsSafe b c here s = s
  Steps-IsSafe b c (next {c = d} h st) s = Step-IsSafe b d c st (Steps-IsSafe b d h s)

deployed-Apart : (b c : Builder) (e f : LinkEndpoint) → Covered b e → IsFresh b c f → Apart e f
deployed-Apart b c e f (idx, scanned, low) fresh node same =
    let at : count_of b e.node_name ≡ count_of b f.node_name = ap (count_of b) node in
    let k = fresh.index in
    let both : (if ltb k (2 ^ 63) then some (pos k) else none) ≡ some idx =
      sym (sscanf-show "eth" k) ∙ ap (sscanf "eth") (sym (same ∙ fresh.printed)) ∙ scanned in
    let high : count_of b e.node_name < k = omega (arith, at, fresh.above) in
    elim (Bool-cases (ltb k (2 ^ 63))) [
      | inr g ↦ absurd (cc (rw g at both))
      | inl g ↦
          let is_k : pos k ≡ idx = ap (λ o. elim o [ none ↦ pos 0 | some n ↦ n ]) (rw g at both) in
          ground (
            arith,
            high,
            subst (λ n. ltb_ℤ (pos (count_of b e.node_name)) n ≡ false) (sym is_k) low,
          )
    ]

-- Build a topology on a deployed one. No two ends of its new links, those whose names the deployed topology does not have, are the
-- same interface of one node, and none of them is an interface that a deployed link occupies on that node.
pub build-Apart :
    (new_id : String → ℕ → String) (lab_id : String) (pools : List AddressPool)
    (ranges : List AsnRange) (base : Topology) (spec : TopologySpec) (b r : Builder)
    → new_builder lab_id pools ranges (some base) ≡ ok b
    → build new_id spec b ≡ ok r
    → AllApart (fresh_ends b.base_links r.links)
      × All (λ e. All (Apart e) (fresh_ends b.base_links r.links)) (ends base.links)
unfolding restore fresh_ends
build-Apart new_id lab_id pools ranges base spec b r made done =
    let (b0, restored, empty, _, _, _) = new_builder-ok lab_id pools ranges base b made in
    let (s, e, m) = bind-ok (restore_nodes (Map.empty, b0) base.nodes) _ b restored in
    let covered = (restore_links-Covered _ base.links b m).0 in
    let no_links : b.links ≡ [] = ap (λ t. t.1) empty in
    let start : IsSafe b b = record {
      links = refl;
      counts = same-Counts b b refl;
      fresh = subst (λ ls. All (IsFresh b b) (fresh_ends b.base_links ls)) (sym no_links) tt;
      apart = subst (λ ls. AllApart (fresh_ends b.base_links ls)) (sym no_links) tt;
    } in
    let safe = Steps-IsSafe new_id b r (build-Steps new_id spec b r done) start in
    (
      safe.apart,
      All-imp
          (λ x on.
            All-imp (λ f fresh. deployed-Apart b r x f on fresh) (fresh_ends b.base_links r.links)
              safe.fresh)
          (ends base.links) covered,
    )
