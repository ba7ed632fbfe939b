-- ===== src/Ipam/Examples.antt =====
-- A pool of /31 links in 10.0.0.0/30.
use dc_net_lab.Prelude.{◌≡◌, refl, ap, ◌∙◌, String, [], some, true, arith, ok, pos}
use dc_net_lab.Prelude.Map
use dc_net_lab.NetIp.{Prefix, ip4, contains, prefix_eq}
use dc_net_lab.NetIp.Bytes.{add_pow, add_pow-eq-mod}
use dc_net_lab.Ipam.{Pool, new_pool, next_subnet_start, allocate, restore, has_bits}
use dc_net_lab.Ipam.Next.{subnet4, next_subnet_start-eq-add}
use dc_net_lab.Ipam.Overlap.{
  Reach, here, next, restores, AllTidy, Disjoint, allocate-Disjoint, restore_overlaps,
}

add_pow-eq-mod_example : add_pow 1 0x00ff ≡ 0x0101
unfolding add_pow
add_pow-eq-mod_example = add_pow-eq-mod 1 0x00ff (omega arith) (omega arith)

next_subnet_start-eq-add_example :
    next_subnet_start (subnet4 0x0a0000fe 31) ≡ record { family = ip4; value = 0x0a000100 }
next_subnet_start-eq-add_example =
    next_subnet_start-eq-add 0x0a0000fe 31 (omega arith) (omega arith)

abbrev links : Pool
links = record {
  name = "fabric-p2p";
  cidr = subnet4 0x0a000000 30;
  prefix = 31;
  next = record { family = ip4; value = 0x0a000000 };
  allocated = Map.empty;
  released = [];
}

new_links : new_pool "fabric-p2p" (some (subnet4 0x0a000000 30)) (pos 31) ≡ ok links
unfolding new_pool
new_links = refl

abbrev links' : Pool
links' = record links {
  next = record { family = ip4; value = 0x0a000002 };
  allocated = Map.put Map.empty (subnet4 0x0a000000 31) "a--b";
}

restore_link : restore links (subnet4 0x0a000000 31) "a--b" ≡ ok links'
unfolding restore has_bits next_subnet_start add_pow Map.get Map.empty
restore_link = refl

restored : Reach links links'
restored = next here (restores (subnet4 0x0a000000 31) "a--b" restore_link)

restored-AllTidy : AllTidy restored
unfolding restored
restored-AllTidy = (tt, (refl, omega arith, omega arith, tt))

abbrev links'' : Pool
links'' = record links' {
  next = record { family = ip4; value = 0x0a000004 };
  allocated = Map.put links'.allocated (subnet4 0x0a000002 31) "c--d";
}

allocate_link : allocate links' "c--d" ≡ ok (subnet4 0x0a000002 31, links'')
unfolding allocate next_subnet_start add_pow
allocate_link = refl

-- a link that is taken over from the state, and then a new one
allocate-Disjoint_example :
    ¬ (contains (subnet4 0x0a000000 31) (record { family = ip4; value = 0x0a000003 }) ≡ true)
allocate-Disjoint_example =
    (allocate-Disjoint "fabric-p2p" (subnet4 0x0a000000 30) (pos 31) links links' links'' "c--d"
        (subnet4 0x0a000002 31) refl (omega arith) new_links restored restored-AllTidy
        allocate_link).3
      (subnet4 0x0a000000 31) "a--b"
      (Map.get-put_self (Map.empty {V = String}) (subnet4 0x0a000000 31) (subnet4 0x0a000000 31)
        "a--b")
      (record { family = ip4; value = 0x0a000003 }) refl

restore_overlaps_example :
    (p : Pool) × (restore links' (subnet4 0x0a000001 31) "c" ≡ ok p)
    × (Map.get p.allocated (subnet4 0x0a000000 31) ≡ some "a--b")
    × (Map.get p.allocated (subnet4 0x0a000001 31) ≡ some "c")
    × ¬ Disjoint (subnet4 0x0a000000 31) (subnet4 0x0a000001 31)
restore_overlaps_example =
    restore_overlaps links' 0x0a000000 0x0a000001 "a--b" "c"
      (Map.get-put_self (Map.empty {V = String}) (subnet4 0x0a000000 31) (subnet4 0x0a000000 31)
        "a--b")
      (Map.get-put_ne (Map.empty {V = String}) (subnet4 0x0a000000 31) (subnet4 0x0a000001 31)
          "a--b" (λ e. ground (arith, ap (λ (t : Prefix). t.addr.value) e))
        ∙ Map.get-empty (subnet4 0x0a000001 31))
      refl refl
