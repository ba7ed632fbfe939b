-- ===== src/Asn/Examples.antt =====
-- The default range of the DC edges, and ranges of one ASN.
use dc_net_lab.Prelude.{
  ℕ, ◌+◌, ◌-◌, ◌^◌, ◌≡◌, ◌≢◌, refl, sym, subst, ◌∙◌, All, String, [], ◌∷◌, none, some, arith, ok,
  err, nat_eq, string_eq, eqb, if◌then◌else◌,
}
use dc_net_lab.Prelude.Map
use dc_net_lab.Prelude.Map.{map_laws}
use dc_net_lab.Asn.{
  Allocator, RoleRange, AsnRange, exhausted, fresh_range, new, allocate_in, release_in, restore_in,
  allocate, restore, owner_of,
}
use dc_net_lab.Asn.Sound.{IsSound, from_next}
use dc_net_lab.Asn.Reuse.{
  allocate_each, allocate_each-fresh_range, release_in-allocate_in, restore_in_released,
  allocate_each_wraps,
}
use dc_net_lab.Asn.Calls.{here, next, restores, AllSound, new-AllSound, allocate-owner_of}

abbrev edges : AsnRange
edges = record { role = "dc-edge"; start = 64600; end = 64601 }

abbrev edge_allocator : Allocator
edge_allocator = Map.put Map.empty "dc-edge" (fresh_range edges)

new-edges : new (edges ∷ []) ≡ ok edge_allocator
unfolding new
new-edges = ground (arith, Map.get-empty {K = String} {V = RoleRange} "dc-edge")

abbrev taken_over : RoleRange
taken_over = record (fresh_range edges) {
  next = 64602;
  allocated = Map.put Map.empty 64601 "dcedge-2";
}

restore_edge :
    restore edge_allocator "dc-edge" 64601 "dcedge-2"
    ≡ ok (Map.put edge_allocator "dc-edge" taken_over)
unfolding restore restore_in fresh_range
restore_edge = ground (
  arith,
  Map.get-put_self {K = String} (Map.empty {V = RoleRange}) "dc-edge" "dc-edge" (fresh_range edges),
  Map.get-empty {K = ℕ} {V = String} 64601,
)

nothing_released :
    (r : RoleRange) → Map.get edge_allocator "dc-edge" ≡ some r → All (λ b. b ≢ 64601) r.released
unfolding fresh_range
nothing_released r h =
    let same : fresh_range edges ≡ r = some-inj (
      sym (
        Map.get-put_self {K = String} (Map.empty {V = RoleRange}) "dc-edge" "dc-edge"
          (fresh_range edges))
      ∙ h) in
    subst (λ (q : RoleRange). All (λ b. b ≢ 64601) q.released) same tt
  where
    some-inj : {r s : RoleRange} → some r ≡ some s → r ≡ s
    some-inj e = cc e

new-AllSound_example : AllSound (Map.put edge_allocator "dc-edge" taken_over)
new-AllSound_example =
    new-AllSound (edges ∷ []) edge_allocator (Map.put edge_allocator "dc-edge" taken_over)
      (omega arith) new-edges (next here (restores "dc-edge" 64601 "dcedge-2" restore_edge))
      (tt, nothing_released)

allocate_edge :
    allocate edge_allocator "dc-edge" "dcedge-1"
    ≡ ok (64600, Map.put edge_allocator "dc-edge" (from_next (fresh_range edges) "dcedge-1"))
unfolding allocate allocate_in fresh_range
allocate_edge = ground (
  arith,
  Map.get-put_self {K = String} (Map.empty {V = RoleRange}) "dc-edge" "dc-edge" (fresh_range edges),
)

allocate-owner_of_example : owner_of edge_allocator "dc-edge" 64600 ≡ none
allocate-owner_of_example =
    (allocate-owner_of (edges ∷ []) edge_allocator edge_allocator _ "dc-edge" "dcedge-1" 64600
      (omega arith) new-edges here tt allocate_edge).0

allocate_each-fresh_range_example :
    (r : RoleRange) × (allocate_each (fresh_range edges) ("dcedge-1" ∷ "dcedge-2" ∷ [])
      ≡ ok (64600 ∷ 64601 ∷ [], r))
    × (◌≡◌ {A = ℕ} (64600 + 2) (64601 + 1) → (owner : String) → allocate_in r owner ≡ err exhausted)
allocate_each-fresh_range_example =
    allocate_each-fresh_range edges ("dcedge-1" ∷ "dcedge-2" ∷ []) (omega arith) (omega arith)

-- One ASN that is held.
abbrev taken : RoleRange
taken = record { start = 5; end = 9; next = 6; allocated = Map.put Map.empty 5 "a"; released = [] }

abbrev given_back : RoleRange
given_back = record taken { allocated = Map.delete taken.allocated 5; released = 5 ∷ [] }

release_taken : release_in taken 5 ≡ ok given_back
unfolding release_in
release_taken = ground (arith, Map.get-put_self {K = ℕ} (Map.empty {V = String}) 5 5 "a")

release_in-allocate_in_example :
    (r : RoleRange) × (allocate_in given_back "b" ≡ ok (5, r))
    × (r.released ≡ taken.released)
    × (r.next ≡ taken.next)
    × ((a : ℕ) → Map.get r.allocated a ≡ (if eqb 5 a then some "b" else Map.get taken.allocated a))
release_in-allocate_in_example = release_in-allocate_in taken given_back 5 "b" release_taken

abbrev freed : RoleRange
freed = record { start = 5; end = 9; next = 6; allocated = Map.empty; released = 5 ∷ [] }

freed-IsSound : IsSound freed
freed-IsSound = record {
  from_start = omega arith;
  to_end = omega arith;
  no_wrap = omega arith;
  held = λ a o e. cc (Map.get-empty {V = String} a);
  free = ((omega arith, omega arith, Map.get-empty 5), tt);
  distinct = (tt, tt);
}

restore_in_released_example :
    (r r' : RoleRange) × (restore_in freed 5 "a" ≡ ok r)
    × (Map.get r.allocated 5 ≡ some "a")
    × (allocate_in r "b" ≡ ok (5, r'))
    × (Map.get r'.allocated 5 ≡ some "b")
restore_in_released_example = restore_in_released freed 5 [] "a" "b" freed-IsSound refl

abbrev topmost : RoleRange
topmost = record {
  start = 2 ^ 32 - 1;
  end = 2 ^ 32 - 1;
  next = 2 ^ 32 - 1;
  allocated = Map.empty;
  released = [];
}

allocate_each_wraps_example :
    (r : RoleRange) × (allocate_each topmost ("a" ∷ "b" ∷ []) ≡ ok ((2 ^ 32 - 1) ∷ 0 ∷ [], r))
allocate_each_wraps_example = allocate_each_wraps topmost "a" "b" refl refl refl
