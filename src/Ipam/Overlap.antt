-- ===== src/Ipam/Overlap.antt =====
-- The pool over the life of a lab: the subnets that it has handed out never overlap.
use dc_net_lab.Prelude.{
  ℕ, ◌-◌, ◌*◌, ◌/◌, ◌^◌, ◌≤◌, ◌<◌, ◌≡◌, ◌≢◌, ap, sym, subst, ◌∙◌, String, none, some, true, arith,
  All, Distinct, Option-cases, inl, inr, [], ok, ℤ,
}
use native.Mathlib.Nat.{div-mul-le_self}
use dc_net_lab.Prelude.Map
use dc_net_lab.Prelude.Map.{get-put_self, get-put_ne, get-put_cases, get-empty}
use dc_net_lab.NetIp.{Addr, Prefix, ip4, floor_to, contains, prefix_eq}
use dc_net_lab.Ipam.{Pool, new_pool, next_subnet_start, allocate, release, restore}
use dc_net_lab.Ipam.Next.{subnet4}
use dc_net_lab.Ipam.Sound.{
  IsSound, IsFree, later, allocate-IsSound, allocate-fresh, release-IsSound, restore-IsSound,
}

-- One call of `Allocate`, `Release` or `Restore` that succeeds.
pub data Call : Pool → Pool → Type 0 where
  allocates :
      {p p' : Pool} (owner : String) (sub : Prefix) → allocate p owner ≡ ok (sub, p') → Call p p'
  releases : {p p' : Pool} (sub : Prefix) → release p sub ≡ ok p' → Call p p'
  restores : {p p' : Pool} (sub : Prefix) (owner : String) → restore p sub owner ≡ ok p' → Call p p'

pub data Reach (p : Pool) : Pool → Type 0 where
  here : Reach p p
  next : {q r : Pool} → Reach p q → Call q r → Reach p r

-- A `Restore` of an IPv4 subnet that starts at a multiple of its size and is not in the released list.
abbrev pub IsTidy : {p p' : Pool} → Call p p' → Type 0
IsTidy (allocates owner sub done) = Unit
IsTidy (releases sub done) = Unit
IsTidy {p} (restores sub owner done) =
    (sub.addr.family ≡ ip4)
    × (sub.addr.value < 2 ^ 32)
    × (floor_to (32 - p.prefix) sub.addr.value ≡ sub.addr.value)
    × All (λ q. sub ≢ q) p.released

abbrev pub AllTidy : {p q : Pool} → Reach p q → Type 0
AllTidy here = Unit
AllTidy (next h c) = AllTidy h × IsTidy c

Call-IsSound : {p p' : Pool} (c : Call p p') → IsTidy c → IsSound p → IsSound p'
Call-IsSound (allocates owner sub done) t s = allocate-IsSound s owner done
Call-IsSound (releases sub done) t s = release-IsSound s sub done
Call-IsSound (restores sub owner done) (four, range, aligned, unreleased) s =
    restore-IsSound s sub owner four range aligned unreleased done

Reach-IsSound : {p q : Pool} (h : Reach p q) → AllTidy h → IsSound p → IsSound q
Reach-IsSound here t s = s
Reach-IsSound (next h c) t s = Call-IsSound c t.1 (Reach-IsSound h t.0 s)

new_pool-cases :
    (name : String) (cidr : Prefix) (alloc_prefix : ℤ) (p : Pool)
    → cidr.addr.family ≡ ip4
    → cidr.addr.value < 2 ^ 32
    → new_pool name (some cidr) alloc_prefix ≡ ok p
    → (p.cidr.addr.family ≡ ip4)
      × (p.cidr.addr.value ≤ cidr.addr.value)
      × (p.prefix ≤ 32)
      × (p.next ≡ p.cidr.addr)
      × (p.allocated ≡ Map.empty)
      × (p.released ≡ [])
unfolding new_pool
new_pool-cases name cidr alloc_prefix p four range done = elim (Option-cases cidr.bits) [
  | inl e ↦ absurd (ground arith)
  | inr (b, e) ↦ ground (arith, div-mul-le_self cidr.addr.value (2 ^ (32 - b)))
]

new_pool-IsSound :
    (name : String) (cidr : Prefix) (alloc_prefix : ℤ) (p : Pool)
    → cidr.addr.family ≡ ip4
    → cidr.addr.value < 2 ^ 32
    → new_pool name (some cidr) alloc_prefix ≡ ok p
    → IsSound p
new_pool-IsSound name cidr alloc_prefix p four range done =
    let (four', le, fits, n, a, r) = new_pool-cases name cidr alloc_prefix p four range done in
    record {
      ip4_pool = four';
      prefix-le = fits;
      counter = ground (arith, ap (λ (t : Addr). t.value) n);
      held = λ sub o e. cc (get-empty {V = String} sub, a, e);
      free = subst (All (IsFree p)) (sym r) tt;
      distinct = subst Distinct (sym r) tt;
    }

-- No address lies in two of these.
abbrev pub Disjoint : Prefix → Prefix → Type 0
Disjoint p q = (a : Addr) → contains p a ≡ true → contains q a ≡ true → ⊥

same_block :
    (v w b : ℕ) (a : Addr)
    → floor_to (32 - b) v ≡ v
    → floor_to (32 - b) w ≡ w
    → contains (subnet4 v b) a ≡ true
    → contains (subnet4 w b) a ≡ true
    → v ≡ w
same_block v w b a e f h k =
    let q : v / 2 ^ (32 - b) ≡ w / 2 ^ (32 - b) = ground arith in
    sym e ∙ ap (λ t. t * 2 ^ (32 - b)) q ∙ f

-- From a new IPv4 pool, after any calls of `Allocate` and `Release` and after such calls of `Restore` whose subnet is
-- IPv4, starts at a multiple of its size and is not in the released list, the subnet that `Allocate` hands out lies in the CIDR, has
-- the pool's length and starts at a multiple of its size; it has no address in common with any subnet that is held, and
-- after the call it is held by its owner and every other subnet by whom it was.
pub allocate-Disjoint :
    (name : String) (cidr : Prefix) (alloc_prefix : ℤ) (p q r : Pool) (owner : String)
    (sub : Prefix)
    → cidr.addr.family ≡ ip4
    → cidr.addr.value < 2 ^ 32
    → new_pool name (some cidr) alloc_prefix ≡ ok p
    → (reach : Reach p q) → AllTidy reach
    → allocate q owner ≡ ok (sub, r)
    → (contains q.cidr sub.addr ≡ true)
      × (sub ≡ subnet4 sub.addr.value q.prefix)
      × (floor_to (32 - q.prefix) sub.addr.value ≡ sub.addr.value)
      × ((other : Prefix) (o : String) → Map.get q.allocated other ≡ some o → Disjoint sub other)
      × (Map.get r.allocated sub ≡ some owner)
      × ((other : Prefix) → sub ≢ other → Map.get r.allocated other ≡ Map.get q.allocated other)
allocate-Disjoint name cidr alloc_prefix p q r owner sub four range made reach tidy done =
    let s : IsSound q =
      Reach-IsSound reach tidy (new_pool-IsSound name cidr alloc_prefix p four range made) in
    let (shape, inside, aligned, new, after) = allocate-fresh s owner done in
    (
      inside,
      shape,
      aligned,
      λ other o e a h k.
          let t = s.held other o e in
          let same : sub.addr.value ≡ other.addr.value =
            same_block sub.addr.value other.addr.value q.prefix a aligned t.aligned
              (subst (λ (x : Prefix). contains x a ≡ true) shape h)
              (subst (λ (x : Prefix). contains x a ≡ true) t.shape k) in
          let equal : sub ≡ other = shape ∙ ap (λ v. subnet4 v q.prefix) same ∙ sym t.shape in
          cc (ap (Map.get q.allocated) equal, new, e),
      ap (λ m. Map.get m sub) after ∙ get-put_self q.allocated sub sub owner,
      λ other ne. ap (λ m. Map.get m other) after ∙ get-put_ne q.allocated sub other owner ne,
    )

-- `Restore` does not ask for a multiple of the size: while a subnet is held, it takes any other address
-- of the same block as a further subnet, and then two subnets that share addresses are held.
pub restore_overlaps :
    (p : Pool) (v w : ℕ) (o owner : String)
    → Map.get p.allocated (subnet4 v p.prefix) ≡ some o
    → Map.get p.allocated (subnet4 w p.prefix) ≡ none
    → contains p.cidr (subnet4 w p.prefix).addr ≡ true
    → v / 2 ^ (32 - p.prefix) ≡ w / 2 ^ (32 - p.prefix)
    → (p' : Pool) × (restore p (subnet4 w p.prefix) owner ≡ ok p')
      × (Map.get p'.allocated (subnet4 v p.prefix) ≡ some o)
      × (Map.get p'.allocated (subnet4 w p.prefix) ≡ some owner)
      × ¬ Disjoint (subnet4 v p.prefix) (subnet4 w p.prefix)
unfolding restore
restore_overlaps p v w o owner h n inside same =
    let sub : Prefix = subnet4 w p.prefix in
    (
      record p {
        allocated = Map.put p.allocated sub owner;
        next = later (next_subnet_start sub) p.next;
      },
      ground arith,
      get-put_ne p.allocated sub (subnet4 v p.prefix) owner
            (λ e. cc (ap (Map.get p.allocated) e, h, n))
          ∙ h,
      get-put_self p.allocated sub sub owner,
      λ d. d (record { family = ip4; value = w }) (ground arith) (ground arith),
    )
