-- ===== src/Ipam/Sound.antt =====
-- What an IPv4 pool keeps between calls, and what the calls do to it.
use dc_net_lab.Prelude.{
  ℕ, ◌+◌, ◌-◌, ◌^◌, ◌≤◌, ◌<◌, ◌≡◌, ◌≢◌, ◌⊎◌, ◌∙◌, refl, sym, ap, subst, String, List, [], ◌∷◌, none,
  some, true, arith, All, All-imp, All-imp₂, Distinct, Option-cases, inl, inr, ok, if◌then◌else◌,
}
use native.Mathlib.Nat.{pow-le-pow_right, one-le-pow}
use dc_net_lab.Prelude.Map
use dc_net_lab.Prelude.Map.{
  get-put_cases, get-put_ne, get-put_self, get-delete_self, get-delete-some, get-delete-none,
}
use dc_net_lab.NetIp.{Addr, Prefix, ip4, ip6, floor_to, contains, prefix_eq, compare_gt}
use dc_net_lab.Ipam.{Pool, next_subnet_start, allocate, release, restore}
use dc_net_lab.Ipam.Next.{subnet4, after4, next_subnet_start-eq-add}

abbrev pub size : Pool → ℕ
size p = 2 ^ (32 - p.prefix)

-- A bound for the last address that the pool has handed out.
abbrev pub limit : Addr → ℕ
limit a = elim a.family [ ip4 ↦ a.value | _ ↦ 2 ^ 33 ]

-- A subnet of a pool: an IPv4 block of the pool's size, at a multiple of it, in the CIDR and below
-- a limit.
pub record IsSubnet (cidr : Prefix) (prefix lim : ℕ) (sub : Prefix) : Type 0 where
  pub shape : sub ≡ subnet4 sub.addr.value prefix
  pub in_range : sub.addr.value < 2 ^ 32
  pub aligned : floor_to (32 - prefix) sub.addr.value ≡ sub.addr.value
  pub inside : contains cidr sub.addr ≡ true
  pub below : sub.addr.value + 2 ^ (32 - prefix) ≤ lim

abbrev pub Owns : Pool → Prefix → Type 0
Owns p = IsSubnet p.cidr p.prefix (limit p.next)

abbrev pub IsFree : Pool → Prefix → Type 0
IsFree p sub = Owns p sub × (Map.get p.allocated sub ≡ none)

-- The counter is an IPv4 address, or has run past the last one.
abbrev pub IsCounter : Addr → Type 0
IsCounter a = ((a.family ≡ ip4) × (a.value < 2 ^ 32)) ⊎ (a.family ≡ ip6)

pub record IsSound (p : Pool) : Type 0 where
  pub ip4_pool : p.cidr.addr.family ≡ ip4
  pub prefix-le : p.prefix ≤ 32
  pub counter : IsCounter p.next
  pub held : (sub : Prefix) (o : String) → Map.get p.allocated sub ≡ some o → Owns p sub
  pub free : All (IsFree p) p.released
  pub distinct : Distinct p.released

abbrev pub fresh_subnet : Pool → Prefix
fresh_subnet p = subnet4 p.next.value p.prefix

pub allocate-cases :
    (p p' : Pool) (owner : String) (sub : Prefix)
    → p.cidr.addr.family ≡ ip4
    → p.prefix ≤ 32
    → allocate p owner ≡ ok (sub, p')
    → ((rest : List Prefix) × (p.released ≡ sub ∷ rest)
        × (p' ≡ record p { released = rest; allocated = Map.put p.allocated sub owner }))
      ⊎ ((p.released ≡ [])
          × (p.next.family ≡ ip4)
          × (sub ≡ fresh_subnet p)
          × (contains p.cidr sub.addr ≡ true)
          × (floor_to (32 - p.prefix) p.next.value ≡ p.next.value)
          × (p' ≡ record p {
            next = next_subnet_start sub;
            allocated = Map.put p.allocated sub owner;
          }))
unfolding allocate
allocate-cases p p' owner sub four le done = ground arith

pub release-cases :
    (p p' : Pool) (sub : Prefix)
    → release p sub ≡ ok p'
    → (o : String) × (Map.get p.allocated sub ≡ some o)
      × (p' ≡ record p { allocated = Map.delete p.allocated sub; released = sub ∷ p.released })
unfolding release
release-cases p p' sub done = ground arith

-- the later one of the counter and the end of a restored subnet
abbrev pub later : Addr → Addr → Addr
later a b = if compare_gt a b then a else b

pub restore-cases :
    (p p' : Pool) (sub : Prefix) (owner : String)
    → restore p sub owner ≡ ok p'
    → (sub.bits ≡ some p.prefix)
      × (contains p.cidr sub.addr ≡ true)
      × (Map.get p.allocated sub ≡ none)
      × (p' ≡ record p {
        allocated = Map.put p.allocated sub owner;
        next = later (next_subnet_start sub) p.next;
      })
unfolding restore
restore-cases p p' sub owner done = ground arith

limit-after4 : (n : ℕ) → n ≤ 2 ^ 33 → n ≤ limit (after4 n)
limit-after4 n h = ground arith

IsCounter-after4 : (n : ℕ) → IsCounter (after4 n)
IsCounter-after4 n = ground arith

module _ (n : ℕ) (a : Addr) (c : IsCounter a) where
  IsCounter-later : IsCounter (later (after4 n) a)
  IsCounter-later = ground arith

  limit-later :
      n ≤ 2 ^ 33 → (n ≤ limit (later (after4 n) a)) × (limit a ≤ limit (later (after4 n) a))
  limit-later h = ground arith

-- A subnet stays one when the counter moves on.
IsSubnet-mono :
    {cidr : Prefix} {prefix lim : ℕ} (lim' : ℕ) (sub : Prefix)
    → lim ≤ lim'
    → IsSubnet cidr prefix lim sub
    → IsSubnet cidr prefix lim' sub
IsSubnet-mono lim' sub le h = record {
  shape = h.shape;
  in_range = h.in_range;
  aligned = h.aligned;
  inside = h.inside;
  below = omega (arith, h.below);
}

size-le : (b : ℕ) → 2 ^ (32 - b) ≤ 2 ^ 32
size-le b = pow-le-pow_right (omega arith) (let e : 32 - b ≤ 32 = omega arith in e)

module _ {p : Pool} (s : IsSound p) where
  open s use {ip4_pool, prefix-le, counter, held, free, distinct}

  -- giving a subnet to an owner, with a counter that has not moved back
  given-IsSound :
      (owner : String) (sub : Prefix) (rest : List Prefix) (n : Addr)
      → IsCounter n
      → limit p.next ≤ limit n
      → IsSubnet p.cidr p.prefix (limit n) sub
      → All (IsFree p) rest
      → All (λ q. sub ≢ q) rest
      → Distinct rest
      → IsSound (record p { next = n; allocated = Map.put p.allocated sub owner; released = rest })
  given-IsSound owner sub rest n c le h f u d = record {
    ip4_pool = ip4_pool;
    prefix-le = prefix-le;
    counter = c;
    held = λ q o e. elim (get-put_cases p.allocated sub q owner o e) [
      | inl same ↦ subst (IsSubnet p.cidr p.prefix (limit n)) same h
      | inr old ↦ IsSubnet-mono (limit n) q le (held q o old)
    ];
    free =
        All-imp₂
          (λ q ne k.
            (IsSubnet-mono (limit n) q le k.0, get-put_ne p.allocated sub q owner ne ∙ k.1))
          rest u f;
    distinct = d;
  }

  -- a subnet that is handed out from the counter
  fresh-Owns :
      (contains p.cidr (fresh_subnet p).addr ≡ true)
      → p.next.value < 2 ^ 32
      → floor_to (32 - p.prefix) p.next.value ≡ p.next.value
      → IsSubnet p.cidr p.prefix (p.next.value + size p) (fresh_subnet p)
  fresh-Owns inside range aligned = record {
    shape = refl;
    in_range = range;
    aligned = aligned;
    inside = inside;
    below = omega arith;
  }

  -- where the counter stands after a subnet
  next-eq :
      (v : ℕ)
      → v < 2 ^ 32
      → floor_to (32 - p.prefix) v ≡ v
      → next_subnet_start (subnet4 v p.prefix) ≡ after4 (v + size p)
  next-eq v h e =
      rw (next_subnet_start-eq-add v p.prefix h prefix-le) (ap (λ k. after4 (k + size p)) e)

  unheld : (sub : Prefix) → limit p.next ≤ sub.addr.value → Map.get p.allocated sub ≡ none
  unheld sub le = elim (Option-cases (Map.get p.allocated sub)) [
    | inl e ↦ e
    | inr (o, e) ↦
        absurd (omega (arith, (held sub o e).below, one-le-pow (32 - p.prefix) 2 (omega arith)))
  ]

  in_counter : p.next.family ≡ ip4 → (p.next.value < 2 ^ 32) × (limit p.next ≡ p.next.value)
  in_counter four = ground arith

  from_next-IsSound :
      (owner : String)
      → p.released ≡ []
      → p.next.family ≡ ip4
      → contains p.cidr (fresh_subnet p).addr ≡ true
      → floor_to (32 - p.prefix) p.next.value ≡ p.next.value
      → IsSound (record p {
        next = next_subnet_start (fresh_subnet p);
        allocated = Map.put p.allocated (fresh_subnet p) owner;
      })
  from_next-IsSound owner e four inside aligned =
      let (range, l) = in_counter four in
      let end : ℕ = p.next.value + size p in
      let le : end ≤ limit (after4 end) =
        limit-after4 end (omega (arith, range, size-le p.prefix)) in
      rw (next-eq p.next.value range aligned) (
        given-IsSound owner (fresh_subnet p) p.released (after4 end) (IsCounter-after4 end)
          (omega (arith, l, le))
          (IsSubnet-mono (limit (after4 end)) (fresh_subnet p) le (fresh-Owns inside range aligned))
          free (subst (All (λ q. fresh_subnet p ≢ q)) (sym e) tt) distinct)

  module _ (owner : String) {sub : Prefix} {p' : Pool}
      (done : allocate p owner ≡ ok (sub, p')) where
    pub allocate-IsSound : IsSound p'
    allocate-IsSound = elim (allocate-cases p p' owner sub ip4_pool prefix-le done) [
      | inl (rest, e, e') ↦
          let f : All (IsFree p) (sub ∷ rest) = subst (All (IsFree p)) e free in
          let d : Distinct (sub ∷ rest) = subst Distinct e distinct in
          subst IsSound (sym e')
            (given-IsSound owner sub rest p.next counter (omega arith) f.0.0 f.1 d.0 d.1)
      | inr (e, four, es, inside, aligned, e') ↦
          subst IsSound
            (sym (
              subst
                (λ q. p' ≡ record p {
                  next = next_subnet_start q;
                  allocated = Map.put p.allocated q owner;
                })
                es e'))
            (from_next-IsSound owner e four (subst (λ q. contains p.cidr q.addr ≡ true) es inside)
              aligned)
    ]

    -- The subnet that `Allocate` hands out is an aligned block of the CIDR that nobody held.
    pub allocate-fresh :
        (sub ≡ subnet4 sub.addr.value p.prefix)
        × (contains p.cidr sub.addr ≡ true)
        × (floor_to (32 - p.prefix) sub.addr.value ≡ sub.addr.value)
        × (Map.get p.allocated sub ≡ none)
        × (p'.allocated ≡ Map.put p.allocated sub owner)
    allocate-fresh = elim (allocate-cases p p' owner sub ip4_pool prefix-le done) [
      | inl (rest, e, e') ↦
          let f : All (IsFree p) (sub ∷ rest) = subst (All (IsFree p)) e free in
          (f.0.0.shape, f.0.0.inside, f.0.0.aligned, f.0.1, ap (λ (q : Pool). q.allocated) e')
      | inr (e, four, es, inside, aligned, e') ↦ (
        ground arith,
        inside,
        subst (λ (q : Prefix). floor_to (32 - p.prefix) q.addr.value ≡ q.addr.value) (sym es)
            aligned,
        unheld sub (omega (arith, (in_counter four).1, ap (λ (q : Prefix). q.addr.value) es)),
        ap (λ (q : Pool). q.allocated) e',
      )
    ]

  pub release-IsSound : (sub : Prefix) {p' : Pool} → release p sub ≡ ok p' → IsSound p'
  release-IsSound sub {p'} done =
      let (o, e, e') = release-cases p p' sub done in
      subst IsSound (sym e') (record {
        ip4_pool = ip4_pool;
        prefix-le = prefix-le;
        counter = counter;
        held = λ q o' k. held q o' (get-delete-some p.allocated sub q o' k);
        free = (
          (held sub o e, get-delete_self p.allocated sub sub),
          All-imp (λ q h. (h.0, get-delete-none p.allocated sub q h.1)) p.released free,
        );
        distinct =
            (All-imp (λ q h k. cc (ap (Map.get p.allocated) k, e, h.1)) p.released free, distinct);
      })

  pub restore-IsSound :
      (sub : Prefix) (owner : String) {p' : Pool}
      → sub.addr.family ≡ ip4
      → sub.addr.value < 2 ^ 32
      → floor_to (32 - p.prefix) sub.addr.value ≡ sub.addr.value
      → All (λ q. sub ≢ q) p.released
      → restore p sub owner ≡ ok p'
      → IsSound p'
  restore-IsSound sub owner {p'} four range aligned unreleased done =
      let (b, inside, e, e') = restore-cases p p' sub owner done in
      let shape : sub ≡ subnet4 sub.addr.value p.prefix = ground arith in
      let end : ℕ = sub.addr.value + size p in
      let stop : next_subnet_start sub ≡ after4 end =
        ap next_subnet_start shape ∙ next-eq sub.addr.value range aligned in
      let (lo, hi) = limit-later end p.next counter (omega (arith, range, size-le p.prefix)) in
      subst IsSound
        (sym (
          e'
          ∙ ap (λ n. record p { allocated = Map.put p.allocated sub owner; next = later n p.next })
              stop))
        (given-IsSound owner sub p.released (later (after4 end) p.next)
          (IsCounter-later end p.next counter) hi
          (record {
            shape = shape;
            in_range = range;
            aligned = aligned;
            inside = inside;
            below = lo;
          })
          free unreleased distinct)
