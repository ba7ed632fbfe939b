-- ===== src/Ipam.antt =====
-- controller/internal/allocator/ipam/ipam.go: the address pool. The mutex makes each call one step.
-- A pool takes its CIDR parsed: `none` is a text that netip.ParsePrefix refuses.
pub mod Next
pub mod Sound
pub mod Overlap
mod Examples
use dc_net_lab.Prelude.{
  ℕ, ◌+◌, ◌-◌, ◌^◌, String, List, [], ◌∷◌, Option, none, some, Bool, ◌||◌, not, ltb, leb, eqb,
  if◌then◌else◌, Result, ok, err, ◌==◌, ℤ, pos, negsuc,
}
use dc_net_lab.Prelude.Map
use dc_net_lab.Prelude.Map.{Map}
use dc_net_lab.NetIp.{
  Addr, Prefix, ip4, bit_len, same_family, addr_eqb, prefix_eq, compare_gt, masked, prefix_from,
  contains, as16, from16, unmap,
}
use dc_net_lab.NetIp.Bytes.{add_pow}

pub data Error : Type 0 where
  bad_cidr outside_pool exhausted not_allocated not_of_pool : Error
  already_allocated : String → Error

-- The head of `released` is the end of the source's slice.
pub record Pool : Type 0 where
  pub name : String
  pub cidr : Prefix
  pub prefix : ℕ
  pub next : Addr
  pub allocated : Map Prefix String
  pub released : List Prefix

unfoldable pub next_subnet_start : Prefix → Addr
next_subnet_start sub =
    let host_bits : ℕ = elim sub.bits [
      | none ↦ bit_len sub.addr.family + 1
      | some b ↦ bit_len sub.addr.family - b
    ] in
    let a = from16 (add_pow host_bits (as16 (masked sub).addr)) in
    if same_family sub.addr.family ip4 then unmap a else a

unfoldable pub open_pool : String → Prefix → ℕ → ℕ → Result Error Pool
open_pool name p bits alloc_prefix =
    if ltb alloc_prefix bits || ltb (bit_len p.addr.family) alloc_prefix
    then err outside_pool
    else ok (record {
      name = name;
      cidr = p;
      prefix = alloc_prefix;
      next = p.addr;
      allocated = Map.empty;
      released = [];
    })

-- ParsePrefix returns valid prefixes only, which have their bits.
unfoldable pub new_pool : String → Option Prefix → ℤ → Result Error Pool
unfolding open_pool
new_pool name none alloc_prefix = err bad_cidr
new_pool name (some cidr) alloc_prefix = elim (masked cidr).bits [
  | none ↦ err bad_cidr
  | some bits ↦ elim alloc_prefix [
    | negsuc n ↦ err outside_pool
    | pos n ↦ open_pool name (masked cidr) bits n
  ]
]

unfoldable pub allocate : Pool → String → Result Error (Prefix × Pool)
allocate p owner = elim p.released [
  | sub ∷ rest ↦ ok (sub, record p { released = rest; allocated = Map.put p.allocated sub owner })
  | [] ↦
      let sub = prefix_from p.next p.prefix in
      if not (contains p.cidr sub.addr) || not (addr_eqb (masked sub).addr sub.addr)
      then err exhausted
      else ok (
        sub,
        record p { next = next_subnet_start sub; allocated = Map.put p.allocated sub owner },
      )
]

pub release : Pool → Prefix → Result Error Pool
release p sub = elim (Map.get p.allocated sub) [
  | none ↦ err not_allocated
  | some _ ↦ ok (record p { allocated = Map.delete p.allocated sub; released = sub ∷ p.released })
]

unfoldable pub has_bits : Prefix → ℕ → Bool
has_bits sub n = elim sub.bits [ none ↦ Bool.false | some b ↦ eqb b n ]

unfoldable pub restore : Pool → Prefix → String → Result Error Pool
unfolding has_bits
restore p sub owner =
    if not (has_bits sub p.prefix) || not (contains p.cidr sub.addr)
    then err not_of_pool
    else elim (Map.get p.allocated sub) [
      | some prev ↦ err (already_allocated prev)
      | none ↦
          let end = next_subnet_start sub in
          ok (record p {
            allocated = Map.put p.allocated sub owner;
            next = if compare_gt end p.next then end else p.next;
          })
    ]

-- The number of subnets that are held, and of all subnets of the pool.
pub usage : Pool → ℕ × ℕ
usage p =
    let bits : ℕ = elim p.cidr.bits [ none ↦ p.prefix + 1 | some b ↦ p.prefix - b ] in
    (Map.len p.allocated, if leb 63 bits then 2 ^ 63 else 2 ^ bits)
