-- ===== src/NetIp.antt =====
-- Go's net/netip, as far as the program uses it: addresses without zones and prefixes.
pub mod Bytes
use dc_net_lab.Prelude.{
  ℕ, ◌+◌, ◌-◌, ◌*◌, ◌/◌, ◌%◌, ◌^◌, ◌≤◌, ◌≡◌, ◌↔◌, refl, ap, Bool, true, false, ◌&&◌, Option, none,
  some, arith, ltb, leb, eqb, if◌then◌else◌, Comparable,
}

pub data Family : Type 0 where
  no_ip ip4 ip6 : Family

-- netip.Addr. `no_ip` is the zero Addr.
pub record Addr : Type 0 where
  pub family : Family
  pub value : ℕ

-- netip.Prefix; `none` where Bits() is -1.
pub record Prefix : Type 0 where
  pub addr : Addr
  pub bits : Option ℕ

abbrev pub bit_len : Family → ℕ
bit_len no_ip = 0
bit_len ip4 = 32
bit_len ip6 = 128

abbrev pub same_family : Family → Family → Bool
same_family no_ip no_ip = true
same_family ip4 ip4 = true
same_family ip6 ip6 = true
same_family _ _ = false

abbrev pub addr_eqb : Addr → Addr → Bool
addr_eqb a b = same_family a.family b.family && eqb a.value b.value

abbrev pub bits_eqb : Option ℕ → Option ℕ → Bool
bits_eqb none none = true
bits_eqb none (some n) = false
bits_eqb (some m) none = false
bits_eqb (some m) (some n) = eqb m n

abbrev pub prefix_eqb : Prefix → Prefix → Bool
prefix_eqb p q = addr_eqb p.addr q.addr && bits_eqb p.bits q.bits

pub prefix_eqb_iff : (p q : Prefix) → (prefix_eqb p q ≡ true) ↔ (p ≡ q)
prefix_eqb_iff p q = ground arith

addr_eqb_iff : (a b : Addr) → (addr_eqb a b ≡ true) ↔ (a ≡ b)
addr_eqb_iff a b = ground arith

pub addr_eq : Comparable Addr
addr_eq = record { test = addr_eqb; decides = addr_eqb_iff }

instance abbrev pub prefix_eq : Comparable Prefix
prefix_eq = record { test = prefix_eqb; decides = prefix_eqb_iff }

-- Addr.Compare(other) > 0
abbrev pub compare_gt : Addr → Addr → Bool
compare_gt a b =
    if eqb (bit_len a.family) (bit_len b.family)
    then ltb b.value a.value
    else ltb (bit_len b.family) (bit_len a.family)

-- the first address of the block of 2 ^ h addresses
abbrev pub floor_to : ℕ → ℕ → ℕ
floor_to h v = v / 2 ^ h * 2 ^ h

abbrev pub zero_addr : Addr
zero_addr = record { family = no_ip; value = 0 }

abbrev pub zero_prefix : Prefix
zero_prefix = record { addr = zero_addr; bits = none }

-- Prefix.Masked
abbrev pub masked : Prefix → Prefix
masked p = elim p.bits [
  | none ↦ zero_prefix
  | some b ↦ record p {
    addr = record (p.addr) { value = floor_to (bit_len p.addr.family - b) p.addr.value };
  }
]

-- netip.PrefixFrom
abbrev pub prefix_from : Addr → ℕ → Prefix
prefix_from a b = record {
  addr = a;
  bits =
      if same_family a.family no_ip
      then none
      else if ltb (bit_len a.family) b
      then none
      else some b;
}

-- Prefix.Contains
abbrev pub contains : Prefix → Addr → Bool
contains p a = elim p.bits [
  | none ↦ false
  | some b ↦
      if same_family a.family no_ip
      then false
      else same_family p.addr.family a.family
        && eqb (p.addr.value / 2 ^ (bit_len a.family - b)) (a.value / 2 ^ (bit_len a.family - b))
]

-- Addr.As16, as a number
abbrev pub as16 : Addr → ℕ
as16 a = elim a.family [ ip4 ↦ 0xffff00000000 + a.value | _ ↦ a.value ]

-- AddrFrom16
abbrev pub from16 : ℕ → Addr
from16 v = record { family = ip6; value = v }

-- Addr.Unmap
abbrev pub unmap : Addr → Addr
unmap a = elim a.family [
  | ip6 ↦
      if eqb (a.value / 2 ^ 32) 0xffff then record { family = ip4; value = a.value % 2 ^ 32 } else a
  | _ ↦ a
]

-- Addr.Next
abbrev pub next_addr : Addr → Addr
next_addr a = elim a.family [
  | ip4 ↦ if eqb (a.value + 1) (2 ^ 32) then zero_addr else record a { value = a.value + 1 }
  | _ ↦ if eqb (a.value + 1) (2 ^ 128) then zero_addr else record a { value = a.value + 1 }
]

-- Prefix.IsValid
abbrev pub is_valid : Prefix → Bool
is_valid p = elim p.bits [ none ↦ false | some b ↦ true ]

-- PrefixFrom(a, p.Bits())
abbrev pub prefix_with : Addr → Option ℕ → Prefix
prefix_with a none = record { addr = a; bits = none }
prefix_with a (some b) = prefix_from a b
