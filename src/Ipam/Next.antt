-- ===== src/Ipam/Next.antt =====
-- `nextSubnetStart` on IPv4 subnets against plain arithmetic.
use dc_net_lab.Prelude.{ℕ, ◌+◌, ◌-◌, ◌^◌, ◌≤◌, ◌<◌, ◌≡◌, some, arith, ltb, if◌then◌else◌}
use native.Mathlib.Nat.{pow-le-pow_right, div-mul-le_self}
use dc_net_lab.NetIp.{Addr, Prefix, ip4, ip6, floor_to}
use dc_net_lab.NetIp.Bytes.{add_pow-eq-mod}
use dc_net_lab.Ipam.{next_subnet_start}

abbrev pub subnet4 : ℕ → ℕ → Prefix
subnet4 v b = record { addr = record { family = ip4; value = v }; bits = some b }

abbrev pub after4 : ℕ → Addr
after4 n =
    if ltb n (2 ^ 32)
    then record { family = ip4; value = n }
    else record { family = ip6; value = 0xffff00000000 + n }

-- For an IPv4 subnet of length b the byte loop finds the first address of the subnet plus
-- 2 ^ (32 - b); past the last IPv4 address the result is no IPv4 address any more.
pub next_subnet_start-eq-add :
    (v b : ℕ)
    → v < 2 ^ 32
    → b ≤ 32
    → next_subnet_start (subnet4 v b) ≡ after4 (floor_to (32 - b) v + 2 ^ (32 - b))
unfolding next_subnet_start
next_subnet_start-eq-add v b h k =
    let size : 2 ^ (32 - b) ≤ 2 ^ 32 =
      pow-le-pow_right (omega arith) (let e : 32 - b ≤ 32 = omega arith in e) in
    let low : floor_to (32 - b) v ≤ v = div-mul-le_self v (2 ^ (32 - b)) in
    ground (
      arith,
      add_pow-eq-mod (32 - b) (0xffff00000000 + floor_to (32 - b) v) (omega arith) (omega arith),
    )
