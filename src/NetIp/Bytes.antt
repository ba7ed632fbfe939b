-- ===== src/NetIp/Bytes.antt =====
-- The byte loop of `nextSubnetStart` (controller/internal/allocator/ipam/ipam.go), which adds
-- 2 ^ bit_pos to an address of 16 bytes. The lists here have the source's last byte first.
use dc_net_lab.Prelude.{
  ℕ, zero, suc, ◌+◌, ◌-◌, ◌*◌, ◌/◌, ◌%◌, ◌^◌, ◌≤◌, ◌<◌, ◌≡◌, refl, List, [], ◌∷◌, arith, All, ltb,
  if◌then◌else◌, length, Bool-cases, inl, inr, ltb→lt, ltb→ge, subst,
}
use native.Mathlib.Nat.{pow-le-pow_right}
use native.Mathlib.Numerals.{towards_suc}

-- the inner loop: the bytes above the one that became `sum`
unfoldable pub carry : ℕ → List ℕ → List ℕ
carry sum [] = []
carry sum (b ∷ bs) = if ltb 255 sum then ((b + 1) % 256) ∷ carry (b + 1) bs else b ∷ bs

-- the outer loop: `add` is 0 until `bit_pos` falls below 8
unfoldable pub add_bit : ℕ → List ℕ → List ℕ
add_bit bit_pos [] = []
add_bit bit_pos (b ∷ bs) =
    let add = 2 ^ bit_pos in
    if ltb bit_pos 8 then ((b + add) % 256) ∷ carry (b + add) bs else b ∷ add_bit (bit_pos - 8) bs

abbrev pub to_bytes : ℕ → ℕ → List ℕ
to_bytes zero v = []
to_bytes (suc n) v = (v % 256) ∷ to_bytes n (v / 256)

abbrev pub of_bytes : List ℕ → ℕ
of_bytes [] = 0
of_bytes (b ∷ bs) = b + 256 * of_bytes bs

-- the number of values that so many bytes have
abbrev pub modulus : List ℕ → ℕ
modulus [] = 1
modulus (b ∷ bs) = 256 * modulus bs

abbrev pub IsByte : ℕ → Type 0
IsByte b = b < 256

carry-value :
    (sum : ℕ) (bs : List ℕ)
    → sum < 512
    → All IsByte bs
    → (c : ℕ) × (of_bytes (carry sum bs) + c * modulus bs ≡ of_bytes bs + sum / 256)
unfolding carry
carry-value sum [] h k = (sum / 256, omega arith)
carry-value sum (b ∷ bs) h k =
    let (c, e) = carry-value (b + 1) bs (omega arith) k.1 in
    elim (Bool-cases (ltb 255 sum)) [
      | inl over ↦ (c, rw over (omega (arith, ltb→lt 255 sum over)))
      | inr done ↦ (0, rw done (omega (arith, ltb→ge 255 sum done)))
    ]

pow_shift : (s : ℕ) → 2 ^ (s + 8) ≡ 256 * 2 ^ s
pow_shift s = simp towards_suc (omega arith)

pow_byte : (s : ℕ) → 8 ≤ s → 2 ^ s ≡ 256 * 2 ^ (s - 8)
pow_byte s h =
    let e : s - 8 + 8 ≡ s = omega arith in
    subst (λ k. 2 ^ k ≡ 256 * 2 ^ (s - 8)) e (pow_shift (s - 8))

pow_small : (s : ℕ) → s < 8 → 2 ^ s ≤ 128
pow_small s h = pow-le-pow_right (omega arith) (let e : s ≤ 7 = omega arith in e)

add_bit-value :
    (bit_pos : ℕ) (bs : List ℕ)
    → bit_pos < 8 * length bs
    → All IsByte bs
    → (c : ℕ) × (of_bytes (add_bit bit_pos bs) + c * modulus bs ≡ of_bytes bs + 2 ^ bit_pos)
unfolding add_bit
add_bit-value bit_pos [] h k = absurd (omega arith)
add_bit-value bit_pos (b ∷ bs) h k = elim (Bool-cases (ltb bit_pos 8)) [
  | inl low ↦
      let small : 2 ^ bit_pos ≤ 128 = pow_small bit_pos (ltb→lt bit_pos 8 low) in
      let (c, e) = carry-value (b + 2 ^ bit_pos) bs (omega arith) k.1 in (c, rw low (omega arith))
  | inr high ↦
      let le : 8 ≤ bit_pos = ltb→ge bit_pos 8 high in
      let (c, e) = add_bit-value (bit_pos - 8) bs (omega arith) k.1 in
      (c, rw high (omega (arith, pow_byte bit_pos le)))
]

modulus-carry : (sum : ℕ) (bs : List ℕ) → modulus (carry sum bs) ≡ modulus bs
unfolding carry
modulus-carry sum [] = refl
modulus-carry sum (b ∷ bs) = ground (arith, modulus-carry (b + 1) bs)

modulus-add_bit : (bit_pos : ℕ) (bs : List ℕ) → modulus (add_bit bit_pos bs) ≡ modulus bs
unfolding add_bit
modulus-add_bit bit_pos [] = refl
modulus-add_bit bit_pos (b ∷ bs) =
    ground (arith, modulus-carry (b + 2 ^ bit_pos) bs, modulus-add_bit (bit_pos - 8) bs)

carry-IsByte : (sum : ℕ) (bs : List ℕ) → All IsByte bs → All IsByte (carry sum bs)
unfolding carry
carry-IsByte sum [] k = tt
carry-IsByte sum (b ∷ bs) k = ground (arith, carry-IsByte (b + 1) bs k.1)

add_bit-IsByte : (bit_pos : ℕ) (bs : List ℕ) → All IsByte bs → All IsByte (add_bit bit_pos bs)
unfolding add_bit
add_bit-IsByte bit_pos [] k = tt
add_bit-IsByte bit_pos (b ∷ bs) k =
    ground (arith, carry-IsByte (b + 2 ^ bit_pos) bs k.1, add_bit-IsByte (bit_pos - 8) bs k.1)

of_bytes-lt : (bs : List ℕ) → All IsByte bs → of_bytes bs < modulus bs
of_bytes-lt [] k = omega arith
of_bytes-lt (b ∷ bs) k = omega (arith, of_bytes-lt bs k.1)

to_bytes-IsByte : (n v : ℕ) → All IsByte (to_bytes n v)
to_bytes-IsByte zero v = tt
to_bytes-IsByte (suc n) v = (omega arith, to_bytes-IsByte n (v / 256))

of_bytes-to_bytes : (n v : ℕ) → v < modulus (to_bytes n v) → of_bytes (to_bytes n v) ≡ v
of_bytes-to_bytes zero v h = omega arith
of_bytes-to_bytes (suc n) v h = omega (arith, of_bytes-to_bytes n (v / 256) (omega arith))

-- the loop on the 16 bytes of an address
unfoldable pub add_pow : ℕ → ℕ → ℕ
unfolding add_bit carry
add_pow bit_pos v = of_bytes (add_bit bit_pos (to_bytes 16 v))

-- On 16 bytes the loop with its carries adds 2 ^ bit_pos modulo 2 ^ 128.
pub add_pow-eq-mod :
    (bit_pos v : ℕ) → bit_pos < 128 → v < 2 ^ 128 → add_pow bit_pos v ≡ (v + 2 ^ bit_pos) % 2 ^ 128
unfolding add_pow
add_pow-eq-mod bit_pos v h w =
    let bs = to_bytes 16 v in
    let r = add_bit bit_pos bs in
    let (c, e) = add_bit-value bit_pos bs h (to_bytes-IsByte 16 v) in
    let below : of_bytes r < 2 ^ 128 = omega (
      arith,
      of_bytes-lt r (add_bit-IsByte bit_pos bs (to_bytes-IsByte 16 v)),
      modulus-add_bit bit_pos bs,
    ) in
    let e' : of_bytes r + c * 2 ^ 128 ≡ v + 2 ^ bit_pos =
      omega (arith, e, of_bytes-to_bytes 16 v w) in
    omega arith
