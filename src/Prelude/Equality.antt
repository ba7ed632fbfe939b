-- ===== src/Prelude/Equality.antt =====
-- Go's `==` on the types that the program compares, as an instance.
use Prim.Native.Nat.{ℕ}
use Prim.Native.String.{String}
use text.Mathlib.Text.{◌==◌ as same_text}
use text.Mathlib.TextEquality.{eq_iff}
use mathlib.Core.Path.{◌≡◌, refl}
use mathlib.Core.Logic.{◌↔◌, ◌≢◌}
use mathlib.Core.Bool.{Bool, true, false}
use dc_net_lab.Prelude.Tests.{eqb, eqb_iff}

-- A Go type that is comparable: the test is true at equal values only.
pub record Comparable {ℓ} (K : Type ℓ) : Type ℓ where
  pub test : K → K → Bool
  pub decides : (j k : K) → (test j k ≡ true) ↔ (j ≡ k)

instance abbrev pub string_eq : Comparable String
string_eq = record { test = same_text; decides = eq_iff }

instance abbrev pub nat_eq : Comparable ℕ
nat_eq = record { test = eqb; decides = eqb_iff }

module _ {ℓ} {K : Type ℓ} ⦃c : Comparable K⦄ where
  infix 50 ◌==◌
  abbrev pub ◌==◌ : K → K → Bool
  j == k = c.test j k

  pub ==-refl : (k : K) → (k == k) ≡ true
  ==-refl k = (c.decides k k).1 refl

  pub ==-ne : (j k : K) → (j == k) ≡ false → j ≢ k
  ==-ne j k h e = cc (h, (c.decides j k).1 e)
