-- ===== src/Prelude/Compare.antt =====
-- Go's `==` and reflect.DeepEqual on values that are put together of comparable ones.
use mathlib.Core.Path.{◌≡◌, refl, sym, ap, ◌∙◌}
use mathlib.Core.Logic.{◌↔◌}
use mathlib.Core.Bool.{Bool, true, false, ◌&&◌}
use mathlib.Core.List.{List, [], ◌∷◌}
use native.Mathlib.Omega.{arith}
use dc_net_lab.Prelude.Equality.{Comparable}
use dc_net_lab.Prelude.Int.{ℤ, pos, negsuc}
use dc_net_lab.Prelude.Tests.{eqb}

-- a record, told apart by its fields
pub fields_eq {ℓ κ} :
    {A : Type ℓ} {B : Type κ} (f : A → B) (g : B → A)
    → ((a : A) → g (f a) ≡ a)
    → Comparable B
    → Comparable A
fields_eq f g back c = record {
  test = λ a b. c.test (f a) (f b);
  decides = λ a b. (
    λ h. sym (back a) ∙ ap g ((c.decides (f a) (f b)).0 h) ∙ back b,
    λ e. (c.decides (f a) (f b)).1 (ap f e),
  );
}

pub pair_eq {ℓ κ} : {A : Type ℓ} {B : Type κ} → Comparable A → Comparable B → Comparable (A × B)
pair_eq c d = record {
  test = λ p q. c.test p.0 q.0 && d.test p.1 q.1;
  decides = λ p q. (
    λ h.
        let first : c.test p.0 q.0 ≡ true = ground (arith, h) in
        let second : d.test p.1 q.1 ≡ true = ground (arith, h) in
        λ i. ((c.decides p.0 q.0).0 first i, (d.decides p.1 q.1).0 second i),
    λ e.
        ground
          (arith, (c.decides p.0 q.0).1 (ap (λ t. t.0) e), (d.decides p.1 q.1).1 (ap (λ t. t.1) e)),
  );
}

abbrev int_test : ℤ → ℤ → Bool
int_test (pos a) (pos b) = eqb a b
int_test (negsuc a) (negsuc b) = eqb a b
int_test (pos a) (negsuc b) = false
int_test (negsuc a) (pos b) = false

int_test_iff : (a b : ℤ) → (int_test a b ≡ true) ↔ (a ≡ b)
int_test_iff a b = ground arith

pub int_eq : Comparable ℤ
int_eq = record { test = int_test; decides = int_test_iff }

abbrev list_test {ℓ} : {A : Type ℓ} → Comparable A → List A → List A → Bool
list_test c [] [] = true
list_test c [] (y ∷ ys) = false
list_test c (x ∷ xs) [] = false
list_test c (x ∷ xs) (y ∷ ys) = let rest = list_test c xs ys in c.test x y && rest

list_test_iff {ℓ} :
    {A : Type ℓ} (c : Comparable A) (xs ys : List A) → (list_test c xs ys ≡ true) ↔ (xs ≡ ys)
list_test_iff c [] [] = (λ h. refl, λ e. refl)
list_test_iff c [] (y ∷ ys) = (λ h. absurd (cc h), λ e. absurd (cc e))
list_test_iff c (x ∷ xs) [] = (λ h. absurd (cc h), λ e. absurd (cc e))
list_test_iff c (x ∷ xs) (y ∷ ys) = ground (arith, c.decides x y, list_test_iff c xs ys)

pub list_eq {ℓ} : {A : Type ℓ} → Comparable A → Comparable (List A)
list_eq c = record { test = list_test c; decides = list_test_iff c }
