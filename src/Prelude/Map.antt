-- ===== src/Prelude/Map.antt =====
-- Go's `map[K]V`. The entries are private: clients have the laws. Where the program ranges over a
-- map it sorts what it reads, so the order of the entries stands for an order that Go leaves open.
use mathlib.Core.Path.{◌≡◌, refl}
use mathlib.Core.Logic.{◌≢◌, ◌⊎◌, inl, inr}
use mathlib.Core.Option
use mathlib.Core.Option.{Option, none, some}
use mathlib.Core.List.{List, [], ◌∷◌, map}
use native.Mathlib.Omega.{arith}
use Prim.Native.Nat.{ℕ}
use dc_net_lab.Prelude.Lists.{length}
use dc_net_lab.Prelude.Tests.{if◌then◌else◌, Bool-cases}
use dc_net_lab.Prelude.Equality.{Comparable, ◌==◌}

module _ {ℓ κ} {K : Type ℓ} {V : Type κ} ⦃e : Comparable K⦄ where
  unfoldable pub find : K → List (K × V) → Option V
  find k [] = none
  find k ((j, v) ∷ m) = if j == k then some v else find k m

  unfoldable pub without : K → List (K × V) → List (K × V)
  without k [] = []
  without k ((j, v) ∷ m) = let rest = without k m in if j == k then rest else (j, v) ∷ rest

  find-without :
      (k j : K) (m : List (K × V)) → find j (without k m) ≡ (if k == j then none else find j m)
  unfolding find without
  find-without k j [] = ground arith
  find-without k j ((i, v) ∷ m) =
      ground (arith, find-without k j m, e.decides i k, e.decides i j, e.decides k j)

pub record Map {ℓ κ} (K : Type ℓ) (V : Type κ) : Type (ℓ ⊔ κ) where
  entries : List (K × V)

module _ {ℓ κ} {K : Type ℓ} {V : Type κ} where
  -- make(map[K]V)
  unfoldable pub empty : Map K V
  empty = record { entries = [] }

  -- what `range` goes over
  pub items : Map K V → List (K × V)
  items m = m.entries

  -- len(m)
  pub len : Map K V → ℕ
  len m = length m.entries

module _ {ℓ κ} {K : Type ℓ} {V : Type κ} ⦃e : Comparable K⦄ where
  -- v, ok := m[k]
  unfoldable pub get : Map K V → K → Option V
  unfolding find
  get m k = find k m.entries

  -- m[k] = v
  unfoldable pub put : Map K V → K → V → Map K V
  unfolding without
  put m k v = record { entries = (k, v) ∷ without k m.entries }

  -- delete(m, k)
  unfoldable pub delete : Map K V → K → Map K V
  unfolding without
  delete m k = record { entries = without k m.entries }

  -- for k, v := range m { m[k] = f(v) }
  unfoldable pub map_values : (V → V) → Map K V → Map K V
  map_values f m = record { entries = map (λ kv. (kv.0, f kv.1)) m.entries }

  find-map :
      (f : V → V) (k : K) (m : List (K × V))
      → find k (map (λ kv. (kv.0, f kv.1)) m) ≡ Option.map f (find k m)
  unfolding find
  find-map f k [] = refl
  find-map f k ((j, v) ∷ m) = elim (Bool-cases (j == k)) [
    | inl e ↦ rw (find, e) refl
    | inr e ↦ rw (find, e) (find-map f k m)
  ]

  pub get-map_values :
      (f : V → V) (m : Map K V) (k : K) → get (map_values f m) k ≡ Option.map f (get m k)
  unfolding get map_values
  get-map_values f m k = find-map f k m.entries

  pub get-empty : (k : K) → get (empty {K = K} {V = V}) k ≡ none
  unfolding get empty
  get-empty k = refl

  pub get-put :
      (m : Map K V) (k j : K) (v : V) → get (put m k v) j ≡ (if k == j then some v else get m j)
  unfolding get put find
  get-put m k j v = ground (arith, find-without k j m.entries)

  pub get-delete : (m : Map K V) (k j : K) → get (delete m k) j ≡ (if k == j then none else get m j)
  unfolding get delete
  get-delete m k j = find-without k j m.entries

pub ruleset map_laws = (get-empty, get-put, get-delete)

-- The laws again for keys whose test does not compute.
module _ {ℓ κ} {K : Type ℓ} {V : Type κ} ⦃e : Comparable K⦄ (m : Map K V) (k j : K) where
  pub get-put_self : (v : V) → get (put m k v) k ≡ some v
  get-put_self v = ground (arith, get-put m k k v, e.decides k k)

  pub get-put_ne : (v : V) → k ≢ j → get (put m k v) j ≡ get m j
  get-put_ne v h = ground (arith, get-put m k j v, e.decides k j)

  pub get-put_cases : (v w : V) → get (put m k v) j ≡ some w → (k ≡ j) ⊎ (get m j ≡ some w)
  get-put_cases v w h = ground (arith, get-put m k j v, e.decides k j)

  pub get-delete_self : get (delete m k) k ≡ none
  get-delete_self = ground (arith, get-delete m k k, e.decides k k)

  pub get-delete-some : (w : V) → get (delete m k) j ≡ some w → get m j ≡ some w
  get-delete-some w h = ground (arith, get-delete m k j)

  pub get-delete-none : get m j ≡ none → get (delete m k) j ≡ none
  get-delete-none h = ground (arith, get-delete m k j)
