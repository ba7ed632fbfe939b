-- ===== src/Lab/Free.antt =====
-- controller/internal/biz/lab.go: the search for a default name that is free.
use dc_net_lab.Prelude.{
  ℕ, zero, suc, ◌+◌, ◌≤◌, ◌<◌, ◌≡◌, ◌≢◌, refl, sym, ap, subst, ◌∙◌, arith, String, List, [], ◌∷◌,
  true, false, none, some, length, if◌then◌else◌, Bool-cases, Option-cases, inl, inr, ◌==◌,
  string_eq, eq_iff,
}
use dc_net_lab.GoFmt.Scan.{show_inj}
use dc_net_lab.Lab.{is_used, default_name, next_free}

-- A set with one name less.
erase : String → List String → List String
erase x [] = []
erase x (y ∷ ys) = let rest = erase x ys in if y == x then ys else y ∷ rest

erase-length :
    (x : String) (ys : List String) → is_used ys x ≡ true → length ys ≡ suc (length (erase x ys))
unfolding is_used erase
erase-length x [] h = absurd (cc h)
erase-length x (y ∷ ys) h = elim (Bool-cases (y == x)) [
  | inl e ↦ rw (erase, e) refl
  | inr e ↦ rw (erase, e) (ap suc (erase-length x ys (rw e at h)))
]

erase-used :
    (x z : String) (ys : List String) → x ≢ z → is_used ys z ≡ true → is_used (erase x ys) z ≡ true
unfolding is_used erase
erase-used x z [] ne h = h
erase-used x z (y ∷ ys) ne h = elim (Bool-cases (y == x)) [
  | inl e ↦
      let other : (y == z) ≡ false = elim (Bool-cases (y == z)) as (λ _. (y == z) ≡ false) [
        | inl f ↦ absurd (ne (sym ((eq_iff y x).0 e) ∙ (eq_iff y z).0 f))
        | inr f ↦ f
      ] in
      rw (erase, e) (ground (arith, h, other))
  | inr e ↦ rw (erase, e) (ground (arith, h, erase-used x z ys ne))
]

-- k default names in a row are all used
abbrev AllUsed : List String → ℕ → ℕ → Type 0
AllUsed used n zero = Unit
AllUsed used n (suc k) = (is_used used (default_name n) ≡ true) × AllUsed used (n + 1) k

erase-AllUsed :
    (used : List String) (m n k : ℕ)
    → m < n
    → AllUsed used n k
    → AllUsed (erase (default_name m) used) n k
erase-AllUsed used m n zero h k = tt
erase-AllUsed used m n (suc k) h (u, us) =
    let ne : default_name m ≢ default_name n =
      λ e. let same = show_inj "pod-" m n e in omega (arith, same, h) in
    (
      erase-used (default_name m) (default_name n) used ne u,
      erase-AllUsed used m (n + 1) k (omega arith) us,
    )

-- so many different names are there
AllUsed-length : (used : List String) (n k : ℕ) → AllUsed used n k → k ≤ length used
AllUsed-length used n zero h = omega arith
AllUsed-length used n (suc k) (u, us) =
    let rest =
      AllUsed-length (erase (default_name n) used) (n + 1) k
        (erase-AllUsed used n (n + 1) k (omega arith) us) in
    omega (arith, rest, erase-length (default_name n) used u)

next_free-none :
    (fuel : ℕ) (used : List String) (n : ℕ) → next_free fuel used n ≡ none → AllUsed used n fuel
unfolding next_free
next_free-none zero used n h = tt
next_free-none (suc fuel) used n h = elim (Bool-cases (is_used used (default_name n))) [
  | inl e ↦ (e, next_free-none fuel used (n + 1) (rw (next_free, e) at h))
  | inr e ↦ absurd (cc (rw (next_free, e) at h))
]

pub next_free-unused :
    (fuel : ℕ) (used : List String) (n m : ℕ)
    → next_free fuel used n ≡ some m
    → is_used used (default_name m) ≡ false
unfolding next_free
next_free-unused zero used n m h = absurd (cc h)
next_free-unused (suc fuel) used n m h = elim (Bool-cases (is_used used (default_name n))) [
  | inl e ↦ next_free-unused fuel used (n + 1) m (rw (next_free, e) at h)
  | inr e ↦
      let same : n ≡ m = ap (λ o. elim o [ none ↦ n | some k ↦ k ]) (rw (next_free, e) at h) in
      subst (λ k. is_used used (default_name k) ≡ false) same e
]

-- The search ends: the names of the set cannot all be in the way.
pub next_free-some :
    (used : List String) (n : ℕ) → (m : ℕ) × (next_free (suc (length used)) used n ≡ some m)
next_free-some used n = elim (Option-cases (next_free (suc (length used)) used n)) [
  | inr (m, e) ↦ (m, e)
  | inl e ↦
      let too_many =
        AllUsed-length used n (suc (length used)) (next_free-none (suc (length used)) used n e) in
      absurd (omega (arith, too_many))
]
