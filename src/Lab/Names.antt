-- ===== src/Lab/Names.antt =====
-- controller/internal/biz/lab.go: the names that `fillPodNames` gives.
use dc_net_lab.Prelude.{
  ℕ, suc, ◌+◌, ◌≤◌, if◌then◌else◌, ◌≡◌, ◌≢◌, ◌⊎◌, refl, sym, ap, subst, ◌∙◌, arith, String, List,
  [], ◌∷◌, map, true, false, not, ◌&&◌, ◌||◌, length, Result-cases, ok, err, ok-inj, err-inj,
  Bool-cases, inl, inr, ◌==◌, ==-refl, ==-ne, string_eq, eq_iff, All, All-imp, Distinct,
}
use dc_net_lab.GoFmt.{show}
use dc_net_lab.GoFmt.Scan.{codes-append}
use dc_net_lab.Model.{PodSpec}
use dc_net_lab.Lab.Free.{next_free-unused, next_free-some}
use dc_net_lab.Lab.{
  Error, used_twice, is_used, used_names, head_name, tail_of, reclaim, default_name, fill_rest,
  fill_pod_names,
}

-- Pods that get names which are not used yet, one after the other; the others stay as they are.
data Fills : List String → List PodSpec → List String → List PodSpec → Type 0 where
  done : {used : List String} → Fills used [] used []
  keeps :
      {used used' : List String} {ps qs : List PodSpec} (p : PodSpec)
      → Fills used ps used' qs
      → Fills used (p ∷ ps) used' (p ∷ qs)
  names :
      {used used' : List String} {ps qs : List PodSpec} (p : PodSpec) (x : String)
      → p.name ≡ ""
      → x ≢ ""
      → is_used used x ≡ false
      → Fills (x ∷ used) ps used' qs
      → Fills used (p ∷ ps) used' (record p { name = x } ∷ qs)

-- Names that are given differ, and are in the set.
abbrev Differ : List PodSpec → Type 0
Differ [] = Unit
Differ (p ∷ ps) = All (λ q. p.name ≢ "" → p.name ≢ q.name) ps × Differ ps

abbrev Known : List String → PodSpec → Type 0
Known used p = p.name ≢ "" → is_used used p.name ≡ true

used_more :
    (x y : String) (used : List String) → is_used used y ≡ true → is_used (x ∷ used) y ≡ true
unfolding is_used
used_more x y used h = ground (arith, h)

used_self : (x : String) (used : List String) → is_used (x ∷ used) x ≡ true
unfolding is_used
used_self x used = ap (λ b. b || is_used used x) (==-refl x)

Fills-used :
    {used used' : List String} {ps qs : List PodSpec}
    → Fills used ps used' qs
    → (y : String) → is_used used y ≡ true
    → is_used used' y ≡ true
Fills-used done y h = h
Fills-used (keeps p f) y h = Fills-used f y h
Fills-used (names {used = used} p x e ne free f) y h = Fills-used f y (used_more x y used h)

-- a used name is not given again
Fills-avoids :
    {used used' : List String} {ps qs : List PodSpec}
    → Fills used ps used' qs
    → (y : String) → is_used used y ≡ true
    → All (λ p. y ≢ p.name) ps
    → All (λ q. y ≢ q.name) qs
Fills-avoids done y h a = tt
Fills-avoids (keeps p f) y h a = (a.0, Fills-avoids f y h a.1)
Fills-avoids (names {used = used} p x e ne free f) y h a = (
  λ same. cc (subst (λ z. is_used used z ≡ true) same h, free),
  Fills-avoids f y (used_more x y used h) a.1,
)

unused-ne :
    (used : List String) (x : String) (q : PodSpec)
    → x ≢ ""
    → is_used used x ≡ false
    → Known used q
    → x ≢ q.name
unused-ne used x q ne free known same =
    let named : q.name ≢ "" = λ e. ne (same ∙ e) in
    cc (subst (λ z. is_used used z ≡ true) (sym same) (known named), free)

all_under :
    {A : Type 0} (P : A → Type 0) {C : Type 0} (xs : List A)
    → (C → All P xs)
    → All (λ x. C → P x) xs
all_under P [] h = tt
all_under P (x ∷ xs) h = (λ c. (h c).0, all_under P xs (λ c. (h c).1))

Fills-Differ :
    {used used' : List String} {ps qs : List PodSpec}
    → Fills used ps used' qs
    → All (Known used) ps
    → Differ ps
    → All (Known used') qs × Differ qs
Fills-Differ done k d = (tt, tt)
Fills-Differ (keeps {qs = qs} p f) k d =
    let (k', d') = Fills-Differ f k.1 d.1 in
    let apart : p.name ≢ "" → All (λ q. p.name ≢ q.name) qs =
      λ ne. Fills-avoids f p.name (k.0 ne) (All-imp (λ q h. h ne) _ d.0) in
    ((λ ne. Fills-used f p.name (k.0 ne), k'), (all_under (λ q. p.name ≢ q.name) qs apart, d'))
Fills-Differ (names {used = used} {ps = ps} {qs = qs} p x e ne free f) k d =
    let (k', d') = Fills-Differ f (All-imp (λ q h n. used_more x q.name used (h n)) ps k.1) d.1 in
    let apart : All (λ q. x ≢ q.name) qs =
      Fills-avoids f x (used_self x used) (All-imp (λ q h. unused-ne used x q ne free h) ps k.1) in
    ((λ n. Fills-used f x (used_self x used), k'), (All-imp (λ q h n. h) qs apart, d'))

reclaim-Fills :
    (used : List String) (prev ps : List PodSpec)
    → let r = reclaim used prev ps in Fills used ps r.0 r.1
unfolding reclaim
reclaim-Fills used prev [] = done
reclaim-Fills used prev (p ∷ ps) =
    let name = head_name prev in
    elim (Bool-cases (p.name == "" && (not (name == "") && not (is_used used name)))) [
      | inl e ↦
          let unnamed : (p.name == "") ≡ true = ground (arith, e) in
          let named : (name == "") ≡ false = ground (arith, e) in
          let free : is_used used name ≡ false = ground (arith, e) in
          rw (reclaim, e)
            (names p name ((eq_iff p.name "").0 unnamed) (==-ne name "" named) free
              (reclaim-Fills (name ∷ used) (tail_of prev) ps))
      | inr e ↦ rw (reclaim, e) (keeps p (reclaim-Fills used (tail_of prev) ps))
    ]

default-named : (n : ℕ) → default_name n ≢ ""
default-named n e = cc (codes-append "pod-" (show n))

-- The third loop ends, and leaves no pod without a name.
fill_rest-Fills :
    (used : List String) (next : ℕ) (ps : List PodSpec)
    → (qs : List PodSpec) × (used' : List String) × (fill_rest used next ps ≡ ok qs)
      × Fills used ps used' qs
      × All (λ q. q.name ≢ "") qs
unfolding fill_rest
fill_rest-Fills used next [] = ([], used, refl, done, tt)
fill_rest-Fills used next (p ∷ ps) = elim (Bool-cases (p.name == "")) [
  | inr e ↦
      let (qs, used', ends, fills, named) = fill_rest-Fills used next ps in
      (p ∷ qs, used', rw (fill_rest, e, ends) refl, keeps p fills, (==-ne p.name "" e, named))
  | inl e ↦
      let (n, found) = next_free-some used next in
      let (qs, used', ends, fills, named) = fill_rest-Fills (default_name n ∷ used) n ps in
      let free = next_free-unused (suc (length used)) used next n found in
      (
        record p { name = default_name n } ∷ qs,
        used',
        rw (fill_rest, e, found, ends) refl,
        names p (default_name n) ((eq_iff p.name "").0 e) (default-named n) free fills,
        (default-named n, named),
      )
]

-- what is not in the longer set
before : (x y : String) (used : List String) → is_used (x ∷ used) y ≡ false → is_used used y ≡ false
unfolding is_used
before x y used h = ground (arith, h)

not_head :
    (x y : String) (used : List String) → x ≢ "" → (y ≢ "" → is_used (x ∷ used) y ≡ false) → x ≢ y
not_head x y used named h same =
    cc (subst (λ z. is_used (x ∷ used) z ≡ true) same (used_self x used), h (λ e. named (same ∙ e)))

-- What the first loop has found, where it does not refuse a name.
used_names-Differ :
    (used : List String) (ps : List PodSpec) (used' : List String)
    → used_names used ps ≡ ok used'
    → ((y : String) → is_used used y ≡ true → is_used used' y ≡ true)
      × All (Known used') ps
      × All (λ p. p.name ≢ "" → is_used used p.name ≡ false) ps
      × Differ ps
unfolding used_names
used_names-Differ used [] used' h =
    (λ y k. subst (λ u. is_used u y ≡ true) (ok-inj h) k, tt, tt, tt)
used_names-Differ used (p ∷ ps) used' h = elim (Bool-cases (p.name == "")) [
  | inl e ↦
      let empty = (eq_iff p.name "").0 e in
      let (more, known, fresh, apart) = used_names-Differ used ps used' (rw (used_names, e) at h) in
      (
        more,
        (λ n. absurd (n empty), known),
        (λ n. absurd (n empty), fresh),
        (all_under (λ q. p.name ≢ q.name) ps (λ n. absurd (n empty)), apart),
      )
  | inr e ↦ elim (Bool-cases (is_used used p.name)) [
    | inl f ↦ absurd (cc (rw (used_names, e, f) at h))
    | inr f ↦
        let (more, known, fresh, apart) =
          used_names-Differ (p.name ∷ used) ps used' (rw (used_names, e, f) at h) in
        let named = ==-ne p.name "" e in
        (
          λ y k. more y (used_more p.name y used k),
          (λ n. more p.name (used_self p.name used), known),
          (λ n. f, All-imp (λ q k n. before p.name q.name used (k n)) ps fresh),
          (All-imp (λ q k n. not_head p.name q.name used named k) ps fresh, apart),
        )
  ]
]

-- the same pods, but for names where there was none
abbrev pub Named : List PodSpec → List PodSpec → Type 0
Named [] [] = Unit
Named [] (q ∷ qs) = ⊥
Named (p ∷ ps) [] = ⊥
Named (p ∷ ps) (q ∷ qs) =
    (p.name ≢ "" → q.name ≡ p.name) × (q ≡ record p { name = q.name }) × Named ps qs

Named-trans : (ps qs rs : List PodSpec) → Named ps qs → Named qs rs → Named ps rs
Named-trans [] [] [] h k = tt
Named-trans [] [] (r ∷ rs) h k = k
Named-trans [] (q ∷ qs) rs h k = absurd h
Named-trans (p ∷ ps) [] rs h k = absurd h
Named-trans (p ∷ ps) (q ∷ qs) [] h k = absurd k
Named-trans (p ∷ ps) (q ∷ qs) (r ∷ rs) (a, b, c) (d, e, f) = (
  λ n. d (λ m. n (sym (a n) ∙ m)) ∙ a n,
  e ∙ ap (λ (x : PodSpec). record x { name = r.name }) b,
  Named-trans ps qs rs c f,
)

Fills-Named :
    {used used' : List String} {ps qs : List PodSpec} → Fills used ps used' qs → Named ps qs
Fills-Named done = tt
Fills-Named (keeps p f) = (λ n. refl, refl, Fills-Named f)
Fills-Named (names p x e ne free f) = (λ n. absurd (n e), refl, Fills-Named f)

names_of :
    (x : String) (qs : List PodSpec)
    → All (λ r. x ≢ r.name) qs
    → All (λ y. x ≢ y) (map (λ q. q.name) qs)
names_of x [] h = tt
names_of x (q ∷ qs) h = (h.0, names_of x qs h.1)

Differ-Distinct :
    (qs : List PodSpec) → All (λ q. q.name ≢ "") qs → Differ qs → Distinct (map (λ q. q.name) qs)
Differ-Distinct [] n d = tt
Differ-Distinct (q ∷ qs) n d =
    (names_of q.name qs (All-imp (λ r h. h n.0) qs d.0), Differ-Distinct qs n.1 d.1)

-- how many pods ask for a name
unfoldable pub times_asked : String → List PodSpec → ℕ
times_asked x [] = 0
times_asked x (p ∷ ps) = let rest = times_asked x ps in if p.name == x then rest + 1 else rest

-- A name that is refused is asked for twice, or once where it is in the set before.
used_names-err :
    (used : List String) (ps : List PodSpec) (e : Error)
    → used_names used ps ≡ err e
    → (x : String) × (e ≡ used_twice x)
      × (x ≢ "")
      × ((is_used used x ≡ false) → 2 ≤ times_asked x ps)
      × (1 ≤ times_asked x ps)
unfolding used_names times_asked is_used
used_names-err used [] e h = absurd (cc h)
used_names-err used (p ∷ ps) e h = elim (Bool-cases (p.name == "")) [
  | inl f ↦
      let (x, same, named, twice, once) = used_names-err used ps e (rw (used_names, f) at h) in
      (x, same, named, λ free. ground (arith, twice free), ground (arith, once))
  | inr f ↦ elim (Bool-cases (is_used used p.name)) [
    | inl g ↦ (
      p.name,
      sym (err-inj (rw (used_names, f, g) at h)),
      ==-ne p.name "" f,
      λ free. absurd (cc (g, free)),
      ground (arith, ==-refl p.name),
    )
    | inr g ↦
        let (x, same, named, twice, once) =
          used_names-err (p.name ∷ used) ps e (rw (used_names, f, g) at h) in
        (
          x,
          same,
          named,
          λ free. elim (Bool-cases (p.name == x)) [
            | inl q ↦ ground (arith, q, once)
            | inr q ↦ ground (arith, q, free, twice)
          ],
          ground (arith, once),
        )
  ]
]

-- Filling in the names of pods ends, whatever names are asked for and were there before. It either refuses a name that two pods
-- at least ask for, or every pod has a name, no two pods have the same, a name that was asked for is kept, and nothing
-- else of a pod is changed.
pub fill_pod_names-Distinct :
    (pods prev : List PodSpec)
    → ((x : String) × (fill_pod_names pods prev ≡ err (used_twice x))
        × (x ≢ "")
        × (2 ≤ times_asked x pods))
      ⊎ ((qs : List PodSpec) × (fill_pod_names pods prev ≡ ok qs)
          × All (λ q. q.name ≢ "") qs
          × Distinct (map (λ q. q.name) qs)
          × Named pods qs)
unfolding fill_pod_names is_used
fill_pod_names-Distinct pods prev = elim (Result-cases (used_names [] pods)) [
  | inr (e, h) ↦
      let (x, same, named, twice, once) = used_names-err [] pods e h in
      inl (x, rw (fill_pod_names, h) (ap err same), named, twice refl)
  | inl (used, h) ↦
      let (more, known, fresh, apart) = used_names-Differ [] pods used h in
      let r = reclaim used prev pods in
      let first = reclaim-Fills used prev pods in
      let (known_r, apart_r) = Fills-Differ first known apart in
      let (qs, used', ends, fills, named) = fill_rest-Fills r.0 1 r.1 in
      let (known_q, apart_q) = Fills-Differ fills known_r apart_r in
      inr (
        qs,
        rw (fill_pod_names, h) ends,
        named,
        Differ-Distinct qs named apart_q,
        Named-trans pods r.1 qs (Fills-Named first) (Fills-Named fills),
      )
]
