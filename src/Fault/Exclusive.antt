-- ===== src/Fault/Exclusive.antt =====
-- controller/internal/biz/fault.go: at most one scenario is applied to a target at a time.
use dc_net_lab.Prelude.{
  String, [], ◌∷◌, ◌++◌, Bool, true, false, ◌&&◌, ◌||◌, if◌then◌else◌, ok, err, ◌==◌, string_eq,
  ◌≡◌, ◌≢◌, ap, sym, ◌∙◌, subst, arith, ◌⊎◌, inl, inr, Bool-cases, eq_iff,
}
use dc_net_lab.Fault.{
  Error, already_applied, Scenario, Store, clash, check_target_free, update_scenario,
  delete_scenario, prune,
}

abbrev pub Member : Scenario → Store → Type 0
Member s [] = ⊥
Member s (o ∷ os) = (s ≡ o) ⊎ Member s os

-- No two scenarios of a lab that have another id are applied to the same node or link.
abbrev pub Exclusive : Store → Type 0
Exclusive store =
    (a b : Scenario) → Member a store → Member b store → a.applied ≡ true → clash a b ≡ false

same_sym : (s t : String) → (s == t) ≡ (t == s)
same_sym s t = ground (arith, eq_iff s t, eq_iff t s)

same_nonempty : (s t : String) → (t == s) ≡ true → (s == "") ≡ (t == "")
same_nonempty s t h = ap (λ u. u == "") (sym ((eq_iff t s).0 h))

clash_sym : (a b : Scenario) → a.applied ≡ true → clash a b ≡ true → clash b a ≡ true
clash_sym a b h c = ground (
  arith,
  h,
  c,
  same_sym a.id b.id,
  same_sym a.spec.lab_id b.spec.lab_id,
  same_sym a.spec.target.node_id b.spec.target.node_id,
  same_sym a.spec.target.link_id b.spec.target.link_id,
  same_nonempty a.spec.target.node_id b.spec.target.node_id,
  same_nonempty a.spec.target.link_id b.spec.target.link_id,
)

clash-false : (a s : Scenario) → a.applied ≡ true → clash s a ≡ false → clash a s ≡ false
clash-false a s h n = elim (Bool-cases (clash a s)) [
  | inr e ↦ e
  | inl e ↦ absurd (cc (clash_sym a s h e, n))
]

pub clash-unapplied : (a b : Scenario) → b.applied ≡ false → clash a b ≡ false
clash-unapplied a b h = ground (arith, h)

clash_self : (a b : Scenario) → b.id ≡ a.id → clash a b ≡ false
clash_self a b e = let same : (b.id == a.id) ≡ true = (eq_iff b.id a.id).1 e in ground (arith, same)

pub refused : {A : Type 0} (e : Error) (a : A) → err e ≢ ok a
refused e a h = cc h

check_target_free_cons :
    (o s : Scenario) (os : Store)
    → check_target_free (o ∷ os) s ≡ ok tt
    → (clash s o ≡ false) × (check_target_free os s ≡ ok tt)
unfolding check_target_free
check_target_free_cons o s os h = elim (Bool-cases (clash s o)) [
  | inl c ↦ absurd (refused (already_applied o.name) tt (subst P c h))
  | inr c ↦ (c, subst P c h)
]
  where
    P : Bool → Type 0
    P q = (if q then err (already_applied o.name) else check_target_free os s) ≡ ok tt

pub check_target_free-clash :
    (store : Store) (s b : Scenario)
    → check_target_free store s ≡ ok tt
    → Member b store
    → clash s b ≡ false
unfolding check_target_free
check_target_free-clash [] s b h m = absurd m
check_target_free-clash (o ∷ os) s b h (inl e) =
    subst (λ q. clash s q ≡ false) (sym e) (check_target_free_cons o s os h).0
check_target_free-clash (o ∷ os) s b h (inr m) =
    check_target_free-clash os s b (check_target_free_cons o s os h).1 m

Member-update :
    (a s : Scenario) (store : Store) → Member a (update_scenario store s) → (a ≡ s) ⊎ Member a store
unfolding update_scenario
Member-update a s [] m = absurd m
Member-update a s (o ∷ os) (inr m) = elim (Member-update a s os m) [
  | inl e ↦ inl e
  | inr k ↦ inr (inr k)
]
Member-update a s (o ∷ os) (inl m) = elim (Bool-cases (o.id == s.id)) [
  | inl e ↦ inl (subst (λ q. a ≡ (if q then s else o)) e m)
  | inr e ↦ inr (inl (subst (λ q. a ≡ (if q then s else o)) e m))
]

Member-delete :
    (a : Scenario) (store : Store) (id : String)
    → Member a (delete_scenario store id)
    → Member a store
unfolding delete_scenario
Member-delete a [] id m = m
Member-delete a (o ∷ os) id m =
    let P : Bool → Type 0 =
      λ q. Member a (if q then delete_scenario os id else o ∷ delete_scenario os id) in
    elim (Bool-cases (o.id == id)) [
      | inl e ↦ inr (Member-delete a os id (subst P e m))
      | inr e ↦
          let m' : (a ≡ o) ⊎ Member a (delete_scenario os id) = subst P e m in
          elim m' [ inl q ↦ inl q | inr r ↦ inr (Member-delete a os id r) ]
    ]

pub update-Exclusive :
    (store : Store) (s : Scenario)
    → Exclusive store
    → (s.applied ≡ true → (b : Scenario) → Member b store → clash s b ≡ false)
    → Exclusive (update_scenario store s)
update-Exclusive store s x free a b ma mb h = elim (Member-update a s store ma) [
  | inl ea ↦ elim (Member-update b s store mb) [
    | inl eb ↦ clash_self a b (ap (λ q. q.id) (eb ∙ sym ea))
    | inr b' ↦
        subst (λ q. clash q b ≡ false) (sym ea) (free (ap (λ q. q.applied) (sym ea) ∙ h) b b')
  ]
  | inr a' ↦ elim (Member-update b s store mb) [
    | inr b' ↦ x a b a' b' h
    | inl eb ↦
        subst (λ q. clash a q ≡ false) (sym eb)
          (elim (Bool-cases s.applied) [
            | inr n ↦ clash-unapplied a s n
            | inl y ↦ clash-false a s h (free y a a')
          ])
  ]
]

pub delete-Exclusive :
    (store : Store) (id : String) → Exclusive store → Exclusive (delete_scenario store id)
delete-Exclusive store id x a b ma mb h =
    x a b (Member-delete a store id ma) (Member-delete b store id mb) h

Member-prune :
    (a : Scenario) (store : Store) (ns ls : String → Bool)
    → Member a (prune store ns ls)
    → Member a store
unfolding prune
Member-prune a [] ns ls m = m
Member-prune a (s ∷ ss) ns ls m =
    let gone =
      (s.spec.target.kind == "node" && ns s.spec.target.node_name)
      || (s.spec.target.kind == "link" && ls s.spec.target.link_name) in
    let P : Bool → Type 0 = λ q. Member a (if q then prune ss ns ls else s ∷ prune ss ns ls) in
    elim (Bool-cases gone) [
      | inl e ↦ inr (Member-prune a ss ns ls (subst P e m))
      | inr e ↦
          let m' : (a ≡ s) ⊎ Member a (prune ss ns ls) = subst P e m in
          elim m' [ inl q ↦ inl q | inr r ↦ inr (Member-prune a ss ns ls r) ]
    ]

pub prune-Exclusive :
    (store : Store) (ns ls : String → Bool) → Exclusive store → Exclusive (prune store ns ls)
prune-Exclusive store ns ls x a b ma mb h =
    x a b (Member-prune a store ns ls ma) (Member-prune b store ns ls mb) h

Member-append :
    (a s : Scenario) (store : Store) → Member a (store ++ (s ∷ [])) → (a ≡ s) ⊎ Member a store
Member-append a s [] (inl e) = inl e
Member-append a s [] (inr m) = inr m
Member-append a s (o ∷ os) (inl e) = inr (inl e)
Member-append a s (o ∷ os) (inr m) = elim (Member-append a s os m) [
  | inl e ↦ inl e
  | inr k ↦ inr (inr k)
]

pub append-Exclusive :
    (store : Store) (s : Scenario)
    → s.applied ≡ false
    → Exclusive store
    → Exclusive (store ++ (s ∷ []))
append-Exclusive store s n x a b ma mb h = elim (Member-append a s store ma) [
  | inl ea ↦ absurd (cc (ap (λ q. q.applied) ea, n, h))
  | inr a' ↦ elim (Member-append b s store mb) [
    | inl eb ↦ clash-unapplied a b (ap (λ q. q.applied) eb ∙ n)
    | inr b' ↦ x a b a' b' h
  ]
]
