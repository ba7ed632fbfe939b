-- ===== src/Fault/Calls.antt =====
-- controller/internal/biz/fault.go: the calls of the usecase one after the other. The usecase holds no lock, and
-- Fault/Overlap has two calls of `ApplyFaultScenario` that overlap.
use dc_net_lab.Prelude.{
  String, [], ◌∷◌, ◌++◌, Bool, true, false, some, if◌then◌else◌, Result, ok, err, ◌==◌, string_eq,
  ◌≡◌, ◌⊎◌, refl, ap, sym, ◌∙◌, subst, arith, inl, inr, Bool-cases, Option-cases, Result-cases, eqb,
}
use dc_net_lab.Fault.{
  Error, checked_spec, new_scenario, Scenario, Store, Driver, Repo, Lab, check_target_free,
  find_scenario, get_scenario, create, prune, FaultSpec,
}
use dc_net_lab.Fault.Endpoints.{
  Begun, answered, proceeds, begin_apply, apply, apply_to, recover, recover_from, delete,
}
use dc_net_lab.Fault.Exclusive.{
  Member, Exclusive, check_target_free-clash, refused, update-Exclusive, delete-Exclusive,
  prune-Exclusive, append-Exclusive,
}

apply_to-Exclusive :
    {W : Type 0} (driver : Driver W) (repo : Repo) (w : W) (store : Store) (lab : Lab)
    (s : Scenario)
    → check_target_free store s ≡ ok tt
    → Exclusive store
    → Exclusive (apply_to driver repo w store lab s).1
unfolding apply_to
apply_to-Exclusive driver repo w store lab s free x =
    update-Exclusive store _ x (λ _ b m. check_target_free-clash store s b free m)

proceeds-inj : (s t : Scenario) (l m : Lab) → proceeds l s ≡ proceeds m t → s ≡ t
proceeds-inj s t l m h = cc h

-- The checks go on to the injection only for a scenario of the store that is not applied, on a free target.
pub begin_apply-proceeds :
    (repo : Repo) (store : Store) (lab_id id : String) (lab : Lab) (s : Scenario)
    → begin_apply repo store lab_id id ≡ proceeds lab s
    → (get_scenario store lab_id id ≡ ok s)
      × (s.applied ≡ false)
      × (check_target_free store s ≡ ok tt)
unfolding begin_apply
begin_apply-proceeds repo store lab_id id lab s h =
    elim (Result-cases (get_scenario store lab_id id)) [
      | inr (e, g) ↦ absurd (cc (rw (begin_apply, g) at h))
      | inl (t, g) ↦ elim (Bool-cases t.applied) [
        | inl a ↦ absurd (cc (rw (begin_apply, g, a) at h))
        | inr a ↦ elim (Result-cases (check_target_free store t)) [
          | inr (e, f) ↦ absurd (cc (rw (begin_apply, g, f, a) at h))
          | inl (_, f) ↦ elim (Option-cases (repo.get_lab lab_id)) [
            | inl n ↦ absurd (cc (rw (begin_apply, g, f, n, a) at h))
            | inr (l, n) ↦ elim (Bool-cases (eqb l.generation 0)) [
              | inl z ↦ absurd (cc (rw (begin_apply, g, f, n, z, a) at h))
              | inr z ↦
                  let same : t ≡ s = proceeds-inj t s l lab (
                    subst (λ q. (if q then answered (ok t) else proceeds l t) ≡ proceeds lab s) a
                      (rw (begin_apply, g, f, n, z) at h)) in
                  (
                    g ∙ ap ok same,
                    ap (λ (q : Scenario). q.applied) (sym same) ∙ a,
                    ap (check_target_free store) (sym same) ∙ f,
                  )
            ]
          ]
        ]
      ]
    ]

Begun-cases :
    (b : Begun)
    → ((r : Result Error Scenario) × (b ≡ answered r))
      ⊎ ((lab : Lab) × (s : Scenario) × (b ≡ proceeds lab s))
Begun-cases (answered r) = inl (r, refl)
Begun-cases (proceeds lab s) = inr (lab, s, refl)

apply-Exclusive :
    {W : Type 0} (driver : Driver W) (repo : Repo) (w : W) (store : Store) (lab_id id : String)
    → Exclusive store
    → Exclusive (apply driver repo w store lab_id id).1
unfolding apply
apply-Exclusive driver repo w store lab_id id x =
    elim (Begun-cases (begin_apply repo store lab_id id)) [
      | inl (r, b) ↦ rw (apply, b) x
      | inr (lab, s, b) ↦
          let (g, a, free) = begin_apply-proceeds repo store lab_id id lab s b in
          rw (apply, b) (apply_to-Exclusive driver repo w store lab s free x)
    ]

find_scenario-Member :
    (store : Store) (id : String) (s : Scenario) → find_scenario store id ≡ some s → Member s store
unfolding find_scenario
find_scenario-Member [] id s h = ground (arith, h)
find_scenario-Member (o ∷ os) id s h = elim (Bool-cases (o.id == id)) [
  | inl e ↦ inl (
      subst (λ q. (if q then some o else find_scenario os id) ≡ some s → s ≡ o) (sym e)
        (λ k. ground (arith, k)) h)
  | inr e ↦ inr (
      find_scenario-Member os id s
        (subst (λ q. (if q then some o else find_scenario os id) ≡ some s) e h))
]

pub get_scenario-Member :
    (store : Store) (lab_id id : String) (s : Scenario)
    → get_scenario store lab_id id ≡ ok s
    → Member s store
unfolding get_scenario
get_scenario-Member store lab_id id s h = elim (Option-cases (find_scenario store id)) [
  | inl e ↦ absurd (ground (arith, h, e))
  | inr (t, e) ↦ find_scenario-Member store id s (ground (arith, h, e))
]

recover_from-Exclusive :
    {W : Type 0} (driver : Driver W) (repo : Repo) (w : W) (store : Store) (lab : Lab)
    (s : Scenario)
    → s.applied ≡ true
    → Member s store
    → Exclusive store
    → Exclusive (recover_from driver repo w store lab s).1
unfolding recover_from
recover_from-Exclusive driver repo w store lab s a m x =
    update-Exclusive store _ x (λ _ b mb. x s b m mb a)

recover-Exclusive :
    {W : Type 0} (driver : Driver W) (repo : Repo) (w : W) (store : Store) (lab_id id : String)
    → Exclusive store
    → Exclusive (recover driver repo w store lab_id id).1
unfolding recover
recover-Exclusive driver repo w store lab_id id x =
    elim (Result-cases (get_scenario store lab_id id)) [
      | inr (e, g) ↦ rw (recover, g) x
      | inl (s, g) ↦
          rw (recover, g)
            (elim (Bool-cases s.applied) [
              | inr a ↦ rw a x
              | inl a ↦ rw a (elim (Option-cases (repo.get_lab lab_id)) [
                | inl n ↦ rw n x
                | inr (lab, l) ↦ rw l (
                    recover_from-Exclusive driver repo w store lab s a
                      (get_scenario-Member store lab_id id s g) x)
              ])
            ])
    ]

delete_operation-Exclusive :
    {W : Type 0} (driver : Driver W) (repo : Repo) (w : W) (store : Store) (lab_id id : String)
    → Exclusive store
    → Exclusive (delete driver repo w store lab_id id).1
unfolding delete
delete_operation-Exclusive driver repo w store lab_id id x =
    let after = recover driver repo w store lab_id id in
    let y = recover-Exclusive driver repo w store lab_id id x in
    elim (Result-cases (get_scenario store lab_id id)) [
      | inr (e, g) ↦ rw (delete, g) x
      | inl (s, g) ↦
          rw (delete, g)
            (elim (Bool-cases s.applied) [
              | inr a ↦ rw a (delete-Exclusive store id x)
              | inl a ↦ rw a (elim (Result-cases after.2) [
                | inr (e, r) ↦ rw r y
                | inl (t, r) ↦ rw r (delete-Exclusive after.1 id y)
              ])
            ])
    ]

ok_inj : {A : Type 0} (a b : A) → Path (Result Error A) (ok a) (ok b) → a ≡ b
ok_inj a b h = cc h

create-append :
    (repo : Repo) (store : Store) (new_id lab_id name : String) (spec : FaultSpec) (s : Scenario)
    (store' : Store)
    → create repo store new_id lab_id name spec ≡ ok (s, store')
    → (store' ≡ store ++ (s ∷ [])) × (s.applied ≡ false)
unfolding create
create-append repo store new_id lab_id name spec s store' h =
    let P : Result Error FaultSpec → Type 0 = λ r.
      (elim r as (λ _. Result Error (Scenario × Store)) [
        | err e ↦ err e
        | ok resolved ↦
            ok
              (new_scenario new_id name resolved, store ++ (new_scenario new_id name resolved ∷ []))
      ])
      ≡ ok (s, store') in
    elim (Result-cases (checked_spec repo lab_id name spec)) [
      | inr (e, c) ↦ absurd (refused e (s, store') (subst P c h))
      | inl (r, c) ↦
          let q = ok_inj _ (s, store') (subst P c h) in
          (sym (ap (λ q. q.1) q) ∙ ap (λ q. store ++ (q.0 ∷ [])) q, sym (ap (λ q. q.0.applied) q))
    ]

-- One whole call of the usecase, with nothing else in between, and with what the repository says at that time.
pub data Change {W : Type 0} (driver : Driver W) : Store → Store → Type 0 where
  creates :
      {store store' : Store} (repo : Repo) (new_id lab_id name : String) (spec : FaultSpec)
      (s : Scenario)
      → create repo store new_id lab_id name spec ≡ ok (s, store')
      → Change driver store store'
  applies :
      {store : Store} (repo : Repo) (w : W) (lab_id id : String)
      → Change driver store (apply driver repo w store lab_id id).1
  recovers :
      {store : Store} (repo : Repo) (w : W) (lab_id id : String)
      → Change driver store (recover driver repo w store lab_id id).1
  deletes :
      {store : Store} (repo : Repo) (w : W) (lab_id id : String)
      → Change driver store (delete driver repo w store lab_id id).1
  prunes : {store : Store} (ns ls : String → Bool) → Change driver store (prune store ns ls)

pub data Changes {W : Type 0} (driver : Driver W) : Store → Type 0 where
  start : Changes driver []
  more :
      {store store' : Store}
      → Changes driver store
      → Change driver store store'
      → Changes driver store'

Change-Exclusive :
    {W : Type 0} (driver : Driver W) {store store' : Store}
    → Change driver store store'
    → Exclusive store
    → Exclusive store'
Change-Exclusive driver (creates {store} repo new_id lab_id name spec s e) x =
    let c = create-append repo store new_id lab_id name spec s _ e in
    subst Exclusive (sym c.0) (append-Exclusive store s c.1 x)
Change-Exclusive driver (applies {store} repo w lab_id id) x =
    apply-Exclusive driver repo w store lab_id id x
Change-Exclusive driver (recovers {store} repo w lab_id id) x =
    recover-Exclusive driver repo w store lab_id id x
Change-Exclusive driver (deletes {store} repo w lab_id id) x =
    delete_operation-Exclusive driver repo w store lab_id id x
Change-Exclusive driver (prunes {store} ns ls) x = prune-Exclusive store ns ls x

-- Whatever scenarios are created, applied, recovered, deleted and pruned, in any order, one call after the other and none while
-- another is running, with whatever outcomes of the driver's calls: if a scenario is applied, no other scenario of its lab is applied to the
-- same node or the same link.
pub Changes-Exclusive :
    {W : Type 0} (driver : Driver W) (store : Store) → Changes driver store → Exclusive store
Changes-Exclusive driver store start = λ a b m. absurd m
Changes-Exclusive driver store (more {store = before} r c) =
    Change-Exclusive driver c (Changes-Exclusive driver before r)
