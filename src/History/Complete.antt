-- ===== src/History/Complete.antt =====
-- controller/internal/traffic/history.go: what a query within the window finds.
use dc_net_lab.Prelude.{
  ℕ, ◌+◌, ◌≤◌, ◌≡◌, refl, sym, ap, subst, ◌∙◌, arith, String, List, [], ◌∷◌, ◌++◌, false, Option,
  none, some, ltb, ltb→ge, if◌then◌else◌, ◌==◌, string_eq, eq_iff, ==-ne, Bool-cases, inl, inr,
  append-snoc,
}
use mathlib.Core.List.{append-nil}
use dc_net_lab.Prelude.Map
use dc_net_lab.Prelude.Map.{get-put_self, get-put_ne, get-empty}
use dc_net_lab.History.{
  Point, History, is_old, trim_window, points_of, append_point, in_range, query,
}

module _ {A : Type 0} where
  -- one call of `AppendPoint` after the other
  pub append_points : ℕ → History A → List (String × Point A) → History A
  append_points window h [] = h
  append_points window h ((id, p) ∷ calls) = append_points window (append_point window h id p) calls

  -- all points of one id, however old
  unfoldable pub own_points : String → List (String × Point A) → List (Point A)
  own_points id [] = []
  own_points id ((i, p) ∷ calls) =
      let rest = own_points id calls in if i == id then p ∷ rest else rest

  -- The points come in the order of their times, none of them before `lo`.
  abbrev pub Ascends : ℕ → List (Point A) → Type 0
  Ascends lo [] = Unit
  Ascends lo (p ∷ ps) = (lo ≤ p.ts) × Ascends p.ts ps

  -- the time of the last point
  abbrev pub last_ts : ℕ → List (Point A) → ℕ
  last_ts now [] = now
  last_ts now (p ∷ ps) = last_ts p.ts ps

  recent : ℕ → ℕ → List (Point A) → List (Point A)
  recent window now [] = []
  recent window now (p ∷ ps) =
      let rest = recent window now ps in if is_old window now p then rest else p ∷ rest

  recent-append :
      (window now : ℕ) (ps qs : List (Point A))
      → recent window now (ps ++ qs) ≡ recent window now ps ++ recent window now qs
  unfolding recent
  recent-append window now [] qs = refl
  recent-append window now (p ∷ ps) qs = ground (arith, recent-append window now ps qs)

  recent-recent :
      (window old now : ℕ) (ps : List (Point A))
      → old ≤ now
      → recent window now (recent window old ps) ≡ recent window now ps
  unfolding recent
  recent-recent window old now [] h = refl
  recent-recent window old now (p ∷ ps) h = ground (arith, recent-recent window old now ps h)

  -- ascending points that are no older than the first
  all_recent :
      (window now lo : ℕ) (ps : List (Point A))
      → Ascends lo ps
      → now ≤ lo + window
      → recent window now ps ≡ ps
  unfolding recent
  all_recent window now lo [] h k = refl
  all_recent window now lo (p ∷ ps) h k =
      let young : ltb (p.ts + window) now ≡ false = ground (arith, h.0, k) in
      rw (recent, young)
        (ap (λ t. p ∷ t) (all_recent window now p.ts ps h.1 (omega (arith, h.0, k))))

  trim_window-recent :
      (window now lo : ℕ) (ps : List (Point A))
      → Ascends lo ps
      → trim_window window ps now ≡ recent window now ps
  unfolding trim_window recent
  trim_window-recent window now lo [] h = refl
  trim_window-recent window now lo (p ∷ ps) h = elim (Bool-cases (is_old window now p)) [
    | inl e ↦ rw (trim_window, recent, e) (trim_window-recent window now p.ts ps h.1)
    | inr e ↦
        let young : now ≤ p.ts + window = ltb→ge _ _ e in
        rw (trim_window, recent, e)
          (ap (λ t. p ∷ t) (sym (all_recent window now p.ts ps h.1 young)))
  ]

  lower : (lo lo' : ℕ) (ps : List (Point A)) → lo ≤ lo' → Ascends lo' ps → Ascends lo ps
  lower lo lo' [] h k = tt
  lower lo lo' (p ∷ ps) h k = (omega (arith, h, k.0), k.1)

  recent-Ascends :
      (window now lo : ℕ) (ps : List (Point A)) → Ascends lo ps → Ascends lo (recent window now ps)
  unfolding recent
  recent-Ascends window now lo [] h = tt
  recent-Ascends window now lo (p ∷ ps) h = elim (Bool-cases (is_old window now p)) [
    | inl e ↦ rw (recent, e) (recent-Ascends window now lo ps (lower lo p.ts ps h.0 h.1))
    | inr e ↦ rw (recent, e) (h.0, recent-Ascends window now p.ts ps h.1)
  ]

  snoc-Ascends :
      (lo : ℕ) (ps : List (Point A)) (p : Point A)
      → Ascends lo ps
      → last_ts lo ps ≤ p.ts
      → Ascends lo (ps ++ (p ∷ []))
  snoc-Ascends lo [] p h k = (k, tt)
  snoc-Ascends lo (q ∷ ps) p h k = (h.0, snoc-Ascends q.ts ps p h.1 k)

  last_ts-snoc : (lo : ℕ) (ps : List (Point A)) (p : Point A) → last_ts lo (ps ++ (p ∷ [])) ≡ p.ts
  last_ts-snoc lo [] p = refl
  last_ts-snoc lo (q ∷ ps) p = last_ts-snoc q.ts ps p

  -- one more point, which is not older than the last
  trim-recent :
      (window now : ℕ) (done : List (Point A)) (p : Point A)
      → Ascends 0 done
      → last_ts 0 done ≡ now
      → now ≤ p.ts
      → trim_window window (recent window now done ++ (p ∷ [])) p.ts
        ≡ recent window p.ts (done ++ (p ∷ []))
  unfolding recent
  trim-recent window now done p asc at later =
      let more = done ++ (p ∷ []) in
      let young : ltb (p.ts + window) now ≡ false = ground (arith, later) in
      let kept : recent window now more ≡ recent window now done ++ (p ∷ []) =
        recent-append window now done (p ∷ [])
        ∙ ap (λ t. recent window now done ++ t) (rw (recent, young) refl) in
      let sorted : Ascends 0 (recent window now more) =
        recent-Ascends window now 0 more (snoc-Ascends 0 done p asc (omega (arith, at, later))) in
      ap (λ t. trim_window window t p.ts) (sym kept)
      ∙ trim_window-recent window p.ts 0 (recent window now more) sorted
      ∙ recent-recent window now p.ts more later

  append_points-recent :
      (window : ℕ) (h : History A) (calls : List (String × Point A)) (id : String) (now : ℕ)
      (done : List (Point A))
      → points_of h id ≡ recent window now done
      → Ascends 0 done
      → last_ts 0 done ≡ now
      → Ascends now (own_points id calls)
      → points_of (append_points window h calls) id
        ≡ recent window (last_ts now (own_points id calls)) (done ++ own_points id calls)
  unfolding append_points own_points append_point
  append_points-recent window h [] id now done e asc at order =
      e ∙ ap (recent window now) (sym (append-nil done))
  append_points-recent window h ((i, p) ∷ calls) id now done e asc at order =
      let h' = append_point window h i p in
      let list_of : Option (List (Point A)) → List (Point A) =
        λ o. elim o [ none ↦ [] | some ps ↦ ps ] in
      let added = trim_window window (points_of h i ++ (p ∷ [])) p.ts in
      elim (Bool-cases (i == id)) [
        | inr f ↦
            let same : points_of h' id ≡ points_of h id =
              ap list_of (get-put_ne h i id added (==-ne i id f)) in
            rw (own_points, f)
              (append_points-recent window h' calls id now done (same ∙ e) asc at
                (rw (own_points, f) at order))
        | inl f ↦
            let own : i ≡ id = (eq_iff i id).0 f in
            let (later, rest) : (now ≤ p.ts) × Ascends p.ts (own_points id calls) =
              rw (own_points, f) at order in
            let got : points_of h' id ≡ added =
              subst (λ j. points_of h' j ≡ added) own (ap list_of (get-put_self h i i added)) in
            let now_kept : added ≡ recent window p.ts (done ++ (p ∷ [])) =
              ap (λ j. trim_window window (points_of h j ++ (p ∷ [])) p.ts) own
              ∙ ap (λ t. trim_window window (t ++ (p ∷ [])) p.ts) e
              ∙ trim-recent window now done p asc at later in
            let sorted = snoc-Ascends 0 done p asc (omega (arith, at, later)) in
            let ih =
              append_points-recent window h' calls id p.ts (done ++ (p ∷ [])) (got ∙ now_kept)
                sorted (last_ts-snoc 0 done p) rest in
            rw (own_points, f)
              (ih
                ∙ ap (recent window (last_ts p.ts (own_points id calls)))
                    (append-snoc done p (own_points id calls)))
      ]

  -- a query that begins within the window does not miss what is older
  in_range-recent :
      (window now start end : ℕ) (ps : List (Point A))
      → now ≤ start + window
      → in_range start end (recent window now ps) ≡ in_range start end ps
  unfolding in_range recent
  in_range-recent window now start end [] h = refl
  in_range-recent window now start end (p ∷ ps) h =
      ground (arith, h, in_range-recent window now start end ps h)

  -- Collect points into a new history, those of each scenario in the order of their times. A query of a scenario that begins no
  -- earlier than a window before its last point finds all of its points in the range, as if none was ever dropped;
  -- whatever is collected for other scenarios in between.
  pub query_complete :
      (window : ℕ) (calls : List (String × Point A)) (id : String) (start end : ℕ)
      → Ascends 0 (own_points id calls)
      → last_ts 0 (own_points id calls) ≤ start + window
      → query (append_points window Map.empty calls) id start end
        ≡ in_range start end (own_points id calls)
  unfolding query recent
  query_complete window calls id start end order within =
      let list_of : Option (List (Point A)) → List (Point A) =
        λ o. elim o [ none ↦ [] | some ps ↦ ps ] in
      let nothing : points_of Map.empty id ≡ [] = ap list_of (get-empty {V = List (Point A)} id) in
      let now = last_ts 0 (own_points id calls) in
      ap (in_range start end)
        (append_points-recent window Map.empty calls id 0 [] nothing tt refl order)
      ∙ in_range-recent window now start end (own_points id calls) within
