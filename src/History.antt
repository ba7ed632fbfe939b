-- ===== src/History.antt =====
-- controller/internal/traffic/history.go, and the memory window of controller/internal/metrics/history.go: points in the
-- order in which they are collected. A time is a number of nanoseconds, and the end of a window is moved to the
-- other side of the comparison; `A` is what a point holds besides its time.
pub mod Complete
mod Examples
use dc_net_lab.Prelude.{
  ℕ, ◌+◌, ◌*◌, ◌^◌, String, List, [], ◌∷◌, ◌++◌, Bool, true, false, not, ◌||◌, Option, none, some,
  ltb, if◌then◌else◌, string_eq, map,
}
use dc_net_lab.Prelude.Map
use dc_net_lab.Prelude.Map.{Map}

pub record Point (A : Type 0) : Type 0 where
  pub ts : ℕ
  pub value : A

-- `windowDuration` of the traffic history, and that of the metrics
abbrev pub hour : ℕ
hour = 3600 * 10 ^ 9

abbrev pub two_hours : ℕ
two_hours = 2 * hour

abbrev pub History : Type 0 → Type 0
History A = Map String (List (Point A))

module _ {A : Type 0} where
  -- points[i].Ts.Before(cutoff), the cutoff lying the window before `now`
  abbrev pub is_old : ℕ → ℕ → Point A → Bool
  is_old window now p = ltb (p.ts + window) now

  -- `trimWindow`
  unfoldable pub trim_window : ℕ → List (Point A) → ℕ → List (Point A)
  trim_window window [] now = []
  trim_window window (p ∷ ps) now =
      let rest = trim_window window ps now in if is_old window now p then rest else p ∷ ps

  abbrev pub points_of : History A → String → List (Point A)
  points_of h id = elim (Map.get h id) [ none ↦ [] | some ps ↦ ps ]

  -- `AppendPoint`, and what `AppendSweep` does with one server's point
  unfoldable pub append_point : ℕ → History A → String → Point A → History A
  append_point window h id p = Map.put h id (trim_window window (points_of h id ++ (p ∷ [])) p.ts)

  -- the loop of `Query`
  unfoldable pub in_range : ℕ → ℕ → List (Point A) → List (Point A)
  in_range start end [] = []
  in_range start end (p ∷ ps) =
      let rest = in_range start end ps in if ltb p.ts start || ltb end p.ts then rest else p ∷ rest

  -- `Query`
  unfoldable pub query : History A → String → ℕ → ℕ → List (Point A)
  query h id start end = in_range start end (points_of h id)

  abbrev last_of : List (Point A) → Option (Point A)
  last_of [] = none
  last_of (p ∷ []) = some p
  last_of (p ∷ q ∷ ps) = last_of (q ∷ ps)

  -- `Last`
  pub last : History A → String → Option (Point A)
  last h id = last_of (points_of h id)

  drop_inactive : (String → Bool) → List String → History A → History A
  drop_inactive active [] h = h
  drop_inactive active (id ∷ ids) h =
      drop_inactive active ids (if active id then h else Map.delete h id)

  -- `Retain`; the order of the deletions does not matter.
  pub retain : History A → (String → Bool) → History A
  unfolding drop_inactive
  retain h active = drop_inactive active (map (λ kv. kv.0) (Map.items h)) h
