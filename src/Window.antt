-- ===== src/Window.antt =====
-- controller/internal/capture/window.go: the live packet window of a capture session. `A` is the
-- source's `Packet`. Indices are counted without wrapping: a session ends long before 2^63 packets.
pub mod History
mod Examples
use dc_net_lab.Prelude.{
  ℕ, ◌+◌, ◌-◌, min, List, [], ◌∷◌, ◌++◌, Option, none, some, ℤ, pos, negsuc, ltb, leb, eqb,
  if◌then◌else◌, length, get_elem?, take, drop,
}

pub record Window (A : Type 0) : Type 0 where
  pub buf : List A
  pub size : ℕ
  pub total : ℕ

module _ {A : Type 0} where
  pub new_window : ℕ → Window A
  new_window size = record { buf = []; size = size; total = 0 }

  -- `none` is the panic of `w.buf[1:]` on an empty buffer, which a window of size 0 runs into.
  pub append : Window A → A → Option (Window A)
  append w p =
      if eqb (length w.buf) w.size
      then (elim w.buf [
        | [] ↦ none
        | x ∷ rest ↦ some (record w { buf = rest ++ p ∷ []; total = w.total + 1 })
      ])
      else some (record w { buf = w.buf ++ p ∷ []; total = w.total + 1 })

  abbrev pub first : Window A → ℕ
  first w = w.total - length w.buf

  pub get : Window A → ℤ → Option A
  get w (negsuc i) = none
  get w (pos i) =
      if ltb i (first w)
      then none
      else if leb w.total i
      then none
      else get_elem? w.buf (i - first w)

  -- `offset` is not below `first w` here.
  page_from : Window A → ℕ → ℤ → List A
  page_from w offset (negsuc limit) = []
  page_from w offset (pos limit) =
      if leb w.total offset
      then []
      else if eqb limit 0
      then []
      else take (min (offset + limit) w.total - offset) (drop (offset - first w) w.buf)

  pub page : Window A → ℤ → ℤ → List A
  unfolding page_from
  page w (negsuc offset) limit = page_from w (first w) limit
  page w (pos offset) limit = page_from w (if ltb offset (first w) then first w else offset) limit

  pub append_all : Window A → List A → Option (Window A)
  append_all w [] = some w
  append_all w (p ∷ ps) = elim (append w p) [ none ↦ none | some w' ↦ append_all w' ps ]
