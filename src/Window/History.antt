-- ===== src/Window/History.antt =====
-- The window against the whole history of packets that were appended.
use dc_net_lab.Prelude.{
  ℕ, suc, ◌-◌, ◌≤◌, ◌<◌, max, ◌≡◌, ap, ◌∙◌, sym, List, [], ◌∷◌, ◌++◌, none, some, arith, ℤ, pos,
  negsuc, ltb, if◌then◌else◌, length, get_elem?, take, drop, length-append, length-drop,
  get_elem?-drop, drop-nil, drop_beyond, take-min, get_elem?_beyond, drop-suc, drop-append,
  drop-drop, to_nat,
}
use mathlib.Core.List.{append_assoc, append-nil}
use dc_net_lab.Window.{Window, new_window, append, get, page, page_from, append_all}

module _ {A : Type 0} where
  -- The window of a size that shows a history.
  abbrev pub shows : ℕ → List A → Window A
  shows size h = record { buf = drop (length h - size) h; size = size; total = length h }

  append-shows :
      (size : ℕ) (h : List A) (p : A)
      → 0 < size
      → append (shows size h) p ≡ some (shows size (h ++ p ∷ []))
  unfolding append
  append-shows size h p pos_size = ground (
    arith,
    length-drop (length h - size) h,
    length-append h (p ∷ []),
    drop-suc (length h - size) h,
    drop-append (length h - size) h (p ∷ []),
    drop-append (suc (length h - size)) h (p ∷ []),
  )

  append_all-shows :
      (size : ℕ) (h ps : List A)
      → 0 < size
      → append_all (shows size h) ps ≡ some (shows size (h ++ ps))
  unfolding append_all
  append_all-shows size h [] pos_size = ap (λ t. some (shows size t)) (sym (append-nil h))
  append_all-shows size h (p ∷ ps) pos_size =
      rw (append-shows size h p pos_size, append_all)
        (append_all-shows size (h ++ p ∷ []) ps pos_size
          ∙ ap (λ t. some (shows size t)) (append_assoc h (p ∷ []) ps))

  -- Whatever packets are appended to a new window of a size that is not 0, no append panics, and
  -- the window holds exactly the last `size` of them, oldest first, and has counted all of them.
  pub append_all-new_window :
      (size : ℕ) (ps : List A)
      → 0 < size
      → append_all (new_window size) ps
        ≡ some (record { buf = drop (length ps - size) ps; size = size; total = length ps })
  unfolding new_window
  append_all-new_window size ps pos_size =
      ap (λ b. append_all (record { buf = b; size = size; total = 0 }) ps)
        (sym (drop-nil (0 - size)))
      ∙ append_all-shows size [] ps pos_size

  -- In the window of size `size` that a history `h` of packets leaves, `get` at an index that is
  -- not negative returns the packet of that index in `h` if it is one of the last `size`, and
  -- fails on every other index.
  pub get-shows :
      (size : ℕ) (h : List A) (i : ℕ)
      → get (shows size h) (pos i) ≡ (if ltb i (length h - size) then none else get_elem? h i)
  unfolding get
  get-shows size h i = ground (
    arith,
    length-drop (length h - size) h,
    get_elem?-drop (length h - size) (i - (length h - size)) h,
    get_elem?_beyond h i,
  )

  page_from-shows :
      (size : ℕ) (h : List A) (offset limit : ℕ)
      → length h - size ≤ offset
      → page_from (shows size h) offset (pos limit) ≡ take limit (drop offset h)
  unfolding page_from
  page_from-shows size h offset limit le = ground (
    arith,
    length-drop (length h - size) h,
    length-drop offset h,
    drop-drop (offset - (length h - size)) (length h - size) h,
    drop_beyond offset h,
    take-min limit (drop offset h),
  )

  -- A page of that window is the cut of the whole history that starts at the offset, moved up to the oldest
  -- packet still held if it lies before it, and has at most `limit` packets.
  pub page-shows :
      (size : ℕ) (h : List A) (offset : ℤ) (limit : ℕ)
      → page (shows size h) offset (pos limit)
        ≡ take limit (drop (max (to_nat offset) (length h - size)) h)
  unfolding page
  page-shows size h (pos offset) limit = ground (
    arith,
    length-drop (length h - size) h,
    page_from-shows size h offset limit,
    page_from-shows size h (length h - size) limit,
  )
  page-shows size h (negsuc offset) limit =
      ground
        (arith, length-drop (length h - size) h, page_from-shows size h (length h - size) limit)
