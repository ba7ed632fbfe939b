-- ===== src/Window/Examples.antt =====
-- Windows on small histories.
use dc_net_lab.Prelude.{ℕ, List, ◌≡◌, refl, [], ◌∷◌, none, some, arith, pos, negsuc}
use dc_net_lab.Window.{new_window, append, append_all, get, page}
use dc_net_lab.Window.History.{shows, append_all-new_window, get-shows, page-shows}

abbrev packets : List ℕ
packets = 7 ∷ 8 ∷ 9 ∷ []

append_all-new_window_example :
    append_all (new_window 2) packets ≡ some (record { buf = 8 ∷ 9 ∷ []; size = 2; total = 3 })
append_all-new_window_example = append_all-new_window 2 packets (omega arith)

get-shows_example : get (shows 2 packets) (pos 1) ≡ some 8
get-shows_example = get-shows 2 packets 1

page-shows_example : page (shows 2 packets) (negsuc 4) (pos 1) ≡ 8 ∷ []
page-shows_example = page-shows 2 packets (negsuc 4) 1

-- A window of size 0 panics on its first packet.
append_size_zero : append {A = ℕ} (new_window 0) 7 ≡ none
unfolding append new_window
append_size_zero = refl
