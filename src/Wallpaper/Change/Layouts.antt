-- ===== src/Wallpaper/Change/Layouts.antt =====
-- The map of layouts: what a lookup finds after a removal and an insertion.
use mural.Prelude.{◌≡◌, none, some, [], ◌∷◌, Text, text_eq, text_eq_iff, arith, if◌then◌else◌}
use mural.Wallpaper.Layout.{LayoutState}
use mural.Wallpaper.Change.{Layouts, get_layout, remove_layout, insert_layout}

pub get-remove_layout :
    (k j : Text) (m : Layouts)
    → get_layout j (remove_layout k m) ≡ (if text_eq k j then none else get_layout j m)
unfolding get_layout remove_layout
get-remove_layout k j [] = ground arith
get-remove_layout k j ((i, l) ∷ m) =
    ground (arith, get-remove_layout k j m, text_eq_iff i k, text_eq_iff i j, text_eq_iff k j)

pub get-insert_layout :
    (k j : Text) (l : LayoutState) (m : Layouts)
    → get_layout j (insert_layout k l m) ≡ (if text_eq k j then some l else get_layout j m)
unfolding get_layout insert_layout
get-insert_layout k j l m = ground (arith, get-remove_layout k j m)
