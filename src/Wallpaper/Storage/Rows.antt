-- ===== src/Wallpaper/Storage/Rows.antt =====
-- Lines and rows in the text of a state file: what is written is read back.
use mural.Prelude.{
  ℕ, ◌≡◌, ◌≢◌, refl, ap, ◌∙◌, false, List, [], ◌∷◌, ◌++◌, map, Text, arith, All, All-append,
}
use mural.Disk.{concat_lines}
use mural.Wallpaper.Layout.{is_empty}
use mural.Wallpaper.Storage.{
  tab, lf, cr, lines, split_tab, join_tab, drop_empty, cons_first, starts_lf,
}

-- The character does not occur.
abbrev pub Without : ℕ → Text → Type 0
Without c = All (λ x. x ≢ c)

-- A line: no line feed, and no carriage return (a `\r` at its end would be lost).
pub record IsLine (s : Text) : Type 0 where
  pub no_lf : Without lf s
  pub no_cr : Without cr s

-- The first line of a text that begins with it.
lines-cons : (s : Text) (t : Text) → IsLine s → lines (s ++ (lf ∷ t)) ≡ s ∷ lines t
unfolding lines cons_first starts_lf
lines-cons [] t h = refl
lines-cons (c ∷ s) t h =
    let rest : IsLine s = record { no_lf = h.no_lf.1; no_cr = h.no_cr.1 } in
    ground (arith, lines-cons s t rest, h.no_lf.0, h.no_cr.0)

pub lines-concat_lines : (ls : List Text) → All IsLine ls → lines (concat_lines ls) ≡ ls
unfolding concat_lines lines
lines-concat_lines [] h = refl
lines-concat_lines (l ∷ ls) h =
    lines-cons l (concat_lines ls) h.0 ∙ ap (◌∷◌ l) (lines-concat_lines ls h.1)

split_tab-one : (s : Text) → Without tab s → split_tab s ≡ s ∷ []
unfolding split_tab cons_first
split_tab-one [] h = refl
split_tab-one (c ∷ s) h = ground (arith, split_tab-one s h.1)

split_tab-cons : (s t : Text) → Without tab s → split_tab (s ++ (tab ∷ t)) ≡ s ∷ split_tab t
unfolding split_tab cons_first
split_tab-cons [] t h = refl
split_tab-cons (c ∷ s) t h = ground (arith, split_tab-cons s t h.1)

pub split_tab-join_tab :
    (t : Text) (ts : List Text)
    → All (Without tab) (t ∷ ts)
    → split_tab (join_tab (t ∷ ts)) ≡ t ∷ ts
unfolding join_tab
split_tab-join_tab t [] h = split_tab-one t h.0
split_tab-join_tab t (u ∷ ts) h =
    split_tab-cons t (join_tab (u ∷ ts)) h.0 ∙ ap (◌∷◌ t) (split_tab-join_tab u ts h.1)

join_tab-cons : (c : ℕ) (t : Text) (ts : List Text) → is_empty (join_tab ((c ∷ t) ∷ ts)) ≡ false
unfolding join_tab
join_tab-cons c t [] = refl
join_tab-cons c t (u ∷ ts) = refl

-- The paths of a row: some, none empty, each on one line and without a tab.
pub record IsPath (p : Text) : Type 0 where
  pub named : is_empty p ≡ false
  pub line : IsLine p
  pub no_tab : Without tab p

abbrev pub IsRow : List Text → Type 0
IsRow [] = ⊥
IsRow (p ∷ ps) = All IsPath (p ∷ ps)

Without-append : (c : ℕ) (s t : Text) → Without c s → Without c t → Without c (s ++ t)
Without-append c s t h k = All-append (λ x. x ≢ c) s t h k

join_tab-IsLine : (ps : List Text) → All IsPath ps → IsLine (join_tab ps)
unfolding join_tab
join_tab-IsLine [] h = record { no_lf = tt; no_cr = tt }
join_tab-IsLine (p ∷ []) h = h.0.line
join_tab-IsLine (p ∷ (q ∷ ps)) h =
    let rest = join_tab-IsLine (q ∷ ps) h.1 in
    record {
      no_lf =
          Without-append lf p (tab ∷ join_tab (q ∷ ps)) h.0.line.no_lf
            (λ e. omega arith, rest.no_lf);
      no_cr =
          Without-append cr p (tab ∷ join_tab (q ∷ ps)) h.0.line.no_cr
            (λ e. omega arith, rest.no_cr);
    }

pub All-IsLine : (rows : List (List Text)) → All IsRow rows → All IsLine (map join_tab rows)
All-IsLine [] h = tt
All-IsLine ([] ∷ rows) h = absurd h.0
All-IsLine ((p ∷ ps) ∷ rows) h = (join_tab-IsLine (p ∷ ps) h.0, All-IsLine rows h.1)

join_tab-named :
    (p : Text) (ps : List Text) → is_empty p ≡ false → is_empty (join_tab (p ∷ ps)) ≡ false
join_tab-named [] ps h = absurd (cc)
join_tab-named (c ∷ t) ps h = join_tab-cons c t ps

pub drop_empty-rows :
    (rows : List (List Text)) → All IsRow rows → drop_empty (map join_tab rows) ≡ map join_tab rows
unfolding drop_empty
drop_empty-rows [] h = refl
drop_empty-rows ([] ∷ rows) h = absurd h.0
drop_empty-rows ((p ∷ ps) ∷ rows) h =
    rw (join_tab-named p ps h.0.0.named) (ap (◌∷◌ (join_tab (p ∷ ps))) (drop_empty-rows rows h.1))

All-no_tab : (ps : List Text) → All IsPath ps → All (Without tab) ps
All-no_tab [] h = tt
All-no_tab (p ∷ ps) h = (h.0.no_tab, All-no_tab ps h.1)

-- The rows of a history that were joined into lines are split again.
pub map-split_tab :
    (rows : List (List Text)) → All IsRow rows → map split_tab (map join_tab rows) ≡ rows
map-split_tab [] h = refl
map-split_tab ([] ∷ rows) h = absurd h.0
map-split_tab ((p ∷ ps) ∷ rows) h =
    ap (λ r. r ∷ map split_tab (map join_tab rows))
      (split_tab-join_tab p ps (All-no_tab (p ∷ ps) h.0))
    ∙ ap (◌∷◌ (p ∷ ps)) (map-split_tab rows h.1)
