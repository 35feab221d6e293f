-- ===== src/Wallpaper/Layout/Rows.antt =====
-- Histories whose rows all have one length, flattened.
use mathlib.Core.List.{flatten, append_assoc}
use mural.Prelude.{
  ℕ, zero, suc, ◌+◌, ◌*◌, ◌≤◌, ◌≡◌, refl, sym, ap, ◌∙◌, List, [], ◌∷◌, ◌++◌, arith, length, take,
  drop, length-append,
}

module _ {ℓ} {A : Type ℓ} where
  -- Every row has `n` entries.
  abbrev pub Rows : ℕ → List (List A) → Type 0
  Rows n [] = Unit
  Rows n (row ∷ h) = (length row ≡ n) × Rows n h

  pub Rows-append : (n : ℕ) (h k : List (List A)) → Rows n h → Rows n k → Rows n (h ++ k)
  Rows-append n [] k r s = s
  Rows-append n (row ∷ h) k r s = (r.0, Rows-append n h k r.1 s)

  pub Rows-take : (n d : ℕ) (h : List (List A)) → Rows n h → Rows n (take d h)
  Rows-take n zero h r = tt
  Rows-take n (suc d) [] r = tt
  Rows-take n (suc d) (row ∷ h) r = (r.0, Rows-take n d h r.1)

  pub Rows-drop : (n d : ℕ) (h : List (List A)) → Rows n h → Rows n (drop d h)
  Rows-drop n zero h r = r
  Rows-drop n (suc d) [] r = tt
  Rows-drop n (suc d) (row ∷ h) r = Rows-drop n d h r.1

  pub length-flatten : (n : ℕ) (h : List (List A)) → Rows n h → length (flatten h) ≡ length h * n
  unfolding flatten
  length-flatten n [] r = omega arith
  length-flatten n (row ∷ h) r =
      omega (arith, length-append row (flatten h), length-flatten n h r.1)

  drop_past : (xs ys : List A) (k : ℕ) → drop (length xs + k) (xs ++ ys) ≡ drop k ys
  drop_past [] ys k = ap (λ m. drop m ys) (omega arith)
  drop_past (x ∷ xs) ys k =
      let e : suc (length xs) + k ≡ suc (length xs + k) = omega arith in rw e (drop_past xs ys k)

  -- Dropping whole rows commutes with flattening.
  pub drop-flatten :
      (n d : ℕ) (h : List (List A))
      → Rows n h
      → d ≤ length h
      → drop (d * n) (flatten h) ≡ flatten (drop d h)
  unfolding flatten
  drop-flatten n zero h r le = let e : zero * n ≡ 0 = omega arith in ap (λ m. drop m (flatten h)) e
  drop-flatten n (suc d) [] r le = absurd (omega arith)
  drop-flatten n (suc d) (row ∷ h) r le =
      let e : suc d * n ≡ length row + d * n = omega (arith, r.0) in
      ap (λ m. drop m (row ++ flatten h)) e
      ∙ drop_past row (flatten h) (d * n)
      ∙ drop-flatten n d h r.1 (omega arith)

  pub flatten-append : (h k : List (List A)) → flatten (h ++ k) ≡ flatten h ++ flatten k
  unfolding flatten
  flatten-append [] k = refl
  flatten-append (row ∷ h) k =
      ap (◌++◌ row) (flatten-append h k) ∙ sym (append_assoc row (flatten h) (flatten k))
