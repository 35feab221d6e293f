-- ===== src/Wallpaper/Storage/Number.antt =====
-- A number in a state file: what is written is read back.
use mural.Prelude.{
  ℕ, ◌≤◌, ◌≡◌, refl, ap, ◌∙◌, some, [], ◌∷◌, ◌++◌, Text, text, arith, All, usize_max, false,
}
use mural.Decimal.{print_usize}
use mural.Decimal.Back.{IsDigit, print_usize-Digits}
use mural.Wallpaper.Storage.{usize_of, parse_usize, trim_start, trim_end, is_whitespace}

not_space : (c : ℕ) → IsDigit c → is_whitespace c ≡ false
not_space c h = ground arith

trim_end-digits : (s : Text) → All IsDigit s → trim_end (s ++ text "\n") ≡ s
unfolding trim_end
trim_end-digits [] h = refl
trim_end-digits (c ∷ s) h = rw (trim_end-digits s h.1, not_space c h.0) (ground arith)

trim_start-digit : (c : ℕ) (t : Text) → IsDigit c → trim_start (c ∷ t) ≡ c ∷ t
unfolding trim_start
trim_start-digit c t h = rw (not_space c h, trim_start) refl

pub usize_of-print_usize : (n : ℕ) → n ≤ usize_max → usize_of (print_usize n ++ text "\n") ≡ some n
unfolding usize_of parse_usize
usize_of-print_usize n h =
    let d = print_usize-Digits n h in
    rw d.written (
      ap (λ t. parse_usize (trim_end t))
        (trim_start-digit d.first (d.others ++ text "\n") d.digits.0)
      ∙ ap parse_usize (trim_end-digits (d.first ∷ d.others) d.digits)
      ∙ d.read usize_max h)
