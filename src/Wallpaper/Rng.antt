-- ===== src/Wallpaper/Rng.antt =====
-- `SimpleRng` of wallpaper.rs: a 64-bit xorshift generator.
use Prim.Native.Nat.{bit_xor}
use mural.Prelude.{ℕ, ◌*◌, ◌/◌, ◌%◌, ◌^◌, ◌<◌, ◌≡◌, refl, arith, leb, if◌then◌else◌, word}

pub record SimpleRng : Type 0 where
  pub state : ℕ

-- `value << k` and `value >> k` on `u64`
abbrev shl : ℕ → ℕ → ℕ
shl v k = v * 2 ^ k % word

abbrev shr : ℕ → ℕ → ℕ
shr v k = v / 2 ^ k

unfoldable pub next_u64 : SimpleRng → ℕ × SimpleRng
next_u64 r =
    let a = bit_xor r.state (shl r.state 13) in
    let b = bit_xor a (shr a 7) in let c = bit_xor b (shl b 17) in (c, record { state = c })

-- `usize` and `u64` are one width, so the conversions keep the value.
unfoldable pub next_usize : SimpleRng → ℕ → ℕ × SimpleRng
unfolding next_u64
next_usize r upper = if leb upper 1 then (0, r) else (let n = next_u64 r in (n.0 % upper, n.1))

-- The index that is drawn lies below the bound.
pub next_usize-lt : (r : SimpleRng) (upper : ℕ) → 0 < upper → (next_usize r upper).0 < upper
unfolding next_usize
next_usize-lt r upper h = ground arith

next_u64_one : (next_u64 (record { state = 1 })).0 ≡ 1082269761
unfolding next_u64
next_u64_one = refl
