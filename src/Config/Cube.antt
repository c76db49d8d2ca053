-- ===== src/Config/Cube.antt =====
-- The color cube in the default palette of src/config.c: entries 16 to 231, by the six levels of red,
-- green and blue.
use runes.Shared.{
  ℕ, zero, suc, ◌+◌, ◌*◌, ◌<◌, ◌≡◌, refl, sym, ap, Bool, true, false, ◌&&◌, Option, none, some, [],
  ◌∷◌, arith, get_elem?, ◌==◌, get_or, ◌⊎◌, inl, inr,
}
use runes.Config.Types.{Rgb, rgb}
use runes.Config.Palette.{palette}

-- The levels of xterm's cube, in thousandths.
abbrev pub level : ℕ → ℕ
level i = get_or (0 ∷ 373 ∷ 529 ∷ 686 ∷ 843 ∷ 1000 ∷ []) i 0

abbrev same_rgb : Option Rgb → Rgb → Bool
same_rgb none y = false
same_rgb (some x) y = x.red == y.red && (x.green == y.green && x.blue == y.blue)

abbrev holds_below : (ℕ → Bool) → ℕ → Bool
holds_below test zero = true
holds_below test (suc limit) = holds_below test limit && test limit

holds_below-at :
    (test : ℕ → Bool) (limit i : ℕ) → i < limit → holds_below test limit ≡ true → test i ≡ true
holds_below-at test zero i k h = absurd (omega arith)
holds_below-at test (suc limit) i k h =
    let last : (i < limit) ⊎ (limit ≡ i) = omega arith in
    elim last [
      | inl less ↦ holds_below-at test limit i less (ground arith)
      | inr same ↦ rw (sym same) (ground arith)
    ]

same_rgb-equal : (o : Option Rgb) (y : Rgb) → same_rgb o y ≡ true → o ≡ some y
same_rgb-equal none y h = ground arith
same_rgb-equal (some x) y h = ap some (ground arith)

abbrev cube_entry : ℕ → ℕ → ℕ → Bool
cube_entry r g b =
    same_rgb (get_elem? palette (16 + 36 * r + 6 * g + b)) (rgb (level r) (level g) (level b))

abbrev blue_row : ℕ → ℕ → Bool
blue_row r g = holds_below (cube_entry r g) 6

abbrev green_square : ℕ → Bool
green_square r = holds_below (blue_row r) 6

cube_table : holds_below green_square 6 ≡ true
unfolding palette
cube_table = refl

-- The entry for red r, green g and blue b of the cube has these three levels.
pub palette-cube :
    (r g b : ℕ)
    → r < 6
    → g < 6
    → b < 6
    → get_elem? palette (16 + 36 * r + 6 * g + b) ≡ some (rgb (level r) (level g) (level b))
palette-cube r g b hr hg hb =
    same_rgb-equal (get_elem? palette (16 + 36 * r + 6 * g + b)) (rgb (level r) (level g) (level b))
      (holds_below-at (cube_entry r g) 6 b hb
        (holds_below-at (blue_row r) 6 g hg (holds_below-at green_square 6 r hr cube_table)))
