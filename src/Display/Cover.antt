-- ===== src/Display/Cover.antt =====
-- The rectangles that `runes_display_draw_string` of src/display.c paints for one run.
use runes.Shared.{
  ℕ, ◌+◌, ◌≡◌, refl, ap, ◌⊎◌, Bool, true, ◌&&◌, List, [], ◌∷◌, arith, length, ltb, ◌==◌, Bool-cases,
  inl, inr,
}
use runes.Shared.Int.{ℤ, pos}
use runes.Config.Types.{Cairo, Config}
use runes.Display.Location.{loc}
use runes.Display.Selection.{Vt100, Selection}
use runes.Display.Runs.{Cell, cell_width, Draw}
use runes.Display.RunLaws.{total_width}
use runes.Display.Paint.{selection_crosses, Paint, paint_cells, draw_string}

module _ (cairo : Cairo) (vt : Vt100) where
  open cairo use {Pattern}
  open vt use {Screen}

  -- The rectangles follow each other from column a to column b.
  abbrev pub Covers : ℕ → ℕ → List (Paint cairo vt) → Type 0
  Covers a b [] = a ≡ b
  Covers a b (p ∷ ps) = (p.col ≡ a) × Covers (a + p.width) b ps

  paint_cells-cover :
      (c : Config Pattern) (scr : Screen) (d : Selection) (row : ℤ) (col : ℕ) (cells : List Cell)
      (end : ℕ)
      → col + total_width cells ≡ end
      → Covers col end (paint_cells cairo vt c scr d row col cells)
  paint_cells-cover c scr d row col [] end h = omega arith
  paint_cells-cover c scr d row col (cell ∷ cells) end h =
      (refl, paint_cells-cover c scr d row (col + cell_width cell) cells end (omega arith))

  -- Whatever a run is, it is painted over its width, or over that of its cells.
  pub draw_string_either :
      (c : Config Pattern) (scr : Screen) (d : Selection) (row : ℤ) (run : Draw)
      → Covers run.start (run.start + run.width) (draw_string cairo vt c scr d row run)
        ⊎ Covers run.start
            (run.start + total_width run.cells)
            (draw_string cairo vt c scr d row run)
  unfolding draw_string
  draw_string_either c scr d row run = elim (Bool-cases (run.width == 0)) [
    | inl z ↦ let e : run.start ≡ run.start + run.width = ground arith in inl (rw z e)
    | inr z ↦
        let crosses =
          selection_crosses d (loc row (pos run.start)) (loc row (pos (run.start + run.width))) in
        elim (Bool-cases (ltb 1 (length run.cells) && crosses)) [
          | inl s ↦ inr (
              rw (z, s)
                (paint_cells-cover c scr d row run.start run.cells
                  (run.start + total_width run.cells) refl))
          | inr s ↦ inl (rw (z, s) (refl, refl))
        ]
  ]

  -- A run as wide as its cells, or of empty columns, is painted over its width, in order, each
  -- column once, whether the selection splits it or not.
  pub draw_string-Covers :
      (c : Config Pattern) (scr : Screen) (d : Selection) (row : ℤ) (run : Draw)
      → (run.cells ≡ []) ⊎ (total_width run.cells ≡ run.width)
      → Covers run.start (run.start + run.width) (draw_string cairo vt c scr d row run)
  unfolding draw_string
  draw_string-Covers c scr d row run h = elim (Bool-cases (run.width == 0)) [
    | inl z ↦ let e : run.start ≡ run.start + run.width = ground arith in rw z e
    | inr z ↦ elim (Bool-cases (splits run)) [
      | inl s ↦
          rw (z, s)
            (paint_cells-cover c scr d row run.start run.cells (run.start + run.width) (whole s h))
      | inr s ↦ rw (z, s) (refl, refl)
    ]
  ]
    where
      splits : Draw → Bool
      splits r =
          ltb 1 (length r.cells)
          && selection_crosses d (loc row (pos r.start)) (loc row (pos (r.start + r.width)))

      whole :
          splits run ≡ true
          → (run.cells ≡ []) ⊎ (total_width run.cells ≡ run.width)
          → run.start + total_width run.cells ≡ run.start + run.width
      whole s (inr e) = ap (◌+◌ run.start) e
      whole s (inl e) = let none_there : length run.cells ≡ 0 = ap length e in absurd (ground arith)
