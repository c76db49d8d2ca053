-- ===== src/Display/Screen.antt =====
-- The rows of `runes_display_draw_screen` of src/display.c: what is painted of a whole screen.
use mathlib.Core.Path.{subst}
use runes.Shared.{ℕ, zero, suc, ◌+◌, ◌≤◌, ◌<◌, ◌≡◌, ◌⊎◌, List, [], ◌∷◌, ◌++◌, arith, true, length}
use runes.Shared.Int.{ℤ, pos, ◌+ℤ◌, ◌-ℤ◌}
use runes.Config.Types.{Cairo, Config}
use runes.Display.Location.{loc}
use runes.Display.Selection.{Vt100, Selection, loc_is_selected}
use runes.Display.Runs.{Cell, Draw, draw_row}
use runes.Display.RunLaws.{LastWide, cells_from}
use runes.Display.Paint.{Paint, paint_colors, draw_string}
use runes.Display.Cover.{Covers}

module _ (cairo : Cairo) (vt : Vt100) where
  open cairo use {Pattern}
  open vt use {Screen}

  module _ (c : Config Pattern) (scr : Screen) (d : Selection) where
    abbrev pub draw_runs : ℤ → List Draw → List (Paint cairo vt)
    draw_runs row [] = []
    draw_runs row (run ∷ runs) = draw_string cairo vt c scr d row run ++ draw_runs row runs

    -- `cells` are those of each row of the grid; row r of the window shows row r + row_top -
    -- row_visible_offset of the grid.
    abbrev pub paint_row : (ℤ → ℕ → Cell) → ℕ → ℤ → List (Paint cairo vt)
    paint_row cells cols row = draw_runs row (draw_row (cells row) cols)

    unfoldable pub draw_rows : (ℤ → ℕ → Cell) → ℕ → ℤ → ℤ → ℕ → ℕ → List (ℕ × List (Paint cairo vt))
    draw_rows cells cols row_top row_visible_offset zero r = []
    draw_rows cells cols row_top row_visible_offset (suc rows) r =
        (r, paint_row cells cols (pos r +ℤ row_top -ℤ row_visible_offset))
        ∷ draw_rows cells cols row_top row_visible_offset rows (suc r)

    abbrev pub AllPaints : (Paint cairo vt → Type 0) → List (Paint cairo vt) → Type 0
    AllPaints P [] = true ≡ true
    AllPaints P (p ∷ ps) = P p × AllPaints P ps

    -- A rectangle shows the cells of its columns in a row of the grid, or columns that are empty, in the
    -- colors for the place that it begins at.
    abbrev pub PaintShows : ℤ → (ℕ → Cell) → Paint cairo vt → Type 0
    PaintShows row cells p =
        (p.colors
          ≡ paint_colors cairo vt c (loc_is_selected vt scr d (loc row (pos p.col))) p.cells)
        × ((p.cells ≡ []) × ((i : ℕ) → p.col ≤ i → i < p.col + p.width → (cells i).len ≡ 0)
            ⊎ (p.cells ≡ cells_from cells p.col (length p.cells)))

    -- Rectangles that follow each other over so many columns, or one more, if a wide cell begins in the
    -- last.
    abbrev pub CoversRow : (ℕ → Cell) → ℕ → ℕ → List (Paint cairo vt) → Type 0
    CoversRow cells start cols ps =
        (end : ℕ) × Covers cairo vt start end ps
        × ((end ≡ cols) ⊎ (end ≡ suc cols) × LastWide cells cols)

    -- Each row of the window shows the row of the grid that `at` gives for it.
    abbrev pub AllRows :
        (ℕ → ℤ) → (ℤ → ℕ → Cell) → ℕ → ℕ → ℕ → List (ℕ × List (Paint cairo vt)) → Type 0
    AllRows at cells cols zero r painted = painted ≡ []
    AllRows at cells cols (suc rows) r [] = zero ≡ suc zero
    AllRows at cells cols (suc rows) r ((shown, ps) ∷ painted) =
        (shown ≡ r)
        × CoversRow (cells (at r)) 0 cols ps
        × AllPaints (PaintShows (at r) (cells (at r))) ps
        × AllRows at cells cols rows (suc r) painted

    -- The rows may be given in another way.
    pub AllRows-at :
        (at at' : ℕ → ℤ) (cells : ℤ → ℕ → Cell) (cols rows r : ℕ)
        (painted : List (ℕ × List (Paint cairo vt))) (bound : ℕ)
        → ((n : ℕ) → n < bound → at n ≡ at' n)
        → r + rows ≤ bound
        → AllRows at cells cols rows r painted
        → AllRows at' cells cols rows r painted
    AllRows-at at at' cells cols zero r painted bound same h k = k
    AllRows-at at at' cells cols (suc rows) r [] bound same h k = k
    AllRows-at at at' cells cols (suc rows) r ((shown, ps) ∷ painted) bound same h
          (here, covers, shows, more) =
        let e : at r ≡ at' r = same r (omega arith) in
        (
          here,
          subst (λ v. CoversRow (cells v) 0 cols ps) e covers,
          subst (λ v. AllPaints (PaintShows v (cells v)) ps) e shows,
          AllRows-at at at' cells cols rows (suc r) painted bound same (omega arith) more,
        )
