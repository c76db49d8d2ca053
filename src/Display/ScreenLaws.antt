-- ===== src/Display/ScreenLaws.antt =====
-- What the rows of `runes_display_draw_screen` in src/display.c show, and over which columns.
use runes.Display.Screen as S
use mathlib.Core.Path.{subst}
use runes.Shared.{
  ℕ, zero, suc, ◌+◌, ◌≤◌, ◌<◌, ◌≡◌, refl, sym, ◌∙◌, ap, ◌⊎◌, inl, inr, List, [], ◌∷◌, ◌++◌, arith,
  true, ◌==◌, ◌&&◌, ltb, length, Bool-cases,
}
use runes.Shared.Int.{ℤ, pos, ◌+ℤ◌, ◌-ℤ◌}
use runes.Config.Types.{Cairo, Config}
use runes.Display.Location.{loc}
use runes.Display.Selection.{Vt100, Selection}
use runes.Display.Runs.{Cell, cell_width, Draw, draw_row}
use runes.Display.RunLaws.{Tiles, AllDraws, Shows, LastWide, cells_from, total_width}
use runes.Display.RowLoop.{draw_row_complete}
use runes.Display.Paint.{Paint, selection_crosses, paint_cells, draw_string}
use runes.Display.Cover.{Covers, draw_string-Covers, draw_string_either}

module _ (cairo : Cairo) (vt : Vt100) where
  open cairo use {Pattern}
  open vt use {Screen}

  module _ (c : Config Pattern) (scr : Screen) (d : Selection) where
    abbrev draw_runs : ℤ → List Draw → List (Paint cairo vt)
    draw_runs = S.draw_runs cairo vt c scr d

    abbrev AllPaints : (Paint cairo vt → Type 0) → List (Paint cairo vt) → Type 0
    AllPaints = S.AllPaints cairo vt c scr d

    abbrev PaintShows : ℤ → (ℕ → Cell) → Paint cairo vt → Type 0
    PaintShows = S.PaintShows cairo vt c scr d

    abbrev CoversRow : (ℕ → Cell) → ℕ → ℕ → List (Paint cairo vt) → Type 0
    CoversRow = S.CoversRow cairo vt c scr d

    AllPaints-append :
        (P : Paint cairo vt → Type 0) (ps qs : List (Paint cairo vt))
        → AllPaints P ps
        → AllPaints P qs
        → AllPaints P (ps ++ qs)
    AllPaints-append P [] qs h k = k
    AllPaints-append P (p ∷ ps) qs (h, hs) k = (h, AllPaints-append P ps qs hs k)

    paint_cells-Shows :
        (row : ℤ) (cells : ℕ → Cell) (start n : ℕ)
        → AllPaints
            (PaintShows row cells)
            (paint_cells cairo vt c scr d row start (cells_from cells start n))
    paint_cells-Shows row cells start zero = refl
    paint_cells-Shows row cells start (suc n) =
        ((refl, inr refl), paint_cells-Shows row cells (start + cell_width (cells start)) n)

    shown_cells :
        (cells : ℕ → Cell) (cols : ℕ) (run : Draw)
        → 0 < run.width
        → Shows cells cols run
        → (run.cells ≡ [])
            × ((i : ℕ) → run.start ≤ i → i < run.start + run.width → (cells i).len ≡ 0)
          ⊎ (run.cells ≡ cells_from cells run.start (length run.cells))
    shown_cells cells cols run some shows = elim (shows some) [
      | inl empty ↦ inl empty
      | inr (same, wide, few, alike) ↦ inr same
    ]

    split_cells :
        (row : ℤ) (cells : ℕ → Cell) (run : Draw)
        → ((run.cells ≡ [])
              × ((i : ℕ) → run.start ≤ i → i < run.start + run.width → (cells i).len ≡ 0)
            ⊎ (run.cells ≡ cells_from cells run.start (length run.cells)))
        → AllPaints (PaintShows row cells) (paint_cells cairo vt c scr d row run.start run.cells)
    split_cells row cells run (inl (none_there, blank)) =
        subst
          (λ cs. AllPaints (PaintShows row cells) (paint_cells cairo vt c scr d row run.start cs))
          (sym none_there) refl
    split_cells row cells run (inr same) =
        subst
          (λ cs. AllPaints (PaintShows row cells) (paint_cells cairo vt c scr d row run.start cs))
          (sym same) (paint_cells-Shows row cells run.start (length run.cells))

    draw_string-Shows :
        (row : ℤ) (cells : ℕ → Cell) (cols : ℕ) (run : Draw)
        → Shows cells cols run
        → AllPaints (PaintShows row cells) (draw_string cairo vt c scr d row run)
    unfolding draw_string
    draw_string-Shows row cells cols run shows = elim (Bool-cases (run.width == 0)) [
      | inl z ↦ rw z refl
      | inr z ↦
          let some : 0 < run.width = ground arith in
          let there = shown_cells cells cols run some shows in
          let crosses =
            selection_crosses d (loc row (pos run.start)) (loc row (pos (run.start + run.width))) in
          elim (Bool-cases (ltb 1 (length run.cells) && crosses)) [
            | inl s ↦ rw (z, s) (split_cells row cells run there)
            | inr s ↦ rw (z, s) ((refl, there), refl)
          ]
    ]

    runs-Shows :
        (row : ℤ) (cells : ℕ → Cell) (cols : ℕ) (runs : List Draw)
        → AllDraws (Shows cells cols) runs
        → AllPaints (PaintShows row cells) (draw_runs row runs)
    runs-Shows row cells cols [] h = refl
    runs-Shows row cells cols (run ∷ runs) (h, hs) =
        AllPaints-append (PaintShows row cells) (draw_string cairo vt c scr d row run)
          (draw_runs row runs) (draw_string-Shows row cells cols run h)
          (runs-Shows row cells cols runs hs)

    Covers-append :
        (a b e : ℕ) (ps qs : List (Paint cairo vt))
        → Covers cairo vt a b ps
        → Covers cairo vt b e qs
        → Covers cairo vt a e (ps ++ qs)
    Covers-append a b e [] qs h k = rw h k
    Covers-append a b e (p ∷ ps) qs (at, h) k = (at, Covers-append (a + p.width) b e ps qs h k)

    no_width : (row : ℤ) (run : Draw) → run.width ≡ 0 → draw_string cairo vt c scr d row run ≡ []
    unfolding draw_string
    no_width row run h = let e : (run.width == 0) ≡ true = ground arith in rw e refl

    Tiles-grows : (a b : ℕ) (runs : List Draw) → Tiles a b runs → a ≤ b
    Tiles-grows a b [] h = omega arith
    Tiles-grows a b (run ∷ runs) (at, h) = omega (arith, Tiles-grows (a + run.width) b runs h)

    -- Columns of no width paint nothing.
    nothing_left : (row : ℤ) (a : ℕ) (runs : List Draw) → Tiles a a runs → draw_runs row runs ≡ []
    nothing_left row a [] h = refl
    nothing_left row a (run ∷ runs) (at, h) =
        let no_more : run.width ≡ 0 = omega (arith, Tiles-grows (a + run.width) a runs h) in
        let here : a + run.width ≡ a = omega arith in
        ap (λ ps. ps ++ draw_runs row runs) (no_width row run no_more)
        ∙ nothing_left row a runs (subst (λ x. Tiles x a runs) here h)

    none_or_some : (n : ℕ) → (n ≡ 0) ⊎ (0 < n)
    none_or_some zero = inl refl
    none_or_some (suc n) = inr (omega arith)

    run_width :
        (row : ℤ) (cells : ℕ → Cell) (cols : ℕ) (run : Draw)
        → Shows cells cols run
        → Covers cairo vt run.start (run.start + run.width) (draw_string cairo vt c scr d row run)
          ⊎ (run.start + run.width ≡ cols)
            × LastWide cells cols
            × Covers cairo vt run.start (suc cols) (draw_string cairo vt c scr d row run)
    run_width row cells cols run shows = elim (none_or_some run.width) [
      | inl e ↦ inl (
          subst (λ ps. Covers cairo vt run.start (run.start + run.width) ps)
            (sym (no_width row run e)) (omega arith))
      | inr some ↦ elim (shows some) [
        | inl (empty, blank) ↦ inl (draw_string-Covers cairo vt c scr d row run (inl empty))
        | inr (same, inl wide, few, alike) ↦
            inl (draw_string-Covers cairo vt c scr d row run (inr (sym wide)))
        | inr (same, inr (over, last, wide), few, alike) ↦
            elim (draw_string_either cairo vt c scr d row run) [
              | inl covers ↦ inl covers
              | inr covers ↦
                  let end : run.start + total_width run.cells ≡ suc cols = omega arith in
                  inr (
                    last,
                    wide,
                    subst (λ e. Covers cairo vt run.start e (draw_string cairo vt c scr d row run))
                        end covers,
                  )
            ]
      ]
    ]

    runs-CoversRow :
        (row : ℤ) (cells : ℕ → Cell) (cols start : ℕ) (runs : List Draw)
        → Tiles start cols runs
        → AllDraws (Shows cells cols) runs
        → CoversRow cells start cols (draw_runs row runs)
    runs-CoversRow row cells cols start [] h shows = (cols, h, inl refl)
    runs-CoversRow row cells cols start (run ∷ runs) (at, h) (shows, others) =
        elim (run_width row cells cols run shows) [
          | inl covers ↦
              let (end, rest, ends) =
                runs-CoversRow row cells cols (start + run.width) runs h others in
              (
                end,
                Covers-append start (start + run.width) end _ _
                    (subst
                      (λ x.
                        Covers cairo vt x (x + run.width) (draw_string cairo vt c scr d row run))
                      at covers)
                    rest,
                ends,
              )
          | inr (last, wide, covers) ↦
              let at_end : start + run.width ≡ cols = omega arith in
              let none_left =
                nothing_left row cols runs (subst (λ x. Tiles x cols runs) at_end h) in
              (
                suc cols,
                Covers-append start (suc cols) (suc cols) (draw_string cairo vt c scr d row run)
                    (draw_runs row runs)
                    (subst
                      (λ x. Covers cairo vt x (suc cols) (draw_string cairo vt c scr d row run)) at
                      covers)
                    (subst (λ ps. Covers cairo vt (suc cols) (suc cols) ps) (sym none_left) refl),
                inr (refl, wide),
              )
        ]

    -- Every row of the window is painted, and shows its row of the grid.
    pub draw_rows-AllRows :
        (cells : ℤ → ℕ → Cell) (cols : ℕ) (row_top row_visible_offset : ℤ) (rows r : ℕ)
        → S.AllRows cairo vt c scr d
            (λ n. pos n +ℤ row_top -ℤ row_visible_offset)
            cells
            cols
            rows
            r
            (S.draw_rows cairo vt c scr d cells cols row_top row_visible_offset rows r)
    unfolding S.draw_rows
    draw_rows-AllRows cells cols row_top row_visible_offset zero r = refl
    draw_rows-AllRows cells cols row_top row_visible_offset (suc rows) r =
        let vr = pos r +ℤ row_top -ℤ row_visible_offset in
        let (tiles, shows) = draw_row_complete (cells vr) cols in
        (
          refl,
          runs-CoversRow vr (cells vr) cols 0 (draw_row (cells vr) cols) tiles shows,
          runs-Shows vr (cells vr) cols (draw_row (cells vr) cols) shows,
          draw_rows-AllRows cells cols row_top row_visible_offset rows (suc r),
        )
