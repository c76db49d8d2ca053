-- ===== src/Display/GlyphLaws.antt =====
-- The glyphs of src/display.c: each cell is shown at its columns, and the calls inside each other end.
use runes.Shared.{
  ℕ, suc, ◌+◌, ◌*◌, ◌≡◌, refl, ◌∙◌, ap, inl, inr, Bool, true, false, not, ◌&&◌, ◌||◌, Option, some,
  List, [], ◌∷◌, arith, length, ltb, Bool-cases,
}
use runes.Display.RunLaws.{total_width}
use runes.Display.Runs.{Attrs, Cell, cell_width}
use runes.Display.Glyphs.{
  Style, Pango, Font, Show, show_glyphs, show_layout, Drawn, shows, is_fast, text_of,
  glyphs_are_monospace, change_style, then_shows, then_draw, draw_each, show_text, draw_glyphs,
}
use runes.Display.GlyphSpec.{
  IsUtf8, AllUtf8, ShowsAt, as_glyphs, as_text, Placed, at_once, none_left, one_more, fast-GlyphsAt,
  fast, short,
}

more_than_one : (n : ℕ) → ltb 1 (suc (suc n)) ≡ true
more_than_one n = ground arith

and_right : (a b : Bool) → (a && b) ≡ true → b ≡ true
and_right true b h = h
and_right false b h = absurd (ground arith)

module _ (font : Font) (pango : Pango) (bold_is_bold : Bool) (row : ℕ) where
  abbrev drawn : ℕ → Style → ℕ → Cell → List Cell → Option Drawn
  drawn = draw_glyphs font pango bold_is_bold row

  fast_short :
      (attrs : Attrs) (cells : List Cell)
      → is_fast font pango bold_is_bold row attrs cells ≡ true
      → short font pango bold_is_bold row cells ≡ true
  fast_short attrs cells h =
      and_right (not (attrs.bold && bold_is_bold || (attrs.italic || attrs.underline)))
        (short font pango bold_is_bold row cells) h

  -- One cell is drawn by one call, with no call inside.
  one_cell :
      (fuel : ℕ) (style : Style) (col : ℕ) (cell : Cell)
      → length font.ascii_glyph_index_cache ≡ 128
      → IsUtf8 cell
      → (show : Show) × (style' : Style) × (drawn (suc fuel) style col cell []
          ≡ some (shows (show ∷ []) style'))
        × ShowsAt font pango bold_is_bold row col (cell ∷ []) show
  unfolding draw_glyphs
  one_cell fuel style col cell size legal =
      elim (Bool-cases (is_fast font pango bold_is_bold row cell.attrs (cell ∷ []))) [
        | inl e ↦
            let (glyphs, done, placed) =
              fast-GlyphsAt font pango bold_is_bold row [] col (cell ∷ []) style size (legal, refl)
                (fast_short cell.attrs (cell ∷ []) e) in
            (show_glyphs glyphs, style, rw e (ap some done), as_glyphs col cell [] glyphs e placed)
        | inr e ↦ (
          show_layout (col * font.fontx) (row * font.fonty)
              (change_style font pango bold_is_bold row cell.attrs style)
              (text_of font pango bold_is_bold row (cell ∷ [])),
          change_style font pango bold_is_bold row cell.attrs style,
          rw e refl,
          as_text col cell [] style (inl refl),
        )
      ]

  draw_each_one_more :
      (one : Style → ℕ → Cell → Option Drawn) (style style' style'' : Style) (col : ℕ) (cell : Cell)
      (cells : List Cell) (show : Show) (all : List Show)
      → one style col cell ≡ some (shows (show ∷ []) style')
      → draw_each font pango bold_is_bold row one style' (col + cell_width cell) cells
        ≡ some (shows all style'')
      → draw_each font pango bold_is_bold row one style col (cell ∷ cells)
        ≡ some (shows (show ∷ all) style'')
  draw_each_one_more one style style' style'' col cell cells show all h k =
      ap
        (λ o.
          then_draw font pango bold_is_bold row o
            (λ s. draw_each font pango bold_is_bold row one s (col + cell_width cell) cells))
        h
      ∙ ap (then_shows font pango bold_is_bold row (show ∷ [])) k

  draw_each-Placed :
      (fuel : ℕ) (style : Style) (col : ℕ) (cells : List Cell)
      → length font.ascii_glyph_index_cache ≡ 128
      → AllUtf8 cells
      → (all : List Show) × (style' : Style) × (draw_each font pango bold_is_bold row
            (λ s c one. drawn (suc fuel) s c one [])
            style
            col
            cells
          ≡ some (shows all style'))
        × Placed font pango bold_is_bold row col cells all
  draw_each-Placed fuel style col [] size legal = ([], style, refl, none_left col)
  draw_each-Placed fuel style col (cell ∷ cells) size (legal, others) =
      let (show, style', first, there) = one_cell fuel style col cell size legal in
      let (all, style'', rest, placed) =
        draw_each-Placed fuel style' (col + cell_width cell) cells size others in
      (
        show ∷ all,
        style'',
        draw_each_one_more (λ s c one. drawn (suc fuel) s c one []) style style' style'' col cell
            cells show all first rest,
        one_more col cell cells show all there placed,
      )

  abbrev fitting : Style → List Cell → Bool
  fitting style cells =
      glyphs_are_monospace font pango bold_is_bold row style
        (text_of font pango bold_is_bold row cells) (total_width cells)

  -- The three ways of a call.
  by_fast :
      (fuel : ℕ) (style : Style) (col : ℕ) (cell : Cell) (cells : List Cell)
      → is_fast font pango bold_is_bold row cell.attrs (cell ∷ cells) ≡ true
      → drawn (suc fuel) style col cell cells
        ≡ some (fast font pango bold_is_bold row [] col (cell ∷ cells) style)
  unfolding draw_glyphs
  by_fast fuel style col cell cells e = rw e refl

  by_text :
      (fuel : ℕ) (style : Style) (col : ℕ) (cell next : Cell) (cells : List Cell)
      → is_fast font pango bold_is_bold row cell.attrs (cell ∷ next ∷ cells) ≡ false
      → fitting style (cell ∷ next ∷ cells) ≡ true
      → drawn (suc fuel) style col cell (next ∷ cells)
        ≡ some (
            show_text font pango bold_is_bold row cell.attrs style col
              (text_of font pango bold_is_bold row (cell ∷ next ∷ cells)))
  unfolding draw_glyphs
  by_text fuel style col cell next cells e fits = rw (e, fits, more_than_one (length cells)) refl

  by_each :
      (fuel : ℕ) (style : Style) (col : ℕ) (cell next : Cell) (cells : List Cell)
      → is_fast font pango bold_is_bold row cell.attrs (cell ∷ next ∷ cells) ≡ false
      → fitting style (cell ∷ next ∷ cells) ≡ false
      → drawn (suc fuel) style col cell (next ∷ cells)
        ≡ draw_each font pango bold_is_bold row
            (λ s c one. drawn fuel s c one [])
            style
            col
            (cell ∷ next ∷ cells)
  unfolding draw_glyphs
  by_each fuel style col cell next cells e loose = rw (e, loose, more_than_one (length cells)) refl

  several :
      (fuel : ℕ) (style : Style) (col : ℕ) (cell next : Cell) (cells : List Cell)
      → length font.ascii_glyph_index_cache ≡ 128
      → AllUtf8 (cell ∷ next ∷ cells)
      → (all : List Show) × (style' : Style) × (drawn (suc (suc fuel)) style col cell (next ∷ cells)
          ≡ some (shows all style'))
        × Placed font pango bold_is_bold row col (cell ∷ next ∷ cells) all
  several fuel style col cell next cells size legal =
      elim (Bool-cases (is_fast font pango bold_is_bold row cell.attrs (cell ∷ next ∷ cells))) [
        | inl e ↦
            let (glyphs, done, placed) =
              fast-GlyphsAt font pango bold_is_bold row [] col (cell ∷ next ∷ cells) style size
                legal (fast_short cell.attrs (cell ∷ next ∷ cells) e) in
            (
              show_glyphs glyphs ∷ [],
              style,
              by_fast (suc fuel) style col cell (next ∷ cells) e ∙ ap some done,
              at_once col (cell ∷ next ∷ cells) (show_glyphs glyphs)
                  (as_glyphs col cell (next ∷ cells) glyphs e placed),
            )
        | inr e ↦ elim (Bool-cases (fitting style (cell ∷ next ∷ cells))) [
          | inl fits ↦ (
            _,
            change_style font pango bold_is_bold row cell.attrs style,
            by_text (suc fuel) style col cell next cells e fits,
            at_once col (cell ∷ next ∷ cells) _ (as_text col cell (next ∷ cells) style (inr fits)),
          )
          | inr loose ↦
              let (all, style', done, placed) =
                draw_each-Placed fuel style col (cell ∷ next ∷ cells) size legal in
              (all, style', by_each (suc fuel) style col cell next cells e loose ∙ done, placed)
        ]
      ]

  -- Cells of UTF-8 characters, with a cache of 128 entries, are shown each at its columns, in order, by
  -- calls that are at most two inside each other, and nothing outside the cache is read.
  pub draw_glyphs-Placed :
      (fuel : ℕ) (style : Style) (col : ℕ) (cell : Cell) (cells : List Cell)
      → length font.ascii_glyph_index_cache ≡ 128
      → AllUtf8 (cell ∷ cells)
      → (all : List Show) × (style' : Style) × (draw_glyphs font pango bold_is_bold row
            (suc (suc fuel))
            style
            col
            cell
            cells
          ≡ some (shows all style'))
        × Placed font pango bold_is_bold row col (cell ∷ cells) all
  draw_glyphs-Placed fuel style col cell [] size (legal, others) =
      let (show, style', done, there) = one_cell (suc fuel) style col cell size legal in
      (show ∷ [], style', done, at_once col (cell ∷ []) show there)
  draw_glyphs-Placed fuel style col cell (next ∷ cells) size legal =
      several fuel style col cell next cells size legal
