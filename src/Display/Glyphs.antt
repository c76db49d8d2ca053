-- ===== src/Display/Glyphs.antt =====
-- The glyphs of src/display.c: `runes_display_draw_glyphs` with its two ways, `_fast` and `_slow`, as the
-- list of what they show. What a text looks like and how big it is are pango's to say.
use runes.Shared.{
  ℕ, zero, suc, ◌+◌, ◌*◌, Bool, true, false, not, ◌&&◌, ◌||◌, Option, none, some, List, [], ◌∷◌,
  ◌++◌, take, length, get_or, get_elem?, ltb, ◌==◌, if◌then◌else◌,
}
use runes.Shared.Int.{ℤ, pos, ◌-ℤ◌}
use runes.Shared.Text.{Bytes}
use runes.Display.RunLaws.{total_width}
use runes.Display.Runs.{Attrs, Cell, cell_width}

-- The attributes that the layout's list holds; each text is shown in those that it has then.
pub record Style : Type 0 where
  pub bold : Bool
  pub italic : Bool
  pub underline : Bool

-- pango's measures of the layout that holds a text.
pub record Pango : Type 0 where
  pub unknown_glyphs_count : Style → Bytes → ℕ
  pub pixel_size : Style → Bytes → ℕ × ℕ

-- The fields of struct runes_display that draw glyphs; the cache has an entry for each ASCII
-- character.
pub record Font : Type 0 where
  pub fontx : ℕ
  pub fonty : ℕ
  pub font_descent : ℕ
  pub ascii_glyph_index_cache : List ℕ

-- cairo_glyph_t
pub record Glyph : Type 0 where
  pub index : ℕ
  pub x : ℕ
  pub y : ℤ

pub data Show : Type 0 where
  show_glyphs : List Glyph → Show
  show_layout : ℕ → ℕ → Style → Bytes → Show

-- What was shown, with the layout's attributes after it, or a read outside the cache.
pub data Drawn : Type 0 where
  shows : List Show → Style → Drawn
  outside_cache : Drawn

-- The entry of the cache for a cell; nothing where there is none. A char from 128 on is negative.
pub data Entry : Type 0 where
  entry : ℕ → Entry
  not_ascii outside : Entry

abbrev pub in_cache : Option ℕ → Entry
in_cache none = outside
in_cache (some g) = entry g

unfoldable pub cache_entry : List ℕ → Cell → Entry
cache_entry cache cell =
    if cell.len == 0
    then in_cache (get_elem? cache 32)
    else if cell.len == 1
    then in_cache (get_elem? cache (get_or cell.contents 0 0))
    else not_ascii

module _ (font : Font) (pango : Pango) (bold_is_bold : Bool) (row : ℕ) where
  abbrev pub glyph_at : ℕ → ℕ → Glyph
  glyph_at col g = record {
    index = g;
    x = col * font.fontx;
    y = pos ((row + 1) * font.fonty) -ℤ pos font.font_descent;
  }

  -- The loop that fills glyph_buf, at column col + i, and the call behind it.
  unfoldable pub draw_glyphs_fast : List Glyph → ℕ → List Cell → Style → Drawn
  draw_glyphs_fast buf col [] style = shows (show_glyphs buf ∷ []) style
  draw_glyphs_fast buf col (cell ∷ cells) style =
      let rest : ℕ → Drawn =
        λ g. draw_glyphs_fast (buf ++ (glyph_at col g ∷ [])) (col + 1) cells style in
      elim (cache_entry font.ascii_glyph_index_cache cell) [
        | entry g ↦ rest g
        | not_ascii ↦ shows [] style
        | outside ↦ outside_cache
      ]

  abbrev pub all_short : List Cell → Bool
  all_short [] = true
  all_short (cell ∷ cells) = if ltb 1 cell.len then false else all_short cells

  -- Only the normal font, and ASCII characters.
  abbrev pub is_fast : Attrs → List Cell → Bool
  is_fast attrs cells =
      not (attrs.bold && bold_is_bold || (attrs.italic || attrs.underline)) && all_short cells

  abbrev pub text_of : List Cell → Bytes
  text_of [] = []
  text_of (cell ∷ cells) = take cell.len cell.contents ++ text_of cells

  unfoldable pub glyphs_are_monospace : Style → Bytes → ℕ → Bool
  glyphs_are_monospace style text width =
      let (w, h) = pango.pixel_size style text in
      if ltb 0 (pango.unknown_glyphs_count style text)
      then false
      else if not (w == font.fontx * width)
      then false
      else h == font.fonty

  abbrev pub change_style : Attrs → Style → Style
  change_style attrs style = record {
    bold = if bold_is_bold then attrs.bold else style.bold;
    italic = attrs.italic;
    underline = attrs.underline;
  }

  abbrev pub before : List Show → Drawn → Drawn
  before first outside_cache = outside_cache
  before first (shows others style) = shows (first ++ others) style

  abbrev pub then_shows : List Show → Option Drawn → Option Drawn
  then_shows first none = none
  then_shows first (some drawn) = some (before first drawn)

  -- What is drawn first, and the rest with the attributes that it leaves.
  abbrev pub then_draw : Option Drawn → (Style → Option Drawn) → Option Drawn
  then_draw none rest = none
  then_draw (some outside_cache) rest = some outside_cache
  then_draw (some (shows first style)) rest = then_shows first (rest style)

  -- The recursive calls, one for each cell, at the cell's column.
  abbrev pub draw_each : (Style → ℕ → Cell → Option Drawn) → Style → ℕ → List Cell → Option Drawn
  draw_each one style col [] = some (shows [] style)
  draw_each one style col (cell ∷ cells) =
      then_draw (one style col cell) (λ s. draw_each one s (col + cell_width cell) cells)

  abbrev pub show_text : Attrs → Style → ℕ → Bytes → Drawn
  show_text attrs style col text =
      shows (show_layout (col * font.fontx) (row * font.fonty) (change_style attrs style) text ∷ [])
        (change_style attrs style)

  -- Of at least one cell. The fuel counts the calls inside each other.
  unfoldable pub draw_glyphs : ℕ → Style → ℕ → Cell → List Cell → Option Drawn
  unfolding draw_glyphs_fast glyphs_are_monospace
  draw_glyphs zero style col cell cells = none
  draw_glyphs (suc fuel) style col cell cells =
      let each = draw_each (λ s c one. draw_glyphs fuel s c one []) style col (cell ∷ cells) in
      let text = text_of (cell ∷ cells) in
      if is_fast cell.attrs (cell ∷ cells)
      then some (draw_glyphs_fast [] col (cell ∷ cells) style)
      else if ltb 1 (length (cell ∷ cells))
          && not (glyphs_are_monospace style text (total_width (cell ∷ cells)))
      then each
      else some (show_text cell.attrs style col text)
