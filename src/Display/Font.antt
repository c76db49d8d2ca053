-- ===== src/Display/Font.antt =====
-- The font of a display in src/display.c: `runes_display_load_font`, and the cache of glyphs that
-- `runes_display_set_context` fills. What pango measures and which glyphs it finds are parameters.
use runes.Shared.{ℕ, zero, suc, ◌+◌, ◌/◌, Bool, List, [], ◌∷◌, set, replicate, if◌then◌else◌, false}
use runes.Shared.Text.{Bytes}
use runes.Display.Glyphs.{Font}

-- PangoFontMetrics, in pango's units, of which a pixel has 1024.
pub record Metrics : Type 0 where
  pub approximate_digit_width : ℕ
  pub ascent : ℕ
  pub descent : ℕ

-- PANGO_PIXELS
abbrev pub pango_pixels : ℕ → ℕ
pango_pixels d = (d + 512) / 1024

abbrev pub load_font : Metrics → Font → Font
load_font m font = record font {
  fontx = pango_pixels m.approximate_digit_width;
  fonty = pango_pixels (m.ascent + m.descent);
  font_descent = pango_pixels m.descent;
}

-- The loop over the characters from i on; the glyph of a text of one character is its first run's.
unfoldable pub fill_cache : (Bytes → ℕ) → ℕ → ℕ → List ℕ → List ℕ
fill_cache glyph_of zero i cache = cache
fill_cache glyph_of (suc fuel) i cache =
    fill_cache glyph_of fuel (suc i) (set cache i (glyph_of (i ∷ [])))

-- A display that has a layout keeps its cache.
unfoldable pub set_context : (Bytes → ℕ) → Bool → Font → Font
unfolding fill_cache
set_context glyph_of has_layout font =
    if has_layout
    then font
    else record font { ascii_glyph_index_cache = fill_cache glyph_of 96 32 (replicate 128 0) }

-- The display of a new terminal: `runes_display_new` and the context that the window brings.
abbrev pub new_font : Metrics → (Bytes → ℕ) → Font
new_font m glyph_of =
    set_context glyph_of false (
      load_font m (record { fontx = 0; fonty = 0; font_descent = 0; ascii_glyph_index_cache = [] }))
