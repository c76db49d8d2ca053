-- ===== src/Display/GlyphSpec.antt =====
-- What it is for calls of cairo and pango to show the cells of a row at their columns, for src/display.c;
-- and the fast way, which fills the buffer of glyphs.
use runes.Shared.{
  ℕ, zero, suc, ◌+◌, ◌*◌, ◌<◌, ◌≡◌, refl, sym, ◌∙◌, ap, ◌⊎◌, inl, inr, Bool, true, false, some,
  List, [], ◌∷◌, ◌++◌, arith, append_assoc, append-nil, length, get_or, get_elem?, ltb, ◌==◌,
  Bool-cases,
}
use runes.Display.RunLaws.{total_width}
use runes.Display.Runs.{Cell, cell_width}
use runes.Display.Glyphs.{
  Style, Pango, Font, Glyph, Show, show_glyphs, show_layout, Drawn, shows, entry, cache_entry,
  glyph_at, draw_glyphs_fast, all_short, is_fast, text_of, glyphs_are_monospace, change_style,
}

-- What UTF-8 gives: a character of one byte is ASCII, and a wide one has more bytes.
abbrev pub IsUtf8 : Cell → Type 0
IsUtf8 cell = (cell.len ≡ 1 → get_or cell.contents 0 0 < 128) × (cell.is_wide ≡ true → 1 < cell.len)

abbrev pub AllUtf8 : List Cell → Type 0
AllUtf8 [] = true ≡ true
AllUtf8 (cell ∷ cells) = IsUtf8 cell × AllUtf8 cells

get_elem?_there {ℓ} :
    {A : Type ℓ} (xs : List A) (i : ℕ) → i < length xs → (x : A) × (get_elem? xs i ≡ some x)
get_elem?_there [] i h = absurd (omega arith)
get_elem?_there (x ∷ xs) zero h = (x, refl)
get_elem?_there (x ∷ xs) (suc i) h = get_elem?_there xs i (omega arith)

cache_entry_there :
    (cache : List ℕ) (cell : Cell)
    → length cache ≡ 128
    → IsUtf8 cell
    → ltb 1 cell.len ≡ false
    → (g : ℕ) × (cache_entry cache cell ≡ entry g)
unfolding cache_entry
cache_entry_there cache cell size (ascii, wide) short = elim (Bool-cases (cell.len == 0)) [
  | inl e ↦ let (g, there) = get_elem?_there cache 32 (omega arith) in (g, rw (e, there) refl)
  | inr e ↦
      let one : cell.len ≡ 1 = ground arith in
      let e2 : (cell.len == 1) ≡ true = ground arith in
      let (g, there) =
        get_elem?_there cache (get_or cell.contents 0 0) (omega (arith, ascii one)) in
      (g, rw (e, e2, there) refl)
]

narrow : (cell : Cell) → IsUtf8 cell → ltb 1 cell.len ≡ false → cell_width cell ≡ 1
narrow cell (ascii, wide) short = elim (Bool-cases cell.is_wide) [
  | inl e ↦ let more = wide e in absurd (ground arith)
  | inr e ↦ rw e refl
]

module _ (font : Font) (pango : Pango) (bold_is_bold : Bool) (row : ℕ) where
  -- The glyphs of cells, from a column on.
  pub data GlyphsAt : ℕ → List Cell → List Glyph → Type 0 where
    no_glyphs : (col : ℕ) → GlyphsAt col [] []
    glyph :
        (col g : ℕ) (cell : Cell) (cells : List Cell) (glyphs : List Glyph)
        → cache_entry font.ascii_glyph_index_cache cell ≡ entry g
        → GlyphsAt (col + cell_width cell) cells glyphs
        → GlyphsAt col (cell ∷ cells) (glyph_at font pango bold_is_bold row col g ∷ glyphs)

  -- One call shows cells, at their column: as glyphs of the cache, if they are in the normal font; or
  -- as a text in the attributes of the first, which is one cell's or is as wide as its cells.
  pub data ShowsAt : ℕ → List Cell → Show → Type 0 where
    as_glyphs :
        (col : ℕ) (cell : Cell) (cells : List Cell) (glyphs : List Glyph)
        → is_fast font pango bold_is_bold row cell.attrs (cell ∷ cells) ≡ true
        → GlyphsAt col (cell ∷ cells) glyphs
        → ShowsAt col (cell ∷ cells) (show_glyphs glyphs)
    as_text :
        (col : ℕ) (cell : Cell) (cells : List Cell) (style : Style)
        → (cells ≡ [])
          ⊎ (glyphs_are_monospace font pango bold_is_bold row style
                (text_of font pango bold_is_bold row (cell ∷ cells))
                (total_width (cell ∷ cells))
              ≡ true)
        → ShowsAt col (cell ∷ cells) (
            show_layout
              (col * font.fontx)
              (row * font.fonty)
              (change_style font pango bold_is_bold row cell.attrs style)
              (text_of font pango bold_is_bold row (cell ∷ cells)))

  -- The calls show the cells all at once, or one after the other.
  pub data Placed : ℕ → List Cell → List Show → Type 0 where
    at_once :
        (col : ℕ) (cells : List Cell) (show : Show)
        → ShowsAt col cells show
        → Placed col cells (show ∷ [])
    none_left : (col : ℕ) → Placed col [] []
    one_more :
        (col : ℕ) (cell : Cell) (cells : List Cell) (show : Show) (others : List Show)
        → ShowsAt col (cell ∷ []) show
        → Placed (col + cell_width cell) cells others
        → Placed col (cell ∷ cells) (show ∷ others)

  abbrev pub fast : List Glyph → ℕ → List Cell → Style → Drawn
  fast = draw_glyphs_fast font pango bold_is_bold row

  abbrev pub short : List Cell → Bool
  short = all_short font pango bold_is_bold row

  pub fast-GlyphsAt :
      (buf : List Glyph) (col : ℕ) (cells : List Cell) (style : Style)
      → length font.ascii_glyph_index_cache ≡ 128
      → AllUtf8 cells
      → short cells ≡ true
      → (glyphs : List Glyph) × (fast buf col cells style
          ≡ shows (show_glyphs (buf ++ glyphs) ∷ []) style)
        × GlyphsAt col cells glyphs
  unfolding draw_glyphs_fast
  fast-GlyphsAt buf col [] style size legal h =
      ([], ap (λ gs. shows (show_glyphs gs ∷ []) style) (sym (append-nil buf)), no_glyphs col)
  fast-GlyphsAt buf col (cell ∷ cells) style size (legal, others) h =
      elim (Bool-cases (ltb 1 cell.len)) [
        | inl e ↦ absurd (ground arith)
        | inr e ↦
            let (g, there) = cache_entry_there font.ascii_glyph_index_cache cell size legal e in
            let width = narrow cell legal e in
            let at = glyph_at font pango bold_is_bold row col g in
            let (glyphs, drawn, placed) =
              fast-GlyphsAt (buf ++ (at ∷ [])) (col + 1) cells style size others (rw e at h) in
            (
              at ∷ glyphs,
              rw (draw_glyphs_fast, there)
                  (drawn
                    ∙ ap (λ gs. shows (show_glyphs gs ∷ []) style)
                        (append_assoc buf (at ∷ []) glyphs)),
              glyph col g cell cells glyphs there (rw width placed),
            )
      ]
