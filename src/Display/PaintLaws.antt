-- ===== src/Display/PaintLaws.antt =====
-- The colors of src/display.c: they are there, the selection inverts them, and it ends where it should.
use runes.Shared.{
  ℕ, zero, suc, ◌<◌, ◌≡◌, ◌≢◌, Bool, true, false, not, ◌&&◌, ◌||◌, none, List, [], ◌∷◌, arith,
  get_elem?, length, ◌==◌, Bool-cases, inl, inr,
}
use runes.Shared.Int.{ℤ, ltb_ℤ, ◌≤ℤ◌, eq_of_parts}
use runes.Config.Types.{Cairo, Config}
use runes.Shared.Text.{Bytes}
use runes.Config.Options.{defaults}
use runes.Config.Args.{apply_all}
use runes.Config.Colors.{apply_all-colors_256}
use runes.Display.Location.{Loc, loc, eq_ℤ, is_before, loc_is_between, loc_is_between_lem}
use runes.Display.Selection.{Vt100, Selection, widen, loc_is_selected}
use runes.Display.Runs.{ColorKind, default_color, idx_color, rgb_color, Attrs, Cell}
use runes.Display.Paint.{xor, selection_crosses, pattern_of, bright_index, paint_colors}

-- An index that is a byte.
abbrev pub ByteColor : ColorKind → Type 0
ByteColor default_color = true ≡ true
ByteColor (idx_color i) = i < 256
ByteColor (rgb_color r g b) = true ≡ true

get_elem?-some : {A : Type 0} (xs : List A) (i : ℕ) → i < length xs → get_elem? xs i ≢ none
get_elem?-some [] i h = absurd (omega arith)
get_elem?-some (x ∷ xs) zero h = λ e. ground arith
get_elem?-some (x ∷ xs) (suc i) h = get_elem?-some xs i (omega arith)

-- Both columns lie in a stretch that an end is not in, so that it is behind both or behind neither.
same_side :
    (row c c' e : ℤ) (w : Loc)
    → c ≤ℤ c'
    → ltb_ℤ c' e ≡ true
    → loc_is_between w (loc row c) (loc row e) ≡ false
    → is_before (loc row c') w ≡ is_before (loc row c) w
same_side row c c' e w h k m = ground (arith, loc_is_between_lem w (loc row c) (loc row e))

never : (p : Bool) → (not p && p || not p && p) ≡ false
never p = ground arith

abbrev same_place : Loc → Loc → Bool
same_place a b = eq_ℤ a.row b.row && eq_ℤ a.col b.col

same_place-equal : (a b : Loc) → same_place a b ≡ true → a ≡ b
same_place-equal a b h =
    let rows : a.row ≡ b.row = eq_of_parts a.row b.row (ground arith) in
    let cols : a.col ≡ b.col = eq_of_parts a.col b.col (ground arith) in rw (rows, cols)

module _ (vt : Vt100) where
  open vt use {Screen, max_col}

  -- The same for an end as the selection's test takes it.
  same_side_widened :
      (scr : Screen) (row c c' e : ℤ) (w : Loc)
      → c ≤ℤ c'
      → ltb_ℤ c' e ≡ true
      → e ≤ℤ max_col scr
      → loc_is_between w (loc row c) (loc row e) ≡ false
      → is_before (loc row c') (widen vt scr (loc row c) w)
        ≡ is_before (loc row c) (widen vt scr (loc row c) w)
  same_side_widened scr row c c' e w h k m n =
      elim (Bool-cases (eq_ℤ row w.row && ltb_ℤ (vt.row_max_col scr w.row) w.col)) [
        | inl x ↦ rw x (ground arith)
        | inr x ↦ rw x (same_side row c c' e w h k n)
      ]

  between_nothing_empty : (l a : Loc) → loc_is_between l a a ≡ false
  between_nothing_empty l a = rw (loc_is_between_lem l a a) (never (is_before l a))

  whole_between :
      (scr : Screen) (row c c' e : ℤ) (a b : Loc)
      → c ≤ℤ c'
      → ltb_ℤ c' e ≡ true
      → e ≤ℤ max_col scr
      → loc_is_between a (loc row c) (loc row e) ≡ false
      → loc_is_between b (loc row c) (loc row e) ≡ false
      → loc_is_between (loc row c') (widen vt scr (loc row c) a) (widen vt scr (loc row c) b)
        ≡ loc_is_between (loc row c) (widen vt scr (loc row c) a) (widen vt scr (loc row c) b)
  whole_between scr row c c' e a b h k m na nb = rw (
    loc_is_between_lem (loc row c') (widen vt scr (loc row c) a) (widen vt scr (loc row c) b),
    loc_is_between_lem (loc row c) (widen vt scr (loc row c) a) (widen vt scr (loc row c) b),
    same_side_widened scr row c c' e a h k m na,
    same_side_widened scr row c c' e b h k m nb,
  )

  -- Where no end of the selection lies in a stretch of a row, the whole stretch is selected or none
  -- of it is.
  pub loc_is_selected-whole :
      (scr : Screen) (d : Selection) (row c c' e : ℤ)
      → c ≤ℤ c'
      → ltb_ℤ c' e ≡ true
      → e ≤ℤ max_col scr
      → selection_crosses d (loc row c) (loc row e) ≡ false
      → loc_is_selected vt scr d (loc row c') ≡ loc_is_selected vt scr d (loc row c)
  unfolding loc_is_selected selection_crosses
  loc_is_selected-whole scr d row c c' e h k m n = elim (Bool-cases d.has_selection) [
    | inr x ↦ rw x
    | inl x ↦ elim (Bool-cases (same_place d.selection_start d.selection_end)) [
      | inl same ↦ rw (
        x,
        same_place-equal d.selection_start d.selection_end same,
        between_nothing_empty (loc row c') (widen vt scr (loc row c) d.selection_end),
        between_nothing_empty (loc row c) (widen vt scr (loc row c) d.selection_end),
      )
      | inr differ ↦ rw x (
          whole_between scr row c c' e d.selection_start d.selection_end h k m (ground arith)
            (ground arith))
    ]
  ]

-- What the first cell of a run brings along is bytes.
abbrev pub ByteColors : List Cell → Type 0
ByteColors [] = true ≡ true
ByteColors (cell ∷ cells) = ByteColor cell.attrs.fgcolor × ByteColor cell.attrs.bgcolor

module _ (cairo : Cairo) (vt : Vt100) where
  open cairo use {Pattern}
  open vt use {Screen}

  pattern_of-there :
      (c : Config Pattern) (default : Pattern) (at : ℕ → ℕ) (kind : ColorKind)
      → length c.colors ≡ 256
      → ((i : ℕ) → i < 256 → at i < 256)
      → ByteColor kind
      → pattern_of cairo vt c default at kind ≢ none
  pattern_of-there c default at default_color h f k = λ e. ground arith
  pattern_of-there c default at (idx_color i) h f k =
      get_elem?-some c.colors (at i) (omega (arith, h, f i k))
  pattern_of-there c default at (rgb_color r g b) h f k = λ e. ground arith

  bright_index-byte :
      (c : Config Pattern) (attrs : Attrs) (i : ℕ) → i < 256 → bright_index cairo vt c attrs i < 256
  bright_index-byte c attrs i h = ground arith

  -- With 256 colors, whatever bytes a cell has for its colors, in bold or not, selected or not, both
  -- patterns are there.
  pub paint_colors-there :
      (c : Config Pattern) (selected : Bool) (cells : List Cell)
      → length c.colors ≡ 256
      → ByteColors cells
      → ((paint_colors cairo vt c selected cells).0 ≢ none)
        × ((paint_colors cairo vt c selected cells).1 ≢ none)
  unfolding paint_colors
  paint_colors-there c true [] h k = ((λ e. ground arith), (λ e. ground arith))
  paint_colors-there c false [] h k = ((λ e. ground arith), (λ e. ground arith))
  paint_colors-there c selected (cell ∷ cells) h (kf, kb) =
      let fg =
        pattern_of-there c c.fgdefault (bright_index cairo vt c cell.attrs) cell.attrs.fgcolor h
          (bright_index-byte c cell.attrs) kf in
      let bg = pattern_of-there c c.bgdefault (λ i. i) cell.attrs.bgcolor h (λ i l. l) kb in
      elim (Bool-cases (xor cell.attrs.inverse selected)) [
        | inr x ↦ rw x (bg, fg)
        | inl x ↦ elim (Bool-cases (cell.attrs.fg_id == cell.attrs.bg_id)) [
          | inl y ↦ rw (x, y) ((λ e. ground arith), (λ e. ground arith))
          | inr y ↦ rw (x, y) (fg, bg)
        ]
      ]

  -- Whatever options are applied to the defaults, and whatever bytes a cell has for its colors, in bold
  -- or not, selected or not: both patterns are there.
  pub applied_colors-there :
      (options : List (Bytes × Bytes)) (selected : Bool) (cells : List Cell)
      → ByteColors cells
      → ((paint_colors cairo vt (apply_all cairo (defaults cairo) options) selected cells).0 ≢ none)
        × ((paint_colors cairo vt (apply_all cairo (defaults cairo) options) selected cells).1
            ≢ none)
  applied_colors-there options selected cells k =
      paint_colors-there (apply_all cairo (defaults cairo) options) selected cells
        (apply_all-colors_256 cairo options) k
