-- ===== src/Display/Runs.antt =====
-- `runes_display_continue_string` and the loop over one row in `runes_display_draw_screen` of
-- src/display.c: the calls of runes_display_draw_string that it makes, in order.
use runes.Shared.{
  ℕ, zero, suc, ◌+◌, ◌-◌, Bool, true, false, ◌&&◌, ◌||◌, Option, none, some, List, [], ◌∷◌, ◌++◌,
  ltb, ◌==◌, if◌then◌else◌,
}
use runes.Shared.Text.{Bytes}

-- struct vt100_cell as far as the program reads it. The numbers are the bit fields that a color or
-- a set of attributes is compared by.
pub data ColorKind : Type 0 where
  default_color : ColorKind
  idx_color : ℕ → ColorKind
  rgb_color : ℕ → ℕ → ℕ → ColorKind

pub record Attrs : Type 0 where
  pub fg_id : ℕ
  pub bg_id : ℕ
  pub attr_bits : ℕ
  pub fgcolor : ColorKind
  pub bgcolor : ColorKind
  pub bold : Bool
  pub italic : Bool
  pub underline : Bool
  pub inverse : Bool

pub record Cell : Type 0 where
  pub contents : Bytes
  pub len : ℕ
  pub is_wide : Bool
  pub attrs : Attrs

abbrev pub cell_width : Cell → ℕ
cell_width cell = if cell.is_wide then 2 else 1

-- Bitwise or of differences is 0 when each of them is.
abbrev pub same_attrs : Attrs → Attrs → Bool
same_attrs a b = a.fg_id == b.fg_id && (a.bg_id == b.bg_id && a.attr_bits == b.attr_bits)

abbrev pub continue_string : Option Cell → Cell → Bool
continue_string none new = true
continue_string (some old) new =
    if old.len == 0 || new.len == 0 then false else same_attrs old.attrs new.attrs

-- A call of runes_display_draw_string, in its row.
pub record Draw : Type 0 where
  pub start : ℕ
  pub width : ℕ
  pub cells : List Cell

abbrev pub draw : ℕ → ℕ → List Cell → Draw
draw s w cs = record { start = s; width = w; cells = cs }

-- A row of the grid by its columns.
module _ (row : ℕ → Cell) (cols : ℕ) where
  -- The inner loop: the next column that is not empty, within some columns.
  unfoldable pub skip_empty : ℕ → ℕ → ℕ
  skip_empty zero c = c
  skip_empty (suc fuel) c =
      let rest = skip_empty fuel (suc c) in
      if ltb c cols then (if (row c).len == 0 then rest else c) else c

  -- The cell that is looked at last by the inner loop when it ends at e.
  abbrev pub last_seen : ℕ → Cell
  last_seen e = if ltb e cols then row e else row (e - 1)

  -- What a run that is left draws: itself, and a run with no cells if empty columns follow.
  abbrev pub flush_run : ℕ → ℕ → ℕ → List Cell → List Draw
  flush_run start c e cells =
      draw start (c - start) cells ∷ (if ltb c e then draw c (e - c) [] ∷ [] else [])

  -- The outer loop from column c, with the run that began at `start` and its cells so far.
  unfoldable pub row_loop : ℕ → ℕ → ℕ → Option Cell → List Cell → List Draw
  unfolding skip_empty
  row_loop zero c start prev cells = draw start (cols - start) cells ∷ []
  row_loop (suc fuel) c start prev cells =
      let e = skip_empty cols c in
      let same =
        row_loop fuel (c + cell_width (row c)) start (some (row c)) (cells ++ (row c ∷ [])) in
      let other =
        row_loop fuel (e + cell_width (last_seen e)) e (some (last_seen e)) (last_seen e ∷ []) in
      if ltb c cols
      then (if continue_string prev (row c) then same else flush_run start c e cells ++ other)
      else draw start (cols - start) cells ∷ []

  unfoldable pub draw_row : List Draw
  unfolding row_loop
  draw_row = row_loop cols 0 0 none []
