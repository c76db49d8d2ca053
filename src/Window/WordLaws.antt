-- ===== src/Window/WordLaws.antt =====
-- What the search for a word in src/window-xlib.c finds, and that it ends.
use runes.Shared.{
  ℕ, zero, suc, ◌+◌, ◌*◌, ◌≤◌, ◌<◌, ◌≡◌, refl, sym, ◌∙◌, ap, ◌⊎◌, inl, inr, Bool, true, false,
  Option, none, some, arith, Bool-cases,
}
use runes.Shared.Int.{ℤ, pos, pos_part, ltb_ℤ, ◌≤ℤ◌, ◌+ℤ◌, ◌-ℤ◌, -ℤ_parts, int_laws}
use runes.Display.Location.{Loc, loc}
use runes.Window.State.{ScreenLib, Characters}
use runes.Window.Word.{is_word_char, step_back, back_loop, back_fuel, to_loc, beginning_of_word}

-- Rows of so many columns.
pub row_above : (a b c : ℕ) → suc a ≡ b → a * c + c ≡ b * c
row_above a b c h = rw (sym h) (omega arith)

module _ (chars : Characters) (lib : ScreenLib) (scr : lib.vt.Screen) where
  abbrev columns : ℕ
  columns = pos_part (lib.vt.max_col scr)

  abbrev top : ℤ
  top = lib.row_top scr

  abbrev word : ℤ → ℤ → Bool
  word = is_word_char chars lib scr

  abbrev back : ℤ → ℤ → Option (ℤ × ℤ)
  back = step_back chars lib scr

  -- A cell of the grid, by its row from the top of the window.
  abbrev pub Inside : ℤ → ℤ → Type 0
  Inside row col =
      (pos 0 ≤ℤ row +ℤ lib.row_top scr) × (pos 0 ≤ℤ col) × (col +ℤ pos 1 ≤ℤ lib.vt.max_col scr)

  -- The cell before a cell, as text is read: to its left, or, from the first column, the last one of the
  -- row above in the grid, if that row goes on in this one.
  abbrev pub Before : ℤ → ℤ → ℤ → ℤ → Type 0
  Before row col row' col' =
      (pos 1 ≤ℤ col) × (row' ≡ row) × (col' ≡ col -ℤ pos 1)
      ⊎ (col ≡ pos 0)
        × (pos 1 ≤ℤ row +ℤ lib.row_top scr)
        × (lib.is_wrapped scr (row -ℤ pos 1 +ℤ lib.row_top scr) ≡ true)
        × (row' ≡ row -ℤ pos 1)
        × (col' ≡ lib.vt.max_col scr -ℤ pos 1)

  -- The first column, of the grid's first row or of one that does not continue the row above.
  abbrev pub LineStarts : ℤ → ℤ → Type 0
  LineStarts row col =
      (col ≡ pos 0)
      × ((row +ℤ lib.row_top scr ≡ pos 0)
          ⊎ (lib.is_wrapped scr (row -ℤ pos 1 +ℤ lib.row_top scr) ≡ false))

  -- From a cell back to another, over cells of a word, both ends included.
  pub data WordBack : ℤ → ℤ → ℤ → ℤ → Type 0 where
    here : (row col : ℤ) → is_word_char chars lib scr row col ≡ true → WordBack row col row col
    further :
        (row col row' col' r c : ℤ)
        → is_word_char chars lib scr row col ≡ true
        → Before row col row' col'
        → WordBack row' col' r c
        → WordBack row col r c

  -- No cell of the word is before it: the grid or the line starts, or another cell comes.
  abbrev pub Starts : ℤ → ℤ → Type 0
  Starts row col =
      LineStarts row col
      ⊎ ((row' col' : ℤ) × Before row col row' col'
          × (is_word_char chars lib scr row' col' ≡ false))

  abbrev rank : ℤ → ℤ → ℕ
  rank row col = pos_part (row +ℤ top) * columns + pos_part col

  -- What the two tests of the loop leave.
  is_first : (n : ℤ) → ltb_ℤ (n -ℤ pos 1) (pos 0) ≡ true → pos 0 ≤ℤ n → pos_part n ≡ 0
  is_first n e h = ground (arith, -ℤ_parts n (pos 1))

  not_first :
      (n : ℤ)
      → ltb_ℤ (n -ℤ pos 1) (pos 0) ≡ false
      → (pos 0 ≤ℤ n -ℤ pos 1) × (suc (pos_part (n -ℤ pos 1)) ≡ pos_part n)
  not_first n e = ground (arith, -ℤ_parts n (pos 1))

  one_less : (n : ℤ) → pos 1 ≤ℤ n → suc (pos_part (n -ℤ pos 1)) ≡ pos_part n
  one_less n h = ground (arith, -ℤ_parts n (pos 1))

  at_most : (n : ℤ) → ltb_ℤ (n -ℤ pos 1) (pos 0) ≡ true → n ≤ℤ pos 0
  at_most n e = ground (arith, -ℤ_parts n (pos 1))

  first_col : (n : ℤ) → ltb_ℤ (n -ℤ pos 1) (pos 0) ≡ true → pos 0 ≤ℤ n → n ≡ pos 0
  first_col n e h = let most : n ≤ℤ pos 0 = at_most n e in omega int_laws

  above : (row : ℤ) → row -ℤ pos 1 +ℤ top ≡ row +ℤ top -ℤ pos 1
  above row = omega int_laws

  first_row :
      (row : ℤ)
      → ltb_ℤ (row -ℤ pos 1 +ℤ top) (pos 0) ≡ true
      → pos 0 ≤ℤ row +ℤ top
      → row +ℤ top ≡ pos 0
  first_row row e h = first_col (row +ℤ top) (rw (sym (above row)) e) h

  last_above :
      (row col : ℤ)
      → suc (pos_part (row -ℤ pos 1 +ℤ top)) ≡ pos_part (row +ℤ top)
      → pos 1 ≤ℤ lib.vt.max_col scr
      → suc (rank (row -ℤ pos 1) (lib.vt.max_col scr -ℤ pos 1)) ≤ rank row col
  last_above row col h k = omega (
    arith,
    row_above (pos_part (row -ℤ pos 1 +ℤ top)) (pos_part (row +ℤ top)) columns h,
    one_less (lib.vt.max_col scr) k,
  )

  step_back-Inside :
      (row col : ℤ)
      → Inside row col
      → ((back row col ≡ none) × LineStarts row col)
        ⊎ ((row' col' : ℤ) × (back row col ≡ some (row', col'))
            × Before row col row' col'
            × Inside row' col'
            × (suc (rank row' col') ≤ rank row col))
  unfolding step_back
  step_back-Inside row col (low, left, right) = elim (Bool-cases (ltb_ℤ (col -ℤ pos 1) (pos 0))) [
    | inr e ↦
        let (left', less) = not_first col e in
        inr (
          row,
          col -ℤ pos 1,
          rw e refl,
          inl (omega int_laws, refl, refl),
          (low, left', omega int_laws),
          omega (arith, less),
        )
    | inl e ↦
        let first = first_col col e left in
        elim (Bool-cases (ltb_ℤ (row -ℤ pos 1 +ℤ top) (pos 0))) [
          | inl e2 ↦ inl (rw (e, e2) refl, (first, inl (first_row row e2 low)))
          | inr e2 ↦ elim (Bool-cases (lib.is_wrapped scr (row -ℤ pos 1 +ℤ top))) [
            | inr e3 ↦ inl (rw (e, e2, e3) refl, (first, inr e3))
            | inl e3 ↦
                let (low', less) = not_first (row +ℤ top) (rw (sym (above row)) e2) in
                inr (
                  row -ℤ pos 1,
                  lib.vt.max_col scr -ℤ pos 1,
                  rw (e, e2, e3) refl,
                  inr (first, omega int_laws, e3, refl, refl),
                  (rw (above row) low', omega int_laws, omega int_laws),
                  last_above row col (rw (above row) less) (omega int_laws),
                )
          ]
        ]
  ]

  -- The loop ends, on a cell before or on the one that it came from.
  abbrev Found : Option (ℤ × ℤ) → ℤ → ℤ → Type 0
  Found done row col =
      (r : ℤ) × (c : ℤ) × (done ≡ some (r, c)) × WordBack row col r c × Starts r c × Inside r c

  abbrev loop : ℕ → ℤ → ℤ → ℤ → ℤ → Option (ℤ × ℤ)
  loop = back_loop chars lib scr

  back_loop_lem :
      (fuel : ℕ) (row col prev_row prev_col : ℤ)
      → Inside row col
      → rank row col < fuel
      → ((word row col ≡ false) × (loop fuel row col prev_row prev_col ≡ some (prev_row, prev_col)))
        ⊎ Found (loop fuel row col prev_row prev_col) row col
  unfolding back_loop
  back_loop_lem zero row col prev_row prev_col inside enough = absurd (omega arith)
  back_loop_lem (suc fuel) row col prev_row prev_col inside enough =
      elim (Bool-cases (word row col)) [
        | inr e ↦ inl (e, rw e refl)
        | inl e ↦ elim (step_back-Inside row col inside) [
          | inl (stops, starts) ↦
              inr (row, col, rw (e, stops) refl, here row col e, inl starts, inside)
          | inr (row', col', goes, before, inside', less) ↦
              elim (back_loop_lem fuel row' col' row col inside' (omega arith)) [
                | inl (other, done) ↦ inr (
                  row,
                  col,
                  rw (e, goes, done) refl,
                  here row col e,
                  inr (row', col', before, other),
                  inside,
                )
                | inr (r, c, done, chain, starts, within) ↦ inr (
                  r,
                  c,
                  rw (e, goes, done) refl,
                  further row col row' col' r c e before chain,
                  starts,
                  within,
                )
              ]
        ]
      ]

  from_top : (l : Loc) → loc (l.row -ℤ top +ℤ top) l.col ≡ l
  from_top l = let same : l.row -ℤ top +ℤ top ≡ l.row = omega int_laws in ap (λ r. loc r l.col) same

  -- For a location of the grid the search backwards ends: on the location itself, if it is not of a
  -- word; and otherwise on a cell of the grid that is reached over cells of the word only, each from
  -- the one on its right or, over the end of a row, from the first of the row that continues it; and
  -- before which there is a cell that is not of the word, or no cell: it is the first of a row that
  -- continues no other, or of the grid.
  pub beginning_of_word_lem :
      (l : Loc)
      → pos 0 ≤ℤ l.row
      → pos 0 ≤ℤ l.col
      → l.col +ℤ pos 1 ≤ℤ lib.vt.max_col scr
      → ((is_word_char chars lib scr (l.row -ℤ lib.row_top scr) l.col ≡ false)
          × (beginning_of_word chars lib scr l ≡ some l))
        ⊎ ((r c : ℤ) × (beginning_of_word chars lib scr l ≡ some (loc (r +ℤ lib.row_top scr) c))
            × WordBack (l.row -ℤ lib.row_top scr) l.col r c
            × Starts r c
            × Inside r c)
  unfolding beginning_of_word
  beginning_of_word_lem l low left right =
      let row = l.row -ℤ top in
      let same : row +ℤ top ≡ l.row = omega int_laws in
      let enough : rank row l.col < back_fuel chars lib scr l = rw same (omega arith) in
      elim (back_loop_lem (back_fuel chars lib scr l) row l.col row l.col (rw same low, left, right)
        enough) [
          | inl (other, done) ↦ inl (other, ap (to_loc chars lib scr) done ∙ ap some (from_top l))
          | inr (r, c, done, chain, starts, within) ↦
              inr (r, c, ap (to_loc chars lib scr) done, chain, starts, within)
        ]
