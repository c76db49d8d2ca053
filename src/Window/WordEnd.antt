-- ===== src/Window/WordEnd.antt =====
-- What the search for the end of a word in src/window-xlib.c finds, and that it ends.
use runes.Shared.{
  ℕ, zero, suc, ◌+◌, ◌*◌, ◌≤◌, ◌<◌, ◌≡◌, refl, ap, ◌⊎◌, inl, inr, Bool, true, false, some, arith,
  Bool-cases,
}
use runes.Shared.Int.{ℤ, pos, pos_part, ◌≤ℤ◌, ◌+ℤ◌, ◌-ℤ◌, +ℤ_parts, -ℤ_parts, int_laws}
use runes.Display.Location.{Loc, loc, leb_ℤ}
use runes.Window.State.{ScreenLib, Characters}
use runes.Window.Word.{
  is_word_char, Forward, goes_on, breaks_at, step_forward, forward_loop, forward_fuel, to_loc,
  end_of_word,
}
use runes.Window.WordLaws.{row_above}

module _ (chars : Characters) (lib : ScreenLib) (scr : lib.vt.Screen) where
  abbrev columns : ℕ
  columns = pos_part (lib.vt.max_col scr)

  abbrev top : ℤ
  top = lib.row_top scr

  abbrev word : ℤ → ℤ → Bool
  word = is_word_char chars lib scr

  abbrev forward : ℤ → ℤ → Forward chars lib scr
  forward = step_forward chars lib scr

  -- The cell behind a cell, as text is read: to its right, or, from the last column, the first one of
  -- the row below in the window, if this row goes on in it.
  abbrev pub After : ℤ → ℤ → ℤ → ℤ → Type 0
  After row col row' col' =
      (col +ℤ pos 1 +ℤ pos 1 ≤ℤ lib.vt.max_col scr) × (row' ≡ row) × (col' ≡ col +ℤ pos 1)
      ⊎ (col +ℤ pos 1 ≡ lib.vt.max_col scr)
        × (lib.is_wrapped scr (row +ℤ lib.row_top scr) ≡ true)
        × (row +ℤ pos 1 +ℤ pos 1 ≤ℤ lib.max_row scr)
        × (row' ≡ row +ℤ pos 1)
        × (col' ≡ pos 0)

  -- At the last column the line ends behind the cell if the row does not go on, and one row below that
  -- if it does and is the window's last.
  abbrev pub LineEnds : ℤ → ℤ → ℤ → ℤ → Type 0
  LineEnds row col r c =
      (col +ℤ pos 1 ≡ lib.vt.max_col scr)
      × (c ≡ col +ℤ pos 1)
      × ((lib.is_wrapped scr (row +ℤ lib.row_top scr) ≡ false) × (r ≡ row)
          ⊎ (lib.is_wrapped scr (row +ℤ lib.row_top scr) ≡ true)
            × (row +ℤ pos 1 ≡ lib.max_row scr)
            × (r ≡ row +ℤ pos 1))

  -- From a cell to the end of its word: the first cell that is not of it, or where the line ends.
  pub data WordForward : ℤ → ℤ → ℤ → ℤ → Type 0 where
    stops : (row col : ℤ) → is_word_char chars lib scr row col ≡ false → WordForward row col row col
    line_ends :
        (row col r c : ℤ)
        → is_word_char chars lib scr row col ≡ true
        → LineEnds row col r c
        → WordForward row col r c
    further :
        (row col row' col' r c : ℤ)
        → is_word_char chars lib scr row col ≡ true
        → After row col row' col'
        → WordForward row' col' r c
        → WordForward row col r c

  -- A cell above the window's bottom.
  abbrev Within : ℤ → ℤ → Type 0
  Within row col =
      (row +ℤ pos 1 ≤ℤ lib.max_row scr) × (pos 0 ≤ℤ col) × (col +ℤ pos 1 ≤ℤ lib.vt.max_col scr)

  -- The end of a word is one column further at most, and one row.
  abbrev pub Near : ℤ → ℤ → Type 0
  Near r c = (r ≤ℤ lib.max_row scr) × (pos 0 ≤ℤ c) × (c ≤ℤ lib.vt.max_col scr)

  -- The cells to come, and a row more.
  abbrev rest : ℤ → ℤ → ℕ
  rest row col = pos_part (lib.max_row scr -ℤ row) * columns + pos_part (lib.vt.max_col scr -ℤ col)

  not_last :
      (size n : ℤ)
      → n +ℤ pos 1 ≤ℤ size
      → leb_ℤ size (n +ℤ pos 1) ≡ false
      → (n +ℤ pos 1 +ℤ pos 1 ≤ℤ size)
        × (suc (pos_part (size -ℤ (n +ℤ pos 1))) ≡ pos_part (size -ℤ n))
  not_last size n h e = ground (
    arith,
    +ℤ_parts n (pos 1),
    +ℤ_parts (n +ℤ pos 1) (pos 1),
    -ℤ_parts size n,
    -ℤ_parts size (n +ℤ pos 1),
  )

  leb_ℤ→le : (m n : ℤ) → leb_ℤ m n ≡ true → m ≤ℤ n
  leb_ℤ→le m n e = ground arith

  is_last : (size n : ℤ) → n +ℤ pos 1 ≤ℤ size → leb_ℤ size (n +ℤ pos 1) ≡ true → n +ℤ pos 1 ≡ size
  is_last size n h e =
      let most : size ≤ℤ n +ℤ pos 1 = leb_ℤ→le size (n +ℤ pos 1) e in omega int_laws

  all_columns :
      (size col : ℤ)
      → pos 0 ≤ℤ col
      → col +ℤ pos 1 ≤ℤ size
      → (pos_part (size -ℤ pos 0) ≡ pos_part size) × (1 ≤ pos_part (size -ℤ col)) × (pos 1 ≤ℤ size)
  all_columns size col h k =
      ground (arith, -ℤ_parts size (pos 0), -ℤ_parts size col, +ℤ_parts col (pos 1))

  one_column :
      (row col : ℤ)
      → Within row col
      → leb_ℤ (lib.vt.max_col scr) (col +ℤ pos 1) ≡ false
      → Within row (col +ℤ pos 1) × (suc (rest row (col +ℤ pos 1)) ≤ rest row col)
  one_column row col (low, left, right) e =
      let (right', less) = not_last (lib.vt.max_col scr) col right e in
      ((low, omega int_laws, right'), omega (arith, less))

  one_row :
      (row col : ℤ)
      → Within row col
      → leb_ℤ (lib.max_row scr) (row +ℤ pos 1) ≡ false
      → Within (row +ℤ pos 1) (pos 0) × (suc (rest (row +ℤ pos 1) (pos 0)) ≤ rest row col)
  one_row row col (low, left, right) e =
      let (low', less) = not_last (lib.max_row scr) row low e in
      let (all, some_left, has_column) = all_columns (lib.vt.max_col scr) col left right in
      (
        (low', omega arith, omega (int_laws, has_column)),
        omega (
          arith,
          all,
          some_left,
          row_above (pos_part (lib.max_row scr -ℤ (row +ℤ pos 1)))
              (pos_part (lib.max_row scr -ℤ row)) columns less,
        ),
      )

  step_forward-Within :
      (row col : ℤ)
      → Within row col
      → ((r c : ℤ) × (forward row col ≡ breaks_at r c) × LineEnds row col r c × Near r c)
        ⊎ ((row' col' : ℤ) × (forward row col ≡ goes_on row' col')
            × After row col row' col'
            × Within row' col'
            × (suc (rest row' col') ≤ rest row col))
  unfolding step_forward
  step_forward-Within row col (low, left, right) =
      elim (Bool-cases (leb_ℤ (lib.vt.max_col scr) (col +ℤ pos 1))) [
        | inr e ↦
            let (within, less) = one_column row col (low, left, right) e in
            inr (row, col +ℤ pos 1, rw e refl, inl (within.2, refl, refl), within, less)
        | inl e ↦
            let last = is_last (lib.vt.max_col scr) col right e in
            elim (Bool-cases (lib.is_wrapped scr (row +ℤ top))) [
              | inr e2 ↦ inl (
                row,
                col +ℤ pos 1,
                rw (e, e2) refl,
                (last, refl, inl (e2, refl)),
                (omega int_laws, omega int_laws, right),
              )
              | inl e2 ↦ elim (Bool-cases (leb_ℤ (lib.max_row scr) (row +ℤ pos 1))) [
                | inl e3 ↦ inl (
                  row +ℤ pos 1,
                  col +ℤ pos 1,
                  rw (e, e2, e3) refl,
                  (last, refl, inr (e2, is_last (lib.max_row scr) row low e3, refl)),
                  (low, omega int_laws, right),
                )
                | inr e3 ↦
                    let (within, less) = one_row row col (low, left, right) e3 in
                    inr (
                      row +ℤ pos 1,
                      pos 0,
                      rw (e, e2, e3) refl,
                      inr (last, e2, within.0, refl, refl),
                      within,
                      less,
                    )
              ]
            ]
      ]

  forward_loop_lem :
      (fuel : ℕ) (row col : ℤ)
      → Within row col
      → rest row col < fuel
      → (r c : ℤ) × (forward_loop chars lib scr fuel row col ≡ some (r, c))
        × WordForward row col r c
        × Near r c
  unfolding forward_loop
  forward_loop_lem zero row col within enough = absurd (omega arith)
  forward_loop_lem (suc fuel) row col (low, left, right) enough = elim (Bool-cases (word row col)) [
    | inr e ↦ (row, col, rw e refl, stops row col e, (omega int_laws, left, omega int_laws))
    | inl e ↦ elim (step_forward-Within row col (low, left, right)) [
      | inl (r, c, breaks, ends, near) ↦
          (r, c, rw (e, breaks) refl, line_ends row col r c e ends, near)
      | inr (row', col', goes, after, within, less) ↦
          let (r, c, done, chain, near) = forward_loop_lem fuel row' col' within (omega arith) in
          (r, c, rw (e, goes, done) refl, further row col row' col' r c e after chain, near)
    ]
  ]

  -- For a location above the window's bottom the search forwards ends, over cells of the word only, each
  -- behind the one before as text is read: on the first cell that is not of the word; behind the last
  -- column of a row that does not go on in the next; or, where the window's last row goes on, behind
  -- its last column and one row below it.
  pub end_of_word_lem :
      (l : Loc)
      → l.row -ℤ lib.row_top scr +ℤ pos 1 ≤ℤ lib.max_row scr
      → pos 0 ≤ℤ l.col
      → l.col +ℤ pos 1 ≤ℤ lib.vt.max_col scr
      → (r c : ℤ) × (end_of_word chars lib scr l ≡ some (loc (r +ℤ lib.row_top scr) c))
        × WordForward (l.row -ℤ lib.row_top scr) l.col r c
        × Near r c
  unfolding end_of_word
  end_of_word_lem l low left right =
      let (r, c, done, chain, near) =
        forward_loop_lem (forward_fuel chars lib scr l) (l.row -ℤ top) l.col (low, left, right)
          (omega arith) in
      (r, c, ap (to_loc chars lib scr) done, chain, near)
