-- ===== src/Display/RowLoop.antt =====
-- The loop over a row in `runes_display_draw_screen` of src/display.c, for any row and any number of
-- columns.
use mathlib.Core.Path.{subst}
use runes.Shared.{
  ℕ, zero, suc, ◌+◌, ◌-◌, ◌≤◌, ◌<◌, ◌≡◌, refl, sym, ap, ◌∙◌, ◌⊎◌, inl, inr, true, false, Option,
  none, some, List, [], ◌∷◌, ◌++◌, arith, ltb, length, length-append, Bool-cases,
}
use runes.Display.Runs.{
  Attrs, Cell, Draw, draw, cell_width, continue_string, skip_empty, last_seen, flush_run, row_loop,
  draw_row,
}
use runes.Display.RunLaws.{
  cell_width-positive, Tiles, total_width, AllLike, AllDraws, length-total, total-append,
  same_attrs_self, LikeLast, like_next, cells_from, cells_from_next, Shows, IsWide, LastWide,
}

module _ (row : ℕ → Cell) (cols : ℕ) where
  skip_empty-stops : (fuel c : ℕ) → ltb c cols ≡ false → skip_empty row cols fuel c ≡ c
  unfolding skip_empty
  skip_empty-stops zero c h = refl
  skip_empty-stops (suc fuel) c h = rw h

  skip_empty-within :
      (fuel c : ℕ)
      → c ≤ cols
      → (c ≤ skip_empty row cols fuel c) × (skip_empty row cols fuel c ≤ cols)
  unfolding skip_empty
  skip_empty-within zero c h = (omega arith, h)
  skip_empty-within (suc fuel) c h = ground (arith, skip_empty-within fuel (suc c))

  skip_empty-blank : (fuel c i : ℕ) → c ≤ i → i < skip_empty row cols fuel c → (row i).len ≡ 0
  unfolding skip_empty
  skip_empty-blank zero c i h k = absurd (omega arith)
  skip_empty-blank (suc fuel) c i h k =
      let here : (c ≡ i) ⊎ (suc c ≤ i) = omega arith in
      elim here [
        | inl e ↦ rw (sym e) (ground arith)
        | inr l ↦ ground (arith, skip_empty-blank fuel (suc c) i)
      ]

  -- What holds of the run so far when the outer loop comes to column c.
  record Run (c start : ℕ) (prev : Option Cell) (cells : List Cell) : Type 0 where
    in_row : start ≤ cols
    covered : total_width cells + start ≡ c
    within : start < cols → c ≤ suc cols
    fits : start < cols → length cells + start ≤ cols
    sticks_out : start < cols → c ≡ suc cols → LastWide row cols
    taken : start < cols → cells ≡ cells_from row start (length cells)
    alike : LikeLast prev cells

  cell_width_at_most : (cell : Cell) → cell_width cell ≤ 2
  cell_width_at_most cell = ground arith

  wide_last : (c : ℕ) → c < cols → c + cell_width (row c) ≡ suc cols → LastWide row cols
  wide_last c h k = elim (Bool-cases (row c).is_wide) [
    | inl w ↦ let two : cell_width (row c) ≡ 2 = rw w refl in (c, omega arith, w)
    | inr w ↦ let one : cell_width (row c) ≡ 1 = rw w refl in absurd (omega arith)
  ]

  last_seen-row : (e : ℕ) → e < cols → last_seen row cols e ≡ row e
  last_seen-row e h = ground arith

  extend :
      {c start : ℕ} {prev : Option Cell} {cells : List Cell}
      → Run c start prev cells
      → c < cols
      → continue_string prev (row c) ≡ true
      → Run (c + cell_width (row c)) start (some (row c)) (cells ++ (row c ∷ []))
  extend {c} {start} {prev} {cells} run h k =
      let len : length (cells ++ (row c ∷ [])) ≡ suc (length cells) =
        length-append cells (row c ∷ []) ∙ omega arith in
      record {
        in_row = run.in_row;
        covered = omega (arith, run.covered, total-append cells (row c ∷ []));
        within = λ l. omega (arith, cell_width_at_most (row c));
        sticks_out = λ l. wide_last c h;
        fits = λ l. omega (arith, len, length-total cells, run.covered);
        taken = λ l.
            ap (λ cs. cs ++ (row c ∷ [])) (run.taken l)
            ∙ cells_from_next row start (length cells) c
                (ap (λ cs. total_width cs + start) (sym (run.taken l)) ∙ run.covered)
            ∙ ap (cells_from row start) (sym len);
        alike = like_next prev cells (row c) k run.alike;
      }

  restart :
      (e : ℕ)
      → e ≤ cols
      → Run
          (e + cell_width (last_seen row cols e))
          e
          (some (last_seen row cols e))
          (last_seen row cols e ∷ [])
  restart e h = record {
    in_row = h;
    covered = omega arith;
    within = λ l. omega (arith, cell_width_at_most (last_seen row cols e));
    sticks_out = λ l k. wide_last e l (ap (λ x. e + cell_width x) (sym (last_seen-row e l)) ∙ k);
    fits = λ l. omega arith;
    taken = λ l. ground arith;
    alike = (same_attrs_self (last_seen row cols e).attrs, refl);
  }

  like_some :
      (prev : Option Cell) (cells : List Cell)
      → LikeLast prev cells
      → (cells ≡ []) ⊎ ((a : Attrs) × AllLike a cells)
  like_some none cells h = inl h
  like_some (some p) cells h = inr (p.attrs, h)

  Run-Shows :
      {c start : ℕ} {prev : Option Cell} {cells : List Cell} (width : ℕ)
      → Run c start prev cells
      → (width ≡ c - start) × (c ≤ cols) ⊎ (width ≡ cols - start) × (cols ≤ c)
      → Shows row cols (draw start width cells)
  Run-Shows {c} {start} {prev} {cells} width run h l = elim (like_some prev cells run.alike) [
    | inl e ↦
        let nothing : total_width cells ≡ 0 = ap total_width e in
        absurd (omega (arith, run.covered))
    | inr alike ↦ inr (
      run.taken (in_columns h),
      as_wide h (omega (arith, run.within (in_columns h))),
      omega (arith, run.fits (in_columns h)),
      alike,
    )
  ]
    where
      in_columns :
          (width ≡ c - start) × (c ≤ cols) ⊎ (width ≡ cols - start) × (cols ≤ c) → start < cols
      in_columns (inl (e, m)) = omega arith
      in_columns (inr (e, m)) = omega arith

      as_wide :
          (width ≡ c - start) × (c ≤ cols) ⊎ (width ≡ cols - start) × (cols ≤ c)
          → (c ≤ cols) ⊎ (c ≡ suc cols)
          → IsWide row cols (draw start width cells)
      as_wide (inl (e, m)) q = inl (omega (arith, run.covered))
      as_wide (inr (e, m)) (inl q) = inl (omega (arith, run.covered))
      as_wide (inr (e, m)) (inr q) =
          inr
            (omega (arith, run.covered), omega (arith, run.in_row), run.sticks_out (in_columns h) q)

  RowDone : ℕ → List Draw → Type 0
  RowDone start ds = Tiles start cols ds × AllDraws (Shows row cols) ds

  end_row :
      {c start : ℕ} {prev : Option Cell} {cells : List Cell}
      → Run c start prev cells
      → cols ≤ c
      → RowDone start (draw start (cols - start) cells ∷ [])
  unfolding RowDone
  end_row {start = start} run h =
      let whole : start + (cols - start) ≡ cols = omega (arith, run.in_row) in
      ((refl, whole), (Run-Shows (cols - start) run (inr (refl, h)), refl))

  flush_done :
      {c start : ℕ} {prev : Option Cell} {cells : List Cell} (ds : List Draw)
      → Run c start prev cells
      → c < cols
      → RowDone (skip_empty row cols cols c) ds
      → RowDone start (flush_run row cols start c (skip_empty row cols cols c) cells ++ ds)
  unfolding RowDone
  flush_done {c} {start} {prev} {cells} ds run h (tiles, shows) =
      let first = Run-Shows (c - start) run (inl (refl, omega arith)) in
      let to_c : start + (c - start) ≡ c = omega (arith, run.covered) in
      elim (Bool-cases (ltb c (skip_empty row cols cols c))) [
        | inl l ↦
            let there : c + (skip_empty row cols cols c - c) ≡ skip_empty row cols cols c =
              ground arith in
            rw l (
              (
                refl,
                subst (λ x. Tiles x cols (draw c (skip_empty row cols cols c - c) [] ∷ ds))
                    (sym to_c) (refl, subst (λ x. Tiles x cols ds) (sym there) tiles),
              ),
              (
                first,
                (
                  (λ some_width. inl (refl, λ i k m. skip_empty-blank cols c i k (omega arith))),
                  shows,
                ),
              ),
            )
        | inr l ↦
            let stay : skip_empty row cols cols c ≡ start + (c - start) =
              ground (arith, skip_empty-within cols c) in
            rw l ((refl, subst (λ x. Tiles x cols ds) stay tiles), (first, shows))
      ]

  row_loop_done :
      (fuel : ℕ) {c start : ℕ} {prev : Option Cell} {cells : List Cell}
      → Run c start prev cells
      → cols ≤ c + fuel
      → RowDone start (row_loop row cols fuel c start prev cells)
  unfolding row_loop
  row_loop_done zero run h = end_row run (omega arith)
  row_loop_done (suc fuel) {c} {start} {prev} {cells} run h = elim (Bool-cases (ltb c cols)) [
    | inl l ↦
        let room : c < cols = ground arith in
        elim (Bool-cases (continue_string prev (row c))) [
          | inl k ↦
              rw (l, k)
                (row_loop_done fuel (extend run room k)
                  (omega (arith, cell_width-positive (row c))))
          | inr k ↦
              let within = skip_empty-within cols c (omega arith) in
              rw (l, k)
                (flush_done _ run room (
                  row_loop_done fuel (restart (skip_empty row cols cols c) within.1) (
                    omega (
                      arith,
                      within.0,
                      cell_width-positive (last_seen row cols (skip_empty row cols cols c)),
                    ))))
        ]
    | inr l ↦ rw l (end_row run (ground arith))
  ]

  -- The draws of a row cover its columns in order, each once; each shows empty columns or the cells
  -- of its columns and is as wide as they, unless a wide cell sticks out of the last column; these
  -- are no more than the row has columns (as many as the glyph buffer has places), and have one set of
  -- attributes.
  pub draw_row_complete :
      Tiles 0 cols (draw_row row cols) × AllDraws (Shows row cols) (draw_row row cols)
  unfolding draw_row RowDone
  draw_row_complete =
      row_loop_done cols
        (record {
          in_row = omega arith;
          covered = refl;
          within = λ l. omega arith;
          sticks_out = λ l k. absurd (omega arith);
          fits = λ l. omega arith;
          taken = λ l. refl;
          alike = refl;
        })
        (omega arith)
