-- ===== src/Display/RunLaws.antt =====
-- The runs of a row of the screen in src/display.c: they cover the row, show its cells, fit the glyph
-- buffer and each have one set of attributes.
use runes.Shared.{
  ℕ, zero, suc, ◌+◌, ◌≤◌, ◌<◌, ◌≡◌, refl, ap, ◌⊎◌, true, Option, none, some, List, [], ◌∷◌, ◌++◌,
  arith, length,
}
use runes.Display.Runs.{Attrs, Cell, Draw, cell_width, same_attrs, continue_string}

-- The draws follow each other from column a to column b with no gap and no overlap.
abbrev pub Tiles : ℕ → ℕ → List Draw → Type 0
Tiles a b [] = a ≡ b
Tiles a b (d ∷ ds) = (d.start ≡ a) × Tiles (a + d.width) b ds

abbrev pub total_width : List Cell → ℕ
total_width [] = 0
total_width (c ∷ cs) = cell_width c + total_width cs

abbrev pub AllLike : Attrs → List Cell → Type 0
AllLike a [] = true ≡ true
AllLike a (c ∷ cs) = (same_attrs a c.attrs ≡ true) × AllLike a cs

abbrev pub AllDraws : (Draw → Type 0) → List Draw → Type 0
AllDraws P [] = true ≡ true
AllDraws P (d ∷ ds) = P d × AllDraws P ds

pub cell_width-positive : (c : Cell) → 0 < cell_width c
cell_width-positive c = ground arith

pub length-total : (cs : List Cell) → length cs ≤ total_width cs
length-total [] = omega arith
length-total (c ∷ cs) = ground (arith, length-total cs)

pub total-append : (cs ds : List Cell) → total_width (cs ++ ds) ≡ total_width cs + total_width ds
total-append [] ds = omega arith
total-append (c ∷ cs) ds = ground (arith, total-append cs ds)

same_attrs_trans :
    (a b c : Attrs) → same_attrs a b ≡ true → same_attrs a c ≡ true → same_attrs b c ≡ true
same_attrs_trans a b c h k = ground arith

pub same_attrs_self : (a : Attrs) → same_attrs a a ≡ true
same_attrs_self a = ground arith

like_other : (a b : Attrs) (cs : List Cell) → same_attrs a b ≡ true → AllLike a cs → AllLike b cs
like_other a b [] h k = refl
like_other a b (c ∷ cs) h (k, ks) = (same_attrs_trans a b c.attrs h k, like_other a b cs h ks)

like_append :
    (a : Attrs) (cs : List Cell) (c : Cell)
    → AllLike a cs
    → same_attrs a c.attrs ≡ true
    → AllLike a (cs ++ (c ∷ []))
like_append a [] c h k = (k, refl)
like_append a (d ∷ cs) c (h, hs) k = (h, like_append a cs c hs k)

-- Cells that continue the one before them are like it.
abbrev pub LikeLast : Option Cell → List Cell → Type 0
LikeLast none cs = cs ≡ []
LikeLast (some p) cs = AllLike p.attrs cs

pub like_next :
    (prev : Option Cell) (cs : List Cell) (c : Cell)
    → continue_string prev c ≡ true
    → LikeLast prev cs
    → AllLike c.attrs (cs ++ (c ∷ []))
like_next none cs c h k = rw k (same_attrs_self c.attrs, refl)
like_next (some p) cs c h k =
    let same : same_attrs p.attrs c.attrs ≡ true = ground arith in
    like_append c.attrs cs c (like_other p.attrs c.attrs cs same k) (same_attrs_self c.attrs)

module _ (row : ℕ → Cell) where
  -- The cells of the row from a column on, a wide one taking two columns.
  abbrev pub cells_from : ℕ → ℕ → List Cell
  cells_from c zero = []
  cells_from c (suc n) = row c ∷ cells_from (c + cell_width (row c)) n

  pub cells_from_next :
      (s n c : ℕ)
      → total_width (cells_from s n) + s ≡ c
      → cells_from s n ++ (row c ∷ []) ≡ cells_from s (suc n)
  cells_from_next s zero c h = let e : c ≡ s = omega arith in rw e
  cells_from_next s (suc n) c h =
      ap (◌∷◌ (row s)) (cells_from_next (s + cell_width (row s)) n c (omega arith))

  -- A draw is as wide as its cells, or ends at the last of n columns, out of which a wide cell in that
  -- column sticks.
  abbrev pub LastWide : ℕ → Type 0
  LastWide n = (i : ℕ) × (suc i ≡ n) × ((row i).is_wide ≡ true)

  abbrev pub IsWide : ℕ → Draw → Type 0
  IsWide n d =
      (d.width ≡ total_width d.cells)
      ⊎ (suc d.width ≡ total_width d.cells) × (d.start + d.width ≡ n) × LastWide n

  -- A draw that is not empty shows empty columns, or the cells of its columns, which are at most n
  -- and have one set of attributes.
  abbrev pub Shows : ℕ → Draw → Type 0
  Shows n d =
      0 < d.width
      → ((d.cells ≡ []) × ((i : ℕ) → d.start ≤ i → i < d.start + d.width → (row i).len ≡ 0))
        ⊎ ((d.cells ≡ cells_from d.start (length d.cells))
            × IsWide n d
            × (length d.cells ≤ n)
            × ((a : Attrs) × AllLike a d.cells))
