-- ===== src/Display/Location.antt =====
-- `runes_display_loc_is_between` of src/display.c, and the order in which a screen is read. A location
-- is struct vt100_loc of the vt100 library, whose fields are ints.
use runes.Shared.{◌+◌, ◌≡◌, Bool, true, false, not, ◌&&◌, ◌||◌, arith, leb, ◌==◌, if◌then◌else◌}
use runes.Shared.Int.{ℤ, pos_part, neg_part, ltb_ℤ, eq_of_parts}

pub record Loc : Type 0 where
  pub row : ℤ
  pub col : ℤ

abbrev pub loc : ℤ → ℤ → Loc
loc r c = record { row = r; col = c }

abbrev pub eq_ℤ : ℤ → ℤ → Bool
eq_ℤ a b = pos_part a + neg_part b == pos_part b + neg_part a

abbrev pub leb_ℤ : ℤ → ℤ → Bool
leb_ℤ a b = leb (pos_part a + neg_part b) (pos_part b + neg_part a)

-- The test that swaps two ends: `end.row < start.row || (end.row == start.row && end.col < start.col)`
abbrev pub is_before : Loc → Loc → Bool
is_before a b = ltb_ℤ a.row b.row || (eq_ℤ a.row b.row && ltb_ℤ a.col b.col)

-- The returns behind the swap.
unfoldable pub between_ordered : Loc → Loc → Loc → Bool
between_ordered l start end =
    if ltb_ℤ l.row start.row || ltb_ℤ end.row l.row
    then false
    else if eq_ℤ l.row start.row && ltb_ℤ l.col start.col
    then false
    else if eq_ℤ l.row end.row && leb_ℤ end.col l.col
    then false
    else true

unfoldable pub loc_is_between : Loc → Loc → Loc → Bool
unfolding between_ordered
loc_is_between l start end =
    if is_before end start then between_ordered l end start else between_ordered l start end

between_ordered_lem :
    (l start end : Loc)
    → is_before end start ≡ false
    → between_ordered l start end ≡ (not (is_before l start) && is_before l end)
unfolding between_ordered
between_ordered_lem l start end h = ground arith

between_nothing :
    (l start end : Loc)
    → is_before end start ≡ true
    → (not (is_before l start) && is_before l end) ≡ false
between_nothing l start end h = ground arith

pub not_both : (a b : Loc) → is_before a b ≡ true → is_before b a ≡ false
not_both a b h = ground arith

-- A location is between two others, in whatever order they are given, if it is at or behind the
-- one and before the other in reading order.
pub loc_is_between_lem :
    (l a b : Loc)
    → loc_is_between l a b
      ≡ (not (is_before l a) && is_before l b || not (is_before l b) && is_before l a)
unfolding loc_is_between
loc_is_between_lem l a b = ground (
  arith,
  between_ordered_lem l a b,
  between_ordered_lem l b a,
  between_nothing l a b,
  between_nothing l b a,
  not_both b a,
)

before_later : (l a b : Loc) → is_before b a ≡ false → is_before l a ≡ true → is_before l b ≡ true
before_later l a b h k = ground arith

not_before_trans :
    (a b c : Loc) → is_before b a ≡ false → is_before c b ≡ false → is_before c a ≡ false
not_before_trans a b c h k = ground arith

split_tests :
    (la lb lc : Bool)
    → (la ≡ true → lb ≡ true)
    → (lb ≡ true → lc ≡ true)
    → ((not la && lc || not lc && la)
        ≡ ((not la && lb || not lb && la) || (not lb && lc || not lc && lb)))
      × (((not la && lb || not lb && la) && (not lb && lc || not lc && lb)) ≡ false)
split_tests la lb lc h k = ground arith

pub not_before_equal : (a b : Loc) → is_before a b ≡ false → is_before b a ≡ false → a ≡ b
not_before_equal a b h k =
    let rows : a.row ≡ b.row = eq_of_parts a.row b.row (ground arith) in
    let cols : a.col ≡ b.col = eq_of_parts a.col b.col (ground arith) in rw (rows, cols)

or_sym : (p q : Bool) → (p || q) ≡ (q || p)
or_sym p q = ground arith

pub loc_is_between_sym : (l a b : Loc) → loc_is_between l a b ≡ loc_is_between l b a
loc_is_between_sym l a b =
    rw (loc_is_between_lem l a b, loc_is_between_lem l b a)
      (or_sym (not (is_before l a) && is_before l b) (not (is_before l b) && is_before l a))

-- Two stretches of a screen that meet make up the stretch between their outer ends, and no location
-- is in both.
pub loc_is_between_split :
    (l a b c : Loc)
    → is_before b a ≡ false
    → is_before c b ≡ false
    → (loc_is_between l a c ≡ (loc_is_between l a b || loc_is_between l b c))
      × ((loc_is_between l a b && loc_is_between l b c) ≡ false)
loc_is_between_split l a b c h k =
    rw (loc_is_between_lem l a c, loc_is_between_lem l a b, loc_is_between_lem l b c)
      (split_tests (is_before l a) (is_before l b) (is_before l c) (before_later l a b h)
        (before_later l b c k))
