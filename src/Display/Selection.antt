-- ===== src/Display/Selection.antt =====
-- The selection of src/display.c. What text lies between two locations, and where a row's text ends, is
-- the vt100 library's to say.
use runes.Shared.{
  ℕ, ◌≡◌, refl, ap, inl, inr, Bool-cases, Bool, true, false, ◌&&◌, Option, none, some, [], ◌∷◌,
  arith, take, ◌==◌, if◌then◌else◌,
}
use runes.Shared.Int.{ℤ, ltb_ℤ}
use runes.Shared.Text.{Bytes, str_eq}
use runes.Display.Location.{
  Loc, loc, eq_ℤ, is_before, not_both, not_before_equal, loc_is_between, loc_is_between_sym,
}

-- vt100_screen_get_string_plaintext gives a text, which may be NULL, and its length.
pub record Vt100 : Type 1 where
  pub Screen : Type 0
  pub get_string_plaintext : Screen → Loc → Loc → Option Bytes × ℕ
  pub row_max_col : Screen → ℤ → ℤ
  pub max_col : Screen → ℤ

-- The fields of struct runes_display that the selection uses.
pub record Selection : Type 0 where
  pub has_selection : Bool
  pub selection_start : Loc
  pub selection_end : Loc
  pub selection_contents : Option Bytes
  pub selection_len : ℕ
  pub dirty : Bool

-- `memcmp(a, b, len)` is 0. Of a null pointer, where C leaves it undefined, it is taken not to be.
abbrev pub same_bytes : Bytes → Option Bytes → ℕ → Bool
same_bytes a none len = false
same_bytes a (some b) len = str_eq (take len a) (take len b)

module _ (vt : Vt100) where
  open vt use {Screen, get_string_plaintext, row_max_col, max_col}

  abbrev pub text_between : Screen → Loc → Loc → Option Bytes × ℕ
  text_between scr start end =
      if is_before end start
      then get_string_plaintext scr end start
      else get_string_plaintext scr start end

  unfoldable pub set_selection : Screen → Selection → Loc → Loc → Selection
  set_selection scr d start end = record {
    has_selection = true;
    selection_start = start;
    selection_end = end;
    selection_contents = (text_between scr start end).0;
    selection_len = (text_between scr start end).1;
    dirty = true;
  }

  abbrev pub still_selected : Selection → Option Bytes × ℕ → Bool
  still_selected d (none, len) = false
  still_selected d (some text, len) =
      len == d.selection_len && same_bytes text d.selection_contents len

  -- The text is asked for from the start to the end as they are, not in reading order.
  unfoldable pub maybe_clear_selection : Screen → Selection → Selection
  maybe_clear_selection scr d =
      if d.has_selection
      then (if still_selected d (get_string_plaintext scr d.selection_start d.selection_end)
          then d
          else record d { has_selection = false })
      else d

  -- An end behind the text of its row, on the location's row, is moved behind the row's last column.
  abbrev pub widen : Screen → Loc → Loc → Loc
  widen scr l end =
      if eq_ℤ l.row end.row && ltb_ℤ (row_max_col scr end.row) end.col
      then loc end.row (max_col scr)
      else end

  unfoldable pub loc_is_selected : Screen → Selection → Loc → Bool
  loc_is_selected scr d l =
      if d.has_selection
      then loc_is_between l (widen scr l d.selection_start) (widen scr l d.selection_end)
      else false

  str_eq_self : (a : Bytes) → str_eq a a ≡ true
  str_eq_self [] = refl
  str_eq_self (x ∷ xs) = ground (arith, str_eq_self xs)

  -- A selection that was made forwards, of text that is there, is kept as long as the screen shows
  -- the same text between its ends, and no longer.
  pub maybe_clear_selection-set :
      (before after : Screen) (d : Selection) (start end : Loc)
      → is_before end start ≡ false
      → (text : Bytes) (len : ℕ) → get_string_plaintext before start end ≡ (some text, len)
      → (text' : Bytes) (len' : ℕ) → get_string_plaintext after start end ≡ (some text', len')
      → (maybe_clear_selection after (set_selection before d start end)).has_selection
        ≡ (len' == len && str_eq (take len' text') (take len' text))
  unfolding set_selection maybe_clear_selection
  maybe_clear_selection-set before after d start end h text len e text' len' e' =
      elim (Bool-cases (len' == len && str_eq (take len' text') (take len' text))) [
        | inl k ↦ rw (h, e, e', k) refl
        | inr k ↦ rw (h, e, e', k) refl
      ]

  text_between_reversed : (scr : Screen) (a b : Loc) → text_between scr a b ≡ text_between scr b a
  text_between_reversed scr a b = elim (Bool-cases (is_before a b)) [
    | inl h ↦ rw (h, not_both a b h)
    | inr h ↦ elim (Bool-cases (is_before b a)) [
      | inl k ↦ rw (h, k)
      | inr k ↦ rw (not_before_equal a b h k)
    ]
  ]

  -- A selection that is made backwards has the text of the same one made forwards, and the same
  -- locations are in it.
  pub set_selection_reversed :
      (scr : Screen) (d : Selection) (a b l : Loc)
      → ((set_selection scr d a b).selection_contents
          ≡ (set_selection scr d b a).selection_contents)
        × ((set_selection scr d a b).selection_len ≡ (set_selection scr d b a).selection_len)
        × (loc_is_selected scr (set_selection scr d a b) l
            ≡ loc_is_selected scr (set_selection scr d b a) l)
  unfolding set_selection loc_is_selected
  set_selection_reversed scr d a b l = (
    ap (λ t. t.0) (text_between_reversed scr a b),
    ap (λ t. t.1) (text_between_reversed scr a b),
    loc_is_between_sym l (widen scr l a) (widen scr l b),
  )
