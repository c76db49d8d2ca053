-- ===== src/Display/FontLaws.antt =====
-- The cache of glyphs of src/display.c has pango's glyphs, so that the fast way shows what it should.
use runes.Shared.{
  ℕ, zero, suc, ◌+◌, ◌≤◌, ◌<◌, ◌≡◌, refl, sym, ◌∙◌, ◌⊎◌, inl, inr, List, [], ◌∷◌, set, replicate,
  length, get_elem?, get_or, some, arith, length-set, get_elem?-set_self, get_elem?-set_ne,
  if◌then◌else◌, ◌==◌, true, Bool-cases,
}
use runes.Shared.Text.{Bytes}
use runes.Display.Glyphs.{entry, cache_entry}
use runes.Display.Runs.{Cell}
use runes.Display.GlyphSpec.{IsUtf8}
use runes.Display.Font.{Metrics, fill_cache, set_context, new_font}

fill_cache_before :
    (glyph_of : Bytes → ℕ) (fuel i j : ℕ) (cache : List ℕ)
    → j < i
    → get_elem? (fill_cache glyph_of fuel i cache) j ≡ get_elem? cache j
unfolding fill_cache
fill_cache_before glyph_of zero i j cache h = refl
fill_cache_before glyph_of (suc fuel) i j cache h =
    fill_cache_before glyph_of fuel (suc i) j (set cache i (glyph_of (i ∷ []))) (omega arith)
    ∙ get_elem?-set_ne cache (glyph_of (i ∷ [])) (λ e. omega arith)

fill_cache_entry :
    (glyph_of : Bytes → ℕ) (fuel i j : ℕ) (cache : List ℕ)
    → i ≤ j
    → j < i + fuel
    → j < length cache
    → get_elem? (fill_cache glyph_of fuel i cache) j ≡ some (glyph_of (j ∷ []))
unfolding fill_cache
fill_cache_entry glyph_of zero i j cache h k l = absurd (omega arith)
fill_cache_entry glyph_of (suc fuel) i j cache h k l =
    let at : (i ≡ j) ⊎ (suc i ≤ j) = omega arith in
    elim at [
      | inl e ↦
          (let v = glyph_of (i ∷ []) in
            rw (sym e) (
              fill_cache_before glyph_of fuel (suc i) i (set cache i v) (omega arith)
              ∙ get_elem?-set_self cache i v (omega arith)))
      | inr later ↦
          fill_cache_entry glyph_of fuel (suc i) j (set cache i (glyph_of (i ∷ []))) later
            (omega arith) (omega (arith, length-set cache i (glyph_of (i ∷ []))))
    ]

module _ (m : Metrics) (glyph_of : Bytes → ℕ) where
  abbrev pub cache : List ℕ
  cache = (new_font m glyph_of).ascii_glyph_index_cache

  cache-glyph : (c : ℕ) → 32 ≤ c → c < 128 → get_elem? cache c ≡ some (glyph_of (c ∷ []))
  unfolding set_context
  cache-glyph c h k = fill_cache_entry glyph_of 96 32 c (replicate 128 0) h (omega arith) k

  -- An empty cell shows a blank.
  abbrev pub shown_char : Cell → ℕ
  shown_char cell = if cell.len == 0 then 32 else get_or cell.contents 0 0

  -- The cache of a new display has, for a cell that is empty or holds an ASCII character that is no
  -- control character, the glyph that pango gives for a blank or for the character.
  pub cache_entry-glyph :
      (cell : Cell)
      → IsUtf8 cell
      → cell.len ≤ 1
      → 32 ≤ shown_char cell
      → cache_entry cache cell ≡ entry (glyph_of (shown_char cell ∷ []))
  unfolding cache_entry
  cache_entry-glyph cell (ascii, wide) short h = elim (Bool-cases (cell.len == 0)) [
    | inl e ↦ rw (e, cache-glyph 32 (omega arith) (omega arith))
    | inr e ↦
        let one : cell.len ≡ 1 = ground arith in
        let e2 : (cell.len == 1) ≡ true = ground arith in
        rw (e, e2, cache-glyph (get_or cell.contents 0 0) (ground arith) (ascii one))
  ]
