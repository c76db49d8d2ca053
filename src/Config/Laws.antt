-- ===== src/Config/Laws.antt =====
-- What the options of src/config.c guarantee.
use runes.Shared.{
  ℕ, ◌≡◌, refl, ap, Option, none, some, Option-cases, [], arith, set-set, ◌⊎◌, Bool-cases, inl, inr,
}
use runes.Shared.Text.{Bytes, codes, str_eq}
use runes.Config.Types.{Cairo, Config}
use runes.Config.Parse.{parse_color}
use runes.Config.Options.{
  after_color, color_index, set_color, set_number, recolor, set_color_or_number, set_pattern,
  set_option,
}

module _ (cairo : Cairo) where
  open cairo use {Pattern, create_rgb}

  set_number_twice :
      (c : Config Pattern) (key v w : Bytes)
      → set_number cairo (set_number cairo c key v) key w ≡ set_number cairo c key w
  unfolding set_number
  set_number_twice c key v w = ground arith

  -- A value is without effect, or it takes the place of one that came before it.
  unfoldable Later : (Config Pattern → Bytes → Bytes → Config Pattern) → Bytes → Bytes → Type 0
  Later f key w =
      ((c : Config Pattern) → f c key w ≡ c)
      ⊎ ((c : Config Pattern) (v : Bytes) → f (f c key v) key w ≡ f c key w)

  recolor_later :
      (w : Option Pattern)
      → ((old : Pattern) → recolor cairo w old ≡ old)
        ⊎ ((v : Option Pattern) (old : Pattern)
            → recolor cairo w (recolor cairo v old) ≡ recolor cairo w old)
  recolor_later none = inl (λ old. refl)
  recolor_later (some x) = inr (λ v old. refl)

  set_color_twice :
      (c : Config Pattern) (i : ℕ) (v : Option Pattern) (x : Pattern)
      → set_color cairo (set_color cairo c (some i) v) (some i) (some x)
        ≡ set_color cairo c (some i) (some x)
  set_color_twice c i none x = refl
  set_color_twice c i (some y) x = ap (λ cs. record c { colors = cs }) (set-set c.colors i y x)

  set_color_later :
      (i : Option ℕ) (w : Option Pattern)
      → ((c : Config Pattern) → set_color cairo c i w ≡ c)
        ⊎ ((c : Config Pattern) (v : Option Pattern)
            → set_color cairo (set_color cairo c i v) i w ≡ set_color cairo c i w)
  set_color_later none w = inl (λ c. refl)
  set_color_later (some i) none = inl (λ c. refl)
  set_color_later (some i) (some x) = inr (λ c v. set_color_twice c i v x)

  set_color_or_number-Later :
      (rest : Option Bytes) (key w : Bytes)
      → Later (λ c key val. set_color_or_number cairo c rest key val) key w
  unfolding Later
  set_color_or_number-Later none key w = inr (λ c v. set_number_twice c key v w)
  set_color_or_number-Later (some rest) key w =
      elim (set_color_later (color_index rest) (parse_color cairo w)) [
        | inl same ↦ inl same
        | inr later ↦ inr (λ c v. later c (parse_color cairo v))
      ]

  -- A pattern of the configuration that a key sets, by its field.
  recolored :
      (put : Config Pattern → Pattern → Config Pattern) (got : Config Pattern → Pattern) (w : Bytes)
      → ((c : Config Pattern) → put c (got c) ≡ c)
      → ((c : Config Pattern) (x : Pattern) → got (put c x) ≡ x)
      → ((c : Config Pattern) (x y : Pattern) → put (put c x) y ≡ put c y)
      → Later (λ c key val. put c (recolor cairo (parse_color cairo val) (got c))) [] w
  unfolding Later
  recolored put got w put-got got-put put-put = elim (Option-cases (parse_color cairo w)) [
    | inl e ↦ rw e (inl put-got)
    | inr (x, e) ↦ rw e (inr (λ c v. put-put c (recolor cairo (parse_color cairo v) (got c)) x))
  ]

  set_pattern-Later : (key w : Bytes) → Later (set_pattern cairo) key w
  unfolding Later set_pattern
  set_pattern-Later key w = elim (Bool-cases (str_eq key (codes "bgcolor"))) [
    | inl e ↦ rw e (
        recolored (λ c p. record c { bgdefault = p }) (λ c. c.bgdefault) w (λ c. refl) (λ c x. refl)
          (λ c x y. refl))
    | inr e ↦ elim (Bool-cases (str_eq key (codes "fgcolor"))) [
      | inl f ↦
          rw (e, f)
            (recolored (λ c p. record c { fgdefault = p }) (λ c. c.fgdefault) w (λ c. refl)
              (λ c x. refl) (λ c x y. refl))
      | inr f ↦ elim (Bool-cases (str_eq key (codes "cursorcolor"))) [
        | inl g ↦
            rw (e, f, g)
              (recolored (λ c p. record c { cursorcolor = p }) (λ c. c.cursorcolor) w (λ c. refl)
                (λ c x. refl) (λ c x y. refl))
        | inr g ↦ elim (Bool-cases (str_eq key (codes "mousecursorcolor"))) [
          | inl k ↦
              rw (e, f, g, k)
                (recolored (λ c p. record c { mousecursorcolor = p }) (λ c. c.mousecursorcolor) w
                  (λ c. refl) (λ c x. refl) (λ c x y. refl))
          | inr k ↦ rw (e, f, g, k) (set_color_or_number-Later (after_color key) key w)
        ]
      ]
    ]
  ]

  set_option-Later : (key w : Bytes) → Later (set_option cairo) key w
  unfolding Later set_option
  set_option-Later key w = elim (Bool-cases (str_eq key (codes "font"))) [
    | inl e ↦ rw e (inr (λ c v. refl))
    | inr e ↦ elim (Bool-cases (str_eq key (codes "bold_is_bright"))) [
      | inl f ↦ rw (e, f) (inr (λ c v. refl))
      | inr f ↦ elim (Bool-cases (str_eq key (codes "bold_is_bold"))) [
        | inl g ↦ rw (e, f, g) (inr (λ c v. refl))
        | inr g ↦ elim (Bool-cases (str_eq key (codes "audible_bell"))) [
          | inl k ↦ rw (e, f, g, k) (inr (λ c v. refl))
          | inr k ↦ elim (Bool-cases (str_eq key (codes "bell_is_urgent"))) [
            | inl l ↦ rw (e, f, g, k, l) (inr (λ c v. refl))
            | inr l ↦ rw (e, f, g, k, l) (set_pattern-Later key w)
          ]
        ]
      ]
    ]
  ]

  -- Of two values for one option the later one wins, unless it is one that changes no
  -- configuration, as a color that cannot be read does not.
  pub set_option_twice :
      (c : Config Pattern) (key v w : Bytes)
      → (set_option cairo (set_option cairo c key v) key w ≡ set_option cairo c key w)
        ⊎ ((c' : Config Pattern) → set_option cairo c' key w ≡ c')
  unfolding Later
  set_option_twice c key v w = elim (set_option-Later key w) [
    | inl same ↦ inr same
    | inr later ↦ inl (later c v)
  ]
