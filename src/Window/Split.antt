-- ===== src/Window/Split.antt =====
-- What the pass of `runes_window_event_cb` in src/window-xlib.c handles, as event_cb does a list of events,
-- and what it leaves.
use mathlib.Core.Path.{subst}
use runes.Shared.{
  ℕ, ◌≡◌, refl, sym, ap, ◌∙◌, ◌⊎◌, Bool, true, false, List, [], ◌∷◌, ◌++◌, ◌||◌, ◌&&◌, arith,
  if◌then◌else◌, Bool-cases, inl, inr,
}
use runes.Config.Types.{Config}
use runes.Window.State.{ScreenLib, Characters, World, Window}
use runes.Window.Events.{handle_event, event_cb}
use runes.Window.Configure.{seen_of, left_of, resize_wanted}
use runes.Window.Queue.{is_resize, event_for, Addressed, Windows, wants_event, failing}
use runes.Window.Pass as P
use runes.Window.Pass.{has_resize, seen_list}

module _ {Pattern : Type 0} (cfg : Config Pattern) (world : World) (lib : ScreenLib)
    (chars : Characters) (fontx fonty : ℕ) (ids : Windows) where
  abbrev pub Pass : Type 0
  Pass = P.Pass cfg world lib chars fontx fonty ids

  abbrev keep : List Addressed → Pass → Pass
  keep = P.keep cfg world lib chars fontx fonty ids

  abbrev closed_pass : List Addressed → Window lib → Pass
  closed_pass = P.closed_pass cfg world lib chars fontx fonty ids

  abbrev serve : Bool → List Addressed → Window lib → Pass
  serve = P.serve cfg world lib chars fontx fonty ids

  or_false : (a b : Bool) → (a || b) ≡ (a || (b || false))
  or_false a b = ground arith

  nothing_left : (resized : Bool) → [] ≡ left_of ids (resized || false) []
  nothing_left true = refl
  nothing_left false = refl

  or_assoc : (a b c : Bool) → ((a || b) || c) ≡ (a || (b || c))
  or_assoc a b c = ground arith

  -- The pass in two parts: what was handled, and what came behind an event that closed the window.
  abbrev pub Split : Bool → List Addressed → Window lib → Pass → Type 0
  Split resized es w p =
      (handled : List Addressed) × (later : List Addressed) × (es ≡ handled ++ later)
      × (p.rest
          ≡ failing (wants_event ids) handled
            ++ left_of ids (resized || has_resize ids handled) later)
      × ((p.window, p.again)
          ≡ event_cb cfg world lib chars fontx fonty (seen_list ids resized later handled) w)
      × ((later ≡ []) ⊎ (p.again ≡ false))

  skip_step :
      (e : Addressed) (es : List Addressed) (w : Window lib) (p : Pass)
      → is_resize ids e ≡ true
      → wants_event ids e ≡ true
      → Split true es w p
      → Split true (e ∷ es) w p
  skip_step e es w p on mine (handled, later, all, rest, cb, end) =
      (e ∷ handled, later, ap (λ l. e ∷ l) all, rw mine rest, rw on cb, end)

  other_step :
      (resized : Bool) (e : Addressed) (es : List Addressed) (w : Window lib) (p : Pass)
      → is_resize ids e ≡ false
      → wants_event ids e ≡ false
      → Split resized es w p
      → Split resized (e ∷ es) w (keep (e ∷ []) p)
  other_step true e es w p off other (handled, later, all, rest, cb, end) = (
    e ∷ handled,
    later,
    ap (λ l. e ∷ l) all,
    rw other (ap (λ l. e ∷ l) rest),
    rw (off, other) cb,
    end,
  )
  other_step false e es w p off other (handled, later, all, rest, cb, end) = (
    e ∷ handled,
    later,
    ap (λ l. e ∷ l) all,
    rw (off, other) (ap (λ l. e ∷ l) rest),
    rw other cb,
    end,
  )

  seen_list-own :
      (resized r : Bool) (e : Addressed) (es handled later : List Addressed)
      → (resized && r) ≡ false
      → is_resize ids e ≡ r
      → wants_event ids e ≡ true
      → es ≡ handled ++ later
      → seen_list ids resized later (e ∷ handled)
        ≡ event_for ids (seen_of ids e es) ∷ seen_list ids (resized || r) later handled
  seen_list-own resized r e es handled later one is mine all =
      ap
        (λ b.
          if resized && b
          then seen_list ids resized later handled
          else if wants_event ids e
          then event_for ids (seen_of ids e (handled ++ later))
            ∷ seen_list ids (resized || b) later handled
          else seen_list ids resized later handled)
        is
      ∙ rw (one, mine)
          (ap (λ l. event_for ids (seen_of ids e l) ∷ seen_list ids (resized || r) later handled)
            (sym all))

  abbrev handled_at : Addressed → Window lib → Window lib × Bool
  handled_at e w = handle_event cfg world lib chars fontx fonty (event_for ids e) w

  kept_own :
      (resized r : Bool) (e : Addressed) (handled later : List Addressed)
      → is_resize ids e ≡ r
      → wants_event ids e ≡ true
      → failing (wants_event ids) (e ∷ handled)
          ++ left_of ids (resized || has_resize ids (e ∷ handled)) later
        ≡ failing (wants_event ids) handled
          ++ left_of ids (resized || (r || has_resize ids handled)) later
  kept_own resized r e handled later is mine =
      ap
        (λ b.
          failing (wants_event ids) (e ∷ handled)
          ++ left_of ids (resized || (b || has_resize ids handled)) later)
        is
      ∙ ap
          (λ b.
            (if b then failing (wants_event ids) handled else e ∷ failing (wants_event ids) handled)
            ++ left_of ids (resized || (r || has_resize ids handled)) later)
          mine

  own_step :
      (resized r : Bool) (e : Addressed) (es : List Addressed) (w : Window lib) (p : Pass)
      → (resized && r) ≡ false
      → is_resize ids e ≡ r
      → wants_event ids e ≡ true
      → (handled_at (seen_of ids e es) w).1 ≡ false
      → Split (resized || r) es (handled_at (seen_of ids e es) w).0 p
      → Split resized (e ∷ es) w p
  unfolding event_cb
  own_step resized r e es w p one is mine stays (handled, later, all, rest, cb, end) = (
    e ∷ handled,
    later,
    ap (λ l. e ∷ l) all,
    rest
        ∙ ap (λ b. failing (wants_event ids) handled ++ left_of ids b later)
            (or_assoc resized r (has_resize ids handled))
        ∙ sym (kept_own resized r e handled later is mine),
    cb
        ∙ sym (
            ap (λ l. event_cb cfg world lib chars fontx fonty l w)
              (seen_list-own resized r e es handled later one is mine all)
            ∙ rw stays refl),
    end,
  )

  close_step :
      (resized r : Bool) (e : Addressed) (es : List Addressed) (w : Window lib)
      → (resized && r) ≡ false
      → is_resize ids e ≡ r
      → wants_event ids e ≡ true
      → (handled_at (seen_of ids e es) w).1 ≡ true
      → Split resized
          (e ∷ es)
          w
          (closed_pass (left_of ids (resized || r) es) (handled_at (seen_of ids e es) w).0)
  unfolding event_cb
  close_step resized r e es w one is mine shut = (
    e ∷ [],
    es,
    refl,
    ap (λ b. left_of ids b es) (or_false resized r) ∙ sym (kept_own resized r e [] es is mine),
    sym (
        ap (λ l. event_cb cfg world lib chars fontx fonty l w)
          (seen_list-own resized r e es [] es one is mine refl)
        ∙ rw shut refl),
    inr refl,
  )

  serve-own :
      (resized r : Bool) (e : Addressed) (es : List Addressed) (w : Window lib)
      → (resized && r) ≡ false
      → is_resize ids e ≡ r
      → wants_event ids e ≡ true
      → serve resized (e ∷ es) w ≡ (
          if (handled_at (seen_of ids e es) w).1
          then closed_pass (left_of ids (resized || r) es) (handled_at (seen_of ids e es) w).0
          else serve (resized || r) es (handled_at (seen_of ids e es) w).0)
  serve-own resized r e es w one is mine =
      ap
        (λ b.
          if resized && b
          then serve resized es w
          else if wants_event ids e
          then (if (handled_at (seen_of ids e es) w).1
              then closed_pass (left_of ids (resized || b) es) (handled_at (seen_of ids e es) w).0
              else serve (resized || b) es (handled_at (seen_of ids e es) w).0)
          else keep (e ∷ []) (serve resized es w))
        is
      ∙ rw (one, mine) refl

  own-Split :
      (resized r : Bool) (e : Addressed) (es : List Addressed) (w : Window lib)
      → (resized && r) ≡ false
      → is_resize ids e ≡ r
      → wants_event ids e ≡ true
      → Split
          (resized || r)
          es
          (handled_at (seen_of ids e es) w).0
          (serve (resized || r) es (handled_at (seen_of ids e es) w).0)
      → Split resized (e ∷ es) w (serve resized (e ∷ es) w)
  own-Split resized r e es w one is mine rest =
      let done = handled_at (seen_of ids e es) w in
      let after = serve-own resized r e es w one is mine in
      elim (Bool-cases done.1) [
        | inl shut ↦
            subst (Split resized (e ∷ es) w)
              (sym (
                after
                ∙ ap
                    (λ b.
                      if b
                      then closed_pass (left_of ids (resized || r) es) done.0
                      else serve (resized || r) es done.0)
                    shut))
              (close_step resized r e es w one is mine shut)
        | inr stays ↦
            subst (Split resized (e ∷ es) w)
              (sym (
                after
                ∙ ap
                    (λ b.
                      if b
                      then closed_pass (left_of ids (resized || r) es) done.0
                      else serve (resized || r) es done.0)
                    stays))
              (own_step resized r e es w _ one is mine stays rest)
      ]

  mine-Split :
      (resized r : Bool) (e : Addressed) (es : List Addressed) (w : Window lib)
      → is_resize ids e ≡ r
      → wants_event ids e ≡ true
      → ((m : Bool) (w' : Window lib) → Split m es w' (serve m es w'))
      → Split resized (e ∷ es) w (serve resized (e ∷ es) w)
  mine-Split true true e es w on mine rest =
      subst (Split true (e ∷ es) w) (rw on refl) (skip_step e es w _ on mine (rest true w))
  mine-Split true false e es w off mine rest =
      own-Split true false e es w refl off mine (rest true _)
  mine-Split false true e es w on mine rest = own-Split false true e es w refl on mine (rest true _)
  mine-Split false false e es w off mine rest =
      own-Split false false e es w refl off mine (rest false _)

  serve_other :
      (resized : Bool) (e : Addressed) (es : List Addressed) (w : Window lib)
      → is_resize ids e ≡ false
      → wants_event ids e ≡ false
      → serve resized (e ∷ es) w ≡ keep (e ∷ []) (serve resized es w)
  serve_other true e es w off other = rw (off, other) refl
  serve_other false e es w off other = rw (off, other) refl

  other-Split :
      (resized : Bool) (e : Addressed) (es : List Addressed) (w : Window lib)
      → wants_event ids e ≡ false
      → Split resized es w (serve resized es w)
      → Split resized (e ∷ es) w (serve resized (e ∷ es) w)
  other-Split resized e es w other rest =
      let off = resize_wanted ids e other in
      subst (Split resized (e ∷ es) w) (sym (serve_other resized e es w off other))
        (other_step resized e es w _ off other rest)

  pub serve-Split :
      (resized : Bool) (es : List Addressed) (w : Window lib)
      → Split resized es w (serve resized es w)
  unfolding event_cb
  serve-Split resized [] w = ([], [], refl, nothing_left resized, refl, inl refl)
  serve-Split resized (e ∷ es) w = elim (Bool-cases (wants_event ids e)) [
    | inl mine ↦ mine-Split resized (is_resize ids e) e es w refl mine (λ m w'. serve-Split m es w')
    | inr other ↦ other-Split resized e es w other (serve-Split resized es w)
  ]
