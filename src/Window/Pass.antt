-- ===== src/Window/Pass.antt =====
-- The loop of `runes_window_event_cb` of src/window-xlib.c as one pass over the events of a connection.
use mathlib.Core.Path.{subst}
use runes.Shared.{
  ℕ, zero, suc, ◌<◌, ◌≡◌, refl, sym, ap, ◌∙◌, ◌⊎◌, Bool, true, false, Option, some, List, [], ◌∷◌,
  ◌++◌, ◌||◌, ◌&&◌, length, append-nil, arith, if◌then◌else◌, Bool-cases, inl, inr,
}
use runes.Config.Types.{Config}
use runes.Window.State.{ScreenLib, Characters, World, Window, emit, hang_up}
use runes.Window.Events.{Event, handle_event}
use runes.Term.{close_window}
use runes.Window.Configure.{
  passing_off, shorter, seen_of, left_of, seen_of_over, left_of_over, no_resize, length-left_of,
  seen_event-Drained,
}
use runes.Window.Queue.{
  is_resize, seen_event, event_for, Addressed, Connection, events_of, Windows, wants_event, passing,
  failing, Check, found, not_found, Checked, Xlib, Left, hung_up, after_event, check_loop, queue_cb,
}

-- What is sent to a terminal, in order.
abbrev pub own : Windows → List Addressed → List Addressed
own ids es = passing (wants_event ids) es

abbrev pub has_resize : Windows → List Addressed → Bool
has_resize ids [] = false
has_resize ids (e ∷ es) = is_resize ids e || has_resize ids es

-- The events that the handlers see of a list, with others behind it: those of the terminal, but the
-- first resize with the last one's size, and no other resize.
abbrev pub seen_list : Windows → Bool → List Addressed → List Addressed → List Event
seen_list ids resized later [] = []
seen_list ids resized later (e ∷ es) =
    let rest = seen_list ids resized later es in
    let first = seen_list ids (resized || is_resize ids e) later es in
    if resized && is_resize ids e
    then rest
    else if wants_event ids e
    then event_for ids (seen_of ids e (es ++ later)) ∷ first
    else rest

module _ {Pattern : Type 0} (cfg : Config Pattern) (world : World) (lib : ScreenLib)
    (chars : Characters) (fontx fonty : ℕ) (ids : Windows) where
  -- One pass over a list of events: those that the terminal wants are handled, until one closes its
  -- window, and the others stay.
  pub record Pass : Type 0 where
    pub rest : List Addressed
    pub window : Window lib
    pub again : Bool

  abbrev pub keep : List Addressed → Pass → Pass
  keep before p = record p { rest = before ++ p.rest }

  abbrev pub closed_pass : List Addressed → Window lib → Pass
  closed_pass es w = record {
    rest = es;
    window = emit lib hang_up (record w { life = close_window w.life });
    again = false;
  }

  -- `resized` says that the later resizes of the list have been taken.
  abbrev pub serve : Bool → List Addressed → Window lib → Pass
  serve resized [] w = record { rest = []; window = w; again = true }
  serve resized (e ∷ es) w =
      let done =
        handle_event cfg world lib chars fontx fonty (event_for ids (seen_of ids e es)) w in
      let now = resized || is_resize ids e in
      let more = serve now es done.0 in
      let skip = serve resized es w in
      if resized && is_resize ids e
      then skip
      else if wants_event ids e
      then (if done.1 then closed_pass (left_of ids now es) done.0 else more)
      else keep (e ∷ []) skip

  -- Events of others are passed over.
  serve_over :
      (before es : List Addressed) (w : Window lib)
      → passing (wants_event ids) before ≡ []
      → serve false (before ++ es) w ≡ keep before (serve false es w)
  serve_over [] es w h = refl
  serve_over (x ∷ before) es w h =
      let (off, others) = passing_off (wants_event ids) x before h in
      rw off (ap (keep (x ∷ [])) (serve_over before es w others))

  -- An event that is no resize, in either mode.
  abbrev plain : Bool → Addressed → List Addressed → Window lib → Pass → Pass → Pass
  plain resized e es w more skip =
      let done = handle_event cfg world lib chars fontx fonty (event_for ids e) w in
      if wants_event ids e
      then (if done.1 then closed_pass (left_of ids resized es) done.0 else more)
      else keep (e ∷ []) skip

  abbrev plain_window : Addressed → Window lib → Window lib
  plain_window e w = (handle_event cfg world lib chars fontx fonty (event_for ids e) w).0

  serve-plain :
      (resized : Bool) (e : Addressed) (es : List Addressed) (w : Window lib)
      → is_resize ids e ≡ false
      → serve resized (e ∷ es) w
        ≡ plain resized e es w (serve resized es (plain_window e w)) (serve resized es w)
  serve-plain true e es w off = rw off
  serve-plain false e es w off = rw off

  -- To take the later resizes from the list is to pass over them.
  serve_taken :
      (es : List Addressed) (w : Window lib)
      → serve false (failing (is_resize ids) es) w ≡ serve true es w
  serve_taken [] w = refl
  serve_taken (e ∷ es) w = elim (Bool-cases (is_resize ids e)) [
    | inl on ↦ rw on (serve_taken es w)
    | inr off ↦
        let others = failing (is_resize ids) es in
        ap (λ b. serve false (if b then others else e ∷ others) w) off
        ∙ serve-plain false e others w off
        ∙ (λ i. plain true e es w (serve_taken es (plain_window e w) i) (serve_taken es w i))
        ∙ sym (serve-plain true e es w off)
  ]

  serve_left :
      (resized : Bool) (es : List Addressed) (w : Window lib)
      → serve false (left_of ids resized es) w ≡ serve resized es w
  serve_left true es w = serve_taken es w
  serve_left false es w = refl

  module _ (xlib : Xlib) where
    abbrev pub L : Type 0
    L = Left cfg world lib chars fontx fonty xlib ids

    abbrev pub loop : ℕ → Connection → Window lib → Option L
    loop = check_loop cfg world lib chars fontx fonty xlib ids

    -- What a callback leaves is what the pass leaves; if it goes on, nothing is left to read.
    pub record Agrees (left : L) (pass : Pass) : Type 0 where
      pub rest : events_of left.connection ≡ pass.rest
      pub window : left.window ≡ pass.window
      pub again : left.again ≡ pass.again
      pub drained :
          ((left.again ≡ true)
            × (left.connection.unread ≡ [])
            × (pass.rest ≡ left.connection.queue))
          ⊎ (left.again ≡ false)

    abbrev pub Ends : Option L → Pass → Type 0
    Ends r pass = (left : L) × (r ≡ some left) × Agrees left pass

    serve_none :
        (es : List Addressed) (w : Window lib)
        → passing (wants_event ids) es ≡ []
        → serve false es w ≡ record { rest = es; window = w; again = true }
    serve_none es w h =
        ap (λ l. serve false l w) (sym (append-nil es))
        ∙ serve_over es [] w h
        ∙ ap (λ l. record { rest = l; window = w; again = true }) (append-nil es)

    abbrev closed : Connection → Window lib → L
    closed c w = record {
      connection = c;
      window = hung_up cfg world lib chars fontx fonty xlib ids w;
      again = false;
    }

    round-Ends :
        (should_close : Bool) (r : Option L) (c : Connection) (w : Window lib)
        (before rest : List Addressed) (pass : Pass)
        → events_of c ≡ before ++ rest
        → Ends r (keep before pass)
        → Ends
            (if should_close then some (closed c w) else r)
            (keep before (if should_close then closed_pass rest w else pass))
    round-Ends true r c w before rest pass left more =
        (closed c w, refl, record { rest = left; window = refl; again = refl; drained = inr refl })
    round-Ends false r c w before rest pass left more = more

    abbrev handled_as : Addressed → Window lib → Window lib × Bool
    handled_as e w = handle_event cfg world lib chars fontx fonty (event_for ids e) w

    -- A round of the loop, by what the handler sees and leaves.
    abbrev round : ℕ → Window lib → Addressed → Connection → Option L
    round fuel w seen left =
        if (handled_as seen w).1
        then some (closed left (handled_as seen w).0)
        else loop fuel left (handled_as seen w).0

    found-Ends :
        (fuel : ℕ) (w : Window lib) (resized : Bool) (seen : Addressed) (left : Connection)
        (before after : List Addressed)
        → length (events_of left) < fuel
        → events_of left ≡ before ++ left_of ids resized after
        → passing (wants_event ids) before ≡ []
        → ((c' : Connection) (w' : Window lib)
            → length (events_of c') < fuel
            → Ends (loop fuel c' w') (serve false (events_of c') w'))
        → Ends (round fuel w seen left) (
            keep before (
              if (handled_as seen w).1
              then closed_pass (left_of ids resized after) (handled_as seen w).0
              else serve resized after (handled_as seen w).0))
    found-Ends fuel w resized seen left before after h are others more =
        let w' = (handled_as seen w).0 in
        round-Ends (handled_as seen w).1 (loop fuel left w') left w' before
          (left_of ids resized after) (serve resized after w') are
          (subst (Ends (loop fuel left w'))
            (ap (λ es. serve false es w') are
              ∙ serve_over before (left_of ids resized after) w' others
              ∙ ap (keep before) (serve_left resized after w'))
            (more left w' h))

    after_event-Ends :
        (fuel : ℕ) (c : Connection) (w : Window lib) (r : Check)
        → length (events_of c) < suc fuel
        → Checked (wants_event ids) c r
        → ((c' : Connection) (w' : Window lib)
            → length (events_of c') < fuel
            → Ends (loop fuel c' w') (serve false (events_of c') w'))
        → Ends
            (after_event cfg world lib chars fontx fonty xlib ids (loop fuel) w r)
            (serve false (events_of c) w)
    after_event-Ends fuel c w (found e c') h (before, after, all, rest, others, mine) more =
        let resized = is_resize ids e in
        let seen = seen_event xlib ids e c' in
        let (sees, leaves) = seen_event-Drained xlib ids e c' in
        let none = no_resize ids before others in
        let passed : serve false (events_of c) w ≡ keep before (serve false (e ∷ after) w) =
          ap (λ es. serve false es w) all ∙ serve_over before (e ∷ after) w others in
        let taken : serve false (e ∷ after) w ≡ (
            if (handled_as (seen_of ids e after) w).1
            then closed_pass (left_of ids resized after) (handled_as (seen_of ids e after) w).0
            else serve resized after (handled_as (seen_of ids e after) w).0) =
          rw mine in
        let sees_after : seen.0 ≡ seen_of ids e after =
          sees ∙ ap (seen_of ids e) rest ∙ seen_of_over ids e before after none in
        let left : events_of seen.1 ≡ before ++ left_of ids resized after =
          leaves ∙ ap (left_of ids resized) rest ∙ left_of_over ids resized before after none in
        let fewer : length (events_of seen.1) < fuel = omega (
          arith,
          ap length leaves,
          length-left_of ids resized (events_of c'),
          shorter e before after c c' all rest h,
        ) in
        subst (λ s. Ends (round fuel w s seen.1) (serve false (events_of c) w)) (sym sees_after)
          (subst (Ends _) (sym (passed ∙ ap (keep before) taken)) (
            found-Ends fuel w resized (seen_of ids e after) seen.1 before after fewer left others
              more))
    after_event-Ends fuel c w (not_found c') h (q, u, none_mine) more =
        let same : events_of c' ≡ events_of c =
          ap (λ l. c'.queue ++ l) u ∙ append-nil c'.queue ∙ q in
        subst (Ends _) (sym (serve_none (events_of c) w none_mine)) (
          record { connection = c'; window = w; again = true },
          refl,
          record { rest = same; window = refl; again = refl; drained = inl (refl, u, sym q) },
        )

    loop-Ends :
        (fuel : ℕ) (c : Connection) (w : Window lib)
        → length (events_of c) < fuel
        → Ends (loop fuel c w) (serve false (events_of c) w)
    unfolding check_loop
    loop-Ends zero c w h = absurd (omega arith)
    loop-Ends (suc fuel) c w h =
        after_event-Ends fuel c w _ h (xlib.check-Checked (wants_event ids) c) (loop-Ends fuel)

    -- The queue has as many rounds as the loop needs.
    pub queue_cb-Ends :
        (c : Connection) (w : Window lib)
        → Ends (queue_cb cfg world lib chars fontx fonty xlib ids c w) (serve false (events_of c) w)
    unfolding queue_cb
    queue_cb-Ends c w = loop-Ends (suc (length (events_of c))) c w (omega arith)
