-- ===== src/Window/QueueLaws.antt =====
-- The callbacks of src/window-xlib.c on a connection that terminals share: each takes its own events.
use runes.Shared.{
  ℕ, ◌≡◌, refl, sym, ap, ◌∙◌, ◌⊎◌, Bool, true, false, some, List, [], ◌∷◌, ◌++◌, append-nil, arith,
  if◌then◌else◌, Bool-cases, inl, inr, ◌≢◌,
}
use runes.Config.Types.{Config}
use runes.Window.State.{ScreenLib, Characters, World, Window}
use runes.Window.Events.{event_cb}
use runes.Window.Queue.{
  is_resize, Addressed, Connection, events_of, Windows, wants_event, passing, failing, Xlib, Left,
  queue_cb,
}
use runes.Window.Configure.{left_of}
use runes.Window.Pass.{own, has_resize, seen_list, queue_cb-Ends}
use runes.Window.Split.{serve-Split}

-- Two terminals that have no window in common.
abbrev pub Apart : Windows → Windows → Type 0
Apart a b =
    (a.inner ≢ b.inner) × (a.inner ≢ b.border) × (a.border ≢ b.inner) × (a.border ≢ b.border)

Apart-wants :
    (a b : Windows) (e : Addressed) → Apart a b → wants_event a e ≡ true → wants_event b e ≡ false
Apart-wants a b e (h1, h2, h3, h4) w = ground arith

passing-append :
    (p : Addressed → Bool) (xs ys : List Addressed)
    → passing p (xs ++ ys) ≡ passing p xs ++ passing p ys
passing-append p [] ys = refl
passing-append p (x ∷ xs) ys = elim (Bool-cases (p x)) [
  | inl e ↦ rw e (ap (λ l. x ∷ l) (passing-append p xs ys))
  | inr e ↦ rw e (passing-append p xs ys)
]

Apart-is_resize :
    (a b : Windows) (e : Addressed) → Apart a b → is_resize a e ≡ true → wants_event b e ≡ false
Apart-is_resize a b e (h1, h2, h3, h4) w = ground arith

-- To remove what a test rejects does not change what passes it.
passing-failing :
    (p q : Addressed → Bool) (es : List Addressed)
    → ((e : Addressed) → p e ≡ true → q e ≡ false)
    → passing q (failing p es) ≡ passing q es
passing-failing p q [] h = refl
passing-failing p q (e ∷ es) h = elim (Bool-cases (p e)) [
  | inl taken ↦ rw (taken, h e taken) (passing-failing p q es h)
  | inr stays ↦ rw stays (ap (λ l. if q e then e ∷ l else l) (passing-failing p q es h))
]

own-left_of :
    (a b : Windows) (resized : Bool) (later : List Addressed)
    → Apart a b
    → own b (left_of a resized later) ≡ own b later
own-left_of a b false later apart = refl
own-left_of a b true later apart =
    passing-failing (is_resize a) (wants_event b) later (λ e. Apart-is_resize a b e apart)

others_kept :
    (a b : Windows) (resized : Bool) (handled later : List Addressed) {kept all : List Addressed}
    → Apart a b
    → kept ≡ failing (wants_event a) handled ++ left_of a resized later
    → all ≡ handled ++ later
    → own b kept ≡ own b all
others_kept a b resized handled later apart k e =
    ap (own b) k
    ∙ passing-append (wants_event b) (failing (wants_event a) handled) (left_of a resized later)
    ∙ ap (λ l. own b (failing (wants_event a) handled) ++ l) (own-left_of a b resized later apart)
    ∙ ap (λ l. l ++ own b later)
        (passing-failing (wants_event a) (wants_event b) handled (λ x. Apart-wants a b x apart))
    ∙ sym (passing-append (wants_event b) handled later)
    ∙ ap (own b) (sym e)

module _ {Pattern : Type 0} (cfg : Config Pattern) (world : World) (lib : ScreenLib)
    (chars : Characters) (fontx fonty : ℕ) (xlib : Xlib) (ids : Windows) where
  pub queue_cb-own :
      (c : Connection) (w : Window lib)
      → (left : Left cfg world lib chars fontx fonty xlib ids) × (handled : List Addressed)
        × (later : List Addressed) × (queue_cb cfg world lib chars fontx fonty xlib ids c w
            ≡ some left)
        × (events_of c ≡ handled ++ later)
        × (events_of left.connection
            ≡ failing (wants_event ids) handled ++ left_of ids (has_resize ids handled) later)
        × ((left.window, left.again)
            ≡ event_cb cfg world lib chars fontx fonty (seen_list ids false later handled) w)
        × ((left.again ≡ true) × (later ≡ []) × (left.connection.unread ≡ [])
            ⊎ (left.again ≡ false))
  queue_cb-own c w =
      let (left, ends, agrees) = queue_cb-Ends cfg world lib chars fontx fonty ids xlib c w in
      let (handled, later, all, rest, cb, end) =
        serve-Split cfg world lib chars fontx fonty ids false (events_of c) w in
      (
        left,
        handled,
        later,
        ends,
        all,
        agrees.rest ∙ rest,
        (λ i. (agrees.window i, agrees.again i)) ∙ cb,
        elim agrees.drained [
          | inl (again, none_left, q) ↦ elim end [
            | inl all_handled ↦ inl (again, all_handled, none_left)
            | inr shut ↦ inr (agrees.again ∙ shut)
          ]
          | inr shut ↦ inr shut
        ],
      )

  -- Of another terminal's events a callback takes none and keeps the order; if it goes on they are all
  -- in Xlib's queue, with nothing on the descriptor that would make the event loop look at it.
  pub queue_cb-others :
      (c : Connection) (w : Window lib) (ids' : Windows)
      → Apart ids ids'
      → (left : Left cfg world lib chars fontx fonty xlib ids) × (queue_cb cfg world lib chars fontx
            fonty xlib ids c w
          ≡ some left)
        × (own ids' (events_of left.connection) ≡ own ids' (events_of c))
        × ((left.again ≡ true)
              × (left.connection.unread ≡ [])
              × (own ids' left.connection.queue ≡ own ids' (events_of c))
            ⊎ (left.again ≡ false))
  queue_cb-others c w ids' apart =
      let (left, handled, later, ends, all, rest, cb, end) = queue_cb-own c w in
      let same : own ids' (events_of left.connection) ≡ own ids' (events_of c) =
        others_kept ids ids' (has_resize ids handled) handled later apart rest all in
      (
        left,
        ends,
        same,
        elim end [
          | inl (again, all_handled, none_left) ↦ inl (
            again,
            none_left,
            ap (own ids') (sym (append-nil left.connection.queue))
                ∙ ap (λ l. own ids' (left.connection.queue ++ l)) (sym none_left)
                ∙ same,
          )
          | inr shut ↦ inr shut
        ],
      )
