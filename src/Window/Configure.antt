-- ===== src/Window/Configure.antt =====
-- The loop of `runes_window_handle_configure_event` in src/window-xlib.c takes all configure events that have
-- come, and gives the last.
use runes.Shared.{
  ℕ, zero, suc, ◌<◌, ◌≤◌, ◌≡◌, refl, sym, ap, ◌∙◌, Bool, true, false, List, [], ◌∷◌, ◌++◌, length,
  length-append, append-nil, arith, if◌then◌else◌, Bool-cases, inl, inr,
}
use runes.Window.Queue.{
  is_resize, after_typed, last_configure, seen_event, Addressed, Connection, events_of, Windows,
  wants_event, passing, failing, Check, found, not_found, Checked, Xlib,
}

pub passing_off :
    (p : Addressed → Bool) (x : Addressed) (xs : List Addressed)
    → passing p (x ∷ xs) ≡ []
    → (p x ≡ false) × (passing p xs ≡ [])
passing_off p x xs h = elim (Bool-cases (p x)) [
  | inl e ↦ ground (arith, e)
  | inr e ↦ (e, ap (λ b. if b then x ∷ passing p xs else passing p xs) (sym e) ∙ h)
]

-- An event less is left.
pub shorter :
    {n : ℕ} (e : Addressed) (before after : List Addressed) (c c' : Connection)
    → events_of c ≡ before ++ e ∷ after
    → events_of c' ≡ before ++ after
    → length (events_of c) < suc n
    → length (events_of c') < n
shorter e before after c c' all left h = omega (
  arith,
  ap length all,
  ap length left,
  length-append before (e ∷ after),
  length-append before after,
)

-- The last event of a list that passes, or the one before the list.
abbrev pub last_of : (Addressed → Bool) → Addressed → List Addressed → Addressed
last_of p e [] = e
last_of p e (x ∷ xs) =
    let later = last_of p x xs in let same = last_of p e xs in if p x then later else same

pub last_of_over :
    (p : Addressed → Bool) (e : Addressed) (before after : List Addressed)
    → passing p before ≡ []
    → last_of p e (before ++ after) ≡ last_of p e after
last_of_over p e [] after h = refl
last_of_over p e (x ∷ before) after h =
    let (off, others) = passing_off p x before h in rw off (last_of_over p e before after others)

pub failing_over :
    (p : Addressed → Bool) (before after : List Addressed)
    → passing p before ≡ []
    → failing p (before ++ after) ≡ before ++ failing p after
failing_over p [] after h = refl
failing_over p (x ∷ before) after h =
    let (off, others) = passing_off p x before h in
    rw off (ap (λ l. x ∷ l) (failing_over p before after others))

pub failing_none :
    (p : Addressed → Bool) (es : List Addressed) → passing p es ≡ [] → failing p es ≡ es
failing_none p es h = ap (failing p) (sym (append-nil es)) ∙ failing_over p es [] h ∙ append-nil es

-- What the handler of an event sees of it, with those behind it; and what it leaves of those.
abbrev pub seen_of : Windows → Addressed → List Addressed → Addressed
seen_of ids e es = if is_resize ids e then last_of (is_resize ids) e es else e

abbrev pub left_of : Windows → Bool → List Addressed → List Addressed
left_of ids resized es = if resized then failing (is_resize ids) es else es

module _ (xlib : Xlib) (ids : Windows) where
  -- The last event, and what is left of a connection.
  abbrev Drained : Addressed → List Addressed → Addressed × Connection → Type 0
  Drained e es r =
      (r.0 ≡ last_of (is_resize ids) e es) × (events_of r.1 ≡ failing (is_resize ids) es)

  after_typed-Drained :
      (fuel : ℕ) (e : Addressed) (c : Connection) (r : Check)
      → length (events_of c) < suc fuel
      → Checked (is_resize ids) c r
      → ((e' : Addressed) (c' : Connection)
          → length (events_of c') < fuel
          → Drained e' (events_of c') (last_configure xlib ids fuel e' c'))
      → Drained e (events_of c) (after_typed xlib ids (last_configure xlib ids fuel) e r)
  after_typed-Drained fuel e c (found e' c') h (before, after, all, rest, others, mine) more =
      let (last, left) = more e' c' (shorter e' before after c c' all rest h) in
      (
        last
            ∙ ap (last_of (is_resize ids) e') rest
            ∙ last_of_over (is_resize ids) e' before after others
            ∙ (rw mine refl)
            ∙ sym (
                ap (last_of (is_resize ids) e) all
                ∙ last_of_over (is_resize ids) e before (e' ∷ after) others),
        left
            ∙ ap (failing (is_resize ids)) rest
            ∙ failing_over (is_resize ids) before after others
            ∙ sym (
                ap (failing (is_resize ids)) all
                ∙ failing_over (is_resize ids) before (e' ∷ after) others
                ∙ (rw mine refl)),
      )
  after_typed-Drained fuel e c (not_found c') h (q, u, none_mine) more = (
    sym (
        ap (last_of (is_resize ids) e) (sym (append-nil (events_of c)))
        ∙ last_of_over (is_resize ids) e (events_of c) [] none_mine),
    ap (λ l. c'.queue ++ l) u
        ∙ append-nil c'.queue
        ∙ q
        ∙ sym (failing_none (is_resize ids) (events_of c) none_mine),
  )

  last_configure-Drained :
      (fuel : ℕ) (e : Addressed) (c : Connection)
      → length (events_of c) < fuel
      → Drained e (events_of c) (last_configure xlib ids fuel e c)
  unfolding last_configure
  last_configure-Drained zero e c h = absurd (omega arith)
  last_configure-Drained (suc fuel) e c h =
      after_typed-Drained fuel e c _ h (xlib.typed-Checked ids c) (last_configure-Drained fuel)

  pub seen_event-Drained :
      (e : Addressed) (c : Connection)
      → ((seen_event xlib ids e c).0 ≡ seen_of ids e (events_of c))
        × (events_of (seen_event xlib ids e c).1 ≡ left_of ids (is_resize ids e) (events_of c))
  seen_event-Drained e c =
      let (last, left) = last_configure-Drained (suc (length (events_of c))) e c (omega arith) in
      elim (Bool-cases (is_resize ids e)) [
        | inl on ↦ rw on (last, left)
        | inr off ↦ rw off (refl, refl)
      ]

pub resize_wanted :
    (ids : Windows) (e : Addressed) → wants_event ids e ≡ false → is_resize ids e ≡ false
resize_wanted ids e h = ground arith

pub no_resize :
    (ids : Windows) (es : List Addressed)
    → passing (wants_event ids) es ≡ []
    → passing (is_resize ids) es ≡ []
no_resize ids [] h = refl
no_resize ids (e ∷ es) h =
    let (off, others) = passing_off (wants_event ids) e es h in
    rw (resize_wanted ids e off) (no_resize ids es others)

pub length-left_of :
    (ids : Windows) (resized : Bool) (es : List Addressed)
    → length (left_of ids resized es) ≤ length es
length-left_of ids false es = omega arith
length-left_of ids true [] = omega arith
length-left_of ids true (e ∷ es) = elim (Bool-cases (is_resize ids e)) [
  | inl on ↦ rw on (omega (arith, length-left_of ids true es))
  | inr off ↦ rw off (omega (arith, length-left_of ids true es))
]

pub seen_of_over :
    (ids : Windows) (e : Addressed) (before after : List Addressed)
    → passing (is_resize ids) before ≡ []
    → seen_of ids e (before ++ after) ≡ seen_of ids e after
seen_of_over ids e before after h =
    ap (λ x. if is_resize ids e then x else e) (last_of_over (is_resize ids) e before after h)

pub left_of_over :
    (ids : Windows) (resized : Bool) (before after : List Addressed)
    → passing (is_resize ids) before ≡ []
    → left_of ids resized (before ++ after) ≡ before ++ left_of ids resized after
left_of_over ids true before after h = failing_over (is_resize ids) before after h
left_of_over ids false before after h = refl
