-- ===== src/Term/Drain.antt =====
-- The end of a terminal whose window and shell have closed: its timers run out.
use runes.Shared.{
  ℕ, zero, suc, ◌+◌, ◌-◌, ◌≤◌, ◌<◌, ◌≡◌, refl, ap, ◌⊎◌, inl, inr, Bool, true, false, arith,
  if◌then◌else◌,
}
use runes.Term.{
  Term, no_rate, late, refcnt_inc, refcnt_dec, visual_bell, audible_bell, flush, delay_cb,
  reset_visual_bell, multi_click_cb, ring_audible, ring_visual,
}
use runes.Term.Life.{
  Managed, bit, Managed-Counted, delay_cb-Managed, reset_visual_bell-Managed,
  multi_click_cb-Managed,
}

-- A timer fires, and the clock does not put a redraw off: the last one is long enough ago, or there is
-- no limit to their rate.
pub data Fire : Term → Term → Type 0 where
  delay :
      (audible rated : Bool) (t : Term)
      → 0 < t.delay_timers
      → Fire t (delay_cb audible (if rated then late else no_rate) t)
  bell :
      (audible rated : Bool) (t : Term)
      → 0 < t.bell_timers
      → Fire t (reset_visual_bell audible (if rated then late else no_rate) t)
  click : (t : Term) → 0 < t.click_timers → Fire t (multi_click_cb t)

pub data Fires : ℕ → Term → Term → Type 0 where
  stop : (t : Term) → Fires 0 t t
  next : (n : ℕ) (t u v : Term) → Fire t u → Fires n u v → Fires (suc n) t v

-- The timers, and the bells that may still set one.
abbrev pub left : Term → ℕ
left t = t.delay_timers + t.bell_timers + t.click_timers + bit t.audible_bell + bit t.visual_bell

abbrev pub Closed : Term → Type 0
Closed t = (t.window_work ≡ false) × (t.pty_work ≡ false)

abbrev Drops : ℕ → Term → Type 0
Drops n u = (left u ≤ n) × Closed u

if-Drops : (n : ℕ) (b : Bool) (x y : Term) → Drops n x → Drops n y → Drops n (if b then x else y)
if-Drops n true x y hx hy = hx
if-Drops n false x y hx hy = hy

ring_audible-Drops :
    (audible : Bool) (t : Term) → Closed t → Drops (left t) (ring_audible audible t)
unfolding refcnt_inc visual_bell audible_bell
ring_audible-Drops audible t h = ground arith

ring_visual-Drops : (t : Term) → Closed t → Drops (left t) (ring_visual t)
unfolding refcnt_inc visual_bell
ring_visual-Drops t h = ground arith

rings-Drops :
    (audible : Bool) (t : Term) → Closed t → Drops (left t) (ring_visual (ring_audible audible t))
rings-Drops audible t h =
    let (first, closed) = ring_audible-Drops audible t h in
    let (second, closed_still) = ring_visual-Drops (ring_audible audible t) closed in
    (omega (arith, first, second), closed_still)

flush-Drops :
    (audible rated : Bool) (t : Term)
    → Closed t
    → Drops (left t) (flush audible (if rated then late else no_rate) t)
unfolding flush
flush-Drops audible true t h =
    if-Drops (left t) t.delaying t _ (omega arith, h) (rings-Drops audible t h)
flush-Drops audible false t h = rings-Drops audible t h

refcnt_dec-Drops : (n : ℕ) (t : Term) → Drops n t → Drops n (refcnt_dec t)
unfolding refcnt_dec
refcnt_dec-Drops n t h = ground arith

-- Each firing uses up a timer, or a bell that would have set one.
Fire-Drops : (t u : Term) → Fire t u → Closed t → (suc (left u) ≤ left t) × Closed u
unfolding delay_cb reset_visual_bell multi_click_cb
Fire-Drops t _ (delay audible rated _ some) h =
    let fired = record t { delaying = false; delay_timers = t.delay_timers - 1 } in
    let (less, closed) = refcnt_dec-Drops (left fired) _ (flush-Drops audible rated fired h) in
    (omega (arith, less, some), closed)
Fire-Drops t _ (bell audible rated _ some) h =
    let fired = record t { visual_bell_is_ringing = false; bell_timers = t.bell_timers - 1 } in
    let (less, closed) = refcnt_dec-Drops (left fired) _ (flush-Drops audible rated fired h) in
    (omega (arith, less, some), closed)
Fire-Drops t _ (click _ some) h =
    let fired = record t { multi_click_timer = false; click_timers = t.click_timers - 1 } in
    let (less, closed) = refcnt_dec-Drops (left fired) fired (omega arith, h) in
    (omega (arith, less, some), closed)

Fire-Managed : (t u : Term) → Fire t u → Managed t → Managed u
Fire-Managed t _ (delay audible rated _ some) h =
    delay_cb-Managed audible _ t (Managed-Counted t h (omega arith)) some
Fire-Managed t _ (bell audible rated _ some) h =
    reset_visual_bell-Managed audible _ t (Managed-Counted t h (omega arith)) some
Fire-Managed t _ (click _ some) h =
    multi_click_cb-Managed t (Managed-Counted t h (omega arith)) some

zero_or_more : (n : ℕ) → (n ≡ 0) ⊎ (0 < n)
zero_or_more zero = inl refl
zero_or_more (suc n) = inr (omega arith)

-- Deleted, or some timer is pending.
deleted_or_fires : (t : Term) → Managed t → Closed t → (t.deleted ≡ true) ⊎ ((u : Term) × Fire t u)
deleted_or_fires t (inr (deleted, none_left)) h = inl deleted
deleted_or_fires t (inl (kept, counted, some_left, each)) (window, pty) =
    elim (zero_or_more t.delay_timers) [
      | inr some ↦ inr (_, delay true true t some)
      | inl none ↦ elim (zero_or_more t.bell_timers) [
        | inr some ↦ inr (_, bell true true t some)
        | inl none' ↦
            inr (_, click t (omega (arith, some_left, ap bit window, ap bit pty, none, none')))
      ]
    ]

bit_at_most : (b : Bool) → bit b ≤ 1
bit_at_most true = omega arith
bit_at_most false = omega arith

at_most_five : (t : Term) → Managed t → left t ≤ 5
at_most_five t (inr (deleted, none_left)) =
    omega (arith, bit_at_most t.audible_bell, bit_at_most t.visual_bell)
at_most_five t (inl (kept, counted, some_left, (d, b, c))) = omega (
  arith,
  bit_at_most t.audible_bell,
  bit_at_most t.visual_bell,
  bit_at_most t.delaying,
  bit_at_most t.visual_bell_is_ringing,
  bit_at_most t.multi_click_timer,
  d,
  b,
  c,
)

Fires-left :
    (n : ℕ) (t u : Term)
    → Managed t
    → Closed t
    → Fires n t u
    → (n + left u ≤ left t) × ((u.deleted ≡ true) ⊎ ((v : Term) × Fire u v))
Fires-left _ t _ managed closed (stop _) = (omega arith, deleted_or_fires t managed closed)
Fires-left _ t v managed closed (next n _ u _ fire fires) =
    let (less, closed_still) = Fire-Drops t u fire closed in
    let (rest, ends) = Fires-left n u v (Fire-Managed t u fire managed) closed_still fires in
    (omega (arith, less, rest), ends)

-- Once the window and the shell have closed, at most five timers fire of which the clock puts no
-- redraw off; after any of them the terminal is deleted or another timer is pending.
pub Fires-ends :
    (n : ℕ) (t u : Term)
    → Managed t
    → Closed t
    → Fires n t u
    → (n ≤ 5) × ((u.deleted ≡ true) ⊎ ((v : Term) × Fire u v))
Fires-ends n t u managed closed fires =
    let (bound, ends) = Fires-left n t u managed closed fires in
    (omega (arith, bound, at_most_five t managed), ends)
