-- ===== src/Term/Life.antt =====
-- A terminal's count is that of the callbacks that the loop still holds for it.
use runes.Shared.{
  ℕ, ◌+◌, ◌-◌, ◌≤◌, ◌<◌, ◌≡◌, ◌⊎◌, inl, inr, Bool, true, false, arith, if◌then◌else◌,
}
use runes.Term.{
  Term, refcnt_inc, refcnt_dec, Pace, no_rate, early, late, is_recent, after_check, visual_bell,
  audible_bell, ring_audible, ring_visual, flush, delay_cb, reset_visual_bell, multi_click_cb,
  restart_click, close_window, close_pty,
}

abbrev pub bit : Bool → ℕ
bit false = 0
bit true = 1

-- The callbacks that are to come.
abbrev pub pending : Term → ℕ
pending t = bit t.window_work + bit t.pty_work + t.delay_timers + t.bell_timers + t.click_timers

-- At most one timer of each kind, as the window's bits say.
abbrev pub OneTimerEach : Term → Type 0
OneTimerEach t =
    (t.delay_timers ≡ bit t.delaying)
    × (t.bell_timers ≡ bit t.visual_bell_is_ringing)
    × (t.click_timers ≡ bit t.multi_click_timer)

-- The count with so many references still to be given back by a callback that runs.
abbrev pub Counted : ℕ → Term → Type 0
Counted held t = (t.deleted ≡ false) × (t.refcnt ≡ pending t + held) × OneTimerEach t

-- While anything is to come the terminal is there, with a reference for each callback; with the last
-- one it is deleted.
abbrev pub Managed : Term → Type 0
Managed t =
    (t.deleted ≡ false) × (t.refcnt ≡ pending t) × (0 < pending t) × OneTimerEach t
    ⊎ (t.deleted ≡ true) × (pending t ≡ 0)

if-Counted :
    (held : ℕ) (b : Bool) (x y : Term)
    → Counted held x
    → Counted held y
    → Counted held (if b then x else y)
if-Counted held true x y hx hy = hx
if-Counted held false x y hx hy = hy

-- Each operation, on a terminal whose count is right.
visual_bell-Counted : (held : ℕ) (t : Term) → Counted held t → Counted held (visual_bell t)
unfolding visual_bell refcnt_inc
visual_bell-Counted held t h = ground arith

audible_bell-Counted :
    (audible : Bool) (held : ℕ) (t : Term) → Counted held t → Counted held (audible_bell audible t)
unfolding audible_bell
audible_bell-Counted true held t h = h
audible_bell-Counted false held t h = visual_bell-Counted held t h

ring_audible-Counted :
    (audible : Bool) (held : ℕ) (t : Term) → Counted held t → Counted held (ring_audible audible t)
ring_audible-Counted audible held t h =
    if-Counted held t.audible_bell (record (audible_bell audible t) { audible_bell = false }) t
      (audible_bell-Counted audible held t h) h

ring_visual-Counted : (held : ℕ) (t : Term) → Counted held t → Counted held (ring_visual t)
ring_visual-Counted held t h =
    if-Counted held t.visual_bell (record (visual_bell t) { visual_bell = false }) t
      (visual_bell-Counted held t h) h

after_check-Counted :
    (pace : Pace) (held : ℕ) (t : Term) → Counted held t → Counted held (after_check pace t)
unfolding refcnt_inc
after_check-Counted no_rate held t h = h
after_check-Counted early held t h = ground arith
after_check-Counted late held t h = h

flush-Counted :
    (audible : Bool) (pace : Pace) (held : ℕ) (t : Term)
    → Counted held t
    → Counted held (flush audible pace t)
unfolding flush
flush-Counted audible pace held t h =
    if-Counted held (is_recent pace t) (after_check pace t) (ring_visual (ring_audible audible t))
      (after_check-Counted pace held t h)
      (ring_visual-Counted held (ring_audible audible t) (ring_audible-Counted audible held t h))

-- A callback that gives its reference back.
refcnt_dec-Managed : (t : Term) → Counted 1 t → Managed (refcnt_dec t)
unfolding refcnt_dec
refcnt_dec-Managed t h = ground arith

Counted-Managed : (t : Term) → Counted 0 t → 0 < pending t → Managed t
Counted-Managed t (d, r, each) some_left = inl (d, omega arith, some_left, each)

-- A flush takes references and gives none back.
if_grows :
    (n : ℕ) (b : Bool) (x y : Term) → n ≤ x.refcnt → n ≤ y.refcnt → n ≤ (if b then x else y).refcnt
if_grows n true x y hx hy = hx
if_grows n false x y hx hy = hy

visual_bell_grows : (t : Term) → t.refcnt ≤ (visual_bell t).refcnt
unfolding visual_bell refcnt_inc
visual_bell_grows t = ground arith

ring_grows : (audible : Bool) (t : Term) → t.refcnt ≤ (ring_visual (ring_audible audible t)).refcnt
unfolding visual_bell audible_bell refcnt_inc
ring_grows audible t = ground arith

check_grows : (pace : Pace) (t : Term) → t.refcnt ≤ (after_check pace t).refcnt
unfolding refcnt_inc
check_grows pace t = ground arith

flush_grows : (audible : Bool) (pace : Pace) (t : Term) → t.refcnt ≤ (flush audible pace t).refcnt
unfolding flush
flush_grows audible pace t =
    if_grows t.refcnt (is_recent pace t) (after_check pace t) (ring_visual (ring_audible audible t))
      (check_grows pace t) (ring_grows audible t)

-- A callback that is to come has a terminal that is there.
pub Managed-Counted : (t : Term) → Managed t → 0 < pending t → Counted 0 t
Managed-Counted t (inl (d, r, some_left, each)) h = (d, omega arith, each)
Managed-Counted t (inr (d, none_left)) h = absurd (omega arith)

pub flush-Managed :
    (audible : Bool) (pace : Pace) (t : Term)
    → Counted 0 t
    → 0 < pending t
    → Managed (flush audible pace t)
flush-Managed audible pace t (d, r, each) h =
    let counted = flush-Counted audible pace 0 t (d, r, each) in
    Counted-Managed (flush audible pace t) counted
      (omega (arith, counted.1, flush_grows audible pace t))

pub window_pending : (t : Term) → t.window_work ≡ true → 0 < pending t
window_pending t h = ground arith

pub pty_pending : (t : Term) → t.pty_work ≡ true → 0 < pending t
pty_pending t h = ground arith

pub restart_click-Managed :
    (t : Term) → Counted 0 t → t.window_work ≡ true → Managed (restart_click t)
unfolding restart_click refcnt_dec refcnt_inc
restart_click-Managed t h w = ground arith

pub close_window-Managed :
    (t : Term) → Counted 0 t → t.window_work ≡ true → Managed (close_window t)
unfolding close_window
close_window-Managed t (d, r, each) w =
    refcnt_dec-Managed (record t { window_work = false }) (d, ground arith, each)

pub close_pty-Managed : (t : Term) → Counted 0 t → t.pty_work ≡ true → Managed (close_pty t)
unfolding close_pty
close_pty-Managed t (d, r, each) w =
    refcnt_dec-Managed (record t { pty_work = false }) (d, ground arith, each)

pub delay_cb-Managed :
    (audible : Bool) (pace : Pace) (t : Term)
    → Counted 0 t
    → 0 < t.delay_timers
    → Managed (delay_cb audible pace t)
unfolding delay_cb
delay_cb-Managed audible pace t (d, r, (x, y, z)) h =
    let fired = record t { delaying = false; delay_timers = t.delay_timers - 1 } in
    refcnt_dec-Managed (flush audible pace fired)
      (flush-Counted audible pace 1 fired (d, omega arith, (ground arith, y, z)))

pub reset_visual_bell-Managed :
    (audible : Bool) (pace : Pace) (t : Term)
    → Counted 0 t
    → 0 < t.bell_timers
    → Managed (reset_visual_bell audible pace t)
unfolding reset_visual_bell
reset_visual_bell-Managed audible pace t (d, r, (x, y, z)) h =
    let fired = record t { visual_bell_is_ringing = false; bell_timers = t.bell_timers - 1 } in
    refcnt_dec-Managed (flush audible pace fired)
      (flush-Counted audible pace 1 fired (d, omega arith, (x, ground arith, z)))

pub multi_click_cb-Managed :
    (t : Term) → Counted 0 t → 0 < t.click_timers → Managed (multi_click_cb t)
unfolding multi_click_cb
multi_click_cb-Managed t (d, r, (x, y, z)) h =
    refcnt_dec-Managed (record t { multi_click_timer = false; click_timers = t.click_timers - 1 })
      (d, omega arith, (x, y, ground arith))
