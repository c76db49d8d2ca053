-- ===== src/Window/Pacing.antt =====
-- How often src/window-xlib.c redraws a window: what `runes_window_check_recent` does to the clock.
use runes.Shared.{
  ℕ, zero, suc, ◌+◌, ◌-◌, ◌*◌, ◌≤◌, ◌<◌, ◌≡◌, inl, inr, false, arith, leb, Bool-cases,
}
use runes.Display.Location.{eq_ℤ}
use runes.Shared.Int.{ℤ, pos, pos_part, neg_part, ltb_ℤ, ◌≤ℤ◌, ◌+ℤ◌, ◌-ℤ◌, int_laws, +ℤ_parts}
use runes.Window.Clock.{
  Timespec, whole_seconds, borrow, borrow_rest, rate_before, earlier, Redraws, check_recent,
}

-- As clock_gettime fills it.
abbrev pub Normal : Timespec → Type 0
Normal t = (pos 0 ≤ℤ t.tv_nsec) × (t.tv_nsec +ℤ pos 1 ≤ℤ pos 1000000000)

-- The nanoseconds of a time, above zero and below it.
abbrev pub nanos_up : Timespec → ℕ
nanos_up t = pos_part t.tv_sec * 1000000000 + pos_part t.tv_nsec

abbrev pub nanos_down : Timespec → ℕ
nanos_down t = neg_part t.tv_sec * 1000000000 + neg_part t.tv_nsec

-- At least so many nanoseconds lie between two times.
abbrev pub Apart : ℕ → Timespec → Timespec → Type 0
Apart n a b = nanos_up a + n + nanos_down b ≤ nanos_up b + nanos_down a

whole_seconds_lem :
    (fuel : ℕ) (sec : ℤ) (rate : ℕ)
    → rate ≤ fuel
    → (pos_part (whole_seconds fuel sec rate).0 * 1000 + rate + neg_part sec * 1000
        ≡ pos_part sec * 1000
          + (whole_seconds fuel sec rate).1
          + neg_part (whole_seconds fuel sec rate).0 * 1000)
      × ((whole_seconds fuel sec rate).1 < 1000)
unfolding whole_seconds
whole_seconds_lem zero sec rate h = (omega arith, omega arith)
whole_seconds_lem (suc fuel) sec rate h = elim (Bool-cases (leb 1000 rate)) [
  | inl k ↦
      let big : 1000 ≤ rate = ground arith in
      let (total, small) = whole_seconds_lem fuel (sec -ℤ pos 1) (rate - 1000) (omega arith) in
      rw k (omega int_laws, small)
  | inr k ↦ rw k (omega arith, ground arith)
]

borrow_rest_lem :
    (sec nsec : ℤ) (rate : ℕ)
    → rate < 1000
    → (pos 0 ≤ℤ nsec) × (nsec +ℤ pos 1 ≤ℤ pos 1000000000)
    → Normal (borrow_rest (sec, rate) nsec)
      × (nanos_up (borrow_rest (sec, rate) nsec)
            + rate * 1000000
            + (neg_part sec * 1000000000 + neg_part nsec)
          ≡ pos_part sec * 1000000000 + pos_part nsec + nanos_down (borrow_rest (sec, rate) nsec))
unfolding borrow
borrow_rest_lem sec nsec rate h (low, high) =
    elim (Bool-cases (ltb_ℤ (nsec -ℤ pos (rate * 1000000)) (pos 0))) [
      | inl k ↦
          let under : suc (pos_part (nsec -ℤ pos (rate * 1000000)))
              ≤ neg_part (nsec -ℤ pos (rate * 1000000)) =
            ground arith in
          rw k ((omega int_laws, omega int_laws), omega int_laws)
      | inr k ↦
          let over : neg_part (nsec -ℤ pos (rate * 1000000))
              ≤ pos_part (nsec -ℤ pos (rate * 1000000)) =
            ground arith in
          rw k ((omega int_laws, omega int_laws), omega int_laws)
    ]

in_nanos :
    (t now : Timespec) (sec : ℤ) (rate rest : ℕ)
    → pos_part sec * 1000 + rate + neg_part now.tv_sec * 1000
      ≡ pos_part now.tv_sec * 1000 + rest + neg_part sec * 1000
    → nanos_up t + rest * 1000000 + (neg_part sec * 1000000000 + neg_part now.tv_nsec)
      ≡ pos_part sec * 1000000000 + pos_part now.tv_nsec + nanos_down t
    → nanos_up t + rate * 1000000 + nanos_down now ≡ nanos_up now + nanos_down t
in_nanos t now sec rate rest h k = omega arith

-- A time that is `rate` milliseconds before another has its nanoseconds less so many.
rate_before_lem :
    (rate : ℕ) (now : Timespec)
    → Normal now
    → Normal (rate_before (pos rate) now)
      × (nanos_up (rate_before (pos rate) now) + rate * 1000000 + nanos_down now
          ≡ nanos_up now + nanos_down (rate_before (pos rate) now))
unfolding rate_before
rate_before_lem rate now h =
    let (total, small) = whole_seconds_lem rate now.tv_sec rate (omega arith) in
    let (normal, nanos) =
      borrow_rest_lem (whole_seconds rate now.tv_sec rate).0 now.tv_nsec
        (whole_seconds rate now.tv_sec rate).1 small h in
    (
      normal,
      in_nanos (rate_before (pos rate) now) now (whole_seconds rate now.tv_sec rate).0 rate
          (whole_seconds rate now.tv_sec rate).1 total nanos,
    )

not_earlier : (a b : Timespec) → Normal a → Normal b → earlier a b ≡ false → Apart 0 b a
not_earlier a b (al, ah) (bl, bh) h =
    let seconds : b.tv_sec ≤ℤ a.tv_sec = ground arith in
    elim (Bool-cases (eq_ℤ a.tv_sec b.tv_sec)) [
      | inl k ↦ let nanos : b.tv_nsec ≤ℤ a.tv_nsec = ground arith in omega int_laws
      | inr k ↦
          let more : b.tv_sec +ℤ pos 1 ≤ℤ a.tv_sec = ground (arith, +ℤ_parts b.tv_sec (pos 1)) in
          omega int_laws
    ]

Apart-in :
    (n : ℕ) (t now last : Timespec)
    → nanos_up t + n + nanos_down now ≡ nanos_up now + nanos_down t
    → Apart 0 last t
    → Apart n last now
Apart-in n t now last h k = omega arith

-- With a redraw rate that is not 0, a redraw that is not put off comes at least so many milliseconds
-- after the last one.
pub check_recent-Apart :
    (rate : ℕ) (now : Timespec) (w : Redraws)
    → Normal now
    → Normal w.last_redraw
    → 0 < rate
    → (check_recent (pos rate) now w).recent ≡ false
    → Apart (rate * 1000000) w.last_redraw now
unfolding check_recent
check_recent-Apart rate now w h k l e =
    let (normal, nanos) = rate_before_lem rate now h in
    let some_rate : eq_ℤ (pos rate) (pos 0) ≡ false = ground arith in
    elim (Bool-cases w.delaying) [
      | inl d ↦ absurd (ground arith)
      | inr d ↦ elim (Bool-cases (earlier (rate_before (pos rate) now) w.last_redraw)) [
        | inl x ↦ absurd (ground arith)
        | inr x ↦
            Apart-in (rate * 1000000) (rate_before (pos rate) now) now w.last_redraw nanos
              (not_earlier (rate_before (pos rate) now) w.last_redraw normal k x)
      ]
    ]
