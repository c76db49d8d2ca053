-- ===== src/Window/Clock.antt =====
-- Times in src/loop.c and src/window-xlib.c: `runes_loop_timer_set` and the test of
-- `runes_window_check_recent` that puts off a redraw.
use runes.Shared.{
  ℕ, zero, suc, ◌+◌, ◌-◌, ◌*◌, ◌≤◌, ◌<◌, ◌≡◌, refl, inl, inr, Bool, true, false, ◌&&◌, ◌||◌, arith,
  leb, if◌then◌else◌, Bool-cases,
}
use runes.Display.Location.{eq_ℤ}
use runes.Shared.Int.{ℤ, pos, negsuc, ltb_ℤ, ◌≤ℤ◌, ◌+ℤ◌, ◌-ℤ◌, int_laws, eq_of_parts}

-- struct timeval for a timeout, and the loop that fills it from milliseconds; one that is negative
-- enters no round, and the kernel is given its negative tv_usec.
pub record Timeval : Type 0 where
  pub tv_sec : ℕ
  pub tv_usec : ℤ

unfoldable pub timeout_loop : ℕ → ℕ → ℕ → ℕ × ℕ
timeout_loop zero sec ms = (sec, ms)
timeout_loop (suc fuel) sec ms =
    let more = timeout_loop fuel (sec + 1) (ms - 1000) in if leb 1000 ms then more else (sec, ms)

abbrev pub timeval_of : ℕ × ℕ → Timeval
timeval_of (sec, ms) = record { tv_sec = sec; tv_usec = pos (ms * 1000) }

unfoldable pub timer_set : ℤ → Timeval
unfolding timeout_loop
timer_set (pos ms) = timeval_of (timeout_loop ms 0 ms)
timer_set (negsuc n) = record { tv_sec = 0; tv_usec = pos 0 -ℤ pos (suc n * 1000) }

timeout_loop_lem :
    (fuel sec ms : ℕ)
    → ms ≤ fuel
    → ((timeout_loop fuel sec ms).0 * 1000 + (timeout_loop fuel sec ms).1 ≡ sec * 1000 + ms)
      × ((timeout_loop fuel sec ms).1 < 1000)
unfolding timeout_loop
timeout_loop_lem zero sec ms h = (refl, omega arith)
timeout_loop_lem (suc fuel) sec ms h = elim (Bool-cases (leb 1000 ms)) [
  | inl k ↦
      let big : 1000 ≤ ms = ground arith in
      let (total, small) = timeout_loop_lem fuel (sec + 1) (ms - 1000) (omega arith) in
      rw k (omega arith, small)
  | inr k ↦ rw k (refl, ground arith)
]

-- A timer is set for exactly its milliseconds, as whole seconds and less than a million
-- microseconds.
pub timer_set_lem :
    (ms : ℕ)
    → (pos ((timer_set (pos ms)).tv_sec * 1000000) +ℤ (timer_set (pos ms)).tv_usec
        ≡ pos (ms * 1000))
      × ((timer_set (pos ms)).tv_usec +ℤ pos 1 ≤ℤ pos 1000000)
unfolding timer_set
timer_set_lem ms =
    let (total, small) = timeout_loop_lem ms 0 ms (omega arith) in
    (eq_of_parts _ _ (omega int_laws), omega int_laws)

-- struct timespec, as clock_gettime fills it.
pub record Timespec : Type 0 where
  pub tv_sec : ℤ
  pub tv_nsec : ℤ

-- The loop over whole seconds, on the fuel of the rate.
unfoldable pub whole_seconds : ℕ → ℤ → ℕ → ℤ × ℕ
whole_seconds zero sec rate = (sec, rate)
whole_seconds (suc fuel) sec rate =
    let more = whole_seconds fuel (sec -ℤ pos 1) (rate - 1000) in
    if leb 1000 rate then more else (sec, rate)

-- The loop that borrows seconds; a rate below 1000 leaves less than one to borrow.
unfoldable pub borrow : ℕ → ℤ → ℤ → Timespec
borrow zero sec nsec = record { tv_sec = sec; tv_nsec = nsec }
borrow (suc fuel) sec nsec =
    let more = borrow fuel (sec -ℤ pos 1) (nsec +ℤ pos 1000000000) in
    if ltb_ℤ nsec (pos 0) then more else record { tv_sec = sec; tv_nsec = nsec }

abbrev pub borrow_rest : ℤ × ℕ → ℤ → Timespec
borrow_rest (sec, rate) nsec = borrow 1 sec (nsec -ℤ pos (rate * 1000000))

-- `now` less a rate of milliseconds. A negative one enters no loop; that its product fits an int is
-- not modelled.
unfoldable pub rate_before : ℤ → Timespec → Timespec
unfolding whole_seconds borrow
rate_before (pos rate) now = borrow_rest (whole_seconds rate now.tv_sec rate) now.tv_nsec
rate_before (negsuc n) now = record {
  tv_sec = now.tv_sec;
  tv_nsec = now.tv_nsec +ℤ pos (suc n * 1000000);
}

abbrev pub earlier : Timespec → Timespec → Bool
earlier a b = ltb_ℤ a.tv_sec b.tv_sec || (eq_ℤ a.tv_sec b.tv_sec && ltb_ℤ a.tv_nsec b.tv_nsec)

-- What the check looks at in a window. It sets a timer, which holds a reference to the terminal,
-- when it puts a redraw off for the first time.
pub record Redraws : Type 0 where
  pub delaying : Bool
  pub last_redraw : Timespec

pub record Checked : Type 0 where
  pub recent : Bool
  pub window : Redraws
  pub sets_timer : Bool

unfoldable pub check_recent : ℤ → Timespec → Redraws → Checked
unfolding rate_before
check_recent rate now w =
    if eq_ℤ rate (pos 0)
    then record { recent = false; window = w; sets_timer = false }
    else if w.delaying
    then record { recent = true; window = w; sets_timer = false }
    else if earlier (rate_before rate now) w.last_redraw
    then record { recent = true; window = record w { delaying = true }; sets_timer = true }
    else record { recent = false; window = w; sets_timer = false }
