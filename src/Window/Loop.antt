-- ===== src/Window/Loop.antt =====
-- A whole terminal in its event loop: the window of src/window-xlib.c with the shell of src/pty-unix.c
-- behind it, and what the loop of src/loop.c can call next.
use runes.Shared.{ℕ, ◌<◌, ◌≤◌, ◌≡◌, length, Bool, true, false, List, ◌++◌}
use runes.Shared.Text.{Bytes}
use runes.Config.Types.{Config}
use runes.Pty.{Parser, Pty, InputCb, goes_on, closes, input_cb}
use runes.Window.State.{ScreenLib, Characters, World, Window, emit, asked_to_close}
use runes.Window.Flush.{flush}
use runes.Window.Events.{Event, event_cb, delay_cb, reset_visual_bell, multi_click_cb}
use runes.Term.{close_pty}

module _ (lib : ScreenLib) where
  -- What the vt100 library may change of a screen when the shell writes to it.
  pub record Shown : Type 0 where
    pub scr : lib.vt.Screen
    pub dirty : Bool
    pub update_title : Bool
    pub update_icon_name : Bool
    pub audible_bell : Bool
    pub visual_bell : Bool

  abbrev pub shown : Window lib → Shown
  shown w = record {
    scr = w.scr;
    dirty = w.scr_dirty;
    update_title = w.update_title;
    update_icon_name = w.update_icon_name;
    audible_bell = w.life.audible_bell;
    visual_bell = w.life.visual_bell;
  }

  abbrev pub show : Shown → Window lib → Window lib
  show s w = record w {
    scr = s.scr;
    scr_dirty = s.dirty;
    update_title = s.update_title;
    update_icon_name = s.update_icon_name;
    life = record w.life { audible_bell = s.audible_bell; visual_bell = s.visual_bell };
  }

-- `process` is vt100_screen_process_string on that part of the screen.
module _ {Pattern : Type 0} (cfg : Config Pattern) (world : World) (lib : ScreenLib)
    (chars : Characters) (fontx fonty : ℕ) (process : Shown lib → Bytes → Shown lib × ℕ)
    (within : (s : Shown lib) (bytes : Bytes) → (process s bytes).1 ≤ length bytes) where
  abbrev pub parser : Parser
  parser = record { Screen = Shown lib; process_string = process; processed-within = within }

  -- The window, and struct runes_pty with what the kernel keeps of the shell's.
  pub record Terminal : Type 0 where
    pub window : Window lib
    pub remaining : Bytes
    pub unread : Bytes

  abbrev pub pty_of : Terminal → Pty parser
  pty_of t = record { scr = shown lib t.window; remaining = t.remaining; unread = t.unread }

  abbrev pub on_window : (Window lib → Window lib) → Terminal → Terminal
  on_window f t = record t { window = f t.window }

  -- How `runes_pty_input_cb` ends; with it, whether the loop arms it again.
  abbrev pub after_input : Terminal → InputCb parser → Terminal × Bool
  after_input t (goes_on pty taken) = (
    record {
      window = flush cfg world lib (show lib pty.scr t.window);
      remaining = pty.remaining;
      unread = pty.unread;
    },
    true,
  )
  after_input t closes =
      (on_window (λ w. emit lib asked_to_close (record w { life = close_pty w.life })) t, false)

  unfoldable pub pty_input_cb : ℕ → Terminal → Terminal × Bool
  unfolding input_cb flush close_pty
  pty_input_cb most t = after_input t (input_cb parser most (pty_of t))

  -- What comes next: the shell writes, or the loop calls a callback that it holds. A callback that
  -- asks for it is armed again; it stays so in the window's life.
  pub data LoopStep : Terminal → Terminal → Type 0 where
    shell_writes :
        (bytes : Bytes) (t : Terminal) → LoopStep t (record t { unread = t.unread ++ bytes })
    x_events :
        (events : List Event) (t : Terminal)
        → t.window.life.window_work ≡ true
        → LoopStep t (on_window (λ w. (event_cb cfg world lib chars fontx fonty events w).0) t)
    shell_input :
        (most : ℕ) (t : Terminal)
        → t.window.life.pty_work ≡ true
        → LoopStep t (pty_input_cb most t).0
    delay_fires :
        (t : Terminal)
        → 0 < t.window.life.delay_timers
        → LoopStep t (on_window (delay_cb cfg world lib chars fontx fonty) t)
    bell_fires :
        (t : Terminal)
        → 0 < t.window.life.bell_timers
        → LoopStep t (on_window (reset_visual_bell cfg world lib chars fontx fonty) t)
    click_fires :
        (t : Terminal)
        → 0 < t.window.life.click_timers
        → LoopStep t (on_window (multi_click_cb cfg world lib chars fontx fonty) t)

  pub data Runs : Terminal → Terminal → Type 0 where
    stop : (t : Terminal) → Runs t t
    next : (t u v : Terminal) → LoopStep t u → Runs u v → Runs t v
