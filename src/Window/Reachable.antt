-- ===== src/Window/Reachable.antt =====
-- What the event loop can make of a whole terminal: its steps are steps of the life that src/term.c
-- counts, and its buffer is never overfull.
use mathlib.Core.Path.{subst}
use runes.Shared.{ℕ, ◌≤◌, ◌≡◌, refl, sym, ap, Bool, true, inl, inr, length}
use runes.Shared.Text.{Bytes}
use runes.Config.Types.{Config}
use runes.Pty.{InputCb, goes_on, closes, input_cb-Kept, read_buffer_length}
use runes.Window.State.{ScreenLib, Characters, World, Window}
use runes.Window.Flush.{pace_of}
use runes.Window.Events.{delay_cb, reset_visual_bell, multi_click_cb}
use runes.Window.Loop.{
  Shown, show, Terminal, LoopStep, shell_writes, x_events, shell_input, delay_fires, bell_fires,
  click_fires, Runs, stop, next, pty_input_cb, after_input, parser, pty_of,
}
use runes.Window.Life.{flush-life}
use runes.Window.Refine.{event_cb-Serves}
use runes.Term.Work.{Steps-trans, one_step}
use runes.Term.Life.{Managed}
use runes.Term.Reachable.{register-Managed}
use runes.Term as Count
use runes.Term.{Term, Step, Steps, register_with_loop, new_term, close_pty}

module _ {Pattern : Type 0} (cfg : Config Pattern) (world : World) (lib : ScreenLib)
    (chars : Characters) (fontx fonty : ℕ) (process : Shown lib → Bytes → Shown lib × ℕ)
    (within : (s : Shown lib) (bytes : Bytes) → (process s bytes).1 ≤ length bytes) where
  abbrev T : Type 0
  T = Terminal cfg world lib chars fontx fonty process within

  abbrev Next : T → T → Type 0
  Next = LoopStep cfg world lib chars fontx fonty process within

  abbrev Reached : T → T → Type 0
  Reached = Runs cfg world lib chars fontx fonty process within

  abbrev input : ℕ → T → T × Bool
  input = pty_input_cb cfg world lib chars fontx fonty process within

  delay_cb-life :
      (w : Window lib)
      → (delay_cb cfg world lib chars fontx fonty w).life
        ≡ Count.delay_cb cfg.audible_bell (pace_of cfg world lib w) w.life
  unfolding delay_cb Count.delay_cb
  delay_cb-life w = ap Count.refcnt_dec (flush-life cfg world lib _)

  reset_visual_bell-life :
      (w : Window lib)
      → (reset_visual_bell cfg world lib chars fontx fonty w).life
        ≡ Count.reset_visual_bell cfg.audible_bell (pace_of cfg world lib w) w.life
  unfolding reset_visual_bell Count.reset_visual_bell
  reset_visual_bell-life w = ap Count.refcnt_dec (flush-life cfg world lib _)

  multi_click_cb-life :
      (w : Window lib)
      → (multi_click_cb cfg world lib chars fontx fonty w).life ≡ Count.multi_click_cb w.life
  unfolding multi_click_cb
  multi_click_cb-life w = refl

  -- One step that ends where an equation says.
  step_to : (t u v : Term) → v ≡ u → Step t u → Steps t v
  step_to t u v e step = subst (λ s. Steps t s) (sym e) (one_step t u step)

  after_input-Steps :
      (t : T) (got : InputCb (parser cfg world lib chars fontx fonty process within))
      → t.window.life.pty_work ≡ true
      → Steps t.window.life
          (after_input cfg world lib chars fontx fonty process within t got).0.window.life
  after_input-Steps t (goes_on pty taken) h =
      let s = pty.scr in
      step_to t.window.life _ _ (flush-life cfg world lib (show lib s t.window)) (
        Count.pty_input cfg.audible_bell (pace_of cfg world lib (show lib s t.window))
          s.audible_bell s.visual_bell t.window.life h)
  after_input-Steps t closes h = one_step _ _ (Count.pty_close t.window.life h)

  -- A step of the loop is a run of steps of the count's.
  LoopStep-Steps : (t u : T) → Next t u → Steps t.window.life u.window.life
  unfolding pty_input_cb
  LoopStep-Steps t _ (shell_writes bytes _) = Count.stop t.window.life
  LoopStep-Steps t _ (x_events events _ h) =
      (event_cb-Serves cfg world lib chars fontx fonty events t.window h).0
  LoopStep-Steps t _ (shell_input most _ h) = after_input-Steps t _ h
  LoopStep-Steps t _ (delay_fires _ h) =
      step_to t.window.life _ _ (delay_cb-life t.window)
        (Count.delay_fires cfg.audible_bell (pace_of cfg world lib t.window) t.window.life h)
  LoopStep-Steps t _ (bell_fires _ h) =
      step_to t.window.life _ _ (reset_visual_bell-life t.window)
        (Count.bell_fires cfg.audible_bell (pace_of cfg world lib t.window) t.window.life h)
  LoopStep-Steps t _ (click_fires _ h) =
      step_to t.window.life _ _ (multi_click_cb-life t.window) (Count.click_fires t.window.life h)

  -- What the event loop does to a whole terminal, with its window, its screen and its shell, is a run
  -- of steps of the life that counts its references.
  Runs-Steps : (t u : T) → Reached t u → Steps t.window.life u.window.life
  Runs-Steps t _ (stop _) = Count.stop t.window.life
  Runs-Steps t u (next _ v _ step rest) =
      Steps-trans _ v.window.life _ (LoopStep-Steps t v step) (Runs-Steps v u rest)

  -- Whatever a terminal's shell writes and its event loop calls, in whatever order and with whatever
  -- events, from a window that has just been registered on: the terminal is there with a reference
  -- for each callback to come and at most one timer of each kind, or it was deleted and none is to
  -- come.
  pub Runs-Managed :
      (t u : T) → t.window.life ≡ register_with_loop new_term → Reached t u → Managed u.window.life
  Runs-Managed t u fresh runs =
      register-Managed u.window.life
        (subst (λ s. Steps s u.window.life) fresh (Runs-Steps t u runs))

  -- What the buffer keeps fits it.
  abbrev Fits : T → Type 0
  Fits t = length t.remaining ≤ read_buffer_length

  input-Fits : (most : ℕ) (t : T) → Fits t → Fits (input most t).0
  unfolding pty_input_cb
  input-Fits most t h =
      let vt = parser cfg world lib chars fontx fonty process within in
      let kept = pty_of cfg world lib chars fontx fonty process within t in
      elim (input_cb-Kept vt most kept h) [
        | inl (after, taken, e, (same, fits)) ↦
            subst (λ r. Fits (after_input cfg world lib chars fontx fonty process within t r).0)
              (sym e) fits
        | inr (e, none_read) ↦
            subst (λ r. Fits (after_input cfg world lib chars fontx fonty process within t r).0)
              (sym e) h
      ]

  LoopStep-Fits : (t u : T) → Next t u → Fits t → Fits u
  LoopStep-Fits t _ (shell_writes bytes _) f = f
  LoopStep-Fits t _ (x_events events _ h) f = f
  LoopStep-Fits t _ (shell_input most _ h) f = input-Fits most t f
  LoopStep-Fits t _ (delay_fires _ h) f = f
  LoopStep-Fits t _ (bell_fires _ h) f = f
  LoopStep-Fits t _ (click_fires _ h) f = f

  -- A buffer that is not overfull stays so, whatever the event loop calls.
  pub Runs-Fits : (t u : T) → Reached t u → Fits t → Fits u
  Runs-Fits t _ (stop _) f = f
  Runs-Fits t u (next _ v _ step rest) f = Runs-Fits v u rest (LoopStep-Fits t v step f)
