-- ===== src/Window/PtyLaws.antt =====
-- What the events of src/window-xlib.c write to the shell.
use mathlib.Core.Path.{subst}
use runes.Shared.{
  ◌≡◌, refl, sym, ◌∙◌, ap, Bool, true, false, ℕ, List, [], ◌∷◌, ◌++◌, append-nil, append_assoc,
  Bool-cases, inl, inr, if◌then◌else◌,
}
use runes.Shared.Int.{ℤ}
use runes.Shared.Text.{Bytes, codes}
use runes.Config.Types.{Config}
use runes.Window.Keys.{
  KeyCall, paste, visible_scroll, write_to_pty as key_writes, Modifiers, Lookup, handle_key_event,
}
use runes.Window.State.{
  convert_selection, ScreenLib, Characters, World, Window, Effect, pty_write, redraw, set_title,
  set_icon_name, emit,
}
use runes.Window.View.{View}
use runes.Window.Flush.{
  pace_of, flush_titles, flush_drawing, flush, after_view, write_to_pty, scroll,
}
use runes.Window.Select.{property, bracketed, handle_selection_notify_event}
use runes.Window.Events.{key, key_calls, handle_event}
use runes.Term.{is_recent, ring_audible, ring_visual}

-- The bytes that the calls write, in order.
abbrev pub written : Effect → Bytes
written (pty_write buf) = buf
written other = []

abbrev pub pty_bytes : List Effect → Bytes
pty_bytes [] = []
pty_bytes (e ∷ log) = written e ++ pty_bytes log

pty_bytes-emit :
    (log : List Effect) (e : Effect) → pty_bytes (log ++ (e ∷ [])) ≡ pty_bytes log ++ written e
pty_bytes-emit [] e = append-nil (written e)
pty_bytes-emit (first ∷ log) e =
    ap (λ bytes. written first ++ bytes) (pty_bytes-emit log e)
    ∙ sym (append_assoc (written first) (pty_bytes log) (written e))

module _ {Pattern : Type 0} (cfg : Config Pattern) (world : World) (lib : ScreenLib) where
  -- So many bytes are written, and the screen stays.
  record Writes (w w' : Window lib) (bytes : Bytes) : Type 0 where
    wrote : pty_bytes w'.log ≡ pty_bytes w.log ++ bytes
    same_scr : w'.scr ≡ w.scr

  nothing : (w w' : Window lib) → w'.log ≡ w.log → w'.scr ≡ w.scr → Writes w w' []
  nothing w w' h k = record {
    wrote = ap pty_bytes h ∙ sym (append-nil (pty_bytes w.log));
    same_scr = k;
  }

  Writes-trans :
      (u v w : Window lib) (a b : Bytes) → Writes u v a → Writes v w b → Writes u w (a ++ b)
  Writes-trans u v w a b f g = record {
    wrote = g.wrote ∙ ap (λ bytes. bytes ++ b) f.wrote ∙ append_assoc (pty_bytes u.log) a b;
    same_scr = g.same_scr ∙ f.same_scr;
  }

  Writes-if :
      (b : Bool) (u v w : Window lib) (bytes : Bytes)
      → Writes u v bytes
      → Writes u w bytes
      → Writes u (if b then v else w) bytes
  Writes-if true u v w bytes f g = f
  Writes-if false u v w bytes f g = g

  emit-Writes : (e : Effect) (w : Window lib) → Writes w (emit lib e w) (written e)
  emit-Writes e w = record { wrote = pty_bytes-emit w.log e; same_scr = refl }

  flush_titles-Writes : (w : Window lib) → Writes w (flush_titles cfg world lib w) []
  flush_titles-Writes w =
      let titled = if w.update_title then emit lib set_title w else w in
      let named = if w.update_icon_name then emit lib set_icon_name titled else titled in
      let first : Writes w titled [] =
        Writes-if w.update_title w (emit lib set_title w) w [] (emit-Writes set_title w)
          (nothing w w refl refl) in
      let second : Writes titled named [] =
        Writes-if w.update_icon_name titled (emit lib set_icon_name titled) titled []
          (emit-Writes set_icon_name titled) (nothing titled titled refl refl) in
      Writes-trans w named _ [] [] (Writes-trans w titled named [] [] first second)
        (nothing named _ refl refl)

  flush_drawing-Writes : (w : Window lib) → Writes w (flush_drawing cfg world lib w) []
  flush_drawing-Writes w =
      Writes-if w.life.visual_bell_is_ringing w w _ [] (nothing w w refl refl)
        (record { wrote = pty_bytes-emit w.log redraw; same_scr = refl })

  flush-Writes : (w : Window lib) → Writes w (flush cfg world lib w) []
  unfolding flush
  flush-Writes w =
      let rung = record w { life = ring_visual (ring_audible cfg.audible_bell w.life) } in
      let titled = flush_titles cfg world lib rung in
      Writes-if (is_recent (pace_of cfg world lib w) w.life) w _ _ [] (nothing w _ refl refl) (
        Writes-trans w titled (flush_drawing cfg world lib titled) [] []
          (Writes-trans w rung titled [] [] (nothing w rung refl refl) (flush_titles-Writes rung))
          (flush_drawing-Writes titled))

  after_view-Writes :
      (w : Window lib) (v : View) (flushes : Bool)
      → Writes w (after_view cfg world lib w (v, flushes)) []
  after_view-Writes w v true = Writes-trans w _ _ [] [] (nothing w _ refl refl) (flush-Writes _)
  after_view-Writes w v false = nothing w _ refl refl

  write_to_pty-Writes :
      (buf : Bytes) (w : Window lib) → Writes w (write_to_pty cfg world lib buf w) buf
  unfolding write_to_pty
  write_to_pty-Writes buf w =
      let sent = emit lib (pty_write buf) w in
      subst (λ bytes. Writes w (write_to_pty cfg world lib buf w) bytes) (append-nil buf)
        (Writes-trans w sent _ buf [] (emit-Writes (pty_write buf) w) (after_view-Writes sent _ _))

  scroll-Writes : (count : ℤ) (w : Window lib) → Writes w (scroll cfg world lib count w) []
  unfolding scroll
  scroll-Writes count w = after_view-Writes w _ _

  -- The codes around what is pasted, where the program in the terminal asks for them.
  abbrev pub framed : Bool → Bytes → Bytes
  framed true buf = (27 ∷ codes "[200~") ++ (buf ++ (27 ∷ codes "[201~"))
  framed false buf = buf

  abbrev pub code_if : Bool → Bytes → Bytes
  code_if true code = code
  code_if false code = []

  bracketed-Writes :
      (code : Bytes) (w : Window lib)
      → Writes w (bracketed cfg world lib code w) (code_if (lib.bracketed_paste w.scr) code)
  bracketed-Writes code w = elim (Bool-cases (lib.bracketed_paste w.scr)) [
    | inl e ↦ rw e (write_to_pty-Writes code w)
    | inr e ↦ rw e (nothing w w refl refl)
  ]

  framed-codes :
      (b : Bool) (buf : Bytes)
      → code_if b (27 ∷ codes "[200~") ++ (buf ++ code_if b (27 ∷ codes "[201~")) ≡ framed b buf
  framed-codes true buf = refl
  framed-codes false buf = append-nil buf

  -- A selection that was asked for goes to the shell as it is, after what was written before; between
  -- the two codes of a bracketed paste, if the program in the terminal wants them.
  pub handle_selection_notify_event_writes :
      (buf : Bytes) (w : Window lib)
      → pty_bytes (handle_selection_notify_event cfg world lib (property buf) w).log
        ≡ pty_bytes w.log ++ framed (lib.bracketed_paste w.scr) buf
  unfolding handle_selection_notify_event
  handle_selection_notify_event_writes buf w =
      let opened = bracketed cfg world lib (27 ∷ codes "[200~") w in
      let pasted = write_to_pty cfg world lib buf opened in
      let first = bracketed-Writes (27 ∷ codes "[200~") w in
      let second = write_to_pty-Writes buf opened in
      let third = bracketed-Writes (27 ∷ codes "[201~") pasted in
      let same : pasted.scr ≡ w.scr = second.same_scr ∙ first.same_scr in
      let all = Writes-trans w opened _ _ _ first (Writes-trans opened pasted _ _ _ second third) in
      all.wrote
      ∙ ap
          (λ scr.
            pty_bytes w.log
            ++ (code_if (lib.bracketed_paste w.scr) (27 ∷ codes "[200~")
                ++ (buf ++ code_if (lib.bracketed_paste scr) (27 ∷ codes "[201~"))))
          same
      ∙ ap (λ bytes. pty_bytes w.log ++ bytes) (framed-codes (lib.bracketed_paste w.scr) buf)

  -- What a key's calls write, in order.
  abbrev pub call_bytes : List KeyCall → Bytes
  call_bytes [] = []
  call_bytes (key_writes buf ∷ calls) = buf ++ call_bytes calls
  call_bytes (paste ∷ calls) = call_bytes calls
  call_bytes (visible_scroll count ∷ calls) = call_bytes calls

  module _ (chars : Characters) (fontx fonty : ℕ) where
    key_calls-Writes :
        (calls : List KeyCall) (w : Window lib)
        → Writes w (key_calls cfg world lib chars fontx fonty calls w) (call_bytes calls)
    key_calls-Writes [] w = nothing w w refl refl
    key_calls-Writes (key_writes buf ∷ calls) w =
        Writes-trans w _ _ buf (call_bytes calls) (write_to_pty-Writes buf w)
          (key_calls-Writes calls _)
    key_calls-Writes (paste ∷ calls) w =
        Writes-trans w _ _ [] (call_bytes calls) (emit-Writes convert_selection w)
          (key_calls-Writes calls _)
    key_calls-Writes (visible_scroll count ∷ calls) w =
        Writes-trans w _ _ [] (call_bytes calls) (scroll-Writes count w) (key_calls-Writes calls _)

    -- A key event writes to the shell what the key's handler says, in order, whatever else it does to
    -- the window.
    pub key_event_writes :
        (released : Bool) (e : Modifiers) (looked_up : Lookup) (w : Window lib)
        → pty_bytes
            (handle_event cfg world lib chars fontx fonty (key released e looked_up) w).0.log
          ≡ pty_bytes w.log
            ++ call_bytes
                (handle_key_event (lib.modes w.scr) (lib.max_row w.scr) e released looked_up)
    unfolding handle_event
    key_event_writes released e looked_up w =
        (key_calls-Writes
          (handle_key_event (lib.modes w.scr) (lib.max_row w.scr) e released looked_up) w).wrote
