-- ===== src/Pty.antt =====
-- `runes_pty_input_cb` of src/pty-unix.c and struct runes_pty of src/pty-unix.h: what a shell writes, on its
-- way to the screen. What the vt100 library does with bytes is a parameter.
pub mod Environ
pub mod EnvironLaws
pub mod Shell
pub mod ShellEnviron
pub mod ShellDescriptors
use runes.Shared.{
  ℕ, ◌-◌, ◌≤◌, ◌≡◌, refl, sym, ap, ◌∙◌, ◌⊎◌, inl, inr, List, [], ◌∷◌, ◌++◌, arith, take, drop,
  length, min, length-append, length-take, length-drop, take-append-drop, append_assoc,
}
use runes.Shared.Text.{Bytes}

-- RUNES_READ_BUFFER_LENGTH
abbrev pub read_buffer_length : ℕ
read_buffer_length = 4096

-- vt100_screen_process_string takes some of the bytes that it is given, and says how many.
pub record Parser : Type 1 where
  pub Screen : Type 0
  pub process_string : Screen → Bytes → Screen × ℕ
  pub processed-within : (s : Screen) (bytes : Bytes) → (process_string s bytes).1 ≤ length bytes

module _ (vt : Parser) where
  open vt use {Screen, process_string, processed-within}

  -- `remaining` is the start of readbuf, remaininglen bytes of it; `unread` is what the shell wrote
  -- and the kernel still keeps.
  pub record Pty : Type 0 where
    pub scr : Screen
    pub remaining : Bytes
    pub unread : Bytes

  -- A callback ends with 1, and the bytes that the screen took, or asks for the window to be closed.
  pub data InputCb : Type 0 where
    goes_on : Pty → Bytes → InputCb
    closes : InputCb

  abbrev pub after_process : Bytes → Bytes → Screen × ℕ → InputCb
  after_process all unread (scr, processed) =
      goes_on (record { scr = scr; remaining = drop processed all; unread = unread })
        (take processed all)

  abbrev pub after_read : Pty → Bytes → Bytes → InputCb
  after_read pty [] unread = closes
  after_read pty (b ∷ got) unread =
      after_process (pty.remaining ++ (b ∷ got)) unread
        (process_string pty.scr (pty.remaining ++ (b ∷ got)))

  -- The kernel gives at most `most` bytes, and no more than there is room for. The flush of the window
  -- is in Window/Loop.
  unfoldable pub input_cb : ℕ → Pty → InputCb
  input_cb most pty =
      let room = min most (read_buffer_length - length pty.remaining) in
      after_read pty (take room pty.unread) (drop room pty.unread)

  abbrev pub Kept : Pty → Bytes → Pty → Type 0
  Kept before taken after =
      (taken ++ (after.remaining ++ after.unread) ≡ before.remaining ++ before.unread)
      × (length after.remaining ≤ read_buffer_length)

  Kept-by_process :
      (pty : Pty) (got unread : Bytes) (processed : ℕ)
      → got ++ unread ≡ pty.unread
      → length (pty.remaining ++ got) ≤ read_buffer_length
      → (scr : Screen)
      → Kept pty
          (take processed (pty.remaining ++ got))
          (record { scr = scr; remaining = drop processed (pty.remaining ++ got); unread = unread })
  Kept-by_process pty got unread processed h k scr = (
    sym (
          append_assoc (take processed (pty.remaining ++ got))
            (drop processed (pty.remaining ++ got)) unread)
        ∙ ap (λ bytes. bytes ++ unread) (take-append-drop processed (pty.remaining ++ got))
        ∙ append_assoc pty.remaining got unread
        ∙ ap (λ bytes. pty.remaining ++ bytes) h,
    omega (arith, length-drop processed (pty.remaining ++ got)),
  )

  after_read-Kept :
      (pty : Pty) (got unread : Bytes)
      → got ++ unread ≡ pty.unread
      → length (pty.remaining ++ got) ≤ read_buffer_length
      → ((after : Pty) × (taken : Bytes) × (after_read pty got unread ≡ goes_on after taken)
          × Kept pty taken after)
        ⊎ ((after_read pty got unread ≡ closes) × (got ≡ []))
  after_read-Kept pty [] unread h k = inr (refl, refl)
  after_read-Kept pty (b ∷ got) unread h k =
      let done = process_string pty.scr (pty.remaining ++ (b ∷ got)) in
      inl (
        record {
          scr = done.0;
          remaining = drop done.1 (pty.remaining ++ (b ∷ got));
          unread = unread;
        },
        take done.1 (pty.remaining ++ (b ∷ got)),
        refl,
        Kept-by_process pty (b ∷ got) unread done.1 h k done.0,
      )

  -- A callback whose buffer is not overfull loses no byte, keeps their order and does not overfill
  -- the buffer; it closes the terminal only if it reads nothing: the kernel gives nothing, or the
  -- buffer is full.
  pub input_cb-Kept :
      (most : ℕ) (pty : Pty)
      → length pty.remaining ≤ read_buffer_length
      → ((after : Pty) × (taken : Bytes) × (input_cb most pty ≡ goes_on after taken)
          × Kept pty taken after)
        ⊎ ((input_cb most pty ≡ closes)
            × (take (min most (read_buffer_length - length pty.remaining)) pty.unread ≡ []))
  unfolding input_cb
  input_cb-Kept most pty h =
      let room = min most (read_buffer_length - length pty.remaining) in
      after_read-Kept pty (take room pty.unread) (drop room pty.unread)
        (take-append-drop room pty.unread)
        (omega
          (arith, length-append pty.remaining (take room pty.unread), length-take room pty.unread))

  -- A buffer that the screen has left full closes the terminal, whatever the shell has to say.
  pub input_cb_full :
      (most : ℕ) (pty : Pty)
      → length pty.remaining ≡ read_buffer_length
      → input_cb most pty ≡ closes
  unfolding input_cb
  input_cb_full most pty h =
      let none_left : min most (read_buffer_length - length pty.remaining) ≡ 0 = omega arith in
      rw none_left

  -- Callbacks one after the other, by what the kernel gives at most, with the bytes taken so far.
  unfoldable pub input_cbs : List ℕ → Pty → Bytes → InputCb
  input_cbs [] pty taken = goes_on pty taken
  input_cbs (most ∷ rest) pty taken = elim (input_cb most pty) [
    | goes_on after more ↦ input_cbs rest after (taken ++ more)
    | closes ↦ closes
  ]

  -- The screen takes what the shell writes in order and without loss, over any callbacks that go on:
  -- what it has taken, what is kept for it and what is still to be read are all that there was.
  pub input_cbs-stream :
      (mosts : List ℕ) (pty after : Pty) (taken taken' : Bytes)
      → length pty.remaining ≤ read_buffer_length
      → input_cbs mosts pty taken ≡ goes_on after taken'
      → (taken' ++ (after.remaining ++ after.unread) ≡ taken ++ (pty.remaining ++ pty.unread))
        × (length after.remaining ≤ read_buffer_length)
  unfolding input_cbs
  input_cbs-stream [] pty after taken taken' h e =
      let same_pty : pty ≡ after = cc in
      let same_taken : taken ≡ taken' = cc in rw ((sym same_pty), (sym same_taken)) (refl, h)
  input_cbs-stream (most ∷ rest) pty after taken taken' h e = elim (input_cb-Kept most pty h) [
    | inl (next, more, step, (kept, fits)) ↦
        let go : input_cbs rest next (taken ++ more) ≡ goes_on after taken' =
          rw (step, input_cbs) at e in
        let (stream, bound) = input_cbs-stream rest next after (taken ++ more) taken' fits go in
        (
          stream
              ∙ append_assoc taken more (next.remaining ++ next.unread)
              ∙ ap (λ bytes. taken ++ bytes) kept,
          bound,
        )
    | inr (step, nothing) ↦
        let stop : closes ≡ goes_on after taken' = rw (step, input_cbs) at e in
        absurd (ground arith)
  ]
