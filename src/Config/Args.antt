-- ===== src/Config/Args.antt =====
-- `runes_config_process_args` of src/config.c: the options on a command line, which in a daemon comes
-- from the client's message with a count of its own.
use runes.Shared.{
  ℕ, zero, suc, ◌+◌, ◌-◌, ◌≡◌, refl, Bool, false, Option, none, some, ◌&&◌, List, [], ◌∷◌, drop,
  length, arith, if◌then◌else◌, ◌==◌, Bool-cases, inl, inr,
}
use runes.Shared.Text.{Bytes}
use runes.Config.Types.{Cairo, Config}
use runes.Config.Options.{set_option, uses_value}

-- `past_end` reads a word where the vector has ended; `null_value` uses its closing NULL as a value.
pub data ArgsRun (Pattern : Type 0) : Type 0 where
  done : Config Pattern → ArgsRun Pattern
  past_end null_value : ArgsRun Pattern

-- `!strncmp(arg, "--", 2)`
abbrev pub is_option : Bytes → Bool
is_option [] = false
is_option (a ∷ []) = false
is_option (a ∷ b ∷ rest) = a == b'-' && b == b'-'

-- The settings that a command line asks for: each word behind one that begins with two dashes
-- and is no value itself.
abbrev pub settings : List Bytes → List (Bytes × Bytes)
settings [] = []
settings (arg ∷ []) = []
settings (arg ∷ val ∷ args) =
    if is_option arg then (drop 2 arg, val) ∷ settings args else settings (val ∷ args)

-- The option that the last word is, with nothing behind it.
abbrev pub last_option : List Bytes → Option Bytes
last_option [] = none
last_option (arg ∷ []) = if is_option arg then some (drop 2 arg) else none
last_option (arg ∷ val ∷ args) =
    if is_option arg then last_option args else last_option (val ∷ args)

-- How a loop ends that is to go `more` words beyond the vector and one further.
abbrev pub at_end : {Pattern : Type 0} → Config Pattern → ℕ → Option Bytes → ArgsRun Pattern
at_end c more none = past_end
at_end c zero (some key) = if uses_value key then null_value else done c
at_end c (suc more) (some key) = if uses_value key then null_value else past_end

module _ (cairo : Cairo) where
  open cairo use {Pattern}

  -- The loop, with argc - i rounds left and the vector from argv[i] on.
  unfoldable pub args_loop : Config Pattern → ℕ → List Bytes → ArgsRun Pattern
  args_loop c zero args = done c
  args_loop c (suc left) [] = past_end
  args_loop c (suc zero) (arg ∷ args) = done c
  args_loop c (suc (suc left)) (arg ∷ []) =
      let ignored = args_loop c left [] in
      if is_option arg then (if uses_value (drop 2 arg) then null_value else ignored) else past_end
  args_loop c (suc (suc left)) (arg ∷ val ∷ args) =
      let taken = args_loop (set_option cairo c (drop 2 arg) val) left args in
      let skipped = args_loop c (suc left) (val ∷ args) in if is_option arg then taken else skipped

  unfoldable pub process_args : Config Pattern → ℕ → List Bytes → ArgsRun Pattern
  unfolding args_loop
  process_args c argc argv = args_loop c (argc - 1) (drop 1 argv)

  abbrev pub apply_all : Config Pattern → List (Bytes × Bytes) → Config Pattern
  apply_all c [] = c
  apply_all c ((key, val) ∷ rest) = apply_all (set_option cairo c key val) rest

  args_loop-settings :
      (c : Config Pattern) (args : List Bytes)
      → args_loop c (length args) args ≡ done (apply_all c (settings args))
  unfolding args_loop
  args_loop-settings c [] = refl
  args_loop-settings c (arg ∷ []) = refl
  args_loop-settings c (arg ∷ val ∷ args) = elim (Bool-cases (is_option arg)) [
    | inl o ↦ rw o (args_loop-settings (set_option cairo c (drop 2 arg) val) args)
    | inr o ↦ rw o (args_loop-settings c (val ∷ args))
  ]

  -- With the right count, a command line applies its settings in order and reads no argument that
  -- is not there; the first word is the program's name.
  pub process_args-settings :
      (c : Config Pattern) (program : Bytes) (args : List Bytes)
      → process_args c (length (program ∷ args)) (program ∷ args)
        ≡ done (apply_all c (settings args))
  unfolding process_args
  process_args-settings c program args =
      let e : length (program ∷ args) - 1 ≡ length args = omega arith in
      rw e (args_loop-settings c args)

  args_loop-beyond :
      (c : Config Pattern) (left more : ℕ) (args : List Bytes)
      → left ≡ length args + suc more
      → args_loop c left args ≡ at_end (apply_all c (settings args)) more (last_option args)
  unfolding args_loop
  args_loop-beyond c zero more args h = absurd (omega arith)
  args_loop-beyond c (suc left) more [] h = refl
  args_loop-beyond c (suc zero) more (arg ∷ args) h = absurd (omega arith)
  args_loop-beyond c (suc (suc zero)) zero (arg ∷ []) h = elim (Bool-cases (is_option arg)) [
    | inl o ↦ rw o refl
    | inr o ↦ rw o refl
  ]
  args_loop-beyond c (suc (suc zero)) (suc more) (arg ∷ []) h = absurd (omega arith)
  args_loop-beyond c (suc (suc (suc left))) zero (arg ∷ []) h = absurd (omega arith)
  args_loop-beyond c (suc (suc (suc left))) (suc more) (arg ∷ []) h =
      elim (Bool-cases (is_option arg)) [ inl o ↦ rw o refl | inr o ↦ rw o refl ]
  args_loop-beyond c (suc (suc left)) more (arg ∷ val ∷ args) h =
      elim (Bool-cases (is_option arg)) [
        | inl o ↦
            rw o
              (args_loop-beyond (set_option cairo c (drop 2 arg) val) left more args (omega arith))
        | inr o ↦ rw o (args_loop-beyond c (suc left) more (val ∷ args) (omega arith))
      ]

  -- With a count that is more than the vector holds, as a client may send it, the settings in the
  -- vector apply in order, and then: if the last word is an option that uses its value, with nothing
  -- behind it, this value is the vector's closing NULL; if it is one that uses none, the loop ends for
  -- a count of one too many; and otherwise the loop reads past the end of the vector.
  pub process_args_overrun :
      (c : Config Pattern) (argc more : ℕ) (program : Bytes) (args : List Bytes)
      → argc ≡ length (program ∷ args) + suc more
      → process_args c argc (program ∷ args)
        ≡ at_end (apply_all c (settings args)) more (last_option args)
  unfolding process_args
  process_args_overrun c argc more program args h =
      args_loop-beyond c (argc - 1) more args (omega arith)
