-- ===== src/Pty/ShellEnviron.antt =====
-- The environment and the command that `runes_pty_spawn_subprocess` of src/pty-unix.c gives to a shell.
use mathlib.Core.Path.{subst}
use runes.Shared.{
  ℕ, ◌≡◌, ◌≢◌, refl, sym, ap, ◌∙◌, Bool, true, false, ◌||◌, Option, none, some, List, if◌then◌else◌,
  arith, Bool-cases, inl, inr, ◌⊎◌,
}
use runes.Shared.Text.{Bytes, codes, str_eq, str_eq_iff}
use runes.Pty.Environ.{getenv, setenv, unsetenv, decimal}
use runes.Pty.EnvironLaws.{
  is_name, getenv-setenv_same, getenv-setenv_other, getenv-unsetenv_same, getenv-unsetenv_other,
}
use runes.Pty.Shell.{
  after_exec, Process, Command, Kernel, Child, runs, exits, child_environ, given_environ,
  cmd_or_shell, or_sh, command_for, after_execlp, spawn_subprocess,
}

str_eq_no : (m n : Bytes) → str_eq m n ≡ false → m ≢ n
str_eq_no m n h e = ground (arith, (str_eq_iff m n).1 e)

getenv-setenv :
    (m n v : Bytes) (env : List Bytes)
    → is_name m ≡ true
    → is_name n ≡ true
    → getenv m (setenv n v env) ≡ (if str_eq m n then some v else getenv m env)
getenv-setenv m n v env hm hn = elim (Bool-cases (str_eq m n)) [
  | inl same ↦
      let e : m ≡ n = (str_eq_iff m n).0 same in
      rw (same) (ap (λ x. getenv x (setenv n v env)) e ∙ getenv-setenv_same n v env)
  | inr apart ↦ rw apart (getenv-setenv_other m n v env hm hn (str_eq_no m n apart))
]

getenv-unsetenv :
    (m n : Bytes) (env : List Bytes)
    → is_name m ≡ true
    → is_name n ≡ true
    → getenv m (unsetenv n env) ≡ (if str_eq m n then none else getenv m env)
getenv-unsetenv m n env hm hn = elim (Bool-cases (str_eq m n)) [
  | inl same ↦
      let e : m ≡ n = (str_eq_iff m n).0 same in
      rw (same) (ap (λ x. getenv x (unsetenv n env)) e ∙ getenv-unsetenv_same n env)
  | inr apart ↦ rw apart (getenv-unsetenv_other m n env hm hn (str_eq_no m n apart))
]

-- What a shell finds under a name.
abbrev pub is_hidden : Bytes → Bool
is_hidden name =
    str_eq name (codes "COLUMNS")
    || str_eq name (codes "LINES")
    || str_eq name (codes "COLORFGBG")
    || str_eq name (codes "COLORTERM")

abbrev pub shell_variable : ℕ → List Bytes → Bytes → Option Bytes
shell_variable window_id given name =
    if is_hidden name
    then none
    else if str_eq name (codes "WINDOWID")
    then some (decimal window_id)
    else if str_eq name (codes "TERM")
    then some (codes "screen-256color")
    else getenv name given

unset_then :
    (m n : Bytes) (env : List Bytes) {o : Option Bytes}
    → is_name m ≡ true
    → is_name n ≡ true
    → getenv m env ≡ o
    → getenv m (unsetenv n env) ≡ (if str_eq m n then none else o)
unset_then m n env hm hn e =
    getenv-unsetenv m n env hm hn ∙ ap (λ x. if str_eq m n then none else x) e

set_then :
    (m n v : Bytes) (env : List Bytes) {o : Option Bytes}
    → is_name m ≡ true
    → is_name n ≡ true
    → getenv m env ≡ o
    → getenv m (setenv n v env) ≡ (if str_eq m n then some v else o)
set_then m n v env hm hn e =
    getenv-setenv m n v env hm hn ∙ ap (λ x. if str_eq m n then some v else x) e

-- Of tests of which two are not met together, in another order.
reordered :
    (a b w c d : Bool) (W x : Option Bytes)
    → (w ≡ false) ⊎ (c ≡ false) × (d ≡ false)
    → (if a
        then none
        else if b
        then none
        else if w
        then W
        else if c
        then none
        else if d
        then none
        else x)
      ≡ (if a || b || c || d then none else if w then W else x)
reordered true b w c d W x h = refl
reordered false true w c d W x h = refl
reordered false false true true d W x h = ground arith
reordered false false true false true W x h = ground arith
reordered false false true false false W x h = refl
reordered false false false true d W x h = refl
reordered false false false false true W x h = refl
reordered false false false false false W x h = refl

window_id_shown :
    (name : Bytes)
    → (str_eq name (codes "WINDOWID") ≡ false)
      ⊎ (str_eq name (codes "COLORFGBG") ≡ false) × (str_eq name (codes "COLORTERM") ≡ false)
window_id_shown name = elim (Bool-cases (str_eq name (codes "WINDOWID"))) [
  | inl same ↦
      let e : name ≡ codes "WINDOWID" = (str_eq_iff name (codes "WINDOWID")).0 same in
      inr (ap (λ n. str_eq n (codes "COLORFGBG")) e, ap (λ n. str_eq n (codes "COLORTERM")) e)
  | inr apart ↦ inl apart
]

-- Under every name.
child_environ-variable :
    (window_id : ℕ) (given : List Bytes) (name : Bytes)
    → is_name name ≡ true
    → getenv name (child_environ window_id given) ≡ shell_variable window_id given name
unfolding child_environ
child_environ-variable window_id given name h =
    unset_then name (codes "COLUMNS") _ h refl (
      unset_then name (codes "LINES") _ h refl (
        set_then name (codes "WINDOWID") (decimal window_id) _ h refl (
          unset_then name (codes "COLORFGBG") _ h refl (
            unset_then name (codes "COLORTERM") _ h refl
              (set_then name (codes "TERM") (codes "screen-256color") given h refl refl)))))
    ∙ reordered (str_eq name (codes "COLUMNS")) (str_eq name (codes "LINES"))
        (str_eq name (codes "WINDOWID")) (str_eq name (codes "COLORFGBG"))
        (str_eq name (codes "COLORTERM")) (some (decimal window_id)) _ (window_id_shown name)

-- Facts of the process that a child becomes.
abbrev pub Becomes : (Command → Process → Type 0) → Child → Type 0
Becomes P (runs c q) = P c q
Becomes P (exits line) = Unit {0}

pub after_execlp-runs :
    (line : Bytes) (c c' : Command) (p q : Process) (error : Option Bytes)
    → after_execlp line c p error ≡ runs c' q
    → (c ≡ c') × (record p { fds = after_exec p.fds } ≡ q)
after_execlp-runs line c c' p q none e =
    subst (Becomes (λ x y. (c ≡ x) × (record p { fds = after_exec p.fds } ≡ y))) e (refl, refl)
after_execlp-runs line c c' p q (some error) e =
    absurd (subst (λ x. elim x [ runs _ _ ↦ ⊥ | exits _ ↦ Unit {0} ]) e tt)

-- The command is looked up in the new environment, where SHELL is what it was.
same_command :
    (cmd : Option Bytes) (window_id : ℕ) (given : List Bytes)
    → cmd_or_shell cmd (child_environ window_id given) ≡ cmd_or_shell cmd given
same_command none window_id given =
    ap or_sh (child_environ-variable window_id given (codes "SHELL") refl)
same_command (some line) window_id given = refl

module _ (k : Kernel) (cmd : Option Bytes) (window_id master : ℕ) (envp : Option (List Bytes))
    (cwd : Option Bytes) (p : Process) where
  abbrev pub spawned : Process × Child
  spawned = spawn_subprocess k cmd window_id master envp cwd p

  abbrev pub given : List Bytes
  given = given_environ envp p.environ

  pub spawn_subprocess-environment :
      (c : Command) (q : Process) (name : Bytes)
      → spawned.1 ≡ runs c q
      → is_name name ≡ true
      → (getenv name q.environ ≡ shell_variable window_id given name)
        × (c ≡ command_for (cmd_or_shell cmd given))
  unfolding spawn_subprocess
  spawn_subprocess-environment c q name e h =
      let (command, process) = after_execlp-runs _ _ c _ q _ e in
      (
        ap (λ x. getenv name x.environ) (sym process)
            ∙ child_environ-variable window_id given name h,
        sym command ∙ ap command_for (same_command cmd window_id given),
      )
