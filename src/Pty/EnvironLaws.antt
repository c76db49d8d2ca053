-- ===== src/Pty/EnvironLaws.antt =====
-- What the C library's functions on an environment, as src/pty-unix.c uses them, do for one another.
use runes.Shared.{
  ◌≡◌, ◌≢◌, refl, ap, Bool, true, false, ◌&&◌, not, Option, none, some, List, [], ◌∷◌, ◌==◌, arith,
  Bool-cases, Option-cases, inl, inr,
}
use runes.Shared.Text.{Bytes}
use runes.Pty.Environ.{variable, value_in, or_else, getenv, is_some, setenv, unsetenv}

-- A name of a variable has no = in it.
abbrev pub is_name : Bytes → Bool
is_name [] = true
is_name (c ∷ s) = not (c == b'=') && is_name s

value_in-variable : (name value : Bytes) → value_in name (variable name value) ≡ some value
value_in-variable [] value = refl
value_in-variable (c ∷ name) value = ground (arith, value_in-variable name value)

-- One entry is of one name.
value_in_one :
    (m n s : Bytes)
    → is_name m ≡ true
    → is_name n ≡ true
    → is_some (value_in m s) ≡ true
    → is_some (value_in n s) ≡ true
    → m ≡ n
value_in_one [] [] s hm hn em en = refl
value_in_one [] (y ∷ n) [] hm hn em en = ground arith
value_in_one [] (y ∷ n) (c ∷ s) hm hn em en = ground arith
value_in_one (x ∷ m) [] [] hm hn em en = ground arith
value_in_one (x ∷ m) [] (c ∷ s) hm hn em en = ground arith
value_in_one (x ∷ m) (y ∷ n) [] hm hn em en = ground arith
value_in_one (x ∷ m) (y ∷ n) (c ∷ s) hm hn em en = ground (arith, value_in_one m n s)

is_none : (o : Option Bytes) → is_some o ≡ false → o ≡ none
is_none none h = refl
is_none (some v) h = ground arith

not_in :
    (m n s : Bytes)
    → is_name m ≡ true
    → is_name n ≡ true
    → m ≢ n
    → is_some (value_in n s) ≡ true
    → value_in m s ≡ none
not_in m n s hm hn ne here = elim (Option-cases (value_in m s)) [
  | inl e ↦ e
  | inr (v, e) ↦ absurd (ne (value_in_one m n s hm hn (ap is_some e) here))
]

pub getenv-setenv_same : (n v : Bytes) (env : List Bytes) → getenv n (setenv n v env) ≡ some v
unfolding getenv setenv
getenv-setenv_same n v [] = rw (value_in-variable n v)
getenv-setenv_same n v (e ∷ env) = elim (Bool-cases (is_some (value_in n e))) [
  | inl here ↦ rw (here, value_in-variable n v)
  | inr gone ↦ rw (gone, is_none (value_in n e) gone) (getenv-setenv_same n v env)
]

pub getenv-setenv_other :
    (m n v : Bytes) (env : List Bytes)
    → is_name m ≡ true
    → is_name n ≡ true
    → m ≢ n
    → getenv m (setenv n v env) ≡ getenv m env
unfolding getenv setenv
getenv-setenv_other m n v [] hm hn ne =
    rw (not_in m n (variable n v) hm hn ne (ap is_some (value_in-variable n v)))
getenv-setenv_other m n v (e ∷ env) hm hn ne = elim (Bool-cases (is_some (value_in n e))) [
  | inl here ↦ rw (
    here,
    not_in m n e hm hn ne here,
    not_in m n (variable n v) hm hn ne (ap is_some (value_in-variable n v)),
  )
  | inr gone ↦ rw gone (ap (or_else (value_in m e)) (getenv-setenv_other m n v env hm hn ne))
]

pub getenv-unsetenv_same : (n : Bytes) (env : List Bytes) → getenv n (unsetenv n env) ≡ none
unfolding getenv unsetenv
getenv-unsetenv_same n [] = refl
getenv-unsetenv_same n (e ∷ env) = elim (Bool-cases (is_some (value_in n e))) [
  | inl here ↦ rw here (getenv-unsetenv_same n env)
  | inr gone ↦ rw (gone, is_none (value_in n e) gone) (getenv-unsetenv_same n env)
]

pub getenv-unsetenv_other :
    (m n : Bytes) (env : List Bytes)
    → is_name m ≡ true
    → is_name n ≡ true
    → m ≢ n
    → getenv m (unsetenv n env) ≡ getenv m env
unfolding getenv unsetenv
getenv-unsetenv_other m n [] hm hn ne = refl
getenv-unsetenv_other m n (e ∷ env) hm hn ne = elim (Bool-cases (is_some (value_in n e))) [
  | inl here ↦ rw (here, not_in m n e hm hn ne here) (getenv-unsetenv_other m n env hm hn ne)
  | inr gone ↦ rw gone (ap (or_else (value_in m e)) (getenv-unsetenv_other m n env hm hn ne))
]
