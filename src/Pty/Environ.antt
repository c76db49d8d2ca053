-- ===== src/Pty/Environ.antt =====
-- The environment of a program as `environ` holds it, with the functions of the C library that
-- src/pty-unix.c calls on it, and what its sprintf writes of a number, in 20 digits at most of its 32 bytes.
use runes.Shared.{
  ℕ, zero, suc, ◌+◌, ◌/◌, ◌%◌, Bool, true, false, ◌||◌, Option, none, some, List, [], ◌∷◌, ◌++◌,
  ◌==◌, ltb, if◌then◌else◌,
}
use runes.Shared.Text.{Bytes}

-- What is behind a text that a string starts with.
abbrev pub strip_prefix : Bytes → Bytes → Option Bytes
strip_prefix [] s = some s
strip_prefix (x ∷ p) [] = none
strip_prefix (x ∷ p) (c ∷ s) = let more = strip_prefix p s in if x == c then more else none

-- An entry is NAME=value.
abbrev pub variable : Bytes → Bytes → Bytes
variable name value = name ++ b'=' ∷ value

abbrev pub value_in : Bytes → Bytes → Option Bytes
value_in name s = strip_prefix (name ++ b'=' ∷ []) s

abbrev pub or_else : Option Bytes → Option Bytes → Option Bytes
or_else (some v) o = some v
or_else none o = o

unfoldable pub getenv : Bytes → List Bytes → Option Bytes
getenv name [] = none
getenv name (e ∷ es) = or_else (value_in name e) (getenv name es)

abbrev pub is_some : Option Bytes → Bool
is_some none = false
is_some (some v) = true

-- setenv with overwriting: in the place of the first entry of the name, or at the end.
unfoldable pub setenv : Bytes → Bytes → List Bytes → List Bytes
setenv name value [] = variable name value ∷ []
setenv name value (e ∷ es) =
    let more = setenv name value es in
    if is_some (value_in name e) then variable name value ∷ es else e ∷ more

unfoldable pub unsetenv : Bytes → List Bytes → List Bytes
unsetenv name [] = []
unsetenv name (e ∷ es) =
    let more = unsetenv name es in if is_some (value_in name e) then more else e ∷ more

-- %lu for an unsigned long, which has at most 20 digits.
abbrev pub digits : ℕ → ℕ → Bytes
digits zero n = []
digits (suc fuel) n =
    let front = digits fuel (n / 10) in
    if ltb n 10 then (b'0' + n) ∷ [] else front ++ (b'0' + n % 10) ∷ []

unfoldable pub decimal : ℕ → Bytes
decimal n = digits 20 n

-- strpbrk(s, set), for a set given by its test, as a truth value.
abbrev pub strpbrk : (ℕ → Bool) → Bytes → Bool
strpbrk set [] = false
strpbrk set (c ∷ s) = set c || strpbrk set s
