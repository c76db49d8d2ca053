-- ===== src/Shared/Libc.antt =====
-- The functions of the C library that the program calls on strings.
use runes.Shared.{
  ℕ, zero, suc, ◌+◌, ◌-◌, ◌*◌, ◌%◌, ◌^◌, Bool, ◌&&◌, ◌||◌, Option, none, some, [], ◌∷◌, ◌==◌, leb,
  if◌then◌else◌,
}
use runes.Shared.Int.{ℤ, pos, negsuc}
use runes.Shared.Text.{Bytes}

-- isspace in the C locale.
abbrev pub is_space : ℕ → Bool
is_space c = c == b' ' || (leb 9 c && leb c 13)

abbrev pub is_digit : ℕ → Bool
is_digit c = leb b'0' c && leb c b'9'

abbrev pub skip_space : Bytes → Bytes
skip_space [] = []
skip_space (c ∷ s) = if is_space c then skip_space s else c ∷ s

-- The digits in front, onto a value.
abbrev pub digits_onto : ℕ → Bytes → ℕ
digits_onto n [] = n
digits_onto n (c ∷ s) =
    let more = digits_onto (10 * n + (c - b'0')) s in if is_digit c then more else n

abbrev pub negate : ℕ → ℤ
negate zero = pos 0
negate (suc n) = negsuc n

abbrev signed : Bytes → ℤ
signed [] = pos 0
signed (c ∷ s) =
    if c == b'-'
    then negate (digits_onto 0 s)
    else if c == b'+'
    then pos (digits_onto 0 s)
    else pos (digits_onto 0 (c ∷ s))

-- The value that atoi reads; one that no int holds is undefined in C.
unfoldable pub atoi : Bytes → ℤ
atoi s = signed (skip_space s)

-- strspn(s, set) and strcspn(s, set), for a set given by its test.
abbrev pub strspn : (ℕ → Bool) → Bytes → ℕ
strspn set [] = 0
strspn set (c ∷ s) = if set c then suc (strspn set s) else 0

abbrev pub hex_digit : ℕ → Option ℕ
hex_digit c =
    if is_digit c
    then some (c - b'0')
    else if leb b'a' c && leb c b'f'
    then some (c - b'a' + 10)
    else if leb b'A' c && leb c b'F'
    then some (c - b'A' + 10)
    else none

-- The second of two characters of a number, after a digit.
abbrev second_digit : ℕ → ℕ → Bytes → Option (ℕ × Bytes)
second_digit c d [] = some (d, [])
second_digit c d (e ∷ s) =
    if c == b'0' && (e == b'x' || e == b'X')
    then none
    else elim (hex_digit e) [ none ↦ some (d, e ∷ s) | some d' ↦ some (16 * d + d', s) ]

-- The one digit that has room behind a sign.
abbrev signed_digit : Bool → Bytes → Option (ℕ × Bytes)
signed_digit minus [] = none
signed_digit minus (e ∷ s) = elim (hex_digit e) [
  | none ↦ none
  | some d ↦ some (if minus then (2 ^ 32 - d) % 2 ^ 32 else d, s)
]

abbrev first_digit : Bytes → Option (ℕ × Bytes)
first_digit [] = none
first_digit (c ∷ s) =
    if c == b'-' || c == b'+'
    then signed_digit (c == b'-') s
    else elim (hex_digit c) [ none ↦ none | some d ↦ second_digit c d s ]

-- The conversion %2x of sscanf: blanks, then at most two characters of a hexadecimal number. A
-- bare 0x is no number.
unfoldable pub scan_hex2 : Bytes → Option (ℕ × Bytes)
scan_hex2 s = first_digit (skip_space s)
