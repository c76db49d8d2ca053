-- ===== src/Window/KeyLaws.antt =====
-- The sequences that src/window-xlib.c sends for keys tell the keys apart.
use runes.Shared.{
  ℕ, ◌+◌, ◌-◌, ◌*◌, ◌%◌, ◌/◌, ◌≡◌, refl, sym, ap, ◌∙◌, Bool, true, false, not, ◌&&◌, ◌||◌, Option,
  none, some, List, [], ◌∷◌, ◌++◌, arith, ◌==◌, ltb, get_or, if◌then◌else◌, Bool-cases, inl, inr,
}
use runes.Shared.Text.{str_eq, str_eq_iff}
use runes.Window.Keys.{
  KeySym, up, down, right, left, page_up, page_down, home, end_key, backspace, delete, iso_left_tab,
  insert, f_key, other_key, sym_number, same_sym, FunctionKey, keys, shift_keys, ctrl_keys,
  application_keypad_keys, application_cursor_keys, Modifiers, Modes, scan_keys, or_scan, base_keys,
  find_key_sequence,
}

-- The tables that are looked through, as one: the first entry for a symbol counts.
abbrev pub key_tables : Bool → Bool → Bool → List FunctionKey
key_tables cursor shift control =
    (if cursor then application_cursor_keys else [])
    ++ (if shift then shift_keys else if control then ctrl_keys else keys)

abbrev pub effective_keys : Modes → Modifiers → List FunctionKey
effective_keys t e = key_tables (t.application_keypad && t.application_cursor) e.shift e.control

scan_keys-append :
    (xs ys : List FunctionKey) (s : KeySym)
    → scan_keys (xs ++ ys) s ≡ or_scan (scan_keys xs s) (scan_keys ys s)
scan_keys-append [] ys s = refl
scan_keys-append (x ∷ xs) ys s = elim (Bool-cases (same_sym x.sym s)) [
  | inl h ↦ rw h
  | inr h ↦ rw h (scan_keys-append xs ys s)
]

or_scan-none : (o : Option FunctionKey) → or_scan o none ≡ o
or_scan-none none = refl
or_scan-none (some k) = refl

find_key_sequence-effective :
    (t : Modes) (s : KeySym) (e : Modifiers)
    → find_key_sequence t s e ≡ scan_keys (effective_keys t e) s
unfolding find_key_sequence application_keypad_keys
find_key_sequence-effective t s e = elim (Bool-cases t.application_keypad) [
  | inr h ↦ rw h
  | inl h ↦ elim (Bool-cases t.application_cursor) [
    | inl k ↦
        rw (h, k, or_scan-none (scan_keys application_cursor_keys s))
          (sym (scan_keys-append application_cursor_keys (base_keys e) s))
    | inr k ↦ rw (h, k)
  ]
]

abbrev all_keys : (FunctionKey → Bool) → List FunctionKey → Bool
all_keys p [] = true
all_keys p (k ∷ ks) = p k && all_keys p ks

all_keys-scan :
    (p : FunctionKey → Bool) (ks : List FunctionKey) (s : KeySym) (k : FunctionKey)
    → all_keys p ks ≡ true
    → scan_keys ks s ≡ some k
    → p k ≡ true
all_keys-scan p [] s k h e = absurd (ground arith)
all_keys-scan p (x ∷ xs) s k h e = elim (Bool-cases (same_sym x.sym s)) [
  | inl q ↦ let found : x ≡ k = ground arith in ground arith
  | inr q ↦ all_keys-scan p xs s k (ground arith) (ground arith)
]

scan_keys-sym :
    (ks : List FunctionKey) (s : KeySym) (k : FunctionKey)
    → scan_keys ks s ≡ some k
    → same_sym k.sym s ≡ true
scan_keys-sym [] s k e = absurd (ground arith)
scan_keys-sym (x ∷ xs) s k e = elim (Bool-cases (same_sym x.sym s)) [
  | inl q ↦ let found : x ≡ k = ground arith in ground arith
  | inr q ↦ scan_keys-sym xs s k (ground arith)
]

-- Two entries with one sequence are for one symbol.
abbrev tells : FunctionKey → FunctionKey → Bool
tells a b = not (str_eq a.str b.str) || same_sym a.sym b.sym

abbrev all_tell : List FunctionKey → Bool
all_tell ks = all_keys (λ a. all_keys (tells a) ks) ks

key_tables-tell : (a b c : Bool) → all_tell (key_tables a b c) ≡ true
unfolding keys shift_keys ctrl_keys application_cursor_keys
key_tables-tell true true c = refl
key_tables-tell true false true = refl
key_tables-tell true false false = refl
key_tables-tell false true c = refl
key_tables-tell false false true = refl
key_tables-tell false false false = refl

-- The symbol of a number, to see that no two have the same one.
abbrev sym_of : ℕ → KeySym
sym_of n =
    if ltb n 12
    then get_or
        (up ∷ down ∷ right ∷ left ∷ page_up ∷ page_down ∷ home ∷ end_key ∷ backspace ∷ delete
          ∷ iso_left_tab ∷ insert ∷ [])
        n up
    else if (n - 12) % 2 == 0
    then f_key ((n - 12) / 2)
    else other_key ((n - 12) / 2)

sym_of-number : (s : KeySym) → sym_of (sym_number s) ≡ s
sym_of-number (f_key n) =
    let big : ltb (12 + 2 * n) 12 ≡ false = ground arith in
    let even : ((12 + 2 * n - 12) % 2 == 0) ≡ true = ground arith in
    let half : (12 + 2 * n - 12) / 2 ≡ n = omega arith in rw (big, even, half)
sym_of-number (other_key n) =
    let big : ltb (13 + 2 * n) 12 ≡ false = ground arith in
    let odd : ((13 + 2 * n - 12) % 2 == 0) ≡ false = ground arith in
    let half : (13 + 2 * n - 12) / 2 ≡ n = omega arith in rw (big, odd, half)
sym_of-number _ = refl

-- In any modes and with any modifiers, two keys that both have a sequence have different ones.
pub find_key_sequence_injective :
    (t : Modes) (e : Modifiers) (s s' : KeySym) (k k' : FunctionKey)
    → find_key_sequence t s e ≡ some k
    → find_key_sequence t s' e ≡ some k'
    → k.str ≡ k'.str
    → s ≡ s'
find_key_sequence_injective t e s s' k k' h h' same =
    let ks = effective_keys t e in
    let found : scan_keys ks s ≡ some k = sym (find_key_sequence-effective t s e) ∙ h in
    let found' : scan_keys ks s' ≡ some k' = sym (find_key_sequence-effective t s' e) ∙ h' in
    let all : all_keys (tells k) ks ≡ true =
      all_keys-scan (λ a. all_keys (tells a) ks) ks s k
        (key_tables-tell (t.application_keypad && t.application_cursor) e.shift e.control) found in
    let one : tells k k' ≡ true = all_keys-scan (tells k) ks s' k' all found' in
    let same_str : str_eq k.str k'.str ≡ true = (str_eq_iff k.str k'.str).1 same in
    let numbers : sym_number s ≡ sym_number s' =
      ground (arith, scan_keys-sym ks s k found, scan_keys-sym ks s' k' found') in
    sym (sym_of-number s) ∙ ap sym_of numbers ∙ sym_of-number s'
