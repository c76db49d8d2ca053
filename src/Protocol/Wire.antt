-- ===== src/Protocol/Wire.antt =====
-- The wire format, written out once, and the readers of src/protocol.c on what its writers wrote.
use runes.Shared.{
  ℕ, ◌+◌, ◌^◌, ◌≤◌, ◌<◌, ◌≡◌, refl, ap, ◌∙◌, List, [], ◌∷◌, ◌++◌, arith, length, length-append,
  drop, drop-add, drop-append, take-append, append_assoc,
}
use runes.Protocol.Message.{Bytes, max_packet_size, ok, size_sub}
use runes.Protocol.Store.{htonl}
use runes.Protocol.Load.{ntohl, load_u32, copy_out, load_str, load_strs, load_strvec}

abbrev pub IsU32 : ℕ → Type 0
IsU32 i = i < 2 ^ 32

pub ntohl-htonl : (i : ℕ) (rest : Bytes) → IsU32 i → ntohl (htonl i ++ rest) ≡ ok i
unfolding ntohl htonl
ntohl-htonl i rest h = ap ok (omega arith)

pub load_u32-htonl :
    (i : ℕ) (rest : Bytes) (len : ℕ)
    → IsU32 i
    → 4 ≤ len
    → load_u32 (htonl i ++ rest) len ≡ ok (i, 4)
unfolding load_u32
load_u32-htonl i rest len h k = ground (arith, ntohl-htonl i rest h)

-- The format of a string, of the strings of a vector and of a vector.
abbrev pub str_wire : Bytes → Bytes
str_wire s = htonl (length s) ++ s

abbrev pub strs_wire : List Bytes → Bytes
strs_wire [] = []
strs_wire (s ∷ rest) = str_wire s ++ strs_wire rest

abbrev pub strvec_wire : List Bytes → Bytes
strvec_wire v = htonl (length v) ++ strs_wire v

pub length-htonl : (i : ℕ) (rest : Bytes) → length (htonl i ++ rest) ≡ 4 + length rest
unfolding htonl
length-htonl i rest = omega arith

pub drop-htonl : (i : ℕ) (rest : Bytes) → drop 4 (htonl i ++ rest) ≡ rest
unfolding htonl
drop-htonl i rest = refl

copy_out-append : (s rest : Bytes) → copy_out (s ++ rest) (length s) ≡ ok s
unfolding copy_out
copy_out-append s rest = ground (arith, length-append s rest, take-append s rest)

load_str-wire :
    (s rest : Bytes) (len : ℕ)
    → length s ≤ max_packet_size
    → 4 + length s ≤ len
    → load_str (htonl (length s) ++ (s ++ rest)) len ≡ ok (s, 4 + length s)
unfolding load_str
load_str-wire s rest len h k = ground (
  arith,
  load_u32-htonl (length s) (s ++ rest) len,
  drop-htonl (length s) (s ++ rest),
  copy_out-append s rest,
)

-- Every string is short enough to be written.
abbrev pub AllShort : List Bytes → Type 0
AllShort [] = Unit {0}
AllShort (s ∷ rest) = (length s ≤ max_packet_size) × AllShort rest

pub length-str_wire : (s : Bytes) → length (str_wire s) ≡ 4 + length s
length-str_wire s = length-htonl (length s) s

-- The next string of a buffer, and where the one behind it begins.
pub load_str_at :
    (s tail buf : Bytes) (len offset : ℕ)
    → drop offset buf ≡ str_wire s ++ tail
    → length s ≤ max_packet_size
    → len < 2 ^ 64
    → offset + (4 + length s) ≤ len
    → (load_str (drop offset buf) (size_sub len offset) ≡ ok (s, 4 + length s))
      × (drop (offset + (4 + length s)) buf ≡ tail)
load_str_at s tail buf len offset e h small k = (
  rw (e, append_assoc (htonl (length s)) s tail) (load_str-wire s tail _ h (omega arith)),
  rw (drop-add offset (4 + length s) buf, e, ← length-str_wire s) (drop-append (str_wire s) tail),
)

load_strs-wire :
    (v : List Bytes) (tail buf : Bytes) (len offset : ℕ)
    → drop offset buf ≡ strs_wire v ++ tail
    → AllShort v
    → len < 2 ^ 64
    → offset + length (strs_wire v) ≤ len
    → load_strs (length v) buf len offset ≡ ok (v, offset + length (strs_wire v))
unfolding load_strs
load_strs-wire [] tail buf len offset e h small k = ap (λ (n : ℕ). ok ([], n)) (omega arith)
load_strs-wire (s ∷ v) tail buf len offset e h small k = ground (
  arith,
  here,
  length-append (str_wire s) (strs_wire v),
  length-str_wire s,
  load_strs-wire v tail buf len (offset + (4 + length s)) here.1 h.1 small,
)
  where
    here :
        (load_str (drop offset buf) (size_sub len offset) ≡ ok (s, 4 + length s))
        × (drop (offset + (4 + length s)) buf ≡ strs_wire v ++ tail)
    here =
        load_str_at s (strs_wire v ++ tail) buf len offset
          (e ∙ append_assoc (str_wire s) (strs_wire v) tail) h.0 small
          (omega (arith, length-append (str_wire s) (strs_wire v), length-str_wire s))

length-le-strs_wire : (v : List Bytes) → length v ≤ length (strs_wire v)
length-le-strs_wire [] = omega arith
length-le-strs_wire (s ∷ v) =
    omega
      (arith, length-le-strs_wire v, length-append (str_wire s) (strs_wire v), length-str_wire s)

pub length-strvec_wire : (v : List Bytes) → length (strvec_wire v) ≡ 4 + length (strs_wire v)
length-strvec_wire v = length-htonl (length v) (strs_wire v)

abbrev pub IsShort : List Bytes → Type 0
IsShort v = (length v ≤ max_packet_size) × AllShort v

load_strvec-wire :
    (v : List Bytes) (tail : Bytes) (len : ℕ)
    → IsShort v
    → len < 2 ^ 64
    → length (strvec_wire v) ≤ len
    → load_strvec (htonl (length v) ++ (strs_wire v ++ tail)) len ≡ ok (v, length (strvec_wire v))
unfolding load_strvec
load_strvec-wire v tail len h small k = ground (
  arith,
  load_u32-htonl (length v) (strs_wire v ++ tail) len,
  length-le-strs_wire v,
  length-strvec_wire v,
  load_strs-wire v tail (htonl (length v) ++ (strs_wire v ++ tail)) len 4
      (drop-htonl (length v) (strs_wire v ++ tail)) h.1 small,
)

pub load_strvec_at :
    (v : List Bytes) (tail buf : Bytes) (len offset : ℕ)
    → drop offset buf ≡ strvec_wire v ++ tail
    → IsShort v
    → len < 2 ^ 64
    → offset + length (strvec_wire v) ≤ len
    → (load_strvec (drop offset buf) (size_sub len offset) ≡ ok (v, length (strvec_wire v)))
      × (drop (offset + length (strvec_wire v)) buf ≡ tail)
load_strvec_at v tail buf len offset e h small k = (
  rw (e, append_assoc (htonl (length v)) (strs_wire v) tail)
      (load_strvec-wire v tail _ h (omega arith) (omega arith)),
  rw (drop-add offset (length (strvec_wire v)) buf, e) (drop-append (strvec_wire v) tail),
)

pub load_u32_at :
    (i : ℕ) (tail buf : Bytes) (len offset : ℕ)
    → drop offset buf ≡ htonl i ++ tail
    → IsU32 i
    → len < 2 ^ 64
    → offset + 4 ≤ len
    → (load_u32 (drop offset buf) (size_sub len offset) ≡ ok (i, 4))
      × (drop (offset + 4) buf ≡ tail)
load_u32_at i tail buf len offset e h small k = (
  rw e (load_u32-htonl i tail _ h (omega arith)),
  rw (drop-add offset 4 buf, e) (drop-htonl i tail),
)
