-- ===== src/Protocol/RoundTrip.antt =====
-- `runes_protocol_create_new_term_message` and `runes_protocol_parse_new_term_message` of
-- src/protocol.c against each other.
use mathlib.Core.Option
use runes.Shared.{
  ◌&&◌, leb, Option-cases, Bool, ℕ, ◌+◌, ◌^◌, ◌≤◌, ◌<◌, ◌≡◌, sym, ap, ◌∙◌, List, [], ◌∷◌, ◌++◌,
  Option, none, some, arith, length, length-append, drop, append_assoc, append-nil, ltb,
  if◌then◌else◌, inl, inr, true, Bool-cases,
}
use runes.Protocol.Message.{Bytes, max_packet_size, message_version, NewTermMessage, ok, or_else}
use runes.Protocol.Store.{
  ByteArray, htonl, store_u32, store_str, store_strs, store_strvec, store_message,
  create_new_term_message, ◌>>=◌,
}
use runes.Protocol.Load.{load_fields, load_message, Storage, parse_new_term_message}
use runes.Protocol.Wire.{
  IsU32, IsShort, AllShort, str_wire, strs_wire, strvec_wire, load_u32-htonl, drop-htonl,
  load_u32_at, load_str_at, load_strvec_at, length-htonl, length-str_wire,
}

abbrev pub fields_wire : NewTermMessage → Bytes
fields_wire m = htonl m.argc ++ (strvec_wire m.argv ++ (strvec_wire m.envp ++ str_wire m.cwd))

abbrev pub message_wire : NewTermMessage → Bytes
message_wire m = htonl message_version ++ fields_wire m

-- What the limits of the protocol let through.
abbrev pub str_fits : Bytes → Bool
str_fits s = leb (length s) max_packet_size

abbrev pub strs_fit : List Bytes → Bool
strs_fit [] = true
strs_fit (s ∷ rest) = str_fits s && strs_fit rest

abbrev pub strvec_fits : List Bytes → Bool
strvec_fits v = leb (length v) max_packet_size && strs_fit v

abbrev pub fits : NewTermMessage → Bool
fits m = strvec_fits m.argv && (strvec_fits m.envp && str_fits m.cwd)

module _ (g : ByteArray) where
  open g use {Array, empty, append_vals, contents, contents-empty, contents-append_vals}

  -- The writer appends these bytes if the test holds, and fails if not.
  abbrev Writes : (Array → Option Array) → Bool → Bytes → Type 0
  Writes w c bs =
      (buf : Array) → Option.map contents (w buf) ≡ (if c then some (contents buf ++ bs) else none)

  Writes-bind :
      (w w' : Array → Option Array) (c c' : Bool) (bs bs' : Bytes)
      → Writes w c bs
      → Writes w' c' bs'
      → Writes (λ b. w b >>= w') (c && c') (bs ++ bs')
  Writes-bind w w' c c' bs bs' h h' buf = elim (Option-cases (w buf)) [
    | inl e ↦ rw e (ground (arith, h buf))
    | inr (b, e) ↦ rw e (ground (arith, h buf, h' b, append_assoc (contents buf) bs bs'))
  ]

  store_u32-Writes : (i : ℕ) → Writes (λ b. store_u32 g b i) true (htonl i)
  unfolding store_u32
  store_u32-Writes i buf = ap some (contents-append_vals buf (htonl i))

  append_vals-Writes : (s : Bytes) → Writes (λ b. some (append_vals b s)) true s
  append_vals-Writes s buf = ap some (contents-append_vals buf s)

  -- A writer behind its size check.
  Writes-limited :
      (n : ℕ) (w : Array → Option Array) (c : Bool) (bs : Bytes)
      → Writes w c bs
      → Writes (λ b. if ltb max_packet_size n then none else w b) (leb n max_packet_size && c) bs
  Writes-limited n w c bs h buf = elim (Bool-cases (ltb max_packet_size n)) [
    | inl e ↦ rw e (ground arith)
    | inr e ↦ rw e (ground (arith, h buf))
  ]

  store_str-Writes : (s : Bytes) → Writes (λ b. store_str g b s) (str_fits s && true) (str_wire s)
  unfolding store_str
  store_str-Writes s =
      Writes-limited (length s) _ true (str_wire s)
        (Writes-bind _ _ true true _ _ (store_u32-Writes (length s)) (append_vals-Writes s))

  store_strs-Writes : (v : List Bytes) → Writes (λ b. store_strs g b v) (strs_fit v) (strs_wire v)
  unfolding store_strs
  store_strs-Writes [] buf = ap some (sym (append-nil (contents buf)))
  store_strs-Writes (s ∷ v) buf =
      rw
        (Writes-bind _ _ (str_fits s && true) (strs_fit v) _ _ (store_str-Writes s)
          (store_strs-Writes v) buf)
        (ground arith)

  store_strvec-Writes :
      (v : List Bytes) → Writes (λ b. store_strvec g b v) (strvec_fits v) (strvec_wire v)
  unfolding store_strvec
  store_strvec-Writes v =
      Writes-limited (length v) _ (strs_fit v) (strvec_wire v)
        (Writes-bind _ _ true (strs_fit v) _ _ (store_u32-Writes (length v)) (store_strs-Writes v))

  store_message-Writes :
      (m : NewTermMessage)
      → Writes
          (λ b. store_message g b m)
          (strvec_fits m.argv && (strvec_fits m.envp && (str_fits m.cwd && true)))
          (message_wire m)
  unfolding store_message
  store_message-Writes m = Writes-bind _ _ true _ _ _ (store_u32-Writes message_version) (
      Writes-bind _ _ true _ _ _ (store_u32-Writes m.argc) (
        Writes-bind _ _ (strvec_fits m.argv) _ _ _ (store_strvec-Writes m.argv) (
          Writes-bind _ _ (strvec_fits m.envp) (str_fits m.cwd && true) _ _
            (store_strvec-Writes m.envp) (store_str-Writes m.cwd))))

  -- Creating a message gives its wire form if every vector and string is within the limit, and
  -- fails if one is not.
  pub create-message_wire :
      (m : NewTermMessage)
      → create_new_term_message g m ≡ (if fits m then some (message_wire m) else none)
  unfolding create_new_term_message
  create-message_wire m = ground (arith, store_message-Writes m empty, contents-empty)

-- What `fits` says, as bounds.
strs_fit-AllShort : (v : List Bytes) → strs_fit v ≡ true → AllShort v
strs_fit-AllShort [] h = tt
strs_fit-AllShort (s ∷ v) h = (ground arith, strs_fit-AllShort v (ground arith))

strvec_fits-IsShort : (v : List Bytes) → strvec_fits v ≡ true → IsShort v
strvec_fits-IsShort v h = (ground arith, strs_fit-AllShort v (ground arith))

-- The readers on the wire form.
module _ (m : NewTermMessage) (argc_u32 : IsU32 m.argc) (h : fits m ≡ true) where
  length-fields_wire :
      length (fields_wire m)
      ≡ 4 + length (strvec_wire m.argv) + length (strvec_wire m.envp) + (4 + length m.cwd)
  length-fields_wire = omega (
    arith,
    length-htonl m.argc (strvec_wire m.argv ++ (strvec_wire m.envp ++ str_wire m.cwd)),
    length-append (strvec_wire m.argv) (strvec_wire m.envp ++ str_wire m.cwd),
    length-append (strvec_wire m.envp) (str_wire m.cwd),
    length-str_wire m.cwd,
  )

  load_fields-wire :
      (buf : Bytes) (len o1 : ℕ)
      → drop o1 buf ≡ fields_wire m
      → len < 2 ^ 64
      → o1 + length (fields_wire m) ≤ len
      → load_fields buf len o1 ≡ ok m
  unfolding load_fields
  load_fields-wire buf len o1 e small k =
      let (r2, e2) =
        load_u32_at m.argc _ buf len o1 e argc_u32 small (omega (arith, length-fields_wire)) in
      let (r3, e3) =
        load_strvec_at m.argv _ buf len (o1 + 4) e2 (strvec_fits-IsShort m.argv (ground arith))
          small (omega (arith, length-fields_wire)) in
      let (r4, e4) =
        load_strvec_at m.envp _ buf len (o1 + 4 + length (strvec_wire m.argv)) e3
          (strvec_fits-IsShort m.envp (ground arith)) small (omega (arith, length-fields_wire)) in
      let (r5, e5) =
        load_str_at m.cwd [] buf len
          (o1 + 4 + length (strvec_wire m.argv) + length (strvec_wire m.envp))
          (e4 ∙ sym (append-nil (str_wire m.cwd))) (ground arith) small
          (omega (arith, length-fields_wire)) in
      rw (r2, r3, r4, r5)

  load_message-wire :
      length (message_wire m) < 2 ^ 64
      → load_message (message_wire m) (length (message_wire m)) ≡ ok m
  unfolding load_message
  load_message-wire small = ground (
    arith,
    load_u32-htonl message_version (fields_wire m) (length (message_wire m)),
    length-htonl message_version (fields_wire m),
    drop-htonl message_version (fields_wire m),
    load_fields-wire (message_wire m) (length (message_wire m)) 4,
  )

-- What was created is parsed back as it was: the argument count, both vectors and the directory,
-- wherever the caller keeps the message, if argc fits its type and the size fits a size_t.
pub parse-create :
    (g : ByteArray) (kept : Storage) (m : NewTermMessage) {bytes : Bytes}
    → IsU32 m.argc
    → create_new_term_message g m ≡ some bytes
    → length bytes < 2 ^ 64
    → parse_new_term_message kept bytes (length bytes) ≡ ok m
unfolding parse_new_term_message
parse-create g kept m {bytes} argc_u32 e small = elim (Bool-cases (fits m)) [
  | inl h ↦
      let same : message_wire m ≡ bytes = ground (arith, create-message_wire g m) in
      rw (← same, load_message-wire m argc_u32 h (rw same small), or_else)
  | inr h ↦ ground (arith, create-message_wire g m)
]
