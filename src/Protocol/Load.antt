-- ===== src/Protocol/Load.antt =====
-- The readers of src/protocol.c. `buf` is what lies from the pointer to the end of its allocation,
-- so that a read of more than that is a fault, and `len` is the size that the code believes in.
-- malloc and calloc are taken to succeed.
use runes.Shared.{
  ℕ, zero, suc, ◌+◌, ◌*◌, ◌^◌, List, [], ◌∷◌, take, drop, length, ltb, leb, ◌==◌, if◌then◌else◌,
}
use runes.Protocol.Message.{
  Bytes, message_version, NewTermMessage, Outcome, ok, fail, fault, Fault, ◌>>=◌, or_else, size_sub,
  u32_suc,
}

-- ntohl of the first four bytes.
unfoldable pub ntohl : Bytes → Outcome ℕ
ntohl (a ∷ b ∷ c ∷ d ∷ rest) = ok (a * 2 ^ 24 + b * 2 ^ 16 + c * 2 ^ 8 + d)
ntohl buf = fault Fault.read_past_end

-- A loader gives its value and the number of bytes that it takes.
unfoldable pub load_u32 : Bytes → ℕ → Outcome (ℕ × ℕ)
load_u32 buf len = if ltb len 4 then fail else do i ← ntohl buf; ok (i, 4)

-- memcpy of n bytes out of `buf`.
unfoldable pub copy_out : Bytes → ℕ → Outcome Bytes
copy_out buf n = if ltb (length buf) n then fault Fault.read_past_end else ok (take n buf)

unfoldable pub load_str : Bytes → ℕ → Outcome (Bytes × ℕ)
load_str buf len = do
  (strlen, offset) ← load_u32 buf len
  if ltb len strlen
      then fail
      else if leb (u32_suc strlen) strlen
      then fault Fault.write_past_end
      else do str ← copy_out (drop offset buf) strlen; ok (str, offset + strlen)

-- The loop over the strings of a vector, k of them left. When one fails, the macro frees the vector
-- and then reads its freed slots.
unfoldable pub load_strs : ℕ → Bytes → ℕ → ℕ → Outcome (List Bytes × ℕ)
load_strs zero buf len offset = ok ([], offset)
load_strs (suc k) buf len offset = do
  (s, incr) ←
      or_else (load_str (drop offset buf) (size_sub len offset)) (fault Fault.use_after_free)
  (rest, end) ← load_strs k buf len (offset + incr)
  ok (s ∷ rest, end)

unfoldable pub load_strvec : Bytes → ℕ → Outcome (List Bytes × ℕ)
load_strvec buf len = do
  (veclen, offset) ← load_u32 buf len
  if ltb len veclen
      then fail
      else if leb (u32_suc veclen) veclen
      then fault Fault.write_past_end
      else load_strs veclen buf len offset

-- Where the caller keeps the message that a failing parse frees.
pub data Storage : Type 0 where
  on_heap on_stack : Storage

unfoldable pub free_message {ℓ} : {A : Type ℓ} → Storage → Outcome A
free_message on_heap = fail
free_message on_stack = fault Fault.free_of_stack

-- The LOADs behind the version, from offset o1 on.
unfoldable pub load_fields : Bytes → ℕ → ℕ → Outcome NewTermMessage
load_fields buf len o1 = do
  (argc, n2) ← load_u32 (drop o1 buf) (size_sub len o1)
  let o2 = o1 + n2
  (argv, n3) ← load_strvec (drop o2 buf) (size_sub len o2)
  let o3 = o2 + n3
  (envp, n4) ← load_strvec (drop o3 buf) (size_sub len o3)
  let o4 = o3 + n4
  (cwd, n5) ← load_str (drop o4 buf) (size_sub len o4)
  ok (record { argc = argc; argv = argv; envp = envp; cwd = cwd })

-- All of the parsing but the release of the message on failure.
unfoldable pub load_message : Bytes → ℕ → Outcome NewTermMessage
load_message buf len = do
  (version, o1) ← load_u32 buf len
  if version == message_version then load_fields buf len o1 else fail

unfoldable pub parse_new_term_message : Storage → Bytes → ℕ → Outcome NewTermMessage
parse_new_term_message kept buf len = or_else (load_message buf len) (free_message kept)
