-- ===== src/Protocol/Store.antt =====
-- The writers of src/protocol.c. GLib's byte array is a parameter: what the code relies on is that
-- appending adds the bytes at the end.
use runes.Shared.{
  ℕ, ◌/◌, ◌%◌, ◌^◌, ◌≡◌, Option, none, some, List, [], ◌∷◌, ◌++◌, length, ltb, if◌then◌else◌,
}
use runes.Protocol.Message.{Bytes, max_packet_size, message_version, NewTermMessage}

pub record ByteArray : Type 1 where
  pub Array : Type 0
  pub empty : Array
  pub append_vals : Array → Bytes → Array
  pub contents : Array → Bytes
  pub contents-empty : contents empty ≡ []
  pub contents-append_vals :
      (a : Array) (bs : Bytes) → contents (append_vals a bs) ≡ contents a ++ bs

infixl 5 ◌>>=◌
abbrev pub ◌>>=◌ {ℓ κ} : {A : Type ℓ} {B : Type κ} → Option A → (A → Option B) → Option B
none >>= f = none
some a >>= f = f a

-- The bytes of htonl(i), for i converted to uint32_t.
unfoldable pub htonl : ℕ → Bytes
htonl i = (i / 2 ^ 24 % 256) ∷ (i / 2 ^ 16 % 256) ∷ (i / 2 ^ 8 % 256) ∷ (i % 256) ∷ []

module _ (g : ByteArray) where
  open g use {Array, empty, append_vals, contents}

  unfoldable pub store_u32 : Array → ℕ → Option Array
  store_u32 buf i = some (append_vals buf (htonl i))

  unfoldable pub store_str : Array → Bytes → Option Array
  store_str buf str =
      if ltb max_packet_size (length str)
      then none
      else do b ← store_u32 buf (length str); some (append_vals b str)

  unfoldable pub store_strs : Array → List Bytes → Option Array
  store_strs buf [] = some buf
  store_strs buf (s ∷ rest) = do b ← store_str buf s; store_strs b rest

  unfoldable pub store_strvec : Array → List Bytes → Option Array
  store_strvec buf vec =
      if ltb max_packet_size (length vec)
      then none
      else do b ← store_u32 buf (length vec); store_strs b vec

  -- The STOREs of a message in order.
  unfoldable pub store_message : Array → NewTermMessage → Option Array
  store_message b0 msg = do
    b1 ← store_u32 b0 message_version
    b2 ← store_u32 b1 msg.argc
    b3 ← store_strvec b2 msg.argv
    b4 ← store_strvec b3 msg.envp
    store_str b4 msg.cwd

  unfoldable pub create_new_term_message : NewTermMessage → Option Bytes
  create_new_term_message msg = do buf ← store_message empty msg; some (contents buf)
