-- ===== src/Protocol/Message.antt =====
-- src/protocol.h and the constants of src/protocol.c: the messages, the two directions' results,
-- and the machine arithmetic that they share. A C string is the list of its bytes before the NUL,
-- and a NULL-terminated vector is the list of its strings.
use runes.Shared.{ℕ, ◌+◌, ◌-◌, ◌*◌, ◌%◌, ◌^◌, List}

abbrev pub Bytes : Type 0
Bytes = List ℕ

abbrev pub max_packet_size : ℕ
max_packet_size = 1024 * 1024

abbrev pub message_version : ℕ
message_version = 1

pub record NewTermMessage : Type 0 where
  pub argc : ℕ
  pub argv : List Bytes
  pub envp : List Bytes
  pub cwd : Bytes

pub data MessageType : Type 0 where
  new_term kill_daemon : MessageType

-- The values that the enum gives its members; RUNES_PROTOCOL_NUM_MESSAGE_TYPES is the last.
abbrev pub type_code : MessageType → ℕ
type_code MessageType.new_term = 0
type_code MessageType.kill_daemon = 1

abbrev pub num_message_types : ℕ
num_message_types = 2

-- What the C standard leaves undefined, where the code can reach it.
pub data Fault : Type 0 where
  read_past_end write_past_end use_after_free free_of_stack : Fault

-- `fail` is the C function's -1 or 0.
pub data Outcome {ℓ} (A : Type ℓ) : Type ℓ where
  ok : A → Outcome A
  fail : Outcome A
  fault : Fault → Outcome A

infixl 5 ◌>>=◌
abbrev pub ◌>>=◌ {ℓ κ} : {A : Type ℓ} {B : Type κ} → Outcome A → (A → Outcome B) → Outcome B
ok a >>= f = f a
fail >>= f = fail
fault u >>= f = fault u

-- What happens instead of a `fail`, such as the clean-up of a LOAD macro.
abbrev pub or_else {ℓ} : {A : Type ℓ} → Outcome A → Outcome A → Outcome A
or_else (ok a) other = ok a
or_else fail other = other
or_else (fault u) other = fault u

-- `len - offset` on size_t.
abbrev pub size_sub : ℕ → ℕ → ℕ
size_sub a b = (a + 2 ^ 64 - b) % 2 ^ 64

-- `n + 1` on uint32_t.
abbrev pub u32_suc : ℕ → ℕ
u32_suc n = (n + 1) % 2 ^ 32
