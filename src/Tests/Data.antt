-- ===== src/Tests/Data.antt =====
-- Data that the tests share.
use runes.Shared.{ℕ, ◌≡◌, refl, List, [], ◌∷◌, ◌++◌, length, length-replicate, replicate}
use runes.Shared.Text.{Bytes, codes}
use runes.Config.Types.{Ratio, Cairo}
use runes.Protocol.Message.{NewTermMessage}
use runes.Protocol.Store.{ByteArray}
use runes.Protocol.Socket.{Recv, arrived, Send, takes}

-- GLib's byte array as a list.
abbrev pub list_array : ByteArray
list_array = record {
  Array = Bytes;
  empty = [];
  append_vals = λ a bs. a ++ bs;
  contents = λ a. a;
  contents-empty = refl;
  contents-append_vals = λ a bs. refl;
}

-- New memory that holds zeros.
abbrev pub zeros : ℕ → Bytes
zeros n = replicate n 0

pub zeros_sized : (n : ℕ) → length (zeros n) ≡ n
zeros_sized n = length-replicate n 0

abbrev pub hello : NewTermMessage
hello = record {
  argc = 2;
  argv = codes "runesc" ∷ codes "x" ∷ [];
  envp = codes "A=b" ∷ [];
  cwd = codes "/tmp";
}

abbrev pub hello_bytes : Bytes
hello_bytes =
    0
    ∷ 0
    ∷ 0
    ∷ 1
    ∷ 0
    ∷ 0
    ∷ 0
    ∷ 2
    ∷ 0
    ∷ 0
    ∷ 0
    ∷ 2
    ∷ 0
    ∷ 0
    ∷ 0
    ∷ 6
    ∷ (codes "runesc"
        ++ (0
            ∷ 0
            ∷ 0
            ∷ 1
            ∷ b'x'
            ∷ 0
            ∷ 0
            ∷ 0
            ∷ 1
            ∷ 0
            ∷ 0
            ∷ 0
            ∷ 3
            ∷ (codes "A=b" ++ (0 ∷ 0 ∷ 0 ∷ 4 ∷ codes "/tmp"))))

-- The bytes one by one, as the worst network delivers them.
abbrev pub one_by_one : Bytes → List Recv
one_by_one [] = []
one_by_one (b ∷ bs) = arrived b [] ∷ one_by_one bs

-- A socket that takes at most three bytes at a time, this often.
abbrev pub slow : ℕ → List Send
slow n = replicate n (takes 2)

-- A pattern that is its three parts.
abbrev pub parts : Cairo
parts = record { Pattern = Ratio × Ratio × Ratio; create_rgb = λ r g b. (r, g, b) }
