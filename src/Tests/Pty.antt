-- ===== src/Tests/Pty.antt =====
-- src/pty-unix.c at concrete inputs.
use runes.Shared.{ℕ, ◌-◌, ◌≤◌, ◌≡◌, ◌⊎◌, refl, [], ◌∷◌, ◌++◌, arith, length, replicate, take, min}
use runes.Shared.Text.{Bytes, codes}
use runes.Pty.{
  Parser, Pty, goes_on, closes, Kept, read_buffer_length, input_cb, input_cb-Kept, input_cbs,
  input_cbs-stream,
}

-- A screen that counts, and takes all bytes but the last.
abbrev all_but_last : Parser
all_but_last = record {
  Screen = ℕ;
  process_string = λ n bytes. (n, length bytes - 1);
  processed-within = λ n bytes. omega arith;
}

abbrev start : Pty all_but_last
start = record { scr = 0; remaining = codes "a"; unread = codes "bcdef" }

abbrev full : Pty all_but_last
full = record { scr = 0; remaining = replicate read_buffer_length 27; unread = codes "x" }

abbrev end : Pty all_but_last
end = record { scr = 0; remaining = codes "d"; unread = codes "ef" }

two_reads : input_cbs all_but_last (2 ∷ 1 ∷ []) start [] ≡ goes_on end (codes "abc")
unfolding input_cbs input_cb
two_reads = refl

input_cbs-stream_example :
    (codes "abc" ++ (end.remaining ++ end.unread) ≡ [] ++ (start.remaining ++ start.unread))
    × (length end.remaining ≤ read_buffer_length)
input_cbs-stream_example =
    input_cbs-stream all_but_last (2 ∷ 1 ∷ []) start end [] (codes "abc") (omega arith) two_reads

input_cb-Kept_example :
    ((after : Pty all_but_last) × (taken : Bytes) × (input_cb all_but_last 2 start
        ≡ goes_on after taken)
      × Kept all_but_last start taken after)
    ⊎ ((input_cb all_but_last 2 start ≡ closes)
        × (take (min 2 (read_buffer_length - length start.remaining)) start.unread ≡ []))
input_cb-Kept_example = input_cb-Kept all_but_last 2 start (omega arith)
