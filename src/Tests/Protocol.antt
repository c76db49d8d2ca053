-- ===== src/Tests/Protocol.antt =====
-- src/protocol.c at concrete inputs.
use runes.Shared.{◌≡◌, refl, some, List, [], ◌∷◌, ◌++◌, arith, length}
use runes.Shared.Text.{Bytes, codes}
use runes.Protocol.Message.{ok, fail, fault, read_past_end, use_after_free}
use runes.Protocol.Store.{
  htonl, store_u32, store_str, store_strs, store_strvec, store_message, create_new_term_message,
}
use runes.Protocol.Load.{
  ntohl, load_u32, copy_out, load_str, load_strs, load_strvec, load_fields, load_message, on_stack,
  parse_new_term_message,
}
use runes.Protocol.RoundTrip.{parse-create}
use runes.Protocol.Faults.{load_str_cases, load_strvec_bad_string}
use runes.Protocol.Socket.{
  eintr, other_errno, Recv, arrived, interrupted, closed, received, never_returns, read_loop,
  read_bytes,
}
use runes.Protocol.Reads.{stream, read_bytes_interrupted, read_bytes-closed}
use runes.Protocol.Transport.{packet_wire}
use runes.Tests.Data.{list_array, zeros, hello, hello_bytes, one_by_one}

create_hello : create_new_term_message list_array hello ≡ some hello_bytes
unfolding create_new_term_message store_message store_strvec store_strs store_str store_u32 htonl
create_hello = refl

parse_hello : parse_new_term_message on_stack hello_bytes (length hello_bytes) ≡ ok hello
unfolding parse_new_term_message load_message load_fields load_strvec load_strs load_str copy_out
    load_u32 ntohl
parse_hello = refl

parse-create_example : parse_new_term_message on_stack hello_bytes (length hello_bytes) ≡ ok hello
parse-create_example =
    parse-create list_array on_stack hello (omega arith) create_hello (omega arith)

-- Eight bytes declared, six there: two past the end are read.
load_str_cases_example : load_str (htonl 8 ++ codes "sixsix") 10 ≡ fault read_past_end
load_str_cases_example = load_str_cases 8 (codes "sixsix") (omega arith)

load_strvec_bad_string_example :
    load_strvec (htonl 1 ++ (htonl 100 ++ codes "ab")) 10 ≡ fault use_after_free
load_strvec_bad_string_example =
    load_strvec_bad_string 0 100 (codes "ab") (omega arith) (omega arith) (omega arith)
      (omega arith)

short_buffer : load_strvec (0 ∷ 0 ∷ []) 2 ≡ fail
unfolding load_strvec load_u32
short_buffer = refl

read_in_pieces :
    read_bytes (arrived 1 (2 ∷ []) ∷ arrived 3 (4 ∷ 5 ∷ []) ∷ []) other_errno 4 (zeros 4)
    ≡ received (1 ∷ 2 ∷ 3 ∷ 4 ∷ []) (arrived 5 [] ∷ []) other_errno
unfolding read_bytes read_loop
read_in_pieces = refl

abbrev pieces : List Recv
pieces = arrived 1 (2 ∷ []) ∷ arrived 3 (4 ∷ 5 ∷ []) ∷ []

read_bytes_interrupted_example :
    read_bytes (interrupted ∷ pieces) other_errno 4 (zeros 4)
    ≡ received (0 ∷ 0 ∷ 0 ∷ 0 ∷ []) pieces eintr
read_bytes_interrupted_example =
    read_bytes_interrupted pieces other_errno 4 (zeros 4) (omega arith) (omega arith)

closed_never_returns : read_bytes (closed ∷ []) eintr 4 (zeros 4) ≡ never_returns
closed_never_returns = read_bytes-closed [] eintr 4 (zeros 4) (omega arith)

abbrev abcd_packet : Bytes
abcd_packet = 0 ∷ 0 ∷ 0 ∷ 4 ∷ 0 ∷ 0 ∷ 0 ∷ 0 ∷ codes "abcd"

abcd_stream : stream (one_by_one abcd_packet) ≡ packet_wire 0 (codes "abcd") ++ []
unfolding htonl
abcd_stream = refl

abbrev huge_header : Bytes
huge_header = 0 ∷ 16 ∷ 0 ∷ 1 ∷ 0 ∷ 0 ∷ 0 ∷ 0 ∷ codes "ab"

huge_stream : stream (one_by_one huge_header) ≡ htonl 1048577 ++ (htonl 0 ++ codes "ab")
unfolding htonl
huge_stream = refl
