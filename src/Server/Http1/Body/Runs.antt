-- ===== src/Server/Http1/Body/Runs.antt =====
-- Concrete runs of the writers, and their theorems at a body in memory.
use libnhttp.Base.{
  Option, none, ℕ, ◌≡◌, refl, [], ◌∷◌, ◌++◌, arith, Bytes, Bool, true, false, some, length, take,
  if◌then◌else◌, min, codes,
}
use libnhttp.Base.Int.{pos, negsuc}
use libnhttp.Io.ReadAll.{read_all}
use libnhttp.Io.Memory.{Memory, read, memory_stream}
use libnhttp.Io.Memory.Laws.{IsValid, memory_stream-IsSeekable}
use libnhttp.Protocol.Chunked.{hex_loop, reverse, format_chunk_header}
use libnhttp.Protocol.Chunked.Decoder as Decoder
use libnhttp.Server.Http1.Body.{write_all, chunk_round, write_chunks, write_message_body}
use libnhttp.Server.Http1.Body.Plain.{left, write_message_body-plain}
use libnhttp.Server.Http1.Body.Written.{IsWire, write_all_lem, read_all-write_message_body}
use libnhttp.Protocol.Chunked.Decoder.RoundTrip.{joined, Decoded}

abbrev stored : Memory
stored = record { bytes = codes "abc"; position = 0 }

stored-IsValid : IsValid stored
stored-IsValid = record { inside = omega arith; fits = omega arith }

abbrev no_sendfile : {S : Type 0} → ℕ → S → Option (Bytes × S)
no_sendfile n s = none

-- A body whose only read gives three bytes.
abbrev once : ℕ → Bool → Bytes × Bool
once n b = (if b then codes "abc" else [], false)

-- A wire that takes two bytes at most.
abbrev two_bytes : Bytes → Bytes → ℕ × Bytes
two_bytes bs w = (min 2 (length bs), w ++ take (min 2 (length bs)) bs)

two_bytes-IsWire : IsWire two_bytes (λ w. w)
two_bytes-IsWire = record { some_taken = λ bs w h. omega arith; appended = λ bs w. refl }

write_all_run : write_all two_bytes 4 (codes "abc") (codes "x") ≡ some (codes "xabc")
unfolding write_all
write_all_run = refl

chunked_run :
    write_message_body once no_sendfile 3 true (negsuc 0) []
    ≡ some (codes "3\r\nabc\r\n0\r\n\r\n", false)
unfolding write_message_body write_chunks chunk_round format_chunk_header hex_loop reverse
chunked_run = refl

write_all_lem_example :
    (w' : Bytes) × (write_all two_bytes 4 (codes "abc") (codes "x") ≡ some w')
    × (w' ≡ codes "x" ++ codes "abc")
write_all_lem_example =
    write_all_lem two_bytes (λ w. w) two_bytes-IsWire 4 (codes "abc") (codes "x") (omega arith)

read_all-write_message_body_example :
    (out : Bytes) × (s' : Bool) × (write_message_body once no_sendfile 2 true (negsuc 0) []
      ≡ some (out, s'))
    × (Decoder.readable (codes "3\r\nab" ∷ codes "c\r\n0\r\n\r\nnext" ∷ []) ≡ out ++ codes "next"
        → Decoded (joined (codes "abc" ∷ [])) (codes "next") (
            read_all Decoder.read 4
              (Decoder.chunked_decoder (codes "3\r\nab" ∷ codes "c\r\n0\r\n\r\nnext" ∷ []))
              []))
read_all-write_message_body_example =
    read_all-write_message_body once no_sendfile true (codes "abc" ∷ []) 0 2 4
      (codes "3\r\nab" ∷ codes "c\r\n0\r\n\r\nnext" ∷ []) (codes "next") (refl, refl)
      ((omega arith, omega arith), tt) (omega arith) (omega arith)

write_message_body-plain_example :
    (s' : Memory) × (write_message_body read no_sendfile 3 stored (pos 2) []
      ≡ some ([] ++ take 2 (left memory_stream memory_stream-IsSeekable stored), s'))
write_message_body-plain_example =
    write_message_body-plain memory_stream memory_stream-IsSeekable no_sendfile 3 2 stored []
      stored-IsValid refl (omega arith)
