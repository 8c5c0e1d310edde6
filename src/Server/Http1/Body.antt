-- ===== src/Server/Http1/Body.antt =====
-- `write_all` and `write_message_body` of src/server/http1_io.cpp. The bytes that are written to the wire are an
-- argument that comes back longer. `write_message_body_sendfile` is a parameter: what it sends of the body where the
-- body is a file, the wire a plain socket and the platform has it, else `none`. A result `none`
-- is a loop that ran out of its fuel.
pub mod Written
pub mod Plain
mod Runs
use libnhttp.Base.{
  ltb, ℕ, zero, suc, ◌-◌, [], ◌∷◌, ◌++◌, Bytes, ◌==◌, Option, some, none, length, drop,
  if◌then◌else◌, min, codes,
}
use libnhttp.Base.Int.{ℤ, pos, negsuc}
use libnhttp.Protocol.Chunked.{format_chunk_header}

-- The loop of `write_all`, over a wire that says how many bytes it took.
module _ {W : Type 0} (write : Bytes → W → ℕ × W) where
  pub write_all : ℕ → Bytes → W → Option W
  write_all zero bytes w = none
  write_all (suc fuel) bytes w =
      let taken = write bytes w in
      let rest = write_all fuel (drop taken.0 bytes) taken.1 in
      if length bytes == 0 then some w else rest

module _ {S : Type 0} (read : ℕ → S → Bytes × S) where
  -- A round of the chunked loop, with what was read; the next round is `again`.
  pub chunk_round : (S → Bytes → Option (Bytes × S)) → Bytes → Bytes × S → Option (Bytes × S)
  chunk_round again out ([], s) = some (out ++ codes "0\r\n\r\n", s)
  chunk_round again out (b ∷ bs, s) =
      again s (out ++ format_chunk_header (length (b ∷ bs)) ++ (b ∷ bs) ++ codes "\r\n")

  pub write_chunks : ℕ → S → Bytes → Option (Bytes × S)
  unfolding chunk_round
  write_chunks zero s out = none
  write_chunks (suc fuel) s out = chunk_round (write_chunks fuel) out (read 4096 s)

  pub plain_round :
      (ℕ → S → Bytes → Option (Bytes × S)) → ℕ → Bytes → Bytes × S → Option (Bytes × S)
  plain_round again remaining out ([], s) = some (out, s)
  plain_round again remaining out (b ∷ bs, s) =
      again (remaining - length (b ∷ bs)) s (out ++ b ∷ bs)

  pub write_plain : ℕ → ℕ → S → Bytes → Option (Bytes × S)
  unfolding plain_round
  write_plain zero remaining s out = none
  write_plain (suc fuel) remaining s out =
      let round = plain_round (write_plain fuel) remaining out (read (min remaining 4096) s) in
      if remaining == 0 then some (out, s) else round

  -- A body of known length, by `sendfile` or without.
  unfoldable pub write_known : Option (Bytes × S) → ℕ → ℕ → S → Bytes → Option (Bytes × S)
  unfolding write_plain
  write_known none fuel n s out = write_plain fuel n s out
  write_known (some (sent, s')) fuel n s out = some (out ++ sent, s')

  module _ (sendfile : ℕ → S → Option (Bytes × S)) where
    unfoldable pub write_message_body : ℕ → S → ℤ → Bytes → Option (Bytes × S)
    unfolding write_chunks write_known
    write_message_body fuel s (negsuc n) out = write_chunks fuel s out
    write_message_body fuel s (pos n) out =
        write_known (if ltb 0 n then sendfile n s else none) fuel n s out
