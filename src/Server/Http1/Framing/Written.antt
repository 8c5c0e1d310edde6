-- ===== src/Server/Http1/Framing/Written.antt =====
-- What `write_response` of src/server/connection.cpp writes, and what a receiver that goes by its headers reads.
use libnhttp.Base.{
  ℕ, ◌≤◌, ◌<◌, ◌^◌, ◌≡◌, List, [], ◌++◌, Bytes, All, Bool, Option, some, none, length, take,
}
use libnhttp.Base.Int.{pos, negsuc}
use libnhttp.Io.Stream.{Stream, IsSeekable}
use libnhttp.Io.ReadAll.{read_all}
use libnhttp.Protocol.Chunked.Decoder as Decoder
use libnhttp.Protocol.Chunked.Decoder.RoundTrip.{joined, IsChunk, Decoded}
use libnhttp.Server.Response.{Response}
use libnhttp.Server.Http1.Body.Plain.{left}
use libnhttp.Server.Http1.Body.Written.{Gives}
use libnhttp.Server.Http1.Framing.{
  Framing, chunked, sized, absent, malformed, overflow, make_body_stream, response_headers,
  head_text, write_response,
}

-- That a receiver with a framing reads `content` from what is written: by a decoder whose source gives it, spread over
-- its reads in any way, and then any rest, or as so many bytes.
abbrev pub ReadsAs : Framing → Bytes → Bytes → Type 0
ReadsAs chunked content written =
    (source : List Bytes) (rest : Bytes) (reads : ℕ)
    → Decoder.readable source ≡ written ++ rest
    → length content < reads
    → Decoded content rest (read_all Decoder.read reads (Decoder.chunked_decoder source) [])
ReadsAs (sized n) content written = (written ≡ content) × (length content ≡ n)
ReadsAs absent content written = ⊥
ReadsAs malformed content written = ⊥
ReadsAs overflow content written = ⊥

module _ {S : Type 0} (i : Stream S) (laws : IsSeekable i) (sendfile : ℕ → S → Option (Bytes × S))
    (fuel : ℕ) where
  open laws use {Good}

  -- The content of a response: what the reads of a body of unknown length give, the next bytes of one of known
  -- length, which has so many and is not sent by `sendfile`, or nothing without a body.
  pub data Carries (r : Response S) : Bytes → Type 0 where
    unknown :
        (s : S) (n : ℕ) (chunks : List Bytes)
        → r.body ≡ some s
        → r.content_length ≡ negsuc n
        → Gives i.read s chunks
        → All IsChunk chunks
        → length chunks < fuel
        → Carries r (joined chunks)
    known :
        (s : S) (n : ℕ)
        → r.body ≡ some s
        → r.content_length ≡ pos n
        → n < 2 ^ 63
        → n < fuel
        → Good s
        → sendfile n s ≡ none
        → n ≤ length (left i laws s)
        → Carries r (take n (left i laws s))
    empty : r.body ≡ none → r.content_length ≡ pos 0 → Carries r []

  module _ (server date : Bytes) (keep_alive : Bool) where
    -- A response as it is written: its head, and what the headers of the head say how to read.
    pub record Framed (r : Response S) (content : Bytes) : Type 0 where
      pub written : Bytes
      pub made :
          write_response i.read sendfile fuel server date r keep_alive
          ≡ some (head_text r.status (response_headers server date keep_alive r) ++ written)
      pub reads :
          ReadsAs (make_body_stream (response_headers server date keep_alive r)) content written
