-- ===== src/Server/Http1/Body/Written.antt =====
-- What `write_message_body` writes, and that a chunked decoder reads it back.
use libnhttp.Base.{
  ℕ, zero, suc, ◌<◌, ◌≡◌, refl, sym, ap, ◌∙◌, List, [], ◌∷◌, ◌++◌, arith, append_assoc, append-nil,
  Bytes, All, ◌==◌, true, false, Option, some, length, length-drop, take, drop, take-append-drop,
  dec_lt, codes,
}
use libnhttp.Base.Int.{negsuc}
use libnhttp.Io.ReadAll.{read_all}
use libnhttp.Protocol.Chunked.{format_chunk_header}
use libnhttp.Protocol.Chunked.Decoder.{chunked_decoder, readable, read}
use libnhttp.Protocol.Chunked.Decoder.RoundTrip.{
  encoded, joined, IsChunk, Decoded, read_all-encoded,
}
use libnhttp.Server.Http1.Body.{write_all, chunk_round, write_chunks, write_message_body}

-- A wire whose writes take some of what they are given, and put it behind what it has.
pub record IsWire {W : Type 0} (write : Bytes → W → ℕ × W) (sent : W → Bytes) : Type 0 where
  pub some_taken : (bs : Bytes) (w : W) → 0 < length bs → 0 < (write bs w).0
  pub appended : (bs : Bytes) (w : W) → sent (write bs w).1 ≡ sent w ++ take (write bs w).0 bs

module _ {W : Type 0} (write : Bytes → W → ℕ × W) (sent : W → Bytes)
    (laws : IsWire write sent) where
  write_all-empty :
      (fuel : ℕ) (bs : Bytes) (w : W) → length bs ≡ 0 → write_all write (suc fuel) bs w ≡ some w
  unfolding write_all
  write_all-empty fuel bs w h =
      let none_left : (length bs == 0) ≡ true = ground arith in rw none_left

  write_all-more :
      (fuel : ℕ) (bs : Bytes) (w : W)
      → 0 < length bs
      → write_all write (suc fuel) bs w
        ≡ write_all write fuel (drop (write bs w).0 bs) (write bs w).1
  unfolding write_all
  write_all-more fuel bs w h =
      let some_left : (length bs == 0) ≡ false = ground arith in rw some_left

  -- Partial writes are repeated until all the bytes are written, once and in order, with one round more
  -- than bytes, on a wire whose writes take a byte at least.
  pub write_all_lem :
      (fuel : ℕ) (bs : Bytes) (w : W)
      → length bs < fuel
      → (w' : W) × (write_all write fuel bs w ≡ some w') × (sent w' ≡ sent w ++ bs)
  write_all_lem zero bs w h = absurd (omega arith)
  write_all_lem (suc fuel) bs w h = elim (dec_lt 0 (length bs)) [
    | no empty ↦ (
      w,
      write_all-empty fuel bs w (omega arith),
      sym (append-nil (sent w)) ∙ ap (λ (x : Bytes). sent w ++ x) (nil_of bs (omega arith)),
    )
    | yes more ↦
        let k : ℕ = (write bs w).0 in
        let (w', done, all) =
          write_all_lem fuel (drop k bs) (write bs w).1
            (omega (arith, length-drop k bs, laws.some_taken bs w more)) in
        (
          w',
          write_all-more fuel bs w more ∙ done,
          all
              ∙ ap (λ (x : Bytes). x ++ drop k bs) (laws.appended bs w)
              ∙ append_assoc (sent w) (take k bs) (drop k bs)
              ∙ ap (λ (x : Bytes). sent w ++ x) (take-append-drop k bs),
        )
  ]
    where
      nil_of : (xs : Bytes) → length xs ≡ 0 → [] ≡ xs
      nil_of [] h = refl
      nil_of (x ∷ xs) h = absurd (omega arith)

-- A body whose reads give `chunks`, and then its end.
abbrev pub Gives : {S : Type 0} → (ℕ → S → Bytes × S) → S → List Bytes → Type 0
Gives read s [] = (read 4096 s).0 ≡ []
Gives read s (c ∷ cs) = ((read 4096 s).0 ≡ c) × Gives read (read 4096 s).1 cs

module _ {S : Type 0} (read_body : ℕ → S → Bytes × S) where
  chunk_round-end :
      (again : S → Bytes → Option (Bytes × S)) (out : Bytes) (r : Bytes × S)
      → r.0 ≡ []
      → chunk_round read_body again out r ≡ some (out ++ codes "0\r\n\r\n", r.1)
  unfolding chunk_round
  chunk_round-end again out r e = ap (λ (bs : Bytes). chunk_round read_body again out (bs, r.1)) e

  chunk_round-more :
      (again : S → Bytes → Option (Bytes × S)) (out c : Bytes) (r : Bytes × S)
      → r.0 ≡ c
      → 0 < length c
      → chunk_round read_body again out r
        ≡ again r.1 (out ++ format_chunk_header (length c) ++ c ++ codes "\r\n")
  unfolding chunk_round
  chunk_round-more again out [] r e h = absurd (omega arith)
  chunk_round-more again out (b ∷ bs) r e h =
      ap (λ (x : Bytes). chunk_round read_body again out (x, r.1)) e

  chunk_text :
      (out h c rest : Bytes)
      → (out ++ h ++ c ++ codes "\r\n") ++ rest ≡ out ++ (h ++ (c ++ 13 ∷ 10 ∷ rest))
  chunk_text out h c rest =
      append_assoc ((out ++ h) ++ c) (codes "\r\n") rest
      ∙ append_assoc (out ++ h) c (13 ∷ 10 ∷ rest)
      ∙ append_assoc out h (c ++ 13 ∷ 10 ∷ rest)

  pub write_chunks_lem :
      (fuel : ℕ) (s : S) (chunks : List Bytes) (out : Bytes)
      → Gives read_body s chunks
      → All IsChunk chunks
      → length chunks < fuel
      → (s' : S) × (write_chunks read_body fuel s out ≡ some (out ++ encoded chunks [], s'))
  unfolding write_chunks
  write_chunks_lem zero s chunks out g v h = absurd (omega arith)
  write_chunks_lem (suc fuel) s [] out g v h =
      ((read_body 4096 s).1, chunk_round-end (write_chunks read_body fuel) out (read_body 4096 s) g)
  write_chunks_lem (suc fuel) s (c ∷ cs) out g v h =
      let next : Bytes = out ++ format_chunk_header (length c) ++ c ++ codes "\r\n" in
      let (s', done) = write_chunks_lem fuel (read_body 4096 s).1 cs next g.1 v.1 (omega arith) in
      (
        s',
        chunk_round-more (write_chunks read_body fuel) out c (read_body 4096 s) g.0 v.0.0
            ∙ done
            ∙ ap (λ (bs : Bytes). some (bs, s'))
                (chunk_text out (format_chunk_header (length c)) c (encoded cs [])),
      )

  pub encoded-rest :
      (chunks : List Bytes) (rest : Bytes) → encoded chunks [] ++ rest ≡ encoded chunks rest
  encoded-rest [] rest = refl
  encoded-rest (c ∷ cs) rest =
      append_assoc (format_chunk_header (length c)) (c ++ 13 ∷ 10 ∷ encoded cs []) rest
      ∙ ap (λ (bs : Bytes). format_chunk_header (length c) ++ bs)
          (append_assoc c (13 ∷ 10 ∷ encoded cs []) rest
            ∙ ap (λ (bs : Bytes). c ++ 13 ∷ 10 ∷ bs) (encoded-rest cs rest))

  -- A body of unknown length is written in chunks, and a decoder whose source gives what was written,
  -- spread over its reads in any way, and then `rest`, reads the body back, byte by byte, and leaves `rest`. The
  -- body's reads give some bytes, fewer than 2 ^ 64, until its end.
  pub read_all-write_message_body :
      (sendfile : ℕ → S → Option (Bytes × S)) (s : S) (chunks : List Bytes) (n writes reads : ℕ)
      (source : List Bytes) (rest : Bytes)
      → Gives read_body s chunks
      → All IsChunk chunks
      → length chunks < writes
      → length (joined chunks) < reads
      → (out : Bytes) × (s' : S) × (write_message_body read_body sendfile writes s (negsuc n) []
          ≡ some (out, s'))
        × (readable source ≡ out ++ rest
            → Decoded (joined chunks) rest (read_all read reads (chunked_decoder source) []))
  unfolding write_message_body
  read_all-write_message_body sendfile s chunks n writes reads source rest g v h k =
      let (s', done) = write_chunks_lem writes s chunks [] g v h in
      (
        encoded chunks [],
        s',
        done,
        λ e. read_all-encoded source chunks rest reads (e ∙ encoded-rest chunks rest) v k,
      )
