-- ===== src/Protocol/Chunked/Decoder/RoundTrip.antt =====
-- A chunked body is decoded, however it arrives and is read.
use libnhttp.Base.{
  ℕ, zero, suc, ◌+◌, ◌^◌, ◌<◌, ◌≡◌, refl, sym, ap, ◌∙◌, List, [], ◌∷◌, ◌++◌, arith, append_assoc,
  append-nil, Bytes, All, true, Option, some, length, length-append, codes,
}
use mathlib.Core.Path.{subst}
use libnhttp.Io.ReadAll.{read_all_round, read_all}
use libnhttp.Protocol.Chunked.{format_chunk_header}
use libnhttp.Protocol.Chunked.Decoder.{
  Decoder, chunked_decoder, readable, available, read_loop, read,
}
use libnhttp.Protocol.Chunked.Decoder.Steps.{Standing}
use libnhttp.Protocol.Chunked.Decoder.Copy.{
  Copied, Finished, read-InChunk, read-AtHeader, read-last,
}

-- A body in chunks, and what follows it.
abbrev pub encoded : List Bytes → Bytes → Bytes
encoded [] rest = codes "0\r\n\r\n" ++ rest
encoded (c ∷ cs) rest = format_chunk_header (length c) ++ (c ++ 13 ∷ 10 ∷ encoded cs rest)

abbrev pub joined : List Bytes → Bytes
joined [] = []
joined (c ∷ cs) = c ++ joined cs

-- A chunk that is not empty and fits a size_t.
abbrev pub IsChunk : Bytes → Type 0
IsChunk c = (0 < length c) × (length c < 2 ^ 64)

read_suc : (n : ℕ) (d : Decoder) → read n d ≡ read_loop (suc (suc (length (available d)))) n d
unfolding read
read_suc n d =
    ap (λ (k : ℕ). read_loop k n d) {x = length (available d) + 2}
      {y = suc (suc (length (available d)))} (omega arith)

-- All is read: the bytes, and a decoder that is finished before `rest`.
pub record Decoded (bytes rest : Bytes) (o : Option (Bytes × Decoder)) : Type 0 where
  pub after : Decoder
  pub made : o ≡ some (bytes, after)
  pub done : after.finished ≡ true
  pub left : available after ≡ rest

Decoded-of :
    {bytes rest : Bytes} {o p : Option (Bytes × Decoder)}
    → o ≡ p
    → Decoded bytes rest p
    → Decoded bytes rest o
Decoded-of e r = record { after = r.after; made = e ∙ r.made; done = r.done; left = r.left }

round_some :
    (again : Decoder → Bytes → Option (Bytes × Decoder)) (out bytes : Bytes) (d : Decoder)
    → 0 < length bytes
    → read_all_round read again out (some (bytes, d)) ≡ again d (out ++ bytes)
unfolding read_all_round
round_some again out [] d h = absurd (omega arith)
round_some again out (b ∷ bs) d h = refl

-- A round that copies, and the rounds behind it.
step-Copied :
    (fuel : ℕ) (d : Decoder) (data_left out rest : Bytes)
    → Copied 4096 data_left rest (read 4096 d)
    → (c : Copied 4096 data_left rest (read 4096 d)) × (read_all read (suc fuel) d out
        ≡ read_all read fuel c.after (out ++ c.bytes))
unfolding read_all
step-Copied fuel d data_left out rest c = (
  c,
  ap (read_all_round read (read_all read fuel) out) c.made
      ∙ round_some (read_all read fuel) out c.bytes c.after c.some_bytes,
)

step_last :
    (fuel : ℕ) (d : Decoder) (out rest : Bytes)
    → Finished rest (read 4096 d)
    → Decoded out rest (read_all read (suc fuel) d out)
unfolding read_all read_all_round
step_last fuel d out rest f = record {
  after = f.after;
  made = ap (read_all_round read (read_all read fuel) out) f.made;
  done = f.done;
  left = f.to_come;
}

-- The rounds behind a copy, given those of less fuel.
go_on :
    (fuel : ℕ) (d : Decoder) (data_left : Bytes) (chunks : List Bytes) (out rest : Bytes)
    → ((e : Decoder) (left more : Bytes)
        → Standing e left (encoded chunks rest)
        → length left + length (joined chunks) < fuel
        → Decoded (more ++ (left ++ joined chunks)) rest (read_all read fuel e more))
    → Copied 4096 data_left (encoded chunks rest) (read 4096 d)
    → length data_left + length (joined chunks) < suc fuel
    → Decoded (out ++ (data_left ++ joined chunks)) rest (read_all read (suc fuel) d out)
go_on fuel d data_left chunks out rest ih copied h =
    let (c, step) = step-Copied fuel d data_left out (encoded chunks rest) copied in
    let text : (out ++ c.bytes) ++ (c.left ++ joined chunks) ≡ out ++ (data_left ++ joined chunks) =
      append_assoc out c.bytes (c.left ++ joined chunks)
      ∙ ap (λ (bs : Bytes). out ++ bs)
          (sym (append_assoc c.bytes c.left (joined chunks))
            ∙ ap (λ (bs : Bytes). bs ++ joined chunks) (sym c.parts)) in
    subst (λ bs. Decoded bs rest (read_all read (suc fuel) d out)) text
      (Decoded-of step (
        ih c.after c.left (out ++ c.bytes) c.next
          (omega (arith, c.some_bytes, ap length c.parts, length-append c.bytes c.left))))

read_all_lem :
    (fuel : ℕ) (d : Decoder) (left : Bytes) (chunks : List Bytes) (out rest : Bytes)
    → Standing d left (encoded chunks rest)
    → All IsChunk chunks
    → length left + length (joined chunks) < fuel
    → Decoded (out ++ (left ++ joined chunks)) rest (read_all read fuel d out)
read_all_lem zero d left chunks out rest at v h = absurd (omega arith)
read_all_lem (suc fuel) d [] [] out rest at v h =
    subst (λ bs. Decoded bs rest (read_all read (suc fuel) d out)) (sym (append-nil out))
      (step_last fuel d out rest (
        subst (Finished rest) (sym (read_suc 4096 d))
          (read-last (suc (length (available d))) 4096 d rest at)))
read_all_lem (suc fuel) d [] ([] ∷ cs) out rest at v h = absurd (omega (arith, v.0.0))
read_all_lem (suc fuel) d [] ((b ∷ bs) ∷ cs) out rest at v h =
    go_on fuel d (b ∷ bs) cs out rest
      (λ e left more s k. read_all_lem fuel e left cs more rest s v.1 k)
      (subst (Copied 4096 (b ∷ bs) (encoded cs rest)) (sym (read_suc 4096 d)) (
        read-AtHeader (suc (length (available d))) 4096 d b bs (encoded cs rest) v.0.1 at
          (omega arith)))
      (omega (arith, length-append bs (joined cs)))
read_all_lem (suc fuel) d (b ∷ bs) chunks out rest at v h =
    go_on fuel d (b ∷ bs) chunks out rest
      (λ e left more s k. read_all_lem fuel e left chunks more rest s v k)
      (subst (Copied 4096 (b ∷ bs) (encoded chunks rest)) (sym (read_suc 4096 d)) (
        read-InChunk (suc (length (available d))) 4096 d b bs (encoded chunks rest) at
          (omega arith)))
      h

-- `read_all` on the decoder of a source that gives a body in chunks, however its bytes are
-- spread over reads, ends with the chunks joined, with one round more than they have bytes as its
-- fuel; what follows the body is still to be had from the decoder's buffer and its source. No
-- chunk is empty or as long as 2 ^ 64.
pub read_all-encoded :
    (source chunks : List Bytes) (rest : Bytes) (fuel : ℕ)
    → readable source ≡ encoded chunks rest
    → All IsChunk chunks
    → length (joined chunks) < fuel
    → Decoded (joined chunks) rest (read_all read fuel (chunked_decoder source) [])
read_all-encoded source chunks rest fuel e v h =
    read_all_lem fuel (chunked_decoder source) [] chunks [] rest
      (record { running = refl; need = refl; to_come = e }) v (omega arith)
