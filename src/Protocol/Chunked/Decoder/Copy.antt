-- ===== src/Protocol/Chunked/Decoder/Copy.antt =====
-- What one read gives.
use libnhttp.Base.{
  ℕ, suc, ◌-◌, ◌^◌, ◌≤◌, ◌<◌, ◌≡◌, refl, sym, ap, ◌∙◌, [], ◌∷◌, ◌++◌, arith, Bytes, leb,
  take-append_left, drop-append_left, ◌==◌, Bool, true, false, inl, inr, Option, some, length,
  length-take, length-drop, take, drop, take-append-drop, if◌then◌else◌, min, codes,
}
use mathlib.Core.Path.{subst}
use libnhttp.Protocol.Chunked.{format_chunk_header}
use libnhttp.Protocol.Chunked.Decoder.{
  Decoder, fill_until, readable, available, begin_next_chunk, end_chunk, copy_bytes, copy_filled,
  copy_begun, read_loop,
}
use libnhttp.Protocol.Chunked.Decoder.Feed.{fill_until_lem}
use libnhttp.Protocol.Chunked.Decoder.Steps.{AtHeader, InChunk, Standing, begin-header, begin-last}

-- A read of at most `n` bytes of the chunk's `data`.
pub record Copied (n : ℕ) (data_left rest : Bytes) (o : Option (Bytes × Decoder)) : Type 0 where
  pub bytes : Bytes
  pub left : Bytes
  pub after : Decoder
  pub made : o ≡ some (bytes, after)
  pub parts : data_left ≡ bytes ++ left
  pub some_bytes : 0 < length bytes
  pub fits : length bytes ≤ n
  pub next : Standing after left rest

-- The bytes behind the buffer.
abbrev behind : Decoder → Bytes
behind d = if d.eof_source then [] else readable d.incoming

-- The end of a chunk is taken off.
end_chunk-AtHeader :
    (d : Decoder) (rest : Bytes)
    → d.finished ≡ false
    → d.remaining_in_chunk ≡ 0
    → available d ≡ 13 ∷ 10 ∷ rest
    → AtHeader (end_chunk d) rest
unfolding end_chunk
end_chunk-AtHeader d rest running over e =
    let f = fill_until_lem 2 d in
    let filled = fill_until 2 d in
    let whole : available filled ≡ 13 ∷ 10 ∷ rest = f.same ∙ e in
    let two : 2 ≤ length filled.buffer = elim f.enough [
      | inl k ↦ k
      | inr all ↦ omega (arith, ap length all, ap length whole)
    ] in
    let done : (d.remaining_in_chunk == 0) ≡ true = ground arith in
    let enough : leb 2 (length filled.buffer) ≡ true = ground arith in
    rw (done, enough)
      (record {
        running = f.alike.finished ∙ running;
        need = refl;
        to_come = sym (drop-append_left 2 filled.buffer (behind filled) two) ∙ ap (drop 2) whole;
      })

end_chunk-InChunk : (d : Decoder) → 0 < d.remaining_in_chunk → end_chunk d ≡ d
unfolding end_chunk
end_chunk-InChunk d h = let more : (d.remaining_in_chunk == 0) ≡ false = ground arith in rw more

end_chunk-Standing :
    (d : Decoder) (left rest : Bytes)
    → d.finished ≡ false
    → d.need_new_chunk ≡ false
    → d.remaining_in_chunk ≡ length left
    → available d ≡ left ++ 13 ∷ 10 ∷ rest
    → Standing (end_chunk d) left rest
end_chunk-Standing d [] rest running need count e =
    end_chunk-AtHeader d rest running (omega arith) e
end_chunk-Standing d (b ∷ bs) rest running need count e =
    subst (λ x. InChunk x b bs rest) (sym (end_chunk-InChunk d (omega arith)))
      (record { running = running; need = need; remaining = count; to_come = e })

-- The copy of `k` bytes that are in the buffer and in the chunk.
copy_bytes-Copied :
    (again : Decoder → Option (Bytes × Decoder)) (n k : ℕ) (d : Decoder) (b : ℕ) (bs rest : Bytes)
    → InChunk d b bs rest
    → 0 < k
    → k ≤ n
    → k ≤ length (b ∷ bs)
    → k ≤ length d.buffer
    → Copied n (b ∷ bs) rest (copy_bytes again k d)
unfolding copy_bytes
copy_bytes-Copied again n k d b bs rest at some_k small in_chunk in_buffer =
    let positive : (k == 0) ≡ false = ground arith in
    let whole : Bytes = b ∷ bs in
    let text : d.buffer ++ behind d ≡ whole ++ 13 ∷ 10 ∷ rest = at.to_come in
    let taken : take k d.buffer ≡ take k whole =
      sym (take-append_left k d.buffer (behind d) in_buffer)
      ∙ ap (take k) text
      ∙ take-append_left k whole (13 ∷ 10 ∷ rest) in_chunk in
    let left_over : drop k d.buffer ++ behind d ≡ drop k whole ++ 13 ∷ 10 ∷ rest =
      sym (drop-append_left k d.buffer (behind d) in_buffer)
      ∙ ap (drop k) text
      ∙ drop-append_left k whole (13 ∷ 10 ∷ rest) in_chunk in
    let after : Decoder =
      end_chunk
        (record d { buffer = drop k d.buffer; remaining_in_chunk = d.remaining_in_chunk - k }) in
    rw positive (record {
      bytes = take k whole;
      left = drop k whole;
      after = after;
      made = ap (λ (x : Bytes). some (x, after)) taken;
      parts = sym (take-append-drop k whole);
      some_bytes = omega (arith, length-take k whole);
      fits = omega (arith, length-take k whole);
      next =
          end_chunk-Standing
            (record d { buffer = drop k d.buffer; remaining_in_chunk = d.remaining_in_chunk - k })
            (drop k whole) rest at.running at.need
            (omega (arith, at.remaining, length-drop k whole)) left_over;
    })

copy_filled-Copied :
    (again : Decoder → Option (Bytes × Decoder)) (n : ℕ) (d : Decoder) (b : ℕ) (bs rest : Bytes)
    → InChunk d b bs rest
    → 0 < n
    → 1 ≤ length d.buffer
    → Copied n (b ∷ bs) rest (copy_filled again n d)
unfolding copy_filled
copy_filled-Copied again n d b bs rest at h full =
    let there : (length d.buffer == 0) ≡ false = ground arith in
    rw there (
      copy_bytes-Copied again n (min (min n d.remaining_in_chunk) (length d.buffer)) d b bs rest at
        (omega (arith, at.remaining)) (omega arith) (omega (arith, at.remaining)) (omega arith))

copy_begun-Copied :
    (again : Decoder → Option (Bytes × Decoder)) (n : ℕ) (d : Decoder) (b : ℕ) (bs rest : Bytes)
    → InChunk d b bs rest
    → 0 < n
    → Copied n (b ∷ bs) rest (copy_begun again n (true, d))
unfolding copy_begun
copy_begun-Copied again n d b bs rest at h =
    let f = fill_until_lem 1 d in
    let filled = fill_until 1 d in
    let whole : available filled ≡ (b ∷ bs) ++ 13 ∷ 10 ∷ rest = f.same ∙ at.to_come in
    copy_filled-Copied again n filled b bs rest
      (record {
        running = f.alike.finished ∙ at.running;
        need = f.alike.need ∙ at.need;
        remaining = f.alike.remaining ∙ at.remaining;
        to_come = whole;
      })
      h (elim f.enough [ inl k ↦ k | inr all ↦ omega (arith, ap length all, ap length whole) ])

read_running :
    (fuel n : ℕ) (d : Decoder) (need : Bool)
    → d.finished ≡ false
    → d.need_new_chunk ≡ need
    → read_loop (suc fuel) n d
      ≡ copy_begun (read_loop fuel n) n (if need then begin_next_chunk d else (true, d))
unfolding read_loop
read_running fuel n d need running e = rw (running, e)

-- In a chunk.
pub read-InChunk :
    (fuel n : ℕ) (d : Decoder) (b : ℕ) (bs rest : Bytes)
    → InChunk d b bs rest
    → 0 < n
    → Copied n (b ∷ bs) rest (read_loop (suc fuel) n d)
read-InChunk fuel n d b bs rest at h =
    subst (Copied n (b ∷ bs) rest) (sym (read_running fuel n d false at.running at.need))
      (copy_begun-Copied (read_loop fuel n) n d b bs rest at h)

pair_on : (r : Bool × Decoder) (on : Bool) → r.0 ≡ on → r ≡ (on, r.1)
pair_on r on e = ap (λ (x : Bool). (x, r.1)) e

-- Before a chunk.
pub read-AtHeader :
    (fuel n : ℕ) (d : Decoder) (b : ℕ) (bs rest : Bytes)
    → length (b ∷ bs) < 2 ^ 64
    → AtHeader d (format_chunk_header (length (b ∷ bs)) ++ ((b ∷ bs) ++ 13 ∷ 10 ∷ rest))
    → 0 < n
    → Copied n (b ∷ bs) rest (read_loop (suc fuel) n d)
read-AtHeader fuel n d b bs rest fits at h =
    let begun =
      begin-header d (length (b ∷ bs)) ((b ∷ bs) ++ 13 ∷ 10 ∷ rest) (omega arith) fits at in
    let r = begin_next_chunk d in
    subst (Copied n (b ∷ bs) rest)
      (sym (
        read_running fuel n d true at.running at.need
        ∙ ap (copy_begun (read_loop fuel n) n) (pair_on r true begun.on)))
      (copy_begun-Copied (read_loop fuel n) n r.1 b bs rest
        (record {
          running = begun.running;
          need = begun.need;
          remaining = begun.remaining;
          to_come = begun.to_come;
        })
        h)

-- Before the last chunk: the end of the stream, and what follows the body is left.
pub record Finished (rest : Bytes) (o : Option (Bytes × Decoder)) : Type 0 where
  pub after : Decoder
  pub made : o ≡ some ([], after)
  pub done : after.finished ≡ true
  pub to_come : available after ≡ rest

pub read-last :
    (fuel n : ℕ) (d : Decoder) (rest : Bytes)
    → AtHeader d (codes "0\r\n\r\n" ++ rest)
    → Finished rest (read_loop (suc fuel) n d)
unfolding copy_begun
read-last fuel n d rest at =
    let over = begin-last d rest at in
    let r = begin_next_chunk d in
    record {
      after = r.1;
      made =
          read_running fuel n d true at.running at.need
          ∙ ap (copy_begun (read_loop fuel n) n) (pair_on r false over.off);
      done = over.done;
      to_come = over.to_come;
    }
