-- ===== src/Io/Memory/Laws.antt =====
-- `memory_stream` is a seekable stream, and reads back what is written to it.
use libnhttp.Base.{
  drop-past, ℕ, zero, suc, ◌+◌, ◌-◌, ◌^◌, ◌≤◌, ◌<◌, ◌≡◌, ◌≢◌, ◌⊎◌, refl, sym, ap, ◌++◌, arith, u64,
  Bytes, ltb, take-append_left, ◌||◌, Bool-cases, inl, inr, length, length-append, length-take,
  length-drop, take, drop, if◌then◌else◌, dec_le, min,
}
use libnhttp.Base.Int.{ℤ, pos, negsuc, pos_part, ltb_ℤ}
use libnhttp.Io.Stream.{SeekOrigin, IsSeekable}
use libnhttp.Io.Memory.{
  Memory, get_length, seek, seek_target, read, zeros, resize, write, memory_stream,
}

-- The position lies in the bytes, whose number fits an int64_t.
pub record IsValid (m : Memory) : Type 0 where
  pub inside : m.position ≤ length m.bytes
  pub fits : length m.bytes < 2 ^ 63

whole_remaining :
    (m : Memory)
    → IsValid m
    → u64 (length m.bytes + 2 ^ 64 - m.position) ≡ length m.bytes - m.position
whole_remaining m v = omega (arith, v.inside, v.fits)

-- Reading takes the next bytes, all that are asked for or all that are left.
pub read_lem :
    (n : ℕ) (m : Memory)
    → IsValid m
    → read n m ≡ (
      take (min n (length m.bytes - m.position)) (drop m.position m.bytes),
      record m { position = m.position + min n (length m.bytes - m.position) },
    )
unfolding read
read_lem n m v =
    rw (whole_remaining m v) (elim (Bool-cases (ltb 0 (min n (length m.bytes - m.position)))) [
      | inl some_left ↦ rw some_left
      | inr none_left ↦
          let nothing : min n (length m.bytes - m.position) ≡ 0 = ground arith in
          let stays : m.position + 0 ≡ m.position = omega arith in rw (none_left, nothing, stays)
    ])

pub seek_begin_lem :
    (k : ℕ) (m : Memory)
    → k ≤ length m.bytes
    → seek (pos k) SeekOrigin.begin m ≡ (pos k, record m { position = k })
unfolding seek seek_target
seek_begin_lem k m h = ground arith

pub get_length_whole : (m : Memory) → get_length m ≡ pos (length m.bytes)
unfolding get_length
get_length_whole m = refl

length-chunk :
    (n : ℕ) (m : Memory)
    → length (take (min n (length m.bytes - m.position)) (drop m.position m.bytes))
      ≡ min n (length m.bytes - m.position)
length-chunk n m = omega (
  arith,
  length-take (min n (length m.bytes - m.position)) (drop m.position m.bytes),
  length-drop m.position m.bytes,
)

-- What the interface asks of a read.
pub read_next_lem :
    (n : ℕ) (m : Memory)
    → IsValid m
    → IsValid (read n m).1
      × ((read n m).1.bytes ≡ m.bytes)
      × ((read n m).0 ≡ take (length (read n m).0) (drop m.position m.bytes))
      × ((read n m).1.position ≡ m.position + length (read n m).0)
      × ((read n m).1.position ≤ length m.bytes)
      × (length (read n m).0 ≤ n)
read_next_lem n m v =
    let size = length-chunk n m in
    let rest : Bytes = drop m.position m.bytes in
    rw (read_lem n m v) (
      record { inside = omega (arith, v.inside); fits = v.fits },
      refl,
      ap (λ (k : ℕ). take k rest) (sym size),
      ap (λ (k : ℕ). m.position + k) (sym size),
      omega (arith, v.inside),
      omega (arith, size),
    )

pub read_some_lem :
    (n : ℕ) (m : Memory) → IsValid m → 0 < n → m.position < length m.bytes → 0 < length (read n m).0
read_some_lem n m v asked left = rw (read_lem n m v) (omega (arith, length-chunk n m))

abbrev pub memory_stream-IsSeekable : IsSeekable memory_stream
memory_stream-IsSeekable = record {
  Good = IsValid;
  content = λ m. m.bytes;
  position = λ m. m.position;
  get_length_lem = λ m v. get_length_whole m;
  seek_begin = λ k m v h. (
    record m { position = k },
    seek_begin_lem k m h,
    record { inside = h; fits = v.fits },
    refl,
    refl,
  );
  read_next = read_next_lem;
  read_some = read_some_lem;
}

abbrev moved : ℤ → Memory → ℤ × Memory
moved t m =
    if ltb_ℤ t (pos 0) || ltb_ℤ (pos (length m.bytes)) t
    then (negsuc 0, m)
    else (t, record m { position = pos_part t })

moved_cases :
    (t : ℤ) (m : Memory)
    → ((k : ℕ) × (t ≡ pos k)
        × (k ≤ length m.bytes)
        × (moved t m ≡ (pos k, record m { position = k })))
      ⊎ ((moved t m ≡ (negsuc 0, m)) × ((k : ℕ) → k ≤ length m.bytes → t ≢ pos k))
moved_cases (negsuc n) m = inr (ground arith, λ k h e. cc)
moved_cases (pos n) m = elim (dec_le n (length m.bytes)) [
  | yes low ↦ inl (n, refl, low, ground arith)
  | no high ↦ inr (ground arith, λ k h e. absurd (ground arith))
]

-- A seek to a place from 0 to the number of bytes, whatever it is counted from, moves there; any
-- other changes nothing and is answered by -1.
pub seek_cases :
    (offset : ℤ) (origin : SeekOrigin) (m : Memory)
    → ((k : ℕ) × (seek_target offset origin m ≡ pos k)
        × (k ≤ length m.bytes)
        × (seek offset origin m ≡ (pos k, record m { position = k })))
      ⊎ ((seek offset origin m ≡ (negsuc 0, m))
          × ((k : ℕ) → k ≤ length m.bytes → seek_target offset origin m ≢ pos k))
unfolding seek
seek_cases offset origin m = moved_cases (seek_target offset origin m) m

length-zeros : (n : ℕ) → length (zeros n) ≡ n
unfolding zeros
length-zeros zero = refl
length-zeros (suc n) = ap suc (length-zeros n)

-- What is written at a valid position is there afterwards, the bytes before it stay, and so do
-- those behind it; the stream grows as far as it has to.
pub write_lem :
    (source : Bytes) (m : Memory)
    → IsValid m
    → write source m ≡ (
      length source,
      record {
        bytes = take m.position m.bytes ++ (source ++ drop (m.position + length source) m.bytes);
        position = m.position + length source;
      },
    )
unfolding write resize
write_lem source m v = elim (Bool-cases (ltb (length m.bytes) (m.position + length source))) [
  | inl longer ↦
      let more : ℕ = m.position + length source - length m.bytes in
      let before = take-append_left m.position m.bytes (zeros more) v.inside in
      let past = drop-past (m.position + length source) m.bytes (ground arith) in
      let past' =
        drop-past (m.position + length source) (m.bytes ++ zeros more)
          (ground (arith, length-append m.bytes (zeros more), length-zeros more)) in
      rw (longer, before, past, past')
  | inr enough ↦ rw enough
]
