-- ===== src/Server/Http1/Body/Plain.antt =====
-- A body of known length.
use libnhttp.Base.{
  none, ltb, Bool, false, if◌then◌else◌, ap₂, drop-drop, ℕ, zero, suc, ◌+◌, ◌-◌, ◌<◌, ◌≡◌, refl,
  sym, ap, ◌∙◌, [], ◌∷◌, ◌++◌, arith, append_assoc, append-nil, Bytes, ◌==◌, true, false, Option,
  some, length, length-drop, take, drop, dec_lt, min,
}
use libnhttp.Base.Int.{pos}
use libnhttp.Io.Stream.{Stream, IsSeekable}
use libnhttp.Server.Http1.Body.{plain_round, write_plain, write_known, write_message_body}

take-past : (n : ℕ) (xs : Bytes) → length xs ≡ 0 → take n xs ≡ []
take-past zero xs h = refl
take-past (suc n) [] h = refl
take-past (suc n) (x ∷ xs) h = absurd (omega arith)

take-split : (a b : ℕ) (xs : Bytes) → take a xs ++ take b (drop a xs) ≡ take (a + b) xs
take-split zero b xs = ap (λ (k : ℕ). take k xs) {x = b} {y = 0 + b} (omega arith)
take-split (suc a) b [] = take-past b [] refl ∙ sym (take-past (suc a + b) [] refl)
take-split (suc a) b (x ∷ xs) =
    ap (◌∷◌ x) (take-split a b xs)
    ∙ ap (λ (k : ℕ). take k (x ∷ xs)) {x = suc (a + b)} {y = suc a + b} (omega arith)

module _ {S : Type 0} (i : Stream S) (laws : IsSeekable i) where
  open laws use {Good, content, position}

  -- What the body still has.
  abbrev pub left : S → Bytes
  left s = drop (position s) (content s)

  plain_round-end :
      (again : ℕ → S → Bytes → Option (Bytes × S)) (n : ℕ) (out : Bytes) (r : Bytes × S)
      → length r.0 ≡ 0
      → plain_round i.read again n out r ≡ some (out, r.1)
  unfolding plain_round
  plain_round-end again n out ([], s) e = refl
  plain_round-end again n out (b ∷ bs, s) e = absurd (omega arith)

  plain_round-more :
      (again : ℕ → S → Bytes → Option (Bytes × S)) (n : ℕ) (out : Bytes) (r : Bytes × S)
      → 0 < length r.0
      → plain_round i.read again n out r ≡ again (n - length r.0) r.1 (out ++ r.0)
  unfolding plain_round
  plain_round-more again n out ([], s) e = absurd (omega arith)
  plain_round-more again n out (b ∷ bs, s) e = refl

  write_plain-done :
      (fuel n : ℕ) (s : S) (out : Bytes)
      → n ≡ 0
      → write_plain i.read (suc fuel) n s out ≡ some (out, s)
  unfolding write_plain
  write_plain-done fuel n s out e = let zero_left : (n == 0) ≡ true = ground arith in rw zero_left

  write_plain-more :
      (fuel n : ℕ) (s : S) (out : Bytes)
      → 0 < n
      → write_plain i.read (suc fuel) n s out
        ≡ plain_round i.read (write_plain i.read fuel) n out (i.read (min n 4096) s)
  unfolding write_plain
  write_plain-more fuel n s out h = let some_left : (n == 0) ≡ false = ground arith in rw some_left

  write_plain_lem :
      (fuel n : ℕ) (s : S) (out : Bytes)
      → Good s
      → n < fuel
      → (s' : S) × (write_plain i.read fuel n s out ≡ some (out ++ take n (left s), s'))
  write_plain_lem zero n s out g h = absurd (omega arith)
  write_plain_lem (suc fuel) n s out g h = elim (dec_lt 0 n) [
    | no none_asked ↦ (
      s,
      write_plain-done fuel n s out (omega arith)
          ∙ ap (λ (bs : Bytes). some (bs, s))
              (sym (append-nil out)
                ∙ ap (λ (k : ℕ). out ++ take k (left s)) {x = 0} {y = n} (omega arith)),
    )
    | yes asked ↦
        let m : ℕ = min n 4096 in
        let r = i.read m s in
        let (g', same, bytes, moved, inside, fits) = laws.read_next m s g in
        elim (dec_lt 0 (length r.0)) [
          | yes some_bytes ↦
              let (s', done) =
                write_plain_lem fuel (n - length r.0) r.1 (out ++ r.0) g' (omega arith) in
              let later : left r.1 ≡ drop (length r.0) (left s) =
                ap (λ (c : Bytes). drop (position r.1) c) same
                ∙ ap (λ (k : ℕ). drop k (content s)) moved
                ∙ sym (drop-drop (position s) (length r.0) (content s)) in
              let text : (out ++ r.0) ++ take (n - length r.0) (left r.1) ≡ out ++ take n (left s) =
                append_assoc out r.0 (take (n - length r.0) (left r.1))
                ∙ ap (λ (bs : Bytes). out ++ bs)
                    (ap₂ (λ (x y : Bytes). x ++ take (n - length r.0) y) bytes later
                      ∙ take-split (length r.0) (n - length r.0) (left s)
                      ∙ ap (λ (k : ℕ). take k (left s)) {x = length r.0 + (n - length r.0)} {y = n}
                          (omega arith)) in
              (
                s',
                write_plain-more fuel n s out asked
                    ∙ plain_round-more (write_plain i.read fuel) n out r some_bytes
                    ∙ done
                    ∙ ap (λ (bs : Bytes). some (bs, s')) text,
              )
          | no no_bytes ↦
              let over : length (left s) ≡ 0 = elim (dec_lt (position s) (length (content s))) [
                | yes more ↦ absurd (no_bytes (laws.read_some m s g (omega arith) more))
                | no past ↦ omega (arith, length-drop (position s) (content s))
              ] in
              (
                r.1,
                write_plain-more fuel n s out asked
                    ∙ plain_round-end (write_plain i.read fuel) n out r (omega arith)
                    ∙ ap (λ (bs : Bytes). some (bs, r.1))
                        (sym (append-nil out)
                          ∙ ap (λ (bs : Bytes). out ++ bs) (sym (take-past n (left s) over))),
              )
        ]
  ]

  -- Of a body in a stream that can be sought, and that `sendfile` is not used for (it is no file, the wire is
  -- no plain socket, or the platform has none), a message of length `n` gets the next `n` bytes, or
  -- all that are left where there are fewer, whatever the sizes of the reads; the loop ends with
  -- more rounds than bytes.
  pub write_message_body-plain :
      (sendfile : ℕ → S → Option (Bytes × S)) (fuel n : ℕ) (s : S) (out : Bytes)
      → Good s
      → sendfile n s ≡ none
      → n < fuel
      → (s' : S) × (write_message_body i.read sendfile fuel s (pos n) out
          ≡ some (out ++ take n (left s), s'))
  unfolding write_message_body write_known
  write_message_body-plain sendfile fuel n s out g by_reads h =
      let (s', done) = write_plain_lem fuel n s out g h in
      (
        s',
        ap (λ o. write_known i.read o fuel n s out) (not_sent (ltb 0 n) (sendfile n s) by_reads)
            ∙ done,
      )
    where
      not_sent : (b : Bool) (o : Option (Bytes × S)) → o ≡ none → (if b then o else none) ≡ none
      not_sent true o e = e
      not_sent false o e = refl
