-- ===== src/Ws/Connection/Feed.antt =====
-- How the reads of the wire are joined: only the bytes count, not how they arrive.
use libnhttp.Base.{
  drop-append_left, take-append_left, ℕ, zero, suc, ◌≤◌, ◌<◌, ◌≡◌, ◌⊎◌, refl, sym, ap, ◌∙◌, List,
  [], ◌∷◌, ◌++◌, arith, append_assoc, append-nil, Bytes, leb, Bool, true, false, Bool-cases, inl,
  inr, some, none, length, length-append, take, drop, if◌then◌else◌,
}
use libnhttp.Ws.Connection.{Connection, take_chunk, fill_more, fill_until, read_exact}

-- What can still be read from the wire.
abbrev readable : List Bytes → Bytes
readable [] = []
readable ([] ∷ more) = []
readable ((b ∷ bs) ∷ more) = (b ∷ bs) ++ readable more

-- What the connection can still give.
abbrev pub available : Connection → Bytes
available c = c.buffer ++ (if c.eof then [] else readable c.incoming)

-- `fill_more` gives false at the end only, or takes a read off.
record Ended (c : Connection) (r : Bool × Connection) : Type 0 where
  ended : r.0 ≡ false
  whole : available c ≡ c.buffer
  kept : r.1.buffer ≡ c.buffer
  done : r.1.eof ≡ true
  shut : r.1.closed ≡ c.closed

record Grown (c : Connection) (r : Bool × Connection) : Type 0 where
  grown : r.0 ≡ true
  same : available r.1 ≡ available c
  taken : length r.1.incoming < length c.incoming
  shut : r.1.closed ≡ c.closed

take_chunk_cases :
    (c : Connection) (t : List Bytes)
    → c.incoming ≡ t
    → c.eof ≡ false
    → Ended c (take_chunk t c) ⊎ Grown c (take_chunk t c)
unfolding take_chunk
take_chunk_cases c [] e running = inl (record {
  ended = refl;
  whole = rw (e, running) (append-nil c.buffer);
  kept = refl;
  done = refl;
  shut = refl;
})
take_chunk_cases c ([] ∷ more) e running = inl (record {
  ended = refl;
  whole = rw (e, running) (append-nil c.buffer);
  kept = refl;
  done = refl;
  shut = refl;
})
take_chunk_cases c ((b ∷ bs) ∷ more) e running = inr (record {
  grown = refl;
  same = rw (e, running) (append_assoc c.buffer (b ∷ bs) (readable more));
  taken = rw e (omega arith);
  shut = refl;
})

available-ended : (c : Connection) → c.eof ≡ true → available c ≡ c.buffer
available-ended c e =
    ap (λ (b : Bool). c.buffer ++ (if b then [] else readable c.incoming)) e ∙ append-nil c.buffer

fill_more_ended : (c : Connection) → c.eof ≡ true → fill_more c ≡ (false, c)
unfolding fill_more
fill_more_ended c e = ap (λ (b : Bool). if b then (false, c) else take_chunk c.incoming c) e

fill_more_running : (c : Connection) → c.eof ≡ false → fill_more c ≡ take_chunk c.incoming c
unfolding fill_more
fill_more_running c e = ap (λ (b : Bool). if b then (false, c) else take_chunk c.incoming c) e

fill_more_cases : (c : Connection) → Ended c (fill_more c) ⊎ Grown c (fill_more c)
fill_more_cases c = elim (Bool-cases c.eof) [
  | inl closed ↦ rw (fill_more_ended c closed) (
      inl (record {
        ended = refl;
        whole = available-ended c closed;
        kept = refl;
        done = closed;
        shut = refl;
      }))
  | inr running ↦ rw (fill_more_running c running) (take_chunk_cases c c.incoming refl running)
]

-- The result of the loop: it stops with enough bytes, or at the end of the wire.
record Filled (n : ℕ) (c : Connection) (r : Bool × Connection) : Type 0 where
  same : available r.1 ≡ available c
  shut : r.1.closed ≡ c.closed
  result :
      ((r.0 ≡ true) × (n ≤ length r.1.buffer))
      ⊎ ((r.0 ≡ false) × (r.1.eof ≡ true) × (length (available c) < n))

fill_until-Filled :
    (fuel n : ℕ) (c : Connection) → length c.incoming < fuel → Filled n c (fill_until fuel n c)
unfolding fill_until
fill_until-Filled zero n c h = elim h [ ]
fill_until-Filled (suc fuel) n c h = elim (Bool-cases (leb n (length c.buffer))) [
  | inl enough ↦ rw enough (record { same = refl; shut = refl; result = inl (refl, ground arith) })
  | inr short ↦ elim (fill_more_cases c) [
    | inl r ↦
        let all : available (fill_more c).1 ≡ available c =
          available-ended (fill_more c).1 r.done ∙ r.kept ∙ sym r.whole in
        rw (short, r.ended)
          (record {
            same = all;
            shut = r.shut;
            result = inr (refl, r.done, rw r.whole (ground arith));
          })
    | inr r ↦
        let ih = fill_until-Filled fuel n (fill_more c).1 (omega (arith, r.taken)) in
        rw (short, r.grown)
          (record {
            same = ih.same ∙ r.same;
            shut = ih.shut ∙ r.shut;
            result = rw r.same at ih.result;
          })
  ]
]

-- Where `n` bytes or more are on the way, `read_exact n` takes the first `n` of them, however
-- the reads of the wire cut them, and leaves the others.
pub read_exact_enough :
    (n : ℕ) (c : Connection)
    → n ≤ length (available c)
    → (c' : Connection) × (read_exact n c ≡ (some (take n (available c)), c'))
      × (available c' ≡ drop n (available c))
unfolding read_exact
read_exact_enough n c h =
    let filled = fill_until-Filled (suc (length c.incoming)) n c (omega arith) in
    elim filled.result [
      | inl (ok, enough) ↦
          let c1 : Connection = (fill_until (suc (length c.incoming)) n c).1 in
          let tail : Bytes = if c1.eof then [] else readable c1.incoming in
          rw ok (
            _,
            ap (λ bytes. (some bytes, record c1 { buffer = drop n c1.buffer }))
                (sym (take-append_left n c1.buffer tail enough) ∙ ap (take n) filled.same),
            sym (drop-append_left n c1.buffer tail enough) ∙ ap (drop n) filled.same,
          )
      | inr (failed, over, short) ↦ absurd (omega arith)
    ]

-- Where fewer than `n` bytes are on the way, `read_exact n` fails at the end of the wire, and
-- loses none of them.
pub read_exact_short :
    (n : ℕ) (c : Connection)
    → length (available c) < n
    → (c' : Connection) × (read_exact n c ≡ (none, c'))
      × (available c' ≡ available c)
      × (c'.eof ≡ true)
unfolding read_exact
read_exact_short n c h =
    let filled = fill_until-Filled (suc (length c.incoming)) n c (omega arith) in
    elim filled.result [
      | inl (ok, enough) ↦ absurd (
          omega (
            arith,
            ap length filled.same,
            length-append (fill_until (suc (length c.incoming)) n c).1.buffer _,
          ))
      | inr (failed, over, short) ↦ rw failed (_, refl, filled.same, over)
    ]

-- Reading never closes the connection.
pub closed-read_exact : (n : ℕ) (c : Connection) → (read_exact n c).1.closed ≡ c.closed
unfolding read_exact
closed-read_exact n c =
    let filled = fill_until-Filled (suc (length c.incoming)) n c (omega arith) in
    elim filled.result [
      | inl (ok, enough) ↦ rw ok filled.shut
      | inr (failed, over, short) ↦ rw failed filled.shut
    ]
