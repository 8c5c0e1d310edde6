-- ===== src/Protocol/Chunked/Decoder/Feed.antt =====
-- How the reads of the source are joined: only the bytes count, not how they arrive.
use libnhttp.Base.{
  ℕ, zero, suc, ◌+◌, ◌≤◌, ◌<◌, ◌≡◌, ◌⊎◌, refl, sym, ap, ◌∙◌, List, [], ◌∷◌, ◌++◌, arith,
  append_assoc, append-nil, Bytes, ltb, Bool, true, false, not, ◌&&◌, Bool-cases, inl, inr, length,
  if◌then◌else◌,
}
use libnhttp.Protocol.Chunked.Decoder.{
  Decoder, take_read, fill_more, fill_loop, fill_until, readable, available,
}

-- What a decoder keeps while its buffer is filled.
pub record Alike (d e : Decoder) : Type 0 where
  pub finished : e.finished ≡ d.finished
  pub remaining : e.remaining_in_chunk ≡ d.remaining_in_chunk
  pub need : e.need_new_chunk ≡ d.need_new_chunk

pub Alike-refl : (d : Decoder) → Alike d d
Alike-refl d = record { finished = refl; remaining = refl; need = refl }

pub Alike-trans : {d e f : Decoder} → Alike d e → Alike e f → Alike d f
Alike-trans a b = record {
  finished = b.finished ∙ a.finished;
  remaining = b.remaining ∙ a.remaining;
  need = b.need ∙ a.need;
}

-- `fill_more` gives false at the end only, or takes a read off.
pub record Ended (d e : Decoder) : Type 0 where
  pub whole : available d ≡ d.buffer
  pub kept : e.buffer ≡ d.buffer
  pub done : e.eof_source ≡ true
  pub fewer : length e.incoming ≤ length d.incoming
  pub alike : Alike d e

pub record Grown (d e : Decoder) : Type 0 where
  pub same : available e ≡ available d
  pub taken : length e.incoming < length d.incoming
  pub alike : Alike d e

take_read_cases :
    (d : Decoder) (t : List Bytes)
    → d.incoming ≡ t
    → d.eof_source ≡ false
    → Ended d (take_read t d).1 ⊎ Grown d (take_read t d).1
unfolding take_read
take_read_cases d [] e running = inl (record {
  whole = rw (e, running) (append-nil d.buffer);
  kept = refl;
  done = refl;
  fewer = omega arith;
  alike = record { finished = refl; remaining = refl; need = refl };
})
take_read_cases d ([] ∷ more) e running = inl (record {
  whole = rw (e, running) (append-nil d.buffer);
  kept = refl;
  done = refl;
  fewer = rw e (omega arith);
  alike = record { finished = refl; remaining = refl; need = refl };
})
take_read_cases d ((b ∷ bs) ∷ more) e running = inr (record {
  same = rw (e, running) (append_assoc d.buffer (b ∷ bs) (readable more));
  taken = rw e (omega arith);
  alike = record { finished = refl; remaining = refl; need = refl };
})

fill_more_running : (d : Decoder) → d.eof_source ≡ false → fill_more d ≡ take_read d.incoming d
unfolding fill_more
fill_more_running d e = ap (λ (b : Bool). if b then (false, d) else take_read d.incoming d) e

pub fill_more_cases :
    (d : Decoder) → d.eof_source ≡ false → Ended d (fill_more d).1 ⊎ Grown d (fill_more d).1
fill_more_cases d running =
    rw (fill_more_running d running) (take_read_cases d d.incoming refl running)

pub available-ended : (d : Decoder) → d.eof_source ≡ true → available d ≡ d.buffer
available-ended d e =
    ap (λ (b : Bool). d.buffer ++ (if b then [] else readable d.incoming)) e ∙ append-nil d.buffer

-- What `fill_until` leaves: the same bytes, and as many in the buffer as are asked for and there.
pub record Filled (k : ℕ) (d e : Decoder) : Type 0 where
  pub same : available e ≡ available d
  pub enough : (k ≤ length e.buffer) ⊎ (available e ≡ e.buffer)
  pub alike : Alike d e

fill_loop-stop :
    (fuel k : ℕ) (d : Decoder)
    → (ltb (length d.buffer) k && not d.eof_source) ≡ false
    → fill_loop (suc fuel) k d ≡ d
unfolding fill_loop
fill_loop-stop fuel k d h = rw h

fill_loop-go :
    (fuel k : ℕ) (d : Decoder)
    → (ltb (length d.buffer) k && not d.eof_source) ≡ true
    → fill_loop (suc fuel) k d ≡ fill_loop fuel k (fill_more d).1
unfolding fill_loop
fill_loop-go fuel k d h = rw h

fill_loop_ended : (fuel k : ℕ) (d : Decoder) → d.eof_source ≡ true → fill_loop fuel k d ≡ d
unfolding fill_loop
fill_loop_ended zero k d e = refl
fill_loop_ended (suc fuel) k d e = fill_loop-stop fuel k d (ground arith)

pub fill_loop_lem :
    (fuel k : ℕ) (d : Decoder) → length d.incoming < fuel → Filled k d (fill_loop fuel k d)
fill_loop_lem zero k d h = absurd (omega arith)
fill_loop_lem (suc fuel) k d h = elim (Bool-cases d.eof_source) [
  | inl ended ↦
      rw (fill_loop_ended (suc fuel) k d ended)
        (record { same = refl; enough = inr (available-ended d ended); alike = Alike-refl d })
  | inr running ↦ elim (Bool-cases (ltb (length d.buffer) k)) [
    | inr full ↦
        rw (fill_loop-stop fuel k d (ground arith))
          (record { same = refl; enough = inl (ground arith); alike = Alike-refl d })
    | inl short ↦ rw (fill_loop-go fuel k d (ground arith)) (elim (fill_more_cases d running) [
      | inl last ↦ rw (fill_loop_ended fuel k (fill_more d).1 last.done) (record {
        same = available-ended (fill_more d).1 last.done ∙ last.kept ∙ sym last.whole;
        enough = inr (available-ended (fill_more d).1 last.done);
        alike = last.alike;
      })
      | inr more ↦
          let rest = fill_loop_lem fuel k (fill_more d).1 (omega (arith, more.taken)) in
          record {
            same = rest.same ∙ more.same;
            enough = rest.enough;
            alike = Alike-trans more.alike rest.alike;
          }
    ])
  ]
]

pub fill_until_lem : (k : ℕ) (d : Decoder) → Filled k d (fill_until k d)
unfolding fill_until
fill_until_lem k d = fill_loop_lem (length d.incoming + 1) k d (omega arith)
