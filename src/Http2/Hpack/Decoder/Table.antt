-- ===== src/Http2/Hpack/Decoder/Table.antt =====
-- The dynamic table: its size is the sum of its entries' sizes, and eviction keeps the newest
-- entries that fit.
use libnhttp.Base.{
  ℕ, zero, suc, ◌+◌, ◌^◌, ◌≤◌, ◌<◌, ◌≡◌, ◌⊎◌, refl, sym, ap, ◌∙◌, List, [], ◌∷◌, arith, u64, ltb,
  Bool-cases, inl, inr, length, take, take-length,
}
use libnhttp.Http2.Hpack.Tables.{HeaderField}
use libnhttp.Http2.Hpack.Decoder.{
  Decoder, entry_size, back, pop_back, drop_back, evict_loop, evict_to_fit, add_to_dynamic_table,
}

abbrev table_size : List HeaderField → ℕ
table_size [] = 0
table_size (e ∷ es) = entry_size e + table_size es

-- The recorded size is the sum, which fits a size_t.
pub record IsSized (d : Decoder) : Type 0 where
  pub recorded : d.dynamic_table_size ≡ table_size d.dynamic_table
  pub small : d.dynamic_table_size < 2 ^ 64

table_size-pop_back :
    (x : HeaderField) (xs : List HeaderField)
    → table_size (pop_back x xs) + entry_size (back x xs) ≡ table_size (x ∷ xs)
unfolding pop_back back
table_size-pop_back x [] = omega arith
table_size-pop_back x (y ∷ ys) = omega (arith, table_size-pop_back y ys)

length-pop_back : (x : HeaderField) (xs : List HeaderField) → length (pop_back x xs) ≡ length xs
unfolding pop_back
length-pop_back x [] = refl
length-pop_back x (y ∷ ys) = ap suc (length-pop_back y ys)

drop_back-IsSized :
    (x : HeaderField) (xs : List HeaderField) (d : Decoder)
    → d.dynamic_table ≡ x ∷ xs
    → IsSized d
    → IsSized (drop_back x xs d)
unfolding drop_back
drop_back-IsSized x xs d e v =
    let sum : d.dynamic_table_size ≡ table_size (x ∷ xs) = v.recorded ∙ ap table_size e in
    omega (arith, v.small, sum, table_size-pop_back x xs)

abbrev pub Most : ℕ → ℕ → List HeaderField → Type 0
Most kept limit t =
    (kept ≡ length t) ⊎ ((kept < length t) × (limit < table_size (take (suc kept) t)))

-- What remains is the front of the table, and fits; one entry more would not have fitted.
pub record Evicted (d d' : Decoder) : Type 0 where
  pub kept : ℕ
  pub front : d'.dynamic_table ≡ take kept d.dynamic_table
  pub same_max : d'.max_dynamic_table_size ≡ d.max_dynamic_table_size
  pub sized : IsSized d'
  pub fits : d'.dynamic_table_size ≤ d.max_dynamic_table_size
  pub most : Most kept d.max_dynamic_table_size d.dynamic_table

take-pop_back :
    (k : ℕ) (x : HeaderField) (xs : List HeaderField)
    → k ≤ length xs
    → take k (pop_back x xs) ≡ take k (x ∷ xs)
unfolding pop_back
take-pop_back zero x xs h = refl
take-pop_back (suc k) x [] h = elim h [ ]
take-pop_back (suc k) x (y ∷ ys) h = ap (◌∷◌ x) (take-pop_back k y ys (omega arith))

Most-le : (k limit : ℕ) (t : List HeaderField) → Most k limit t → k ≤ length t
Most-le k limit t (inl e) = omega arith
Most-le k limit t (inr (h, m)) = omega arith

-- With the last entry of a table that does not fit, a kept front is still as long as it can be.
Most-pop_back :
    (k limit : ℕ) (x : HeaderField) (xs : List HeaderField)
    → limit < table_size (x ∷ xs)
    → Most k limit (pop_back x xs)
    → Most k limit (x ∷ xs)
Most-pop_back k limit x xs over (inl e) =
    let all : k ≡ length xs = omega (arith, length-pop_back x xs) in
    inr (omega arith, rw (all, take-length xs) over)
Most-pop_back k limit x xs over (inr (h, m)) =
    let short : suc k ≤ length xs = omega (arith, length-pop_back x xs) in
    inr (omega arith, rw (take-pop_back (suc k) x xs short) at m)

evict_loop-Evicted :
    (rounds : ℕ) (d : Decoder) (t : List HeaderField)
    → d.dynamic_table ≡ t
    → length t ≤ rounds
    → IsSized d
    → Evicted d (evict_loop rounds d t)
unfolding evict_loop
evict_loop-Evicted rounds d [] e h v = record {
  kept = 0;
  front = e;
  same_max = refl;
  sized = v;
  fits = omega (arith, v.recorded, ap table_size e);
  most = inl (sym (ap length e));
}
evict_loop-Evicted zero d (x ∷ xs) e h v = absurd (omega arith)
evict_loop-Evicted (suc rounds) d (x ∷ xs) e h v =
    elim (Bool-cases (ltb d.max_dynamic_table_size d.dynamic_table_size)) [
      | inl over ↦
          let ih =
            evict_loop-Evicted rounds (drop_back x xs d) (pop_back x xs) (unfold drop_back in refl)
              (omega (arith, length-pop_back x xs)) (drop_back-IsSized x xs d e v) in
          let below : ih.kept ≤ length xs = omega (
            arith,
            Most-le ih.kept d.max_dynamic_table_size (pop_back x xs) ih.most,
            length-pop_back x xs,
          ) in
          let sum : d.dynamic_table_size ≡ table_size (x ∷ xs) = v.recorded ∙ ap table_size e in
          rw over (record {
            kept = ih.kept;
            front = ih.front ∙ take-pop_back ih.kept x xs below ∙ ap (take ih.kept) (sym e);
            same_max = ih.same_max;
            sized = ih.sized;
            fits = ih.fits;
            most =
                rw e (Most-pop_back ih.kept d.max_dynamic_table_size x xs (ground arith) ih.most);
          })
      | inr under ↦ rw under (record {
        kept = length d.dynamic_table;
        front = sym (take-length d.dynamic_table);
        same_max = refl;
        sized = v;
        fits = ground arith;
        most = inl refl;
      })
    ]

-- Where the recorded size of the table is the sum of its entries' sizes and fits 64 bits,
-- eviction leaves the newest entries, as many as fit the limit, and the recorded size is the
-- sum again.
pub evict_to_fit-Evicted : (d : Decoder) → IsSized d → Evicted d (evict_to_fit d)
unfolding evict_to_fit
evict_to_fit-Evicted d v = evict_loop-Evicted _ d d.dynamic_table refl (omega arith) v

-- Where the recorded size of the table is the sum of its entries' sizes, and that sum with the
-- new field still fits 64 bits, adding the field puts it in front and then keeps the newest
-- entries, as many as fit the limit; the recorded size is the sum again.
pub add-Evicted :
    (e : HeaderField) (d : Decoder)
    → IsSized d
    → d.dynamic_table_size + entry_size e < 2 ^ 64
    → Evicted
        (record d {
          dynamic_table_size = d.dynamic_table_size + entry_size e;
          dynamic_table = e ∷ d.dynamic_table;
        })
        (add_to_dynamic_table e d)
unfolding add_to_dynamic_table
add-Evicted e d v h =
    let whole : u64 (d.dynamic_table_size + entry_size e) ≡ d.dynamic_table_size + entry_size e =
      omega arith in
    rw whole (evict_to_fit-Evicted _ (omega (arith, v.recorded)))
