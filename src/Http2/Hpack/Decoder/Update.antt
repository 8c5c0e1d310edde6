-- ===== src/Http2/Hpack/Decoder/Update.antt =====
-- The dynamic table size update.
use libnhttp.Base.{
  eq-of_some, ℕ, zero, suc, ◌≤◌, ◌<◌, ◌≡◌, refl, sym, ap, ◌∙◌, List, [], ◌∷◌, arith, ltb, true,
  Bool-cases, inl, inr, some, none, >>=-eq-some,
}
use libnhttp.Http2.Hpack.Tables.{HeaderField}
use libnhttp.Http2.Hpack.Reader.{BitReader}
use libnhttp.Http2.Hpack.Integer.{read_integer}
use libnhttp.Http2.Hpack.Decoder.{
  Decoder, drop_back, pop_back, evict_loop, evict_to_fit, read_size_update,
}

evict_loop_max :
    (rounds : ℕ) (d : Decoder) (t : List HeaderField)
    → (evict_loop rounds d t).max_dynamic_table_size ≡ d.max_dynamic_table_size
unfolding evict_loop
evict_loop_max rounds d [] = refl
evict_loop_max zero d (x ∷ xs) = refl
evict_loop_max (suc rounds) d (x ∷ xs) =
    elim (Bool-cases (ltb d.max_dynamic_table_size d.dynamic_table_size)) [
      | inl over ↦ rw over (evict_loop_max rounds (drop_back x xs d) (pop_back x xs))
      | inr under ↦ rw under
    ]

-- A size update that is taken makes the size that it reads the limit of the decoder, which is
-- not above the limit before, so that the limit is never raised: any later update to a larger
-- size is refused.
pub read_size_update_lowers :
    (d d' : Decoder) (r r' q q' : BitReader) (m : ℕ)
    → read_size_update d r ≡ some (d', r')
    → read_integer q 5 ≡ some (m, q')
    → d'.max_dynamic_table_size < m
    → (read_integer r 5 ≡ some (d'.max_dynamic_table_size, r'))
      × (d'.max_dynamic_table_size ≤ d.max_dynamic_table_size)
      × (read_size_update d' q ≡ none)
unfolding read_size_update evict_to_fit
read_size_update_lowers d d' r r' q q' m e later above =
    let ((n, r1), whole, rest) = >>=-eq-some (read_integer r 5) _ e in
    elim (Bool-cases (ltb d.max_dynamic_table_size n)) [
      | inl large ↦ ground arith
      | inr small ↦
          let same = eq-of_some (rw small at rest) in
          let limit : d'.max_dynamic_table_size ≡ n =
            ap (λ t. t.0.max_dynamic_table_size) (sym same)
            ∙ evict_loop_max _ (record d { max_dynamic_table_size = n }) d.dynamic_table in
          let stays : r' ≡ r1 = ap (λ t. t.1) (sym same) in
          let over : ltb d'.max_dynamic_table_size m ≡ true = ground arith in
          (rw (limit, stays) whole, ground arith, rw (later, over))
    ]
