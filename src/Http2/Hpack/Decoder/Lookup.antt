-- ===== src/Http2/Hpack/Decoder/Lookup.antt =====
-- Lookup in the static and the dynamic table, before and after an entry is added.
use libnhttp.Base.{
  ℕ, zero, suc, ◌+◌, ◌-◌, ◌^◌, ◌≤◌, ◌<◌, ◌≡◌, ◌↔◌, refl, sym, ap, ◌∙◌, ◌∷◌, arith, some, length,
  take, get_elem?, dec_le,
}
use libnhttp.Base.{get_elem?-of_lt, lt-of_get_elem?, get_elem?-take}
use libnhttp.Http2.Hpack.Tables.{HeaderField, static_table}
use libnhttp.Http2.Hpack.Decoder.{Decoder, entry_size, add_to_dynamic_table, lookup_indexed}
use libnhttp.Http2.Hpack.Decoder.Table.{IsSized, Most, add-Evicted}

length-static_table : length static_table ≡ 61
unfolding static_table
length-static_table = refl

-- An index is found exactly when it is neither 0 nor past both tables.
pub lookup_indexed_iff :
    (d : Decoder) (i : ℕ)
    → ((e : HeaderField) × (lookup_indexed d i ≡ some e))
      ↔ ((1 ≤ i) × (i ≤ 61 + length d.dynamic_table))
unfolding lookup_indexed
lookup_indexed_iff d i = (there, back)
  where
    there :
        (e : HeaderField) × (lookup_indexed d i ≡ some e)
        → (1 ≤ i) × (i ≤ 61 + length d.dynamic_table)
    there (e, found) = ground (
      arith,
      length-static_table,
      lt-of_get_elem? d.dynamic_table (i - length static_table - 1) e,
    )

    back :
        (1 ≤ i) × (i ≤ 61 + length d.dynamic_table)
        → (e : HeaderField) × (lookup_indexed d i ≡ some e)
    back (low, high) = elim (dec_le i 61) [
      | yes h ↦
          let (e, found) =
            get_elem?-of_lt static_table (i - 1) (omega (arith, length-static_table)) in
          (e, ground (arith, length-static_table))
      | no h ↦
          let n : ℕ = length static_table in
          let (e, found) =
            get_elem?-of_lt d.dynamic_table (i - n - 1) (omega (arith, length-static_table)) in
          (e, ground (arith, length-static_table))
    ]

-- An index above the static table is a position in the dynamic one.
lookup_indexed_dynamic :
    (d : Decoder) (j : ℕ) → lookup_indexed d (62 + j) ≡ get_elem? d.dynamic_table j
unfolding lookup_indexed
lookup_indexed_dynamic d j =
    let position : 62 + j - length static_table - 1 ≡ j = omega (arith, length-static_table) in
    ground (arith, length-static_table, ap (get_elem? d.dynamic_table) position)

-- A field that fits the limit of the table is found at index 62 once it is added, where the
-- recorded size is the sum of the entries' sizes and does not overflow.
pub lookup_indexed-add_self :
    (e : HeaderField) (d : Decoder)
    → IsSized d
    → d.dynamic_table_size + entry_size e < 2 ^ 64
    → entry_size e ≤ d.max_dynamic_table_size
    → lookup_indexed (add_to_dynamic_table e d) 62 ≡ some e
lookup_indexed-add_self e d v small fits =
    let d' = add_to_dynamic_table e d in
    let ev = add-Evicted e d v small in
    lookup_indexed_dynamic d' 0 ∙ ap (λ t. get_elem? t 0) ev.front ∙ head_kept ev.kept ev.most
  where
    head_kept :
        (k : ℕ)
        → Most k d.max_dynamic_table_size (e ∷ d.dynamic_table)
        → get_elem? (take k (e ∷ d.dynamic_table)) 0 ≡ some e
    head_kept zero m = ground arith
    head_kept (suc k) m = refl

-- A field that is found behind the first dynamic entry once another is added was found one
-- index lower before, where the recorded size is the sum of the entries' sizes and does not
-- overflow.
pub lookup_indexed-add_behind :
    (e x : HeaderField) (d : Decoder) (j : ℕ)
    → IsSized d
    → d.dynamic_table_size + entry_size e < 2 ^ 64
    → lookup_indexed (add_to_dynamic_table e d) (63 + j) ≡ some x
    → lookup_indexed d (62 + j) ≡ some x
lookup_indexed-add_behind e x d j v small found =
    let d' = add_to_dynamic_table e d in
    let ev = add-Evicted e d v small in
    let shifted : 63 + j ≡ 62 + suc j = omega arith in
    let behind : get_elem? (take ev.kept (e ∷ d.dynamic_table)) (suc j) ≡ some x =
      ap (λ t. get_elem? t (suc j)) (sym ev.front)
      ∙ sym (lookup_indexed_dynamic d' (suc j))
      ∙ ap (lookup_indexed d') (sym shifted)
      ∙ found in
    lookup_indexed_dynamic d j ∙ get_elem?-take ev.kept (e ∷ d.dynamic_table) (suc j) x behind
