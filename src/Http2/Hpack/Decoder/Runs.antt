-- ===== src/Http2/Hpack/Decoder/Runs.antt =====
-- Concrete runs of the decoder, and its theorems at concrete inputs.
use libnhttp.Base.{◌≡◌, refl, [], ◌∷◌, arith, Bytes, some}
use libnhttp.Http2.Hpack.Tables.{HeaderField, static_table}
use libnhttp.Http2.Hpack.Reader.{BitReader}
use libnhttp.Http2.Hpack.Integer.{read_groups, read_integer}
use libnhttp.Http2.Hpack.Decoder.{
  Decoder, new_decoder, set_max_dynamic_table_size, back, pop_back, drop_back, evict_loop,
  evict_to_fit, add_to_dynamic_table, lookup_indexed, read_size_update, Decoded, decode,
}
use libnhttp.Http2.Hpack.Decoder.Table.{IsSized, Evicted, add-Evicted}
use libnhttp.Http2.Hpack.Decoder.Progress.{decode-total}

abbrev field : HeaderField
field = record { name = 97 ∷ []; value = 98 ∷ [] }

abbrev one_entry : Decoder
one_entry = record {
  max_dynamic_table_size = 40;
  dynamic_table_size = 34;
  dynamic_table = field ∷ [];
}

abbrev other : HeaderField
other = record { name = 99 ∷ 100 ∷ []; value = [] }

-- The limit holds one entry only, so that the older one is evicted.
add_run :
    add_to_dynamic_table other one_entry
    ≡ record { max_dynamic_table_size = 40; dynamic_table_size = 34; dynamic_table = other ∷ [] }
unfolding add_to_dynamic_table evict_to_fit evict_loop drop_back back pop_back
add_run = refl

set_max_run : (set_max_dynamic_table_size 40 new_decoder).max_dynamic_table_size ≡ 40
unfolding set_max_dynamic_table_size
set_max_run = refl

one_entry-IsSized : IsSized one_entry
one_entry-IsSized = record { recorded = refl; small = omega arith }

add-Evicted_example :
    Evicted
      (record {
        max_dynamic_table_size = 40;
        dynamic_table_size = 68;
        dynamic_table = other ∷ field ∷ [];
      })
      (add_to_dynamic_table other one_entry)
add-Evicted_example = add-Evicted other one_entry one_entry-IsSized (omega arith)

abbrev wide : Decoder
wide = record one_entry { max_dynamic_table_size = 100 }

wide-IsSized : IsSized wide
wide-IsSized = record { recorded = refl; small = omega arith }

behind_run : lookup_indexed (add_to_dynamic_table other wide) 63 ≡ some field
unfolding lookup_indexed add_to_dynamic_table evict_to_fit evict_loop drop_back back pop_back
    static_table
behind_run = refl

abbrev cut : Bytes
cut = 0x82 ∷ 0x40 ∷ 1 ∷ []

decode-total_example : (result : Decoded) × (decode new_decoder cut [] ≡ some result)
decode-total_example = decode-total new_decoder cut []

-- An update to 0, and one to 31 and more behind it.
abbrev lowered : Decoder
lowered = record { max_dynamic_table_size = 0; dynamic_table_size = 0; dynamic_table = [] }

abbrev at_zero : BitReader
at_zero = record { before = 0x20; ahead = [] }

abbrev at_ten : BitReader
at_ten = record { before = 0x2a; ahead = [] }

update_run : read_size_update new_decoder at_zero ≡ some (lowered, at_zero)
unfolding read_size_update read_integer read_groups evict_to_fit evict_loop
update_run = refl

ten_run : read_integer at_ten 5 ≡ some (10, at_ten)
unfolding read_integer
ten_run = refl
