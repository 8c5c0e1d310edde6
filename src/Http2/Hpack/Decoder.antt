-- ===== src/Http2/Hpack/Decoder.antt =====
-- `hpack_decoder` of hpack.cpp and hpack.hpp: the dynamic table and the decoding of header blocks.
pub mod Table
pub mod Lookup
pub mod Steps
pub mod Progress
pub mod Update
mod Runs
use libnhttp.Base.{
  ◌>>=◌, ℕ, zero, suc, ◌+◌, ◌-◌, ◌^◌, List, [], ◌∷◌, ◌++◌, u64, bit_and, Bytes, leb, ltb, ◌==◌,
  Bool, true, false, not, Option, some, none, length, take, get_elem?, if◌then◌else◌,
}
use libnhttp.Http2.Hpack.Tables.{HeaderField, static_table}
use libnhttp.Http2.Hpack.Reader.{BitReader, skip}
use libnhttp.Http2.Hpack.Integer.{read_integer}
use libnhttp.Http2.Hpack.Huffman

-- The front of the deque, its newest entry, is the head of the list.
pub record Decoder : Type 0 where
  pub max_dynamic_table_size : ℕ
  pub dynamic_table_size : ℕ
  pub dynamic_table : List HeaderField

abbrev pub new_decoder : Decoder
new_decoder = record { max_dynamic_table_size = 4096; dynamic_table_size = 0; dynamic_table = [] }

pub set_max_dynamic_table_size : ℕ → Decoder → Decoder
set_max_dynamic_table_size max_size d = record d { max_dynamic_table_size = max_size }

abbrev pub entry_size : HeaderField → ℕ
entry_size e = length e.name + length e.value + 32

-- `back` and `pop_back` of the deque.
pub back : HeaderField → List HeaderField → HeaderField
back x [] = x
back x (y ∷ ys) = back y ys

pub pop_back : HeaderField → List HeaderField → List HeaderField
pop_back x [] = []
pop_back x (y ∷ ys) = x ∷ pop_back y ys

-- The body of the loop on the table `x ∷ xs`.
pub drop_back : HeaderField → List HeaderField → Decoder → Decoder
drop_back x xs d = record d {
  dynamic_table_size = u64 (d.dynamic_table_size + 2 ^ 64 - entry_size (back x xs));
  dynamic_table = pop_back x xs;
}

-- The loop with `rounds` left; each round takes an entry off the table.
pub evict_loop : ℕ → Decoder → List HeaderField → Decoder
unfolding drop_back
evict_loop rounds d [] = d
evict_loop zero d (x ∷ xs) = d
evict_loop (suc rounds) d (x ∷ xs) =
    let next = evict_loop rounds (drop_back x xs d) (pop_back x xs) in
    if ltb d.max_dynamic_table_size d.dynamic_table_size then next else d

pub evict_to_fit : Decoder → Decoder
unfolding evict_loop
evict_to_fit d = evict_loop (length d.dynamic_table) d d.dynamic_table

pub add_to_dynamic_table : HeaderField → Decoder → Decoder
add_to_dynamic_table e d = evict_to_fit (record d {
  dynamic_table_size = u64 (d.dynamic_table_size + entry_size e);
  dynamic_table = e ∷ d.dynamic_table;
})

pub lookup_indexed : Decoder → ℕ → Option HeaderField
lookup_indexed d index =
    if index == 0
    then none
    else if leb index (length static_table)
    then get_elem? static_table (index - 1)
    else get_elem? d.dynamic_table (index - length static_table - 1)

-- `none` is the result false, here and below.
pub read_size_update : Decoder → BitReader → Option (Decoder × BitReader)
read_size_update d r = do
  (new_size, r') ← read_integer r 5
  if ltb d.max_dynamic_table_size new_size
      then none
      else some (evict_to_fit (record d { max_dynamic_table_size = new_size }), r')

-- The bytes of a string literal whose flags stand in `first`.
string_of : ℕ → Bytes → Option Bytes
string_of first bytes = if bit_and first 0x80 == 0 then some bytes else Huffman.decode bytes

read_string_at : ℕ → BitReader → Option (Bytes × BitReader)
unfolding string_of
read_string_at first r = do
  (n, r') ← read_integer r 7
  if ltb (length r'.ahead) n
      then none
      else do s ← string_of first (take n r'.ahead); some (s, skip n r')

pub read_string : Bytes → Option (Bytes × BitReader)
unfolding read_string_at
read_string [] = none
read_string (first ∷ rest) = read_string_at first (record { before = first; ahead = rest })

-- The name of a literal: a string, or the name of an indexed entry.
pub read_name : Decoder → BitReader → ℕ → Option (Bytes × BitReader)
read_name d r prefix_bits = do
  (name_index, r') ← read_integer r prefix_bits
  if name_index == 0
      then read_string r'.ahead
      else do e ← lookup_indexed d name_index; some (e.name, r')

-- The variables of the loop in `decode`.
pub record State : Type 0 where
  pub decoder : Decoder
  pub reader : BitReader
  pub out : List HeaderField

read_indexed : Decoder → BitReader → List HeaderField → Option State
read_indexed d r out = do
  (index, r') ← read_integer r 7
  if index == 0 then none else do
    e ← lookup_indexed d index
    some (record { decoder = d; reader = r'; out = out ++ (e ∷ []) })

-- Both kinds of literals; only one adds the field to the table.
read_literal : Decoder → BitReader → List HeaderField → ℕ → Bool → Option State
read_literal d r out prefix_bits indexing = do
  (name, r') ← read_name d r prefix_bits
  (value, r'') ← read_string r'.ahead
  let field : HeaderField = record { name = name; value = value }
  some (record {
    decoder = if indexing then add_to_dynamic_table field d else d;
    reader = r'';
    out = out ++ (field ∷ []);
  })

read_update : Decoder → BitReader → List HeaderField → Option State
read_update d r out = do
  (d', r') ← read_size_update d r
  some (record { decoder = d'; reader = r'; out = out })

-- The body of the loop at the byte `first`, which has been taken.
pub decode_one : ℕ → Decoder → BitReader → List HeaderField → Option State
unfolding read_indexed read_literal read_update
decode_one first d r out =
    if not (bit_and first 0x80 == 0)
    then read_indexed d r out
    else if bit_and first 0xc0 == 0x40
    then read_literal d r out 6 true
    else if bit_and first 0xe0 == 0x20
    then read_update d r out
    else read_literal d r out 4 false

-- What `decode` leaves: its result, the decoder and the list.
pub record Decoded : Type 0 where
  pub accepted : Bool
  pub decoder : Decoder
  pub out : List HeaderField

-- An instruction that fails changes neither the decoder nor the list. `none` would mean that the
-- fuel ran out.
pub decode_loop : ℕ → Decoder → Bytes → List HeaderField → Option Decoded
decode_loop fuel d [] out = some (record { accepted = true; decoder = d; out = out })
decode_loop zero d (first ∷ rest) out = none
decode_loop (suc fuel) d (first ∷ rest) out =
    elim (decode_one first d (record { before = first; ahead = rest }) out) [
      | none ↦ some (record { accepted = false; decoder = d; out = out })
      | some s ↦ decode_loop fuel s.decoder s.reader.ahead s.out
    ]

-- Every instruction takes a byte at least.
pub decode : Decoder → Bytes → List HeaderField → Option Decoded
unfolding decode_loop
decode d bytes out = decode_loop (length bytes) d bytes out
