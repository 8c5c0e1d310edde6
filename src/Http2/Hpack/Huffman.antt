-- ===== src/Http2/Hpack/Huffman.antt =====
-- The Huffman code of hpack.cpp: `huffman_tree` and the coding loop of `write_string`.
-- `nodes_` is a tree here: the node at an index is the subtree that the index stands for, and the
-- index -1 is `absent`.
pub mod Table
pub mod Bits
pub mod Encoding
pub mod Walk
pub mod RoundTrip
mod Runs
use libnhttp.Base.{
  ◌>>=◌, ℕ, zero, suc, ◌+◌, ◌-◌, ltb, leb, ◌==◌, if◌then◌else◌, Bool, true, false, ◌||◌, List, [],
  ◌∷◌, ◌++◌, Option, none, some, get_or, Bytes, u8, u64, ◌<<<◌, ◌>>>◌, low_mask, bit_and, bit_or,
}
use Table.{HuffmanCode, huffman_table}

-- A node has a symbol, unless that is -1, and the children for the bits 0 and 1.
pub data Tree : Type 0 where
  absent : Tree
  node : Option ℕ → Tree → Tree → Tree

abbrev pub fresh : Tree
fresh = node none absent absent

-- `children[bit]`; the walks never read the children of an absent node.
pub child : Tree → ℕ → Tree
child absent bit = absent
child (node s l r) bit = if bit == 0 then l else r

pub symbol : Tree → Option ℕ
symbol absent = none
symbol (node s l r) = s

-- A missing node is made on the way down.
with_node : Tree → Tree
with_node absent = fresh
with_node (node s l r) = node s l r

-- `f` applied to the node at `children[bit]`, which is made if it is missing.
descend : Tree → ℕ → (Tree → Tree) → Tree
descend absent bit f = absent
descend (node s l r) bit f =
    if bit == 0 then node s (f (with_node l)) r else node s l (f (with_node r))

set_symbol : ℕ → Tree → Tree
set_symbol sym absent = absent
set_symbol sym (node s l r) = node (some sym) l r

-- `insert` with `b` bits of the code left, at the node `cur`.
insert : ℕ → ℕ → ℕ → Tree → Tree
unfolding with_node descend set_symbol
insert sym code zero cur = set_symbol sym cur
insert sym code (suc b) cur =
    let rest = λ (t : Tree). insert sym code b t in descend cur (bit_and (code >>> b) 1) rest

-- The constructor's loop from the symbol `sym` on, over the codes that are left.
insert_all : ℕ → List HuffmanCode → Tree → Tree
unfolding insert
insert_all sym [] t = t
insert_all sym (c ∷ cs) t = insert_all (suc sym) cs (insert sym c.code c.bits t)

-- `sym` runs over 0 .. 255: the end of string is not inserted.
byte_codes : ℕ → List HuffmanCode → List HuffmanCode
byte_codes zero cs = []
byte_codes (suc n) [] = []
byte_codes (suc n) (c ∷ cs) = c ∷ byte_codes n cs

unfoldable pub huffman : Tree
unfolding insert_all byte_codes huffman_table
huffman = insert_all 0 (byte_codes 256 huffman_table) fresh

-- The variables of `decode`.
pub record Walker : Type 0 where
  pub cur : Tree
  pub pending_bits : ℕ
  pub pending_all_ones : Bool
  pub out : Bytes

abbrev pub at_root : Bytes → Walker
at_root out = record { cur = huffman; pending_bits = 0; pending_all_ones = true; out = out }

-- At the node `next`: a symbol is put out, and the walk starts again at the root.
pub arrive : Option ℕ → Tree → ℕ → Walker → Walker
arrive none next bit w = record w {
  cur = next;
  pending_bits = w.pending_bits + 1;
  pending_all_ones = if bit == 0 then false else w.pending_all_ones;
}
arrive (some sym) next bit w = at_root (w.out ++ (u8 sym ∷ []))

-- The body of the inner loop; `none` is the result false.
pub take_bit : Tree → ℕ → Walker → Option Walker
unfolding arrive symbol
take_bit absent bit w = none
take_bit (node s l r) bit w = some (arrive s (node s l r) bit w)

-- The inner loop with `b` bits of the byte left.
pub take_byte : ℕ → ℕ → Walker → Option Walker
unfolding take_bit child
take_byte zero byte w = some w
take_byte (suc b) byte w = do
  let bit = bit_and (byte >>> b) 1
  w' ← take_bit (child w.cur bit) bit w
  take_byte b byte w'

pub take_bytes : Bytes → Walker → Option Walker
take_bytes [] w = some w
take_bytes (byte ∷ rest) w = do w' ← take_byte 8 byte w; take_bytes rest w'

-- The padding must be shorter than a byte and all ones.
pub accept : Walker → Option Bytes
accept w =
    if leb 8 w.pending_bits
    then none
    else if w.pending_bits == 0 || w.pending_all_ones
    then some w.out
    else none

pub decode : Bytes → Option Bytes
unfolding take_bytes accept
decode bytes = do w ← take_bytes bytes (at_root []); accept w

-- The variables of the loop in `write_string`.
pub record Packer : Type 0 where
  pub encoded : Bytes
  pub bit_buffer : ℕ
  pub bit_count : ℕ

-- `while (bit_count >= 8)`, with fuel: a code adds 30 bits at most to a count below 8, so that 4
-- rounds are enough.
pub emit : ℕ → Packer → Packer
emit zero p = p
emit (suc fuel) p =
    let count = p.bit_count - 8 in
    let next = emit fuel (record {
      encoded = p.encoded ++ (u8 (bit_and (p.bit_buffer >>> count) 0xff) ∷ []);
      bit_buffer = p.bit_buffer;
      bit_count = count;
    }) in
    if leb 8 p.bit_count then next else p

-- The statements of the loop's body before and after the inner loop.
pub shift_in : ℕ → Packer → Packer
shift_in c p =
    let hc = get_or huffman_table c (record { code = 0; bits = 0 }) in
    record p {
      bit_buffer = bit_or (u64 (p.bit_buffer <<< hc.bits)) hc.code;
      bit_count = p.bit_count + hc.bits;
    }

pub keep_pending : Packer → Packer
keep_pending p = record p {
  bit_buffer = bit_and p.bit_buffer (if p.bit_count == 0 then 0 else low_mask p.bit_count);
}

-- The body of the loop at one character.
pub pack : ℕ → Packer → Packer
unfolding shift_in keep_pending emit
pack c p = keep_pending (emit 4 (shift_in c p))

pub pack_all : Bytes → Packer → Packer
pack_all [] p = p
pack_all (c ∷ cs) p = pack_all cs (pack c p)

pub pad : Packer → Bytes
pad p =
    if ltb 0 p.bit_count
    then p.encoded ++ (u8 (bit_or (p.bit_buffer <<< (8 - p.bit_count)) (0xff >>> p.bit_count)) ∷ [])
    else p.encoded

pub encode : Bytes → Bytes
unfolding pack_all pad
encode value = pad (pack_all value (record { encoded = []; bit_buffer = 0; bit_count = 0 }))
