-- ===== src/Ws/Connection.antt =====
-- `ws_connection` of src/ws/connection.cpp: frames read from the wire and written to it.
-- The wire is another object: `incoming` are the results of its reads to come, of which an empty one
-- is the end, and `sent` is what was written to it.
pub mod Feed
pub mod Lengths
pub mod Masking
pub mod RoundTrip
pub mod Closing
pub mod Steady
mod Runs
use libnhttp.Base.{
  ℕ, zero, suc, ◌*◌, ◌%◌, List, [], ◌∷◌, ◌++◌, u8, u64, bit_and, bit_or, bit_xor, Bytes, leb, ltb,
  ◌==◌, Bool, true, false, not, Option, some, none, length, take, drop, get_or, if◌then◌else◌,
  ◌<<<◌, ◌>>>◌,
}

pub record Connection : Type 0 where
  pub buffer : Bytes
  pub eof : Bool
  pub closed : Bool
  pub incoming : List Bytes
  pub sent : Bytes

-- A step that reads; `none` is the result false or nullopt.
abbrev pub Reading {ℓ} : Type ℓ → Type ℓ
Reading A = Connection → Option A × Connection

abbrev pub pure {ℓ} : {A : Type ℓ} → A → Reading A
pure a c = (some a, c)

abbrev pub continue {ℓ κ} :
    {A : Type ℓ} {B : Type κ} → Option A × Connection → (A → Reading B) → Option B × Connection
continue (none, c) f = (none, c)
continue (some a, c) f = f a c

infixl 5 ◌>>=◌
abbrev pub ◌>>=◌ {ℓ κ} : {A : Type ℓ} {B : Type κ} → Reading A → (A → Reading B) → Reading B
(m >>= f) c = continue (m c) f

-- What `fill_more` does once it has read.
unfoldable pub take_chunk : List Bytes → Connection → Bool × Connection
take_chunk [] c = (false, record c { eof = true })
take_chunk ([] ∷ more) c = (false, record c { eof = true; incoming = more })
take_chunk ((b ∷ bs) ∷ more) c = (true, record c { buffer = c.buffer ++ (b ∷ bs); incoming = more })

unfoldable pub fill_more : Connection → Bool × Connection
unfolding take_chunk
fill_more c = if c.eof then (false, c) else take_chunk c.incoming c

-- The loop of `read_exact`. Every round but the last takes a read off `incoming`.
unfoldable pub fill_until : ℕ → ℕ → Connection → Bool × Connection
fill_until zero n c = (leb n (length c.buffer), c)
fill_until (suc fuel) n c =
    let filled = fill_more c in
    let next = fill_until fuel n filled.1 in
    if leb n (length c.buffer) then (true, c) else if filled.0 then next else (false, filled.1)

unfoldable pub read_exact : ℕ → Reading Bytes
unfolding fill_until
read_exact n c =
    let filled = fill_until (suc (length c.incoming)) n c in
    let c' = filled.1 in
    if filled.0
    then (some (take n c'.buffer), record c' { buffer = drop n c'.buffer })
    else (none, c')

pub record RawFrame : Type 0 where
  pub fin : Bool
  pub opcode : ℕ
  pub payload : Bytes

-- The loop over the eight bytes of a long length.
pub join_bytes : ℕ → Bytes → ℕ
join_bytes length [] = length
join_bytes length (b ∷ bs) = join_bytes (bit_or (u64 (length <<< 8)) b) bs

unfoldable pub read_length : ℕ → Reading ℕ
unfolding join_bytes
read_length n =
    if n == 126
    then (read_exact 2 >>= λ ext. pure (bit_or (get_or ext 0 0 <<< 8) (get_or ext 1 0)))
    else if n == 127
    then (read_exact 8 >>= λ ext. pure (join_bytes 0 ext))
    else pure n

unfoldable pub read_key : Bool → Reading Bytes
read_key masked = if masked then read_exact 4 else pure (0 ∷ 0 ∷ 0 ∷ 0 ∷ [])

-- The loop over the payload, at its position `i`.
pub unmask : Bytes → ℕ → Bytes → Bytes
unmask key i [] = []
unmask key i (b ∷ bs) = bit_xor b (get_or key (i % 4) 0) ∷ unmask key (suc i) bs

unfoldable pub read_payload : ℕ → Bool → Bytes → Reading Bytes
read_payload n masked key =
    if ltb 0 n
    then (read_exact n >>= λ payload. pure (if masked then unmask key 0 payload else payload))
    else pure []

unfoldable pub read_frame : Reading RawFrame
unfolding read_length read_key read_payload
read_frame = do
  head ← read_exact 2
  let b0 = get_or head 0 0
  let b1 = get_or head 1 0
  let masked = not (bit_and b1 0x80 == 0)
  n ← read_length (bit_and b1 0x7f)
  key ← read_key masked
  payload ← read_payload n masked key
  pure (record { fin = not (bit_and b0 0x80 == 0); opcode = bit_and b0 0x0f; payload = payload })

-- The bytes of `n` at the shifts `8 * (k - 1)` down to 0.
pub shifted_bytes : ℕ → ℕ → Bytes
shifted_bytes zero n = []
shifted_bytes (suc k) n = bit_and (n >>> (8 * k)) 0xff ∷ shifted_bytes k n

-- The string `header` of `write_frame`.
unfoldable pub frame_header : Bool → ℕ → ℕ → Bytes
unfolding shifted_bytes
frame_header fin opcode n =
    u8 (bit_or (if fin then 0x80 else 0x00) (bit_and opcode 0x0f))
    ∷ (if leb n 125
        then u8 n ∷ []
        else if leb n 0xffff
        then 126 ∷ bit_and (n >>> 8) 0xff ∷ bit_and n 0xff ∷ []
        else 127 ∷ shifted_bytes 8 n)

unfoldable pub write_frame : Bool → ℕ → Bytes → Connection → Connection
write_frame fin opcode payload c = record c {
  sent = c.sent ++ frame_header fin opcode (length payload) ++ payload;
}

pub send_text : Bytes → Connection → Connection
send_text text c = write_frame true 0x1 text c

pub send_binary : Bytes → Connection → Connection
send_binary bytes c = write_frame true 0x2 bytes c

pub close : ℕ → Bytes → Connection → Connection
close code reason c =
    if c.closed
    then c
    else record (write_frame true 0x8 (bit_and (code >>> 8) 0xff ∷ bit_and code 0xff ∷ reason) c) {
      closed = true;
    }
