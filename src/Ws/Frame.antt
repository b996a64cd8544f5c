-- ===== src/Ws/Frame.antt =====
-- RFC 6455 framing of src/ff-ws.c: `ff_ws_build` and `ff_ws_parse`. A buffer with its length is the
-- list of its bytes. Masks of bits are written as arithmetic: `b & 0x7f` is `b % 128`, `b & 0x70` is
-- `b / 16 % 8` times 16, and `a << 8 | b` of a byte `b` is `a * 256 + b`. The guards against null
-- pointers are not modelled.
pub mod Stream
pub mod Wire
pub mod Accepted
pub mod Client
use obs_foxfire.Prelude.{
  ltb, ◌==◌, if◌then◌else◌, length, get_or, take, drop, Bytes, ℕ, zero, suc, ◌+◌, ◌*◌, ◌/◌, ◌%◌,
  ◌^◌, bit_xor, Bool, not, ◌&&◌, ◌||◌, Option, none, some, [], ◌∷◌, ◌++◌,
}

-- `enum ff_ws_opcode`
pub data Opcode : Type 0 where
  cont text binary close ping pong : Opcode

unfoldable pub op_code : Opcode → ℕ
op_code cont = 0
op_code text = 1
op_code binary = 2
op_code close = 8
op_code ping = 9
op_code pong = 10

-- The `switch` of `ff_ws_parse`; `none` is its default, a reserved opcode.
unfoldable pub opcode_of : ℕ → Option Opcode
opcode_of n =
    if n == 0
    then some cont
    else if n == 1
    then some text
    else if n == 2
    then some binary
    else if n == 8
    then some close
    else if n == 9
    then some ping
    else if n == 10
    then some pong
    else none

-- `op & 0x8`
unfoldable pub is_control : Opcode → Bool
unfolding op_code
is_control op = op_code op / 8 % 2 == 1

-- FF_WS_MAX_PAYLOAD
abbrev pub max_payload : ℕ
max_payload = 2 ^ 20

-- The `k` low bytes of `v`, the highest first: `(uint8_t)(v >> s)` for s = 8(k-1), ..., 8, 0.
abbrev pub be_bytes : ℕ → ℕ → Bytes
be_bytes zero v = []
be_bytes (suc k) v = (v / 2 ^ (8 * k) % 256) ∷ be_bytes k v

-- `out[i + k] = p[k] ^ mask[k & 3]` from index `k` on.
unfoldable pub mask_from : ℕ → Bytes → Bytes → Bytes
mask_from k mask [] = []
mask_from k mask (x ∷ xs) = bit_xor x (get_or mask (k % 4) 0) ∷ mask_from (k + 1) mask xs

-- The length field, with the bit that says that a mask follows.
unfoldable pub masked_length : ℕ → Bytes
masked_length len =
    if ltb 65535 len
    then (128 + 127) ∷ be_bytes 8 len
    else if ltb 125 len
    then (128 + 126) ∷ be_bytes 2 len
    else (128 + len) ∷ []

unfoldable pub header_size : ℕ → ℕ
header_size len = if ltb 65535 len then 14 else if ltb 125 len then 8 else 6

-- `ff_ws_build`: what is written to a buffer of `cap` bytes; `none` is the return of 0.
unfoldable pub build : Opcode → Bytes → Bytes → ℕ → Option Bytes
unfolding header_size masked_length is_control mask_from
build op payload mask cap =
    if is_control op && ltb 125 (length payload)
    then none
    else if ltb cap ((header_size (length payload) + length payload) % 2 ^ 64)
    then none
    else some (
        (128 + op_code op) ∷ (masked_length (length payload) ++ (mask ++ mask_from 0 mask payload)))

-- `struct ff_ws_msg`; the payload is the slice of the buffer that the C pointer shows.
pub record Message : Type 0 where
  pub op : Opcode
  pub fin : Bool
  pub payload : Bytes

-- What `ff_ws_parse` returns: 0, SIZE_MAX, or a message and the bytes that its frame takes.
pub data Parsed : Type 0 where
  incomplete malformed : Parsed
  frame : Message → ℕ → Parsed

-- `plen = plen << 8 | buf[2 + s]` over the bytes.
abbrev pub be_value : ℕ → Bytes → ℕ
be_value acc [] = acc
be_value acc (b ∷ bs) = be_value (acc * 256 + b) bs

-- The length field: too short, refused, or the payload's length and where the payload starts.
pub data Length : Type 0 where
  short refused : Length
  found : ℕ → ℕ → Length

unfoldable pub read_length : ℕ → Bytes → Length
read_length b buf =
    let wide = be_value 0 (take 2 (drop 2 buf)) in
    let huge = be_value 0 (take 8 (drop 2 buf)) in
    if b % 128 == 126
    then (if ltb (length buf) 4 then short else if ltb wide 126 then refused else found wide 4)
    else if b % 128 == 127
    then (if ltb (length buf) 10
        then short
        else if ltb huge 65536
        then refused
        else if huge / 2 ^ 63 % 2 == 1
        then refused
        else found huge 10)
    else found (b % 128) 2

-- The checks behind the length field.
unfoldable pub parse_payload : Opcode → Bool → Bytes → Length → Parsed
parse_payload op fin buf short = incomplete
parse_payload op fin buf refused = malformed
parse_payload op fin buf (found plen i) =
    if is_control op && (ltb 125 plen || not fin)
    then malformed
    else if ltb max_payload plen
    then malformed
    else if ltb (length buf) (i + plen)
    then incomplete
    else frame (record { op = op; fin = fin; payload = take plen (drop i buf) }) (i + plen)

-- `ff_ws_parse`
unfoldable pub parse : Bytes → Parsed
parse [] = incomplete
parse (b0 ∷ []) = incomplete
parse (b0 ∷ b1 ∷ rest) = if not (b0 / 16 % 8 == 0) then malformed else elim (opcode_of (b0 % 16)) [
  | none ↦ malformed
  | some op ↦
      if b1 / 128 % 2 == 1
      then malformed
      else parse_payload op (b0 / 128 % 2 == 1) (b0 ∷ b1 ∷ rest) (read_length b1 (b0 ∷ b1 ∷ rest))
]
