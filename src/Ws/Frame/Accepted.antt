-- ===== src/Ws/Frame/Accepted.antt =====
-- What `ff_ws_parse` accepts is a frame that a server may send, in the shortest form.
use obs_foxfire.Ws.Frame.Wire.{server_frame, plain_length}
use obs_foxfire.Prelude.{
  ◌==◌, if◌then◌else◌, Option-cases, take, drop, length-take, length-drop, take_all, Bytes, IsBytes,
  ℕ, zero, suc, ◌+◌, ◌/◌, ◌%◌, ◌<◌, ◌≡◌, refl, sym, ap, ◌∙◌, inl, inr, Bool, some, List, [], ◌∷◌,
  ◌++◌, arith,
}
use obs_foxfire.Ws.Frame.{
  op_code, opcode_of, frame, found, read_length, parse_payload, parse, Message, Opcode, Length,
  short, refused,
}

take_add {ℓ} :
    {A : Type ℓ} (n m : ℕ) (xs : List A) → take (n + m) xs ≡ take n xs ++ take m (drop n xs)
take_add zero m xs = ap (λ k. take k xs) (omega arith)
take_add (suc n) m [] = take_all (suc n + m) [] (omega arith) ∙ sym (take_all m [] (omega arith))
take_add (suc n) m (x ∷ xs) =
    let e : suc n + m ≡ suc (n + m) = omega arith in rw e (ap (λ t. x ∷ t) (take_add n m xs))

code_of : (n : ℕ) (op : Opcode) → opcode_of n ≡ some op → n ≡ op_code op
unfolding opcode_of op_code
code_of n op h = ground arith

first_byte :
    (b : ℕ) (op : Opcode)
    → b < 256
    → b / 16 % 8 ≡ 0
    → opcode_of (b % 16) ≡ some op
    → b ≡ (if (b / 128 % 2 == 1) then 128 else 0) + op_code op
first_byte b op lt r o = ground (arith, code_of (b % 16) op o)

-- The length field read is the shortest one for its value.
length_field :
    (b0 b1 : ℕ) (t : Bytes) (plen i : ℕ)
    → IsBytes (b0 ∷ b1 ∷ t)
    → b1 / 128 % 2 ≡ 0
    → read_length b1 (b0 ∷ b1 ∷ t) ≡ found plen i
    → take i (b0 ∷ b1 ∷ t) ≡ b0 ∷ plain_length plen
unfolding read_length
length_field b0 b1 [] plen i v m h = ground arith
length_field b0 b1 (c ∷ []) plen i v m h = ground arith
length_field b0 b1 (c ∷ d ∷ []) plen i v m h = ground arith
length_field b0 b1 (c ∷ d ∷ e ∷ []) plen i v m h = ground arith
length_field b0 b1 (c ∷ d ∷ e ∷ f ∷ []) plen i v m h = ground arith
length_field b0 b1 (c ∷ d ∷ e ∷ f ∷ g ∷ []) plen i v m h = ground arith
length_field b0 b1 (c ∷ d ∷ e ∷ f ∷ g ∷ j ∷ []) plen i v m h = ground arith
length_field b0 b1 (c ∷ d ∷ e ∷ f ∷ g ∷ j ∷ k ∷ []) plen i v m h = ground arith
length_field b0 b1 (c ∷ d ∷ e ∷ f ∷ g ∷ j ∷ k ∷ l ∷ t) plen i v m h = ground arith

payload_sound :
    (op : Opcode) (fin : Bool) (b0 b1 : ℕ) (t : Bytes) (l : Length) {m : Message} {used : ℕ}
    → b0 ≡ (if fin then 128 else 0) + op_code op
    → ((plen i : ℕ) → l ≡ found plen i → take i (b0 ∷ b1 ∷ t) ≡ b0 ∷ plain_length plen)
    → parse_payload op fin (b0 ∷ b1 ∷ t) l ≡ frame m used
    → take used (b0 ∷ b1 ∷ t) ≡ server_frame m.fin m.op m.payload
unfolding parse_payload server_frame
payload_sound op fin b0 b1 t short e s h = cc
payload_sound op fin b0 b1 t refused e s h = cc
payload_sound op fin b0 b1 t (found plen i) {m} {used} e s h = ground (
  arith,
  s plen i refl,
  take_add i plen (b0 ∷ b1 ∷ t),
  length-take plen (drop i (b0 ∷ b1 ∷ t)),
  length-drop i (b0 ∷ b1 ∷ t),
)

-- Of a buffer of bytes, whatever is accepted is, byte for byte, the frame that a server writes for
-- the message returned: no reserved bit or opcode, no mask, and the shortest length.
pub parse-frame_sound :
    (buf : Bytes) {m : Message} {used : ℕ}
    → IsBytes buf
    → parse buf ≡ frame m used
    → take used buf ≡ server_frame m.fin m.op m.payload
unfolding parse
parse-frame_sound [] v h = cc
parse-frame_sound (b0 ∷ []) v h = cc
parse-frame_sound (b0 ∷ b1 ∷ t) {m} {used} v h = elim (Option-cases (opcode_of (b0 % 16))) [
  | inl e ↦ ground (arith, e)
  | inr (op, e) ↦
      let rsv : b0 / 16 % 8 ≡ 0 = ground (arith, e) in
      let plain : b1 / 128 % 2 ≡ 0 = ground (arith, e) in
      payload_sound op (b0 / 128 % 2 == 1) b0 b1 t (read_length b1 (b0 ∷ b1 ∷ t))
        (first_byte b0 op v.0 rsv e) (λ plen i l. length_field b0 b1 t plen i v plain l)
        (ground (arith, e))
]
