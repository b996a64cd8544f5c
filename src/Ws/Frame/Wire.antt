-- ===== src/Ws/Frame/Wire.antt =====
-- The frames on the wire, written down from RFC 6455 section 5.2 apart from the code: what a server
-- sends, which `ff_ws_parse` reads, and how a server reads what `ff_ws_build` makes.
use obs_foxfire.Prelude.{
  ltb, ◌==◌, if◌then◌else◌, Bool-cases, length, take, drop, length-append, take_of_le, take_all,
  Bytes, ℕ, suc, ◌+◌, ◌/◌, ◌%◌, ◌≤◌, ◌<◌, ◌≡◌, refl, ◌∙◌, inl, inr, Bool, true, false, some, List,
  [], ◌∷◌, ◌++◌, append_assoc, arith,
}
use obs_foxfire.Ws.Frame.{
  op_code, opcode_of, is_control, max_payload, be_bytes, frame, found, read_length, parse_payload,
  parse, Opcode, cont, text, binary, close, ping, pong,
}

abbrev pub plain_length : ℕ → Bytes
plain_length len =
    if ltb len 126
    then len ∷ []
    else if ltb len 65536
    then 126 ∷ be_bytes 2 len
    else 127 ∷ be_bytes 8 len

-- An unmasked frame, its length in the shortest form.
unfoldable pub server_frame : Bool → Opcode → Bytes → Bytes
server_frame fin op payload =
    ((if fin then 128 else 0) + op_code op) ∷ (plain_length (length payload) ++ payload)

-- What RFC 6455 section 5.5 asks of a control frame, and the size that the client accepts.
pub record IsAllowed (fin : Bool) (op : Opcode) (payload : Bytes) : Type 0 where
  pub size : length payload ≤ max_payload
  pub control : is_control op ≡ true → (fin ≡ true) × (length payload ≤ 125)

take-append_self {ℓ} :
    {A : Type ℓ} (xs ys : List A) (n : ℕ) → n ≡ length xs → take n (xs ++ ys) ≡ xs
take-append_self xs ys n e = take_of_le n xs ys (omega arith) ∙ take_all n xs (omega arith)

-- the first byte is read back
pub op_byte :
    (fin : Bool) (op : Opcode)
    → (((if fin then 128 else 0) + op_code op) / 16 % 8 ≡ 0)
      × (opcode_of (((if fin then 128 else 0) + op_code op) % 16) ≡ some op)
      × ((((if fin then 128 else 0) + op_code op) / 128 % 2 == 1) ≡ fin)
unfolding op_code opcode_of
op_byte true cont = (refl, refl, refl)
op_byte true text = (refl, refl, refl)
op_byte true binary = (refl, refl, refl)
op_byte true close = (refl, refl, refl)
op_byte true ping = (refl, refl, refl)
op_byte true pong = (refl, refl, refl)
op_byte false cont = (refl, refl, refl)
op_byte false text = (refl, refl, refl)
op_byte false binary = (refl, refl, refl)
op_byte false close = (refl, refl, refl)
op_byte false ping = (refl, refl, refl)
op_byte false pong = (refl, refl, refl)

-- what is left once the length field is read
payload_found :
    (fin : Bool) (op : Opcode) (payload rest buf : Bytes) (i : ℕ)
    → IsAllowed fin op payload
    → drop i buf ≡ payload ++ rest
    → length buf ≡ i + length (payload ++ rest)
    → parse_payload op fin buf (found (length payload) i)
      ≡ frame (record { op = op; fin = fin; payload = payload }) (i + length payload)
unfolding parse_payload
payload_found fin op payload rest buf i a d n = ground (
  arith,
  a.size,
  a.control,
  length-append payload rest,
  take-append_self payload rest (length payload),
)

read_small : (n : ℕ) (buf : Bytes) → n < 126 → read_length n buf ≡ found n 2
unfolding read_length
read_small n buf h = ground arith

read_wide :
    (b0 n : ℕ) (tail : Bytes)
    → 126 ≤ n
    → n < 65536
    → read_length 126 (b0 ∷ 126 ∷ (be_bytes 2 n ++ tail)) ≡ found n 4
unfolding read_length
read_wide b0 n tail lo hi = ground arith

read_huge :
    (b0 n : ℕ) (tail : Bytes)
    → 65536 ≤ n
    → n ≤ max_payload
    → read_length 127 (b0 ∷ 127 ∷ (be_bytes 8 n ++ tail)) ≡ found n 10
unfolding read_length
read_huge b0 n tail lo hi = ground arith

parse-two :
    (b0 b1 : ℕ) (t : Bytes) (op : Opcode)
    → b0 / 16 % 8 ≡ 0
    → opcode_of (b0 % 16) ≡ some op
    → b1 / 128 % 2 ≡ 0
    → parse (b0 ∷ b1 ∷ t)
      ≡ parse_payload op (b0 / 128 % 2 == 1) (b0 ∷ b1 ∷ t) (read_length b1 (b0 ∷ b1 ∷ t))
unfolding parse
parse-two b0 b1 t op r o m = ground (arith, o)

drop-append_self : (l r : Bytes) → drop (length l) (l ++ r) ≡ r
drop-append_self [] r = refl
drop-append_self (x ∷ l) r = drop-append_self l r

-- A frame whose length field is `b1 ∷ l`.
parse-field :
    (fin : Bool) (op : Opcode) (payload rest : Bytes) (b1 : ℕ) (l : Bytes)
    → IsAllowed fin op payload
    → b1 / 128 % 2 ≡ 0
    → read_length b1 (((if fin then 128 else 0) + op_code op) ∷ b1 ∷ (l ++ (payload ++ rest)))
      ≡ found (length payload) (suc (suc (length l)))
    → parse (((if fin then 128 else 0) + op_code op) ∷ ((b1 ∷ (l ++ payload)) ++ rest))
      ≡ frame
          (record { op = op; fin = fin; payload = payload })
          (length (((if fin then 128 else 0) + op_code op) ∷ b1 ∷ (l ++ payload)))
parse-field fin op payload rest b1 l a m r = rw append_assoc (
    ground (
      arith,
      parse-two ((if fin then 128 else 0) + op_code op) b1 (l ++ (payload ++ rest)) op,
      op_byte fin op,
      m,
      r,
      payload_found fin op payload rest
          (((if fin then 128 else 0) + op_code op) ∷ b1 ∷ (l ++ (payload ++ rest)))
          (suc (suc (length l))) a (drop-append_self l (payload ++ rest)),
      length-append l (payload ++ rest),
      length-append l payload,
    ))

-- Every frame that a server may send, with any bytes behind it, is read as what was sent, and as
-- long as it is.
pub parse-server_frame :
    (fin : Bool) (op : Opcode) (payload rest : Bytes)
    → IsAllowed fin op payload
    → parse (server_frame fin op payload ++ rest)
      ≡ frame
          (record { op = op; fin = fin; payload = payload })
          (length (server_frame fin op payload))
unfolding server_frame
parse-server_frame fin op payload rest a = elim (Bool-cases (ltb (length payload) 126)) [
  | inl small ↦ rw small (
      parse-field fin op payload rest (length payload) [] a (ground arith)
        (read_small (length payload) _ (ground arith)))
  | inr more ↦ elim (Bool-cases (ltb (length payload) 65536)) [
    | inl wide ↦
        rw (more, wide)
          (parse-field fin op payload rest 126 (be_bytes 2 (length payload)) a refl
            (read_wide _ (length payload) (payload ++ rest) (ground arith) (ground arith)))
    | inr huge ↦
        rw (more, huge)
          (parse-field fin op payload rest 127 (be_bytes 8 (length payload)) a refl
            (read_huge _ (length payload) (payload ++ rest) (ground arith) a.size))
  ]
]
