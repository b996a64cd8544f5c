-- ===== src/Ws/Frame/Stream.antt =====
-- `ff_ws_parse` on a growing buffer: its verdicts are final, it stays inside the buffer, and a full
-- receive buffer always gets a verdict.
use obs_foxfire.Prelude.{
  ◌==◌, Option-cases, length, drop, length-append, length-take, length-drop, take_of_le, drop_of_le,
  Bytes, ℕ, ◌+◌, ◌/◌, ◌%◌, ◌≤◌, ◌≡◌, refl, ◌≢◌, inl, inr, Bool, true, [], ◌∷◌, ◌++◌, arith,
}
use obs_foxfire.Ws.Frame.{
  opcode_of, is_control, max_payload, frame, found, read_length, parse_payload, parse, Message,
  Opcode, incomplete, Length, short, refused,
}

-- A read length is not changed by bytes that arrive later.
read_length-append :
    (b : ℕ) (buf rest : Bytes)
    → read_length b buf ≢ short
    → read_length b (buf ++ rest) ≡ read_length b buf
unfolding read_length
read_length-append b buf rest h = ground (
  arith,
  length-append buf rest,
  drop_of_le 2 buf rest,
  take_of_le 2 (drop 2 buf) rest,
  take_of_le 8 (drop 2 buf) rest,
  length-drop 2 buf,
)

parse_payload-append :
    (op : Opcode) (fin : Bool) (buf rest : Bytes) (l : Length)
    → (2 ≤ length buf)
    → parse_payload op fin buf l ≢ incomplete
    → parse_payload op fin (buf ++ rest) l ≡ parse_payload op fin buf l
unfolding parse_payload
parse_payload-append op fin buf rest short e h = refl
parse_payload-append op fin buf rest refused e h = refl
parse_payload-append op fin buf rest (found plen i) e h = ground (
  arith,
  length-append buf rest,
  drop_of_le i buf rest,
  take_of_le plen (drop i buf) rest,
  length-drop i buf,
)

parse_payload_short :
    (op : Opcode) (fin : Bool) (buf : Bytes) (l : Length)
    → l ≡ short
    → parse_payload op fin buf l ≡ incomplete
unfolding parse_payload
parse_payload_short op fin buf short e = refl
parse_payload_short op fin buf refused e = cc
parse_payload_short op fin buf (found plen i) e = cc

-- A verdict on a buffer, a frame or a refusal, is the verdict on every longer buffer that begins
-- with it.
pub parse-append : (buf rest : Bytes) → parse buf ≢ incomplete → parse (buf ++ rest) ≡ parse buf
unfolding parse
parse-append [] rest h = absurd (h refl)
parse-append (b0 ∷ []) rest h = absurd (h refl)
parse-append (b0 ∷ b1 ∷ t) rest h = elim (Option-cases (opcode_of (b0 % 16))) [
  | inl e ↦ ground (arith, e)
  | inr (op, e) ↦ ground (
    arith,
    e,
    read_length-append b1 (b0 ∷ b1 ∷ t) rest,
    parse_payload-append op (b0 / 128 % 2 == 1) (b0 ∷ b1 ∷ t) rest (read_length b1 (b0 ∷ b1 ∷ t))
        (omega arith),
    parse_payload_short op (b0 / 128 % 2 == 1) (b0 ∷ b1 ∷ t) (read_length b1 (b0 ∷ b1 ∷ t)),
  )
]

read_length_start :
    (b : ℕ) (buf : Bytes) (plen i : ℕ) → read_length b buf ≡ found plen i → (2 ≤ i) × (i ≤ 10)
unfolding read_length
read_length_start b buf plen i h = ground arith

read_length_full : (b : ℕ) (buf : Bytes) → 10 ≤ length buf → read_length b buf ≢ short
unfolding read_length
read_length_full b buf h = ground arith

parse_payload_bounds :
    (op : Opcode) (fin : Bool) (buf : Bytes) (l : Length) {m : Message} {used : ℕ}
    → ((plen i : ℕ) → l ≡ found plen i → (2 ≤ i) × (i ≤ 10))
    → parse_payload op fin buf l ≡ frame m used
    → (2 + length m.payload ≤ used)
      × (used ≤ length buf)
      × (length m.payload ≤ max_payload)
      × (is_control m.op ≡ true → (m.fin ≡ true) × (length m.payload ≤ 125))
unfolding parse_payload
parse_payload_bounds op fin buf short s h = cc
parse_payload_bounds op fin buf refused s h = cc
parse_payload_bounds op fin buf (found plen i) {m} {used} s h =
    ground (arith, s plen i refl, length-take plen (drop i buf), length-drop i buf)

parse_payload_full :
    (op : Opcode) (fin : Bool) (buf : Bytes) (l : Length)
    → l ≢ short
    → ((plen i : ℕ) → l ≡ found plen i → (2 ≤ i) × (i ≤ 10))
    → max_payload + 10 ≤ length buf
    → parse_payload op fin buf l ≢ incomplete
unfolding parse_payload
parse_payload_full op fin buf short n s h = absurd (n refl)
parse_payload_full op fin buf refused n s h = cc
parse_payload_full op fin buf (found plen i) n s h = ground (arith, s plen i refl)

parse_facts :
    (buf : Bytes) {m : Message} {used : ℕ}
    → parse buf ≡ frame m used
    → (2 + length m.payload ≤ used)
      × (used ≤ length buf)
      × (length m.payload ≤ max_payload)
      × (is_control m.op ≡ true → (m.fin ≡ true) × (length m.payload ≤ 125))
unfolding parse
parse_facts [] h = cc
parse_facts (b0 ∷ []) h = cc
parse_facts (b0 ∷ b1 ∷ t) {m} {used} h = elim (Option-cases (opcode_of (b0 % 16))) [
  | inl e ↦ ground (arith, e)
  | inr (op, e) ↦
      parse_payload_bounds op (b0 / 128 % 2 == 1) (b0 ∷ b1 ∷ t) (read_length b1 (b0 ∷ b1 ∷ t))
        (read_length_start b1 (b0 ∷ b1 ∷ t)) (ground (arith, e))
]

-- A frame found stays inside the buffer, holds at least the two bytes of a header, and carries at most
-- 2 ^ 20 bytes.
pub parse-frame_bounds :
    (buf : Bytes) {m : Message} {used : ℕ}
    → parse buf ≡ frame m used
    → (2 + length m.payload ≤ used) × (used ≤ length buf) × (length m.payload ≤ max_payload)
parse-frame_bounds buf h = let (a, b, c, d) = parse_facts buf h in (a, b, c)

-- A control frame that is found is final and carries at most 125 bytes.
pub parse-control_bounds :
    (buf : Bytes) {m : Message} {used : ℕ}
    → parse buf ≡ frame m used
    → is_control m.op ≡ true
    → (m.fin ≡ true) × (length m.payload ≤ 125)
parse-control_bounds buf h control = let (a, b, c, d) = parse_facts buf h in d control

-- A receive buffer that holds 2 ^ 20 + 10 bytes or more is never found incomplete: the connection,
-- whose buffer has room for 2 ^ 20 + 16, cannot wait for bytes that it has no room for.
pub parse_full : (buf : Bytes) → max_payload + 10 ≤ length buf → parse buf ≢ incomplete
unfolding parse
parse_full [] h = absurd (omega arith)
parse_full (b0 ∷ []) h = absurd (omega arith)
parse_full (b0 ∷ b1 ∷ t) h = elim (Option-cases (opcode_of (b0 % 16))) [
  | inl e ↦ ground (arith, e)
  | inr (op, e) ↦ ground (
    arith,
    e,
    parse_payload_full op (b0 / 128 % 2 == 1) (b0 ∷ b1 ∷ t) (read_length b1 (b0 ∷ b1 ∷ t))
        (read_length_full b1 (b0 ∷ b1 ∷ t) (omega arith)) (read_length_start b1 (b0 ∷ b1 ∷ t)) h,
  )
]
