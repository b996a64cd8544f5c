-- ===== src/Ws/Frame/Client.antt =====
-- How a server reads a frame of `ff_ws_build`, written down from RFC 6455 sections 5.2 and 5.3 apart
-- from the code, and that it gets the message back.
use obs_foxfire.Prelude.Bits.{bit_xor_twice}
use obs_foxfire.Prelude.{
  ◌==◌, if◌then◌else◌, length, get_or, take, drop, Bytes, IsBytes, ℕ, zero, suc, ◌+◌, ◌/◌, ◌%◌, ◌^◌,
  ◌<◌, bit_xor, ◌≡◌, refl, ap, ◌∙◌, ◌&&◌, Option, none, some, [], ◌∷◌, ◌++◌, arith,
}
use obs_foxfire.Ws.Frame.{
  op_code, opcode_of, mask_from, masked_length, build, be_value, Opcode, cont, text, binary, close,
  ping, pong,
}

-- Each byte with the next byte of the key, the key used round and round.
pub unmask : ℕ → ℕ → ℕ → ℕ → Bytes → Bytes
unmask a b c d [] = []
unmask a b c d (x ∷ xs) = bit_xor x a ∷ unmask b c d a xs

-- Behind the length: the key, and exactly `n` bytes.
pub read_masked : Opcode → ℕ → Bytes → Option (Opcode × Bytes)
read_masked op n (a ∷ b ∷ c ∷ d ∷ xs) =
    if length xs == n then some (op, unmask a b c d xs) else none
read_masked op n _ = none

pub read_client_frame : Bytes → Option (Opcode × Bytes)
read_client_frame (b0 ∷ b1 ∷ t) = elim (opcode_of (b0 % 16)) [
  | none ↦ none
  | some op ↦
      if b0 / 16 == 8 && b1 / 128 == 1
      then (if b1 == 255
          then read_masked op (be_value 0 (take 8 t)) (drop 8 t)
          else if b1 == 254
          then read_masked op (be_value 0 (take 2 t)) (drop 2 t)
          else read_masked op (b1 % 128) t)
      else none
]
read_client_frame _ = none

length-mask_from : (k : ℕ) (mask xs : Bytes) → length (mask_from k mask xs) ≡ length xs
unfolding mask_from
length-mask_from k mask [] = refl
length-mask_from k mask (x ∷ xs) = ap suc (length-mask_from (k + 1) mask xs)

key_below :
    (a b c d j : ℕ) → IsBytes (a ∷ b ∷ c ∷ d ∷ []) → j < 4 → get_or (a ∷ b ∷ c ∷ d ∷ []) j 0 < 256
key_below a b c d zero v h = v.0
key_below a b c d (suc zero) v h = v.1.0
key_below a b c d (suc (suc zero)) v h = v.1.1.0
key_below a b c d (suc (suc (suc zero))) v h = v.1.1.1.0
key_below a b c d (suc (suc (suc (suc j)))) v h = absurd (omega arith)

first_byte :
    (op : Opcode) → ((128 + op_code op) / 16 ≡ 8) × (opcode_of ((128 + op_code op) % 16) ≡ some op)
unfolding op_code opcode_of
first_byte cont = (refl, refl)
first_byte text = (refl, refl)
first_byte binary = (refl, refl)
first_byte close = (refl, refl)
first_byte ping = (refl, refl)
first_byte pong = (refl, refl)

key_lt :
    (a b c d k : ℕ) → IsBytes (a ∷ b ∷ c ∷ d ∷ []) → get_or (a ∷ b ∷ c ∷ d ∷ []) (k % 4) 0 < 256
key_lt a b c d k v = key_below a b c d (k % 4) v (omega arith)

-- Unmasking with the key turned to the place of byte `k` undoes the mask from `k` on.
unmask-mask_from :
    (k a b c d p q r s : ℕ) (xs : Bytes)
    → IsBytes (a ∷ b ∷ c ∷ d ∷ [])
    → IsBytes xs
    → p ≡ get_or (a ∷ b ∷ c ∷ d ∷ []) (k % 4) 0
    → q ≡ get_or (a ∷ b ∷ c ∷ d ∷ []) ((k + 1) % 4) 0
    → r ≡ get_or (a ∷ b ∷ c ∷ d ∷ []) ((k + 2) % 4) 0
    → s ≡ get_or (a ∷ b ∷ c ∷ d ∷ []) ((k + 3) % 4) 0
    → unmask p q r s (mask_from k (a ∷ b ∷ c ∷ d ∷ []) xs) ≡ xs
unfolding unmask mask_from
unmask-mask_from k a b c d p q r s [] v w ep eq er es = refl
unmask-mask_from k a b c d p q r s (x ∷ xs) v w ep eq er es =
    rw (ep, bit_xor_twice x (get_or (a ∷ b ∷ c ∷ d ∷ []) (k % 4) 0) w.0 (key_lt a b c d k v))
      (ap (λ t. x ∷ t)
        (unmask-mask_from (k + 1) a b c d q r s _ xs v w.1 eq (er ∙ turn (omega arith))
          (es ∙ turn (omega arith)) (turn (omega arith))))
  where
    turn : {i j : ℕ} → i ≡ j → get_or (a ∷ b ∷ c ∷ d ∷ []) i 0 ≡ get_or (a ∷ b ∷ c ∷ d ∷ []) j 0
    turn e = ap (λ i. get_or (a ∷ b ∷ c ∷ d ∷ []) i 0) e

module _ (op : Opcode) (payload : Bytes) (a b c d : ℕ) (v : IsBytes (a ∷ b ∷ c ∷ d ∷ []))
    (w : IsBytes payload) where
  abbrev body : Bytes
  body = a ∷ b ∷ c ∷ d ∷ mask_from 0 (a ∷ b ∷ c ∷ d ∷ []) payload

  read_body : read_masked op (length payload) body ≡ some (op, payload)
  unfolding read_masked
  read_body = ground (
    arith,
    length-mask_from 0 (a ∷ b ∷ c ∷ d ∷ []) payload,
    unmask-mask_from 0 a b c d a b c d payload v w refl refl refl refl,
  )

  read_any :
      length payload < 2 ^ 63
      → read_client_frame ((128 + op_code op) ∷ (masked_length (length payload) ++ body))
        ≡ some (op, payload)
  unfolding read_client_frame masked_length
  read_any small = ground (arith, first_byte op, read_body)

-- What `ff_ws_build` makes of a message that fits is read by the server as that message.
pub read-build :
    (op : Opcode) (payload : Bytes) (a b c d cap : ℕ) (f : Bytes)
    → IsBytes (a ∷ b ∷ c ∷ d ∷ [])
    → IsBytes payload
    → length payload < 2 ^ 63
    → build op payload (a ∷ b ∷ c ∷ d ∷ []) cap ≡ some f
    → read_client_frame f ≡ some (op, payload)
unfolding build
read-build op payload a b c d cap f v w small h =
    ground (arith, read_any op payload a b c d v w small)
