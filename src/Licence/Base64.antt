-- ===== src/Licence/Base64.antt =====
-- `b64dec` of src/ff-licence.c against `b64` of src/ff-ws.c.
use obs_foxfire.Ws.Digest.{b64, alphabet, b64_groups}
use obs_foxfire.Licence.{index_of, b64dec_from, b64dec}
use mathlib.Core.Option
use mathlib.Core.Path.{ap₂}
use obs_foxfire.Prelude.{
  ltb, leb, ◌==◌, ==_iff, Bool-cases, length, get_or, Bytes, IsBytes, ℕ, zero, suc, ◌+◌, ◌-◌, ◌*◌,
  ◌/◌, ◌%◌, ◌^◌, ◌≤◌, ◌<◌, ◌≡◌, refl, sym, ap, ◌∙◌, subst, inl, inr, Bool, true, false, not, ◌&&◌,
  Option, none, some, [], ◌∷◌, arith,
}

-- Place `k` of the alphabet is found there, and is no `=`.
is_placed : ℕ → Bool
is_placed k =
    elim (index_of alphabet (get_or alphabet k 0)) [ none ↦ false | some i ↦ i == k ]
    && not (get_or alphabet k 0 == b'=')

all_placed : ℕ → Bool
all_placed zero = true
all_placed (suc k) = is_placed k && all_placed k

and_split : (a b : Bool) → (a && b) ≡ true → (a ≡ true) × (b ≡ true)
and_split a b h = ground arith

all_placed_lem : (n k : ℕ) → all_placed n ≡ true → k < n → is_placed k ≡ true
unfolding all_placed
all_placed_lem zero k h lt = absurd (omega (arith, lt))
all_placed_lem (suc n) k h lt =
    let s = and_split (is_placed n) (all_placed n) h in
    elim (Bool-cases (k == n)) [
      | inl e ↦ subst (λ x. is_placed x ≡ true) (sym ((==_iff k n).0 e)) s.0
      | inr ne ↦ all_placed_lem n k s.1 (ground (arith, lt, ne))
    ]

found_lem :
    (o : Option ℕ) (k : ℕ) (b : Bool)
    → (elim o [ none ↦ false | some i ↦ i == k ] && not b) ≡ true
    → (o ≡ some k) × (b ≡ false)
found_lem none k b h = ground arith
found_lem (some i) k true h = ground arith
found_lem (some i) k false h = (ap some ((==_iff i k).0 (and_split (i == k) true h).0), refl)

all_64 : all_placed 64 ≡ true
unfolding all_placed is_placed index_of
all_64 = refl

pub sextet_placed :
    (k : ℕ)
    → k < 64
    → (index_of alphabet (get_or alphabet k 0) ≡ some k) × ((get_or alphabet k 0 == b'=') ≡ false)
unfolding is_placed
sextet_placed k lt =
    found_lem (index_of alphabet (get_or alphabet k 0)) k (get_or alphabet k 0 == b'=')
      (all_placed_lem 64 k (all_64) lt)

-- One character of the alphabet is a turn of the loop of `b64dec`.
b64dec_turn :
    (acc bits room k : ℕ) (s : Bytes)
    → k < 64
    → b64dec_from acc bits room (get_or alphabet k 0 ∷ s) ≡ (
        let acc' = (acc * 2 ^ 6 + k) % 2 ^ 32 in
        elim (leb 8 (bits + 6)) [
          | false ↦ b64dec_from acc' (bits + 6) room s
          | true ↦ elim room [
            | zero ↦ none
            | suc room' ↦
                Option.map
                  (◌∷◌ (acc' / 2 ^ (bits + 6 - 8) % 256))
                  (b64dec_from acc' (bits + 6 - 8) room' s)
          ]
        ])
unfolding b64dec_from
b64dec_turn acc bits room k s lt = let p = sextet_placed k lt in rw (p.1, b64dec_from, p.0) refl

abbrev next_acc : ℕ → ℕ → ℕ
next_acc acc k = (acc * 2 ^ 6 + k) % 2 ^ 32

abbrev push : ℕ → Option Bytes → Option Bytes
push x o = Option.map (◌∷◌ x) o

-- The two, three or four characters of a group, from an empty accumulator.
two_turns :
    (acc room k1 k2 : ℕ) (s : Bytes)
    → k1 < 64
    → k2 < 64
    → b64dec_from acc 0 (suc room) (get_or alphabet k1 0 ∷ get_or alphabet k2 0 ∷ s)
      ≡ Option.map
          (◌∷◌ ((k1 * 4 + k2 / 16) % 256))
          (b64dec_from (next_acc (next_acc acc k1) k2) 4 room s)
two_turns acc room k1 k2 s l1 l2 =
    let byte : next_acc (next_acc acc k1) k2 / 2 ^ 4 % 256 ≡ (k1 * 4 + k2 / 16) % 256 =
      omega arith in
    b64dec_turn acc 0 (suc room) k1 _ l1
    ∙ b64dec_turn (next_acc acc k1) 6 (suc room) k2 s l2
    ∙ ap (λ x. Option.map (◌∷◌ x) (b64dec_from (next_acc (next_acc acc k1) k2) 4 room s)) byte

third_turn :
    (acc room k2 k3 : ℕ) (s : Bytes)
    → k2 < 64
    → k3 < 64
    → b64dec_from (next_acc acc k2) 4 (suc room) (get_or alphabet k3 0 ∷ s)
      ≡ Option.map
          (◌∷◌ ((k2 % 16 * 16 + k3 / 4) % 256))
          (b64dec_from (next_acc (next_acc acc k2) k3) 2 room s)
third_turn acc room k2 k3 s l2 l3 =
    let byte : next_acc (next_acc acc k2) k3 / 2 ^ 2 % 256 ≡ (k2 % 16 * 16 + k3 / 4) % 256 =
      omega arith in
    b64dec_turn (next_acc acc k2) 4 (suc room) k3 s l3
    ∙ ap (λ x. Option.map (◌∷◌ x) (b64dec_from (next_acc (next_acc acc k2) k3) 2 room s)) byte

fourth_turn :
    (acc room k3 k4 : ℕ) (s : Bytes)
    → k3 < 64
    → k4 < 64
    → b64dec_from (next_acc acc k3) 2 (suc room) (get_or alphabet k4 0 ∷ s)
      ≡ Option.map (◌∷◌ (k3 % 4 * 64 + k4)) (b64dec_from (next_acc (next_acc acc k3) k4) 0 room s)
fourth_turn acc room k3 k4 s l3 l4 =
    let byte : next_acc (next_acc acc k3) k4 / 2 ^ 0 % 256 ≡ k3 % 4 * 64 + k4 =
      omega (arith, l3, l4) in
    b64dec_turn (next_acc acc k3) 2 (suc room) k4 s l4
    ∙ ap (λ x. Option.map (◌∷◌ x) (b64dec_from (next_acc (next_acc acc k3) k4) 0 room s)) byte

-- The decoding stops at the padding.
at_padding : (acc bits room : ℕ) (s : Bytes) → b64dec_from acc bits room (b'=' ∷ s) ≡ some []
unfolding b64dec_from
at_padding acc bits room s = refl

-- The three bytes of a group, out of its six-bit parts.
first_byte :
    (a b c : ℕ)
    → a < 256
    → b < 256
    → c < 256
    → (let w = a * 2 ^ 16 + b * 2 ^ 8 + c in (w / 2 ^ 18 % 64 * 4 + w / 2 ^ 12 % 64 / 16) % 256 ≡ a)
first_byte a b c x y z = omega (arith, x, y, z)

second_byte :
    (a b c : ℕ)
    → a < 256
    → b < 256
    → c < 256
    → (let w = a * 2 ^ 16 + b * 2 ^ 8 + c in
        (w / 2 ^ 12 % 64 % 16 * 16 + w / 2 ^ 6 % 64 / 4) % 256 ≡ b)
second_byte a b c x y z = omega (arith, x, y, z)

third_byte :
    (a b c : ℕ)
    → a < 256
    → b < 256
    → c < 256
    → (let w = a * 2 ^ 16 + b * 2 ^ 8 + c in w / 2 ^ 6 % 64 % 4 * 64 + w / 2 ^ 0 % 64 ≡ c)
third_byte a b c x y z = omega (arith, x, y, z)

at_end : (acc room : ℕ) → b64dec_from acc 0 room [] ≡ some []
unfolding b64dec_from
at_end acc room = refl

-- From whatever accumulator: bytes that `b64` encodes are decoded as they were, if there is room.
pub b64dec_from-b64_groups :
    (room : ℕ) (p : Bytes) (acc : ℕ)
    → IsBytes p
    → length p ≤ room
    → b64dec_from acc 0 room (b64_groups p) ≡ some p
unfolding b64_groups
b64dec_from-b64_groups room [] acc v fits = at_end acc room
b64dec_from-b64_groups zero (a ∷ p) acc v fits = absurd (omega (arith, fits))
b64dec_from-b64_groups (suc room) (a ∷ []) acc v fits =
    let w = a * 2 ^ 16 in
    let one : (w / 2 ^ 18 % 64 * 4 + w / 2 ^ 12 % 64 / 16) % 256 ≡ a = omega (arith, v.0) in
    two_turns acc room (w / 2 ^ 18 % 64) (w / 2 ^ 12 % 64) _ (omega arith) (omega arith)
    ∙ ap (Option.map (◌∷◌ _)) (at_padding _ 4 room _)
    ∙ ap (λ x. some (x ∷ [])) one
b64dec_from-b64_groups (suc zero) (a ∷ b ∷ p) acc v fits = absurd (omega (arith, fits))
b64dec_from-b64_groups (suc (suc room)) (a ∷ b ∷ []) acc v fits =
    let w = a * 2 ^ 16 + b * 2 ^ 8 in
    let one : (w / 2 ^ 18 % 64 * 4 + w / 2 ^ 12 % 64 / 16) % 256 ≡ a = omega (arith, v.0, v.1.0) in
    let two : (w / 2 ^ 12 % 64 % 16 * 16 + w / 2 ^ 6 % 64 / 4) % 256 ≡ b =
      omega (arith, v.0, v.1.0) in
    let x1 = (w / 2 ^ 18 % 64 * 4 + w / 2 ^ 12 % 64 / 16) % 256 in
    let x2 = (w / 2 ^ 12 % 64 % 16 * 16 + w / 2 ^ 6 % 64 / 4) % 256 in
    two_turns acc (suc room) (w / 2 ^ 18 % 64) (w / 2 ^ 12 % 64) _ (omega arith) (omega arith)
    ∙ ap (push x1)
        (third_turn _ room (w / 2 ^ 12 % 64) (w / 2 ^ 6 % 64) _ (omega arith) (omega arith))
    ∙ ap (λ x. push x1 (push x2 x)) (at_padding _ 2 room _)
    ∙ ap₂ (λ x y. some (x ∷ y ∷ [])) one two
b64dec_from-b64_groups (suc (suc zero)) (a ∷ b ∷ c ∷ p) acc v fits = absurd (omega (arith, fits))
b64dec_from-b64_groups (suc (suc (suc room))) (a ∷ b ∷ c ∷ p) acc v fits =
    let w = a * 2 ^ 16 + b * 2 ^ 8 + c in
    let x3 = w / 2 ^ 6 % 64 % 4 * 64 + w / 2 ^ 0 % 64 in
    let acc' =
      next_acc
        (next_acc (next_acc (next_acc acc (w / 2 ^ 18 % 64)) (w / 2 ^ 12 % 64)) (w / 2 ^ 6 % 64))
        (w / 2 ^ 0 % 64) in
    let x1 = (w / 2 ^ 18 % 64 * 4 + w / 2 ^ 12 % 64 / 16) % 256 in
    let x2 = (w / 2 ^ 12 % 64 % 16 * 16 + w / 2 ^ 6 % 64 / 4) % 256 in
    two_turns acc (suc (suc room)) (w / 2 ^ 18 % 64) (w / 2 ^ 12 % 64) _ (omega arith) (omega arith)
    ∙ ap (push x1)
        (third_turn _ (suc room) (w / 2 ^ 12 % 64) (w / 2 ^ 6 % 64) _ (omega arith) (omega arith))
    ∙ ap (λ x. push x1 (push x2 x))
        (fourth_turn _ room (w / 2 ^ 6 % 64) (w / 2 ^ 0 % 64) _ (omega arith) (omega arith))
    ∙ ap (λ x. push x1 (push x2 (push x3 x)))
        (b64dec_from-b64_groups room p acc' v.1.1.1 (omega (arith, fits)))
    ∙ ap₂ (λ x y. some (x ∷ y ∷ x3 ∷ p)) (first_byte a b c v.0 v.1.0 v.1.1.0)
        (second_byte a b c v.0 v.1.0 v.1.1.0)
    ∙ ap (λ x. some (a ∷ b ∷ x ∷ p)) (third_byte a b c v.0 v.1.0 v.1.1.0)

-- Decoding what `b64` writes gives the bytes back, at every length that fits in the buffer.
pub b64dec-b64 :
    (p : Bytes) (size cap : ℕ) (s : Bytes)
    → IsBytes p
    → length p ≤ cap
    → b64 p size ≡ some s
    → b64dec s cap ≡ some p
unfolding b64 b64dec
b64dec-b64 p size cap s v fits e =
    let whole = b64dec_from-b64_groups cap p 0 v fits in
    elim (Bool-cases (ltb size ((length p + 2) / 3 * 4 + 1))) [
      | inl small ↦ ground (arith, e, small)
      | inr large ↦ ground (arith, e, large, whole)
    ]
