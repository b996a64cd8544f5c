-- ===== src/Sanitise.antt =====
-- `ff_alert_sanitise` of src/ff-alert.c (declared in src/ff-alert.h): what is kept of a text that is
-- drawn. The input is a C string, and a read at its end finds the zero byte. A mask that keeps the
-- high bits of a byte is a division here.
pub mod Characters
pub mod Output
use obs_foxfire.Prelude.{
  ltb, leb, ◌==◌, if◌then◌else◌, length, get_or, take, drop, Bytes, ℕ, zero, suc, ◌+◌, ◌-◌, ◌*◌,
  ◌/◌, ◌%◌, ◌^◌, Bool, true, false, not, ◌&&◌, ◌||◌, Option, none, some, [], ◌∷◌, ◌++◌,
}

-- The length that a lead byte announces; 0 for a byte that leads no character.
abbrev pub lead_length : ℕ → ℕ
lead_length c =
    if ltb c 0x80
    then 1
    else if c / 32 == 6
    then 2
    else if c / 16 == 14
    then 3
    else if c / 8 == 30
    then 4
    else 0

abbrev pub is_continuation : ℕ → Bool
is_continuation c = c / 64 == 2

-- The loop over `k`: the next `k` bytes are continuation bytes.
abbrev pub continues : ℕ → Bytes → Bool
continues zero s = true
continues (suc k) [] = false
continues (suc k) (c ∷ s) = is_continuation c && continues k s

-- `cp` of a character of two or three bytes.
abbrev pub code_point : ℕ → ℕ → Bytes → ℕ
code_point len c s =
    if len == 2
    then c % 32 * 2 ^ 6 + get_or s 0 0 % 64
    else c % 16 * 2 ^ 12 + get_or s 0 0 % 64 * 2 ^ 6 + get_or s 1 0 % 64

abbrev pub is_bidi : ℕ → Bool
is_bidi cp =
    leb 0x202a cp && leb cp 0x202e
    || (leb 0x2066 cp && leb cp 0x2069 || (cp == 0x200e || (cp == 0x200f || cp == 0x061c)))

-- What one turn does with the bytes in front: drop some and count that, or keep a character.
pub data Step : Type 0 where
  skip keep : ℕ → Step

unfoldable pub classify : ℕ → Bytes → Step
classify c s =
    let len = lead_length c in
    if len == 0
    then skip 1
    else if not (continues (len - 1) s)
    then skip 1
    else if len == 1 && (ltb c 0x20 || c == 0x7f)
    then skip 1
    else if (len == 2 || len == 3) && is_bidi (code_point len c s)
    then skip len
    else keep len

-- The loop, from a place in the input: the fuel, `j`, `cap` and `removed`, and what it writes there
-- with the final count. Every turn goes on by a byte or more, so the input's length is enough fuel.
unfoldable pub sanitise_from : ℕ → ℕ → ℕ → ℕ → Bytes → Bytes × ℕ
unfolding classify
sanitise_from zero j cap removed s = ([], removed)
sanitise_from (suc f) j cap removed [] = ([], removed)
sanitise_from (suc f) j cap removed (c ∷ s) = elim (classify c s) [
  | skip k ↦ sanitise_from f j cap (removed + 1) (drop k (c ∷ s))
  | keep k ↦ elim (ltb cap (j + k + 1)) [
    | true ↦ ([], removed)
    | false ↦
        let (out, count) = sanitise_from f (j + k) cap removed (drop k (c ∷ s)) in
        (take k (c ∷ s) ++ out, count)
  ]
]

-- `ff_alert_sanitise`: what `out` holds, or `none` when it is not written, and the result.
unfoldable pub sanitise : Option Bytes → ℕ → Option Bytes × ℕ
unfolding sanitise_from
sanitise s zero = (none, 0)
sanitise none (suc cap) = (some [], 0)
sanitise (some s) (suc cap) =
    let (out, count) = sanitise_from (length s) 0 (suc cap) 0 s in (some out, count)
