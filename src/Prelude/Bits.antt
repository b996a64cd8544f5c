-- ===== src/Prelude/Bits.antt =====
-- Exclusive or on bytes: every pair of a byte and a mask is tried.
use Prim.Native.Nat.{ℕ, zero, suc, ◌<◌, bit_xor}
use mathlib.Core.Path.{◌≡◌, refl}
use mathlib.Core.Bool.{Bool, true, ◌&&◌}
use native.Mathlib.Omega.{arith}
use obs_foxfire.Prelude.Tests.{◌==◌, ltb}

-- Masking keeps to a byte, and masking again restores it.
restores : ℕ → ℕ → Bool
restores byte mask = let masked = bit_xor byte mask in ltb masked 256 && bit_xor masked mask == byte

-- The masks below `m`, and all masks for the bytes below `b`.
row : ℕ → ℕ → Bool
row byte zero = true
row byte (suc m) = row byte m && restores byte m

full_row : ℕ → Bool
full_row byte = row byte 256

table : ℕ → Bool
table zero = true
table (suc b) = table b && full_row b

in_row : (byte m mask : ℕ) → row byte m ≡ true → mask < m → restores byte mask ≡ true
unfolding row
in_row byte zero mask h lt = ground (arith, lt)
in_row byte (suc m) mask h lt = ground (arith, in_row byte m mask)

in_table : (b byte : ℕ) → table b ≡ true → byte < b → full_row byte ≡ true
unfolding table
in_table zero byte h lt = ground (arith, lt)
in_table (suc b) byte h lt = ground (arith, in_table b byte)

whole_table : table 256 ≡ true
unfolding table full_row row restores
whole_table = refl

entry : (byte mask : ℕ) → byte < 256 → mask < 256 → restores byte mask ≡ true
unfolding full_row
entry byte mask small key = in_row byte 256 mask (in_table 256 byte whole_table small) key

-- Masking twice with one byte gives the byte back.
pub bit_xor_twice : (x m : ℕ) → x < 256 → m < 256 → bit_xor (bit_xor x m) m ≡ x
unfolding restores
bit_xor_twice x m small key = ground (arith, entry x m small key)

pub bit_xor-lt : (x m : ℕ) → x < 256 → m < 256 → bit_xor x m < 256
unfolding restores
bit_xor-lt x m small key = ground (arith, entry x m small key)
