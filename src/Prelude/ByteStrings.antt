-- ===== src/Prelude/ByteStrings.antt =====
-- Byte strings. A C string is the list of its bytes before the terminating zero; a `char x[n]`
-- that `snprintf(x, n, "%s", s)` fills holds the first `n - 1` of them.
use Prim.Native.Nat.{ℕ, ◌-◌, ◌≤◌, ◌<◌}
use Prim.Native.Char.{code}
use Prim.Native.String.{String}
use mathlib.Core.Path.{◌≡◌}
use mathlib.Core.Logic.{◌↔◌}
use mathlib.Core.Bool.{Bool, true, false, ◌&&◌}
use mathlib.Core.List.{List, [], ◌∷◌}
use native.Mathlib.Omega.{arith}
use obs_foxfire.Prelude.Tests.{◌==◌}
use obs_foxfire.Prelude.Lists.{length, take, length-take}

abbrev pub Bytes : Type 0
Bytes = List ℕ

-- The bytes of a literal; every literal of the program is ASCII.
abbrev pub codes : String → Bytes
codes String.[] = []
codes (String.◌∷◌ c s) = code c ∷ codes s

-- `!*s` of a C string.
abbrev pub is_empty : Bytes → Bool
is_empty [] = true
is_empty (c ∷ s) = false

-- `strcmp(a, b) == 0`, and `memcmp` at equal lengths.
abbrev pub bytes_eq : Bytes → Bytes → Bool
bytes_eq [] [] = true
bytes_eq [] (y ∷ ys) = false
bytes_eq (x ∷ xs) [] = false
bytes_eq (x ∷ xs) (y ∷ ys) = x == y && bytes_eq xs ys

pub bytes_eq_iff : (a b : Bytes) → (bytes_eq a b ≡ true) ↔ (a ≡ b)
bytes_eq_iff [] [] = ground arith
bytes_eq_iff [] (y ∷ ys) = ground arith
bytes_eq_iff (x ∷ xs) [] = ground arith
bytes_eq_iff (x ∷ xs) (y ∷ ys) = ground (arith, bytes_eq_iff xs ys)

-- Whether the second string begins with the first.
abbrev pub begins : Bytes → Bytes → Bool
begins [] s = true
begins (x ∷ xs) [] = false
begins (x ∷ xs) (c ∷ s) = x == c && begins xs s

-- What a buffer of `cap` bytes keeps of `s`.
abbrev pub clip : ℕ → Bytes → Bytes
clip cap s = take (cap - 1) s

pub length-clip : (cap : ℕ) (s : Bytes) → length (clip cap s) ≤ cap - 1
length-clip cap s = omega (arith, length-take (cap - 1) s)

-- The C string that stands at the start of a buffer.
abbrev pub cstr : Bytes → Bytes
cstr [] = []
cstr (c ∷ s) = elim (c == 0) [ true ↦ [] | false ↦ c ∷ cstr s ]

-- Every byte is below 256.
abbrev pub IsBytes : Bytes → Type 0
IsBytes [] = Unit
IsBytes (c ∷ s) = (c < 256) × IsBytes s
