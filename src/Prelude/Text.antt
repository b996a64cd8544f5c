-- ===== src/Prelude/Text.antt =====
-- Decimal numbers as `%d`, `%lld` and `%zu` print them.
use Prim.Native.Nat.{ℕ, zero, suc, ◌+◌, ◌/◌, ◌%◌}
use mathlib.Core.List.{[], ◌∷◌}
use obs_foxfire.Prelude.Tests.{ltb, if◌then◌else◌}
use obs_foxfire.Prelude.ByteStrings.{Bytes}
use obs_foxfire.Prelude.Int.{ℤ, pos, negsuc}

-- The digits of `n` in front of `rest`. A number has at most as many digits as itself plus one,
-- so fuel `n` is enough.
unfoldable pub decimal_onto : ℕ → ℕ → Bytes → Bytes
decimal_onto zero n rest = (b'0' + n % 10) ∷ rest
decimal_onto (suc f) n rest =
    let more = decimal_onto f (n / 10) ((b'0' + n % 10) ∷ rest) in
    if ltb n 10 then (b'0' + n % 10) ∷ rest else more

unfoldable pub decimal : ℕ → Bytes
unfolding decimal_onto
decimal n = decimal_onto n n []

unfoldable pub decimal_ℤ : ℤ → Bytes
unfolding decimal
decimal_ℤ (pos n) = decimal n
decimal_ℤ (negsuc n) = b'-' ∷ decimal (suc n)
