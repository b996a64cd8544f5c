-- ===== src/Twitch/Escape.antt =====
-- Percent-encoding against a decoder written down from the form's standard.

use obs_foxfire.Prelude.{leb, ◌==◌, if◌then◌else◌, Bytes, ℕ, ◌+◌, ◌-◌, ◌*◌, true, false, [], ◌∷◌}

-- The value of an upper-case hexadecimal digit.
pub hex_value : ℕ → ℕ
hex_value c = if leb c b'9' then c - b'0' else c - b'A' + 10

pub unescape : Bytes → Bytes
unescape [] = []
unescape (c ∷ []) = c ∷ []
unescape (c ∷ d ∷ []) = c ∷ d ∷ []
unescape (c ∷ h ∷ l ∷ s) = elim (c == b'%') [
  | true ↦ (hex_value h * 16 + hex_value l) ∷ unescape s
  | false ↦ c ∷ unescape (h ∷ l ∷ s)
]
