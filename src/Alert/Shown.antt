-- ===== src/Alert/Shown.antt =====
-- The text that the alert source of src/ff-alert-source.c draws for an event.
use obs_foxfire.Prelude.{Bytes, ◌≤◌, ◌≢◌, [], ◌∷◌, ◌++◌}

-- No byte is a control character of ASCII.
abbrev pub IsDrawn : Bytes → Type 0
IsDrawn [] = Unit
IsDrawn (c ∷ s) = (0x20 ≤ c) × (c ≢ 0x7f) × IsDrawn s

pub append-IsDrawn : (s t : Bytes) → IsDrawn s → IsDrawn t → IsDrawn (s ++ t)
append-IsDrawn [] t p q = q
append-IsDrawn (c ∷ s) t (lo, ne, p) q = (lo, ne, append-IsDrawn s t p q)
