-- ===== src/Twitch.antt =====
-- The pure parts of the Twitch client: the wait before a new attempt (src/ff-twitch.c), and the scope
-- list and the form encoding of its requests (src/ff-twitch-api.c).
pub mod Backoff
pub mod Escape
pub mod Panel
pub mod Api
pub mod Worker
use obs_foxfire.EventSub.{Sub, subs}
use mathlib.Core.Option
use obs_foxfire.Prelude.{
  ltb, leb, ◌==◌, if◌then◌else◌, length, get_or, Bytes, codes, is_empty, clip, ℕ, zero, suc, ◌+◌,
  ◌-◌, ◌*◌, ◌/◌, ◌%◌, Bool, true, false, not, ◌&&◌, ◌||◌, Option, none, some, List, [], ◌∷◌, ◌++◌,
  map,
}
use obs_foxfire.Prelude.Int.{ℤ, pos, negsuc}

-- The loop of `ff_twitch_backoff_secs`, with `k` turns left before `i` reaches `attempt`.
unfoldable pub backoff_loop : ℕ → ℕ → ℕ
backoff_loop zero d = d
backoff_loop (suc k) d = let rest = backoff_loop k (d * 2) in if ltb d 60 then rest else d

-- `ff_twitch_backoff_secs`
unfoldable pub backoff_secs : ℤ → ℕ
unfolding backoff_loop
backoff_secs (negsuc n) = 1
backoff_secs (pos attempt) = let d = backoff_loop (attempt - 1) 1 in if ltb 60 d then 60 else d

abbrev pub starts_with : Bytes → Bytes → Option Bytes
starts_with [] p = some p
starts_with (x ∷ xs) [] = none
starts_with (x ∷ xs) (c ∷ p) = elim (x == c) [ true ↦ starts_with xs p | false ↦ none ]

-- The end of the list or a space.
abbrev pub ends_word : Bytes → Bool
ends_word [] = true
ends_word (c ∷ s) = c == b' '

-- The loop over the places where `probe` stands in what is written; `before` is the byte in front.
unfoldable pub already : Bytes → ℕ → Bytes → Bool
already probe before [] = false
already probe before (c ∷ s) = elim (starts_with probe (c ∷ s)) [
  | none ↦ already probe c s
  | some rest ↦ if before == b' ' && ends_word rest then true else already probe c s
]

-- The loop of `ff_twitch_scopes` from what is written so far; `none` is the return of 0 for a list that
-- does not fit.
unfoldable pub scopes_from : List Sub → Bytes → ℕ → Option Bytes
unfolding already
scopes_from [] out cap = some out
scopes_from (sub ∷ rest) out cap =
    let added = (if is_empty out then [] else b' ' ∷ []) ++ sub.scope in
    if is_empty sub.scope || already (clip 128 sub.scope) b' ' out
    then scopes_from rest out cap
    else elim (leb (cap - length out) (length added)) [
      | true ↦ none
      | false ↦ scopes_from rest (out ++ added) cap
    ]

-- `ff_twitch_scopes`, for a buffer that is not empty.
unfoldable pub scopes : ℕ → Option Bytes
unfolding scopes_from subs
scopes cap = scopes_from subs [] cap

abbrev pub is_safe : ℕ → Bool
is_safe c =
    leb b'A' c && leb c b'Z'
    || (leb b'a' c && leb c b'z'
        || (leb b'0' c && leb c b'9' || (c == b'-' || (c == b'_' || (c == b'.' || c == b'~')))))

-- `HEX[k]`
abbrev pub hex : ℕ → ℕ
hex k = get_or (codes "0123456789ABCDEF") k 0

-- The loop of `form_escape`, with `n` bytes written; `none` is the return for a text that does not fit.
unfoldable pub escape_from : ℕ → ℕ → Bytes → Option Bytes
escape_from n cap [] = if leb cap n then none else some []
escape_from n cap (c ∷ s) = elim (is_safe c) [
  | true ↦ elim (leb cap (n + 1)) [
    | true ↦ none
    | false ↦ Option.map (◌∷◌ c) (escape_from (n + 1) cap s)
  ]
  | false ↦ elim (leb cap (n + 3)) [
    | true ↦ none
    | false ↦ Option.map (λ t. b'%' ∷ hex (c / 16) ∷ hex (c % 16) ∷ t) (escape_from (n + 3) cap s)
  ]
]

-- `form_escape`: what is written, if it fits.
unfoldable pub form_escape : Bytes → ℕ → Option Bytes
unfolding escape_from
form_escape s cap = escape_from 0 cap s
