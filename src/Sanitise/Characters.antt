-- ===== src/Sanitise/Characters.antt =====
-- The characters that `ff_alert_sanitise` keeps, and texts made of them.
use obs_foxfire.Sanitise.{is_bidi, classify, skip, keep, Step}
use obs_foxfire.Prelude.{
  length, take, Bytes, ℕ, ◌+◌, ◌*◌, ◌/◌, ◌%◌, ◌^◌, ◌≤◌, ◌<◌, ◌≡◌, ◌≢◌, subst, false, [], ◌∷◌, ◌++◌,
  arith,
}

-- A code point that is none of the twelve marks of Unicode's bidirectional algorithm: the Arabic letter
-- mark, the two marks of direction, the embeddings and overrides, and the isolates.
abbrev pub IsNoMark : ℕ → Type 0
IsNoMark p =
    (p ≢ 0x61c)
    × (p ≢ 0x200e)
    × (p ≢ 0x200f)
    × (p ≢ 0x202a)
    × (p ≢ 0x202b)
    × (p ≢ 0x202c)
    × (p ≢ 0x202d)
    × (p ≢ 0x202e)
    × (p ≢ 0x2066)
    × (p ≢ 0x2067)
    × (p ≢ 0x2068)
    × (p ≢ 0x2069)

-- A byte sequence that may be kept: printable ASCII, or a lead byte with as many continuation bytes as
-- it announces, of a code point that is no mark. Overlong forms, surrogates and the control characters
-- from U+0080 to U+009F are among them.
pub data IsChar : Bytes → Type 0 where
  ascii : {a : ℕ} → 0x20 ≤ a → a < 0x7f → IsChar (a ∷ [])
  two :
      {a b : ℕ} → a / 32 ≡ 6 → b / 64 ≡ 2 → IsNoMark (a % 32 * 2 ^ 6 + b % 64) → IsChar (a ∷ b ∷ [])
  three :
      {a b c : ℕ}
      → a / 16 ≡ 14
      → b / 64 ≡ 2
      → c / 64 ≡ 2
      → IsNoMark (a % 16 * 2 ^ 12 + b % 64 * 2 ^ 6 + c % 64)
      → IsChar (a ∷ b ∷ c ∷ [])
  four :
      {a b c d : ℕ}
      → a / 8 ≡ 30
      → b / 64 ≡ 2
      → c / 64 ≡ 2
      → d / 64 ≡ 2
      → IsChar (a ∷ b ∷ c ∷ d ∷ [])

-- Whole characters, one after the other.
pub data IsText : Bytes → Type 0 where
  none_left : IsText []
  char_then : (ch s : Bytes) → IsChar ch → IsText s → IsText (ch ++ s)

is_bidi-IsNoMark : (p : ℕ) → is_bidi p ≡ false → IsNoMark p
is_bidi-IsNoMark p h = (
  ground (arith, h),
  ground (arith, h),
  ground (arith, h),
  ground (arith, h),
  ground (arith, h),
  ground (arith, h),
  ground (arith, h),
  ground (arith, h),
  ground (arith, h),
  ground (arith, h),
  ground (arith, h),
  ground (arith, h),
)

IsNoMark-is_bidi : (p : ℕ) → IsNoMark p → is_bidi p ≡ false
IsNoMark-is_bidi p h = ground (arith, h)

-- A character that is kept is kept whole, whatever follows.
pub keep_char : (c : ℕ) (s t : Bytes) → IsChar (c ∷ s) → classify c (s ++ t) ≡ keep (length (c ∷ s))
unfolding classify
keep_char c s t (ascii lo hi) = ground arith
keep_char c s t (two h1 h2 ok) = ground (arith, IsNoMark-is_bidi _ ok)
keep_char c s t (three h1 h2 h3 ok) = ground (arith, IsNoMark-is_bidi _ ok)
keep_char c s t (four h1 h2 h3 h4) = ground arith

ascii-IsChar : (a : ℕ) → 0x20 ≤ a → a < 0x7f → IsChar (a ∷ [])
ascii-IsChar a lo hi = ascii lo hi

two-IsChar :
    (a b : ℕ)
    → a / 32 ≡ 6
    → b / 64 ≡ 2
    → is_bidi (a % 32 * 2 ^ 6 + b % 64) ≡ false
    → IsChar (a ∷ b ∷ [])
two-IsChar a b x y h = two x y (is_bidi-IsNoMark _ h)

three-IsChar :
    (a b c : ℕ)
    → a / 16 ≡ 14
    → b / 64 ≡ 2
    → c / 64 ≡ 2
    → is_bidi (a % 16 * 2 ^ 12 + b % 64 * 2 ^ 6 + c % 64) ≡ false
    → IsChar (a ∷ b ∷ c ∷ [])
three-IsChar a b c x y z h = three x y z (is_bidi-IsNoMark _ h)

four-IsChar :
    (a b c d : ℕ) → a / 8 ≡ 30 → b / 64 ≡ 2 → c / 64 ≡ 2 → d / 64 ≡ 2 → IsChar (a ∷ b ∷ c ∷ d ∷ [])
four-IsChar a b c d x y z w = four x y z w

abbrev KeptOk : ℕ → Bytes → Step → Type 0
KeptOk c s (skip k) = Unit
KeptOk c s (keep k) = (k ≤ length (c ∷ s)) × IsChar (take k (c ∷ s))

-- And only a character is kept.
kept_ok : (c : ℕ) (s : Bytes) → KeptOk c s (classify c s)
unfolding classify
kept_ok c [] = ground (arith, ascii-IsChar c)
kept_ok c (x ∷ []) = ground (arith, ascii-IsChar c, two-IsChar c x)
kept_ok c (x ∷ y ∷ []) = ground (arith, ascii-IsChar c, two-IsChar c x, three-IsChar c x y)
kept_ok c (x ∷ y ∷ z ∷ t) =
    ground (arith, ascii-IsChar c, two-IsChar c x, three-IsChar c x y, four-IsChar c x y z)

pub kept-IsChar :
    (c k : ℕ) (s : Bytes) → classify c s ≡ keep k → (k ≤ length (c ∷ s)) × IsChar (take k (c ∷ s))
kept-IsChar c k s h = subst (KeptOk c s) h (kept_ok c s)

pub IsChar-length : {ch : Bytes} → IsChar ch → 1 ≤ length ch
IsChar-length (ascii lo hi) = omega arith
IsChar-length (two x y h) = omega arith
IsChar-length (three x y z h) = omega arith
IsChar-length (four x y z w) = omega arith
