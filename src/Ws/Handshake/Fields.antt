-- ===== src/Ws/Handshake/Fields.antt =====
-- What a header field and an element of its value are, for the handshake of src/ff-ws-conn.c: as RFC
-- 7230 writes them, letters compared without their case.
use obs_foxfire.Ws.Handshake.{lower, value_is}
use obs_foxfire.Prelude.{
  ◌==◌, Bool-cases, length, Bytes, bytes_eq, bytes_eq_iff, ℕ, ◌+◌, ◌≤◌, ◌≡◌, ◌≢◌, ◌⊎◌, inl, inr,
  true, [], ◌∷◌, ◌++◌, map, arith,
}

-- The same letter, in upper or in lower case, or the same byte.
abbrev pub IsLike : ℕ → ℕ → Type 0
IsLike a b = (a ≡ b) ⊎ ((65 ≤ a) × (a ≤ 90) × (b ≡ a + 32)) ⊎ ((65 ≤ b) × (b ≤ 90) × (a ≡ b + 32))

abbrev pub IsCaseless : Bytes → Bytes → Type 0
IsCaseless [] [] = Unit
IsCaseless [] (b ∷ t) = ⊥
IsCaseless (a ∷ s) [] = ⊥
IsCaseless (a ∷ s) (b ∷ t) = IsLike a b × IsCaseless s t

abbrev pub Blanks : Bytes → Type 0
Blanks [] = Unit
Blanks (c ∷ s) = ((c ≡ 32) ⊎ (c ≡ 9)) × Blanks s

abbrev pub Separators : Bytes → Type 0
Separators [] = Unit
Separators (c ∷ s) = ((c ≡ 32) ⊎ (c ≡ 9) ⊎ (c ≡ 44)) × Separators s

abbrev pub Without : ℕ → Bytes → Type 0
Without x [] = Unit
Without x (c ∷ s) = (c ≢ x) × Without x s

-- Nothing, or the byte and what follows it.
abbrev pub Starts : ℕ → Bytes → Type 0
Starts x z = (z ≡ []) ⊎ ((q : Bytes) × (z ≡ x ∷ q))

-- One line of the headers is `name: value`, its line end left out.
pub data HasField (name v : Bytes) : Bytes → Type 0 where
  here :
      (nm bl r z : Bytes)
      → IsCaseless nm name
      → Blanks bl
      → Without 10 v
      → (r ≡ []) ⊎ (r ≡ 13 ∷ [])
      → Starts 10 z
      → HasField name v (((nm ++ (58 ∷ (bl ++ v))) ++ r) ++ z)
  there : (l s : Bytes) → Without 10 l → HasField name v s → HasField name v (l ++ (10 ∷ s))

-- One element of a list with commas is `want`, blanks around it left out.
pub data HasElement (want : Bytes) : Bytes → Type 0 where
  element :
      (sp t bl z : Bytes)
      → Separators sp
      → Without 44 t
      → IsCaseless t want
      → Blanks bl
      → Starts 44 z
      → HasElement want (sp ++ ((t ++ bl) ++ z))
  behind : (e z : Bytes) → HasElement want (44 ∷ z) → HasElement want (e ++ (44 ∷ z))

-- Behind the status line, one of the lines is the field.
abbrev pub HasHeader : Bytes → Bytes → Bytes → Type 0
HasHeader name v text =
    (status : Bytes) × (rest : Bytes) × (text ≡ status ++ (10 ∷ rest))
    × Without 10 status
    × HasField name v rest

lower-IsLike : (a b : ℕ) → lower a ≡ lower b → IsLike a b
lower-IsLike a b h = ground (arith, h)

like_letters : (s t : Bytes) → map lower s ≡ map lower t → IsCaseless s t
like_letters [] [] h = tt
like_letters [] (b ∷ t) h = cc
like_letters (a ∷ s) [] h = cc
like_letters (a ∷ s) (b ∷ t) h = (lower-IsLike a b cc, like_letters s t cc)

pub bytes_eq-IsCaseless :
    (s t : Bytes) → bytes_eq (map lower s) (map lower t) ≡ true → IsCaseless s t
bytes_eq-IsCaseless s t h = like_letters s t ((bytes_eq_iff (map lower s) (map lower t)).0 h)

pub value_is-IsCaseless : (v want : Bytes) → value_is v want ≡ true → IsCaseless v want
unfolding value_is
value_is-IsCaseless v want h = elim (Bool-cases (length v == length want)) [
  | inl e ↦ bytes_eq-IsCaseless v want (rw e at h)
  | inr e ↦ absurd (ground (arith, (rw e at h)))
]
