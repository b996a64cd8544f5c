-- ===== src/Pack/Paths.antt =====
-- A path that `ff_rel_ok` accepts stays inside the directory it is taken from.
use obs_foxfire.Pack.{has_dots, is_rooted, has, rel_ok}
use obs_foxfire.Prelude.{
  ◌==◌, if◌then◌else◌, Bool-cases, Bytes, codes, is_empty, bytes_eq, ℕ, zero, suc, ◌+◌, ◌≡◌, refl,
  ◌≢◌, inl, inr, Bool, true, false, not, ◌&&◌, ◌||◌, Option, none, some, List, [], ◌∷◌, arith,
}

-- The first part of a path, up to a slash, and the parts behind it.
unfoldable pub parts : Bytes → Bytes × List Bytes
parts [] = ([], [])
parts (c ∷ s) =
    let (first, rest) = parts s in if c == b'/' then ([], first ∷ rest) else (c ∷ first, rest)

-- A walk along the parts, `depth` directories below the start; `none` when it climbs above it.
pub walk : ℕ → List Bytes → Option ℕ
walk depth [] = some depth
walk depth (p ∷ rest) =
    if bytes_eq p (codes "..")
    then elim depth [ zero ↦ none | suc d ↦ walk d rest ]
    else walk (if is_empty p || bytes_eq p (codes ".") then depth else depth + 1) rest

abbrev pub NoneUp : List Bytes → Type 0
NoneUp [] = Unit
NoneUp (p ∷ rest) = (bytes_eq p (codes "..") ≡ false) × NoneUp rest

two_dots :
    (c d : ℕ) (s : Bytes)
    → (c == b'.' && d == b'.') ≡ false
    → bytes_eq (c ∷ (parts (d ∷ s)).0) (codes "..") ≡ false
unfolding parts
two_dots c d s h = elim (Bool-cases (d == b'/')) [
  | inl slash ↦ (rw (parts, slash) (ground arith))
  | inr other ↦ (rw (parts, other) (ground (arith, h)))
]

parts_up :
    (s : Bytes)
    → has_dots s ≡ false
    → (bytes_eq (parts s).0 (codes "..") ≡ false) × NoneUp (parts s).1
unfolding parts
parts_up [] h = (refl, tt)
parts_up (c ∷ []) h = elim (Bool-cases (c == b'/')) [
  | inl slash ↦ (rw (parts, slash) (refl, (refl, tt)))
  | inr other ↦ (rw (parts, other) (ground arith, tt))
]
parts_up (c ∷ d ∷ s) h =
    let (first, rest) = parts_up (d ∷ s) (ground (arith, h)) in
    elim (Bool-cases (c == b'/')) [
      | inl slash ↦ (rw (parts, slash) (refl, (first, rest)))
      | inr other ↦ (rw (parts, other) (two_dots c d s (ground (arith, h)), rest))
    ]

pub walk_up : (depth : ℕ) (ps : List Bytes) → NoneUp ps → walk depth ps ≢ none
unfolding walk
walk_up depth [] n = λ h. ground (arith, h)
walk_up depth (p ∷ rest) n =
    rw (n.0, walk)
      (walk_up (if is_empty p || bytes_eq p (codes ".") then depth else depth + 1) rest n.1)

checks :
    (a b c d e : Bool)
    → (not a && (not b && (not c && (not d && not e)))) ≡ true
    → (b ≡ false) × ((c ≡ false) × ((d ≡ false) × (e ≡ false)))
checks a b c d e h = ground arith

-- A path that `ff_rel_ok` accepts is not absolute, and following it never climbs above the directory
-- that it is taken from; it holds no backslash and no colon.
pub rel_ok_stays :
    (p : Bytes) (depth : ℕ)
    → rel_ok p ≡ true
    → (is_rooted p ≡ false)
      × (let (first, rest) = parts p in walk depth (first ∷ rest) ≢ none)
      × (has b'\\' p ≡ false)
      × (has b':' p ≡ false)
unfolding rel_ok
rel_ok_stays p depth h =
    let (root, (dots, (back, colon))) =
      checks (is_empty p) (is_rooted p) (has_dots p) (has b'\\' p) (has b':' p) h in
    (root, walk_up depth ((parts p).0 ∷ (parts p).1) (parts_up p dots), back, colon)
