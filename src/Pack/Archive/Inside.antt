-- ===== src/Pack/Archive/Inside.antt =====
-- An archive that passes the check of names unpacks below its top folder only.
use obs_foxfire.Pack.Paths.{parts, walk, NoneUp, walk_up}
use obs_foxfire.Pack.Archive.{
  lines, without_returns, first_entry_top, ends_part, goes_up, is_bad, one_top, check_lines,
  check_zip_entries,
}
use obs_foxfire.Prelude.{
  ltb, ◌==◌, Bool-cases, Option-cases, length, get_or, take, drop, Bytes, codes, is_empty, bytes_eq,
  ℕ, suc, ◌+◌, ◌≤◌, ◌≡◌, refl, ap, ◌∙◌, subst, ◌≢◌, inl, inr, Bool, true, false, not, ◌||◌, none,
  some, List, [], ◌∷◌, ◌++◌, arith,
}

first_part : (s : Bytes) → bytes_eq (parts s).0 [] ≡ ends_part s
unfolding parts
first_part [] = refl
first_part (c ∷ s) = elim (Bool-cases (c == b'/')) [
  | inl e ↦ rw (parts, e) refl
  | inr e ↦ rw (parts, e) refl
]

-- With no `..` between slashes, no part is `..`.
parts_level :
    (b : Bool) (s : Bytes)
    → goes_up b s ≡ false
    → (b ≡ true → bytes_eq (parts s).0 (codes "..") ≡ false) × NoneUp (parts s).1
unfolding parts goes_up
parts_level b [] h = (λ e. refl, tt)
parts_level b (c ∷ []) h = elim (Bool-cases (c == b'/')) [
  | inl e ↦ rw (parts, e) (λ e'. refl, (refl, tt))
  | inr e ↦ rw (parts, e) (λ e'. ground arith, tt)
]
parts_level b (c ∷ d ∷ s) h =
    let later : goes_up (c == b'/') (d ∷ s) ≡ false = ground (arith, h) in
    let (first, rest) = parts_level (c == b'/') (d ∷ s) later in
    elim (Bool-cases (c == b'/')) [
      | inl e ↦ rw (parts, e) (λ e'. refl, (first e, rest))
      | inr e ↦
          rw (parts, e)
            (
              λ b_start. elim (Bool-cases (d == b'/')) [
                | inl e' ↦ rw (parts, e') (ground arith)
                | inr e' ↦ rw (parts, e', first_part s) (ground (arith, h, b_start))
              ],
              rest,
            )
    ]

goes_up-tail :
    (b : Bool) (c : ℕ) (s : Bytes) → goes_up b (c ∷ s) ≡ false → goes_up (c == b'/') s ≡ false
unfolding goes_up
goes_up-tail b c [] h = refl
goes_up-tail b c (d ∷ s) h = ground (arith, h)

goes_up-append :
    (b : Bool) (t r : Bytes) → goes_up b (t ++ (b'/' ∷ r)) ≡ false → goes_up true r ≡ false
goes_up-append b [] r h = goes_up-tail b b'/' r h
goes_up-append b (c ∷ t) r h = goes_up-append (c == b'/') t r (goes_up-tail b c (t ++ (b'/' ∷ r)) h)

split_at :
    (t l : Bytes)
    → length t + 1 ≤ length l
    → (get_or l (length t) 0 == b'/') ≡ true
    → bytes_eq (take (length t) l) t ≡ true
    → l ≡ t ++ (b'/' ∷ drop (suc (length t)) l)
split_at [] [] n s e = absurd (omega (arith, n))
split_at [] (c ∷ l) n s e = let same : c ≡ b'/' = ground (arith, s) in ap (λ x. x ∷ l) same
split_at (x ∷ t) [] n s e = absurd (omega (arith, n))
split_at (x ∷ t) (c ∷ l) n s e =
    let same : c ≡ x = ground (arith, e) in
    let more : l ≡ t ++ (b'/' ∷ drop (suc (length t)) l) =
      split_at t l (omega (arith, n)) s (ground (arith, e)) in
    ap (λ y. y ∷ l) same ∙ ap (λ ys. x ∷ ys) more

-- An entry that lies below the folder `t`, and no step of whose path climbs out of it.
pub record IsBelow (t line : Bytes) : Type 0 where
  pub rest : Bytes
  pub name : line ≡ t ++ (b'/' ∷ rest)
  pub inside : (let (first, more) = parts rest in walk 0 (first ∷ more) ≢ none)

abbrev pub AllBelow : Bytes → List Bytes → Type 0
AllBelow t [] = Unit
AllBelow t (l ∷ ls) =
    (is_empty (without_returns l) ≡ false → IsBelow t (without_returns l)) × AllBelow t ls

checks :
    (a b c d : Bool)
    → (a || (not b || (not c || d))) ≡ false
    → (a ≡ false) × ((b ≡ true) × ((c ≡ true) × (d ≡ false)))
checks a b c d h = ground arith

is_bad-IsBelow : (t line : Bytes) → is_bad t line ≡ false → IsBelow t line
unfolding is_bad
is_bad-IsBelow t line h =
    let (long, (slash, (same, level))) =
      checks (ltb (length line) (length t + 1)) (get_or line (length t) 0 == b'/')
        (bytes_eq (take (length t) line) t) (goes_up true line) h in
    let name : line ≡ t ++ (b'/' ∷ drop (suc (length t)) line) =
      split_at t line (ground (arith, long)) slash same in
    let rest = drop (suc (length t)) line in
    let level' : goes_up true rest ≡ false =
      goes_up-append true t rest (subst (λ l. goes_up true l ≡ false) name level) in
    let (first, more) = parts_level true rest level' in
    record {
      rest = rest;
      name = name;
      inside = walk_up 0 ((parts rest).0 ∷ (parts rest).1) (first refl, more);
    }

same_top : (t u : Bytes) → one_top t ≡ one_top u → t ≡ u
same_top t u e = cc

known_below :
    (u t : Bytes) (ls : List Bytes) → check_lines (some u) ls ≡ one_top t → (u ≡ t) × AllBelow t ls
unfolding check_lines
known_below u t [] h = (same_top u t h, tt)
known_below u t (l ∷ ls) h = elim (Bool-cases (is_empty (without_returns l))) [
  | inl blank ↦
      let (e, all) = known_below u t ls (rw (check_lines, blank) at h) in
      (e, (λ full. ground (arith, full, blank), all))
  | inr full ↦ elim (Bool-cases (is_bad u (without_returns l))) [
    | inl bad ↦ ground (arith, (rw (check_lines, full, bad) at h))
    | inr good ↦
        let (e, all) = known_below u t ls (rw (check_lines, full, good) at h) in
        (
          e,
          (
            λ full'.
                subst (λ x. IsBelow x (without_returns l)) e
                  (is_bad-IsBelow u (without_returns l) good),
            all,
          ),
        )
  ]
]

all_below : (t : Bytes) (ls : List Bytes) → check_lines none ls ≡ one_top t → AllBelow t ls
unfolding check_lines
all_below t [] h = ground (arith, h)
all_below t (l ∷ ls) h = elim (Bool-cases (is_empty (without_returns l))) [
  | inl blank ↦ (λ full. ground (arith, full, blank), all_below t ls (rw (check_lines, blank) at h))
  | inr full ↦ elim (Option-cases (first_entry_top (without_returns l))) [
    | inl e ↦ ground (arith, (rw (check_lines, full, e) at h))
    | inr (u, e) ↦ elim (Bool-cases (is_bad u (without_returns l))) [
      | inl bad ↦ ground (arith, (rw (check_lines, full, e, bad) at h))
      | inr good ↦
          let (same, all) = known_below u t ls (rw (check_lines, full, e, good) at h) in
          (
            (λ full'.
                subst (λ x. IsBelow x (without_returns l)) same
                  (is_bad-IsBelow u (without_returns l) good)),
            all,
          )
    ]
  ]
]

-- When the names of an archive's entries are accepted, every one of them lies below the one top folder, and
-- following its path from there, slash by slash, never climbs out of it.
pub check_zip_entries-AllBelow :
    (listing t : Bytes) → check_zip_entries listing ≡ one_top t → AllBelow t (lines listing)
unfolding check_zip_entries
check_zip_entries-AllBelow listing t h = all_below t (lines listing) h
