-- ===== src/Sanitise/Output.antt =====
-- What `ff_alert_sanitise` leaves, and what it leaves alone.
use obs_foxfire.Sanitise.{classify, skip, keep, Step, sanitise_from, sanitise}
use obs_foxfire.Sanitise.Characters.{
  IsText, none_left, char_then, IsChar-length, keep_char, kept-IsChar,
}
use obs_foxfire.Prelude.{
  ltb, Bool-cases, length, take, drop, length-append, length-take, Bytes, ℕ, zero, suc, ◌+◌, ◌≤◌,
  ◌<◌, ◌≡◌, refl, ap, ◌⊎◌, inl, inr, false, some, [], ◌∷◌, ◌++◌, arith,
}

Step-cases : (r : Step) → ((k : ℕ) × (r ≡ skip k)) ⊎ ((k : ℕ) × (r ≡ keep k))
Step-cases (skip k) = inl (k, refl)
Step-cases (keep k) = inr (k, refl)

-- The loop writes whole sequences that may be kept, and leaves room for the final zero.
sanitise_from-IsText :
    (f j size removed : ℕ) (s : Bytes)
    → j < size
    → (let (out, count) = sanitise_from f j size removed s in
        IsText out × (j + length out < size) × (removed ≤ count))
unfolding sanitise_from
sanitise_from-IsText zero j size removed s lt = (none_left, omega (arith, lt), omega arith)
sanitise_from-IsText (suc f) j size removed [] lt = (none_left, omega (arith, lt), omega arith)
sanitise_from-IsText (suc f) j size removed (c ∷ s) lt = elim (Step-cases (classify c s)) [
  | inl (k, e) ↦
      rw (e, sanitise_from)
        (let (t, n, m) = sanitise_from-IsText f j size (removed + 1) (drop k (c ∷ s)) lt in
          (t, n, omega (arith, m)))
  | inr (k, e) ↦ elim (Bool-cases (ltb size (j + k + 1))) [
    | inl full ↦ rw (e, sanitise_from, full) (none_left, omega (arith, lt), omega arith)
    | inr room ↦
        rw (e, sanitise_from, room)
          (let (h, ch) = kept-IsChar c k s e in
            let (t, n, m) =
              sanitise_from-IsText f (j + k) size removed (drop k (c ∷ s)) (ground (arith, room)) in
            (
              char_then _ _ ch t,
              omega (
                arith,
                n,
                h,
                length-append (take k (c ∷ s))
                    (sanitise_from f (j + k) size removed (drop k (c ∷ s))).0,
                length-take k (c ∷ s),
              ),
              m,
            ))
  ]
]

take-append : (xs ys : Bytes) → take (length xs) (xs ++ ys) ≡ xs
take-append [] ys = refl
take-append (x ∷ xs) ys = ap (◌∷◌ x) (take-append xs ys)

drop-append : (xs ys : Bytes) → drop (length xs) (xs ++ ys) ≡ ys
drop-append [] ys = refl
drop-append (x ∷ xs) ys = drop-append xs ys

-- Text that fits is copied as it is, and nothing is counted.
sanitise_from_text :
    (f j size removed : ℕ) (s : Bytes)
    → IsText s
    → length s ≤ f
    → j + length s < size
    → sanitise_from f j size removed s ≡ (s, removed)
unfolding sanitise_from
sanitise_from_text zero j size removed _ none_left enough fits = refl
sanitise_from_text (suc f) j size removed _ none_left enough fits = refl
sanitise_from_text f j size removed _ (char_then [] s ch t) enough fits =
    absurd (omega (arith, IsChar-length ch))
sanitise_from_text zero j size removed _ (char_then (c ∷ cs) s ch t) enough fits =
    absurd (omega (arith, enough))
sanitise_from_text (suc f) j size removed _ (char_then (c ∷ cs) s ch t) enough fits =
    let room : ltb size (j + length (c ∷ cs) + 1) ≡ false =
      ground (arith, fits, length-append cs s) in
    let rest =
      sanitise_from_text f (j + length (c ∷ cs)) size removed s t
        (omega (arith, enough, length-append cs s)) (omega (arith, fits, length-append cs s)) in
    rw (keep_char c cs s ch, sanitise_from, room, take-append cs s, drop-append cs s, rest) refl

-- For a buffer of `cap + 1` bytes: what is written is a row of byte sequences that are whole by their
-- lead byte, with no control character of ASCII (below 0x20, or 0x7f) and none of the twelve marks of the
-- bidirectional algorithm in two or three bytes; it is at most `cap` bytes, and cleaning it again, in a
-- buffer of that size, changes nothing and removes nothing. The control characters U+0080 to U+009F,
-- surrogates and overlong forms are not removed.
pub sanitise_clean :
    (s : Bytes) (cap : ℕ)
    → (t : Bytes) × ((sanitise (some s) (suc cap)).0 ≡ some t)
      × IsText t
      × (length t ≤ cap)
      × (sanitise (some t) (suc cap) ≡ (some t, 0))
unfolding sanitise
sanitise_clean s cap =
    let (t, n, m) = sanitise_from-IsText (length s) 0 (suc cap) 0 s (omega arith) in
    let out = (sanitise_from (length s) 0 (suc cap) 0 s).0 in
    (
      out,
      refl,
      t,
      omega (arith, n),
      ap (λ x. (some x.0, x.1))
          (sanitise_from_text (length out) 0 (suc cap) 0 out t (omega arith) n),
    )
