-- ===== src/Ws/Digest/Rfc.antt =====
-- SHA-1 as RFC 3174 has it, with words numbered from the first and no buffer; the code's work on a
-- block is that of section 6.1.
use native.Mathlib.Decide.{ℕ_discrete}
use obs_foxfire.Ws.Digest.Blocks.{eat}
use obs_foxfire.Ws.Digest.{rol, words, schedule, mix, round, rounds, block, Words}
use obs_foxfire.Prelude.{
  ltb, ◌==◌, if◌then◌else◌, ==_iff, Bool-cases, length, get_or, drop, length-append, get_or-append,
  Bytes, ℕ, zero, suc, ◌+◌, ◌-◌, ◌*◌, ◌/◌, ◌%◌, ◌^◌, ◌≤◌, ◌<◌, bit_xor, bit_and, bit_or, ◌≡◌, refl,
  sym, ap, ◌∙◌, subst, ◌≢◌, inl, inr, List, [], ◌∷◌, ◌++◌, append_assoc, arith,
}

-- Sections 3 and 5: the circular left shift, the functions and the constants.
abbrev pub shift : ℕ → ℕ → ℕ
shift n x = bit_or (x * 2 ^ n % 2 ^ 32) (x / 2 ^ (32 - n))

abbrev pub function : ℕ → ℕ → ℕ → ℕ → ℕ
function t b c d =
    if ltb t 20
    then bit_or (bit_and b c) (bit_and (2 ^ 32 - 1 - b) d)
    else if ltb t 40
    then bit_xor (bit_xor b c) d
    else if ltb t 60
    then bit_or (bit_or (bit_and b c) (bit_and b d)) (bit_and c d)
    else bit_xor (bit_xor b c) d

abbrev pub constant : ℕ → ℕ
constant t =
    if ltb t 20
    then 0x5a827999
    else if ltb t 40
    then 0x6ed9eba1
    else if ltb t 60
    then 0x8f1bbcdc
    else 0xca62c1d6

-- Section 6.1: word `t` of a block, one step, and the words A to E after `t` steps.
abbrev pub word : Bytes → ℕ → ℕ
word p t =
    get_or p (4 * t) 0 * 2 ^ 24
    + get_or p (4 * t + 1) 0 * 2 ^ 16
    + get_or p (4 * t + 2) 0 * 2 ^ 8
    + get_or p (4 * t + 3) 0

abbrev pub step : ℕ → ℕ → Words → Words
step t w s = record {
  a = (shift 5 s.a + function t s.b s.d s.e + s.f + w + constant t) % 2 ^ 32;
  b = s.a;
  d = shift 30 s.b;
  e = s.d;
  f = s.e;
}

pub steps : (ℕ → ℕ) → ℕ → Words → Words
steps w zero s = s
steps w (suc t) s = step t (w t) (steps w t s)

abbrev pub mixed : (ℕ → ℕ) → ℕ → ℕ
mixed w t = bit_xor (bit_xor (bit_xor (w (t - 3)) (w (t - 8))) (w (t - 14))) (w (t - 16))

-- `h'` are the words after the block `p` is processed in the state `h`.
pub record IsBlock (h : Words) (p : Bytes) (h' : Words) : Type 0 where
  pub w : ℕ → ℕ
  pub given_words : (t : ℕ) → t < 16 → w t ≡ word p t
  pub made_words : (t : ℕ) → 16 ≤ t → t < 80 → w t ≡ shift 1 (mixed w t)
  pub added :
      let s = steps w 80 h in
      h' ≡ record {
        a = (h.a + s.a) % 2 ^ 32;
        b = (h.b + s.b) % 2 ^ 32;
        d = (h.d + s.d) % 2 ^ 32;
        e = (h.e + s.e) % 2 ^ 32;
        f = (h.f + s.f) % 2 ^ 32;
      }

-- The blocks of a padded message, one after the other.
pub data Digests : Words → Bytes → Words → Type 0 where
  done : {h : Words} → Digests h [] h
  next :
      {h h' h'' : Words} (p rest : Bytes)
      → length p ≡ 64
      → IsBlock h p h'
      → Digests h' rest h''
      → Digests h (p ++ rest) h''

get_or-drop : (k : ℕ) (p : Bytes) (j : ℕ) → get_or (drop k p) j 0 ≡ get_or p (k + j) 0
get_or-drop zero p j = ap (λ i. get_or p i 0) (omega arith)
get_or-drop (suc k) [] j = refl
get_or-drop (suc k) (x ∷ p) j =
    let one : suc (k + j) ≡ suc k + j = omega arith in
    get_or-drop k p j ∙ ap (λ i. get_or (x ∷ p) i 0) one

word-drop : (p : Bytes) (t : ℕ) → word (drop 4 p) t ≡ word p (suc t)
word-drop p t =
    let e0 : 4 + 4 * t ≡ 4 * suc t = omega arith in
    let e1 : 4 + (4 * t + 1) ≡ 4 * suc t + 1 = omega arith in
    let e2 : 4 + (4 * t + 2) ≡ 4 * suc t + 2 = omega arith in
    let e3 : 4 + (4 * t + 3) ≡ 4 * suc t + 3 = omega arith in
    let at : (i j : ℕ) → 4 + i ≡ j → get_or (drop 4 p) i 0 ≡ get_or p j 0 =
      λ i j e. get_or-drop 4 p i ∙ ap (λ k. get_or p k 0) e in
    rw (at (4 * t) _ e0, at (4 * t + 1) _ e1, at (4 * t + 2) _ e2, at (4 * t + 3) _ e3) refl

length-words : (k : ℕ) (p : Bytes) → length (words k p) ≡ k
unfolding words
length-words zero p = refl
length-words (suc k) p = ap suc (length-words k (drop 4 p))

words-word : (k : ℕ) (p : Bytes) (t : ℕ) → t < k → get_or (words k p) t 0 ≡ word p t
unfolding words
words-word zero p t lt = absurd (omega arith)
words-word (suc k) p zero lt = refl
words-word (suc k) p (suc t) lt = words-word k (drop 4 p) t (omega arith) ∙ word-drop p t

get_or-end : (w : List ℕ) (y i : ℕ) → length w ≡ i → get_or (w ++ y ∷ []) i 0 ≡ y
get_or-end [] y zero e = refl
get_or-end [] y (suc i) e = absurd (omega arith)
get_or-end (x ∷ w) y zero e = absurd (omega arith)
get_or-end (x ∷ w) y (suc i) e = get_or-end w y i (omega arith)

-- What the schedule adds, and that it keeps what is there.
record Scheduled (k i : ℕ) (w s : List ℕ) : Type 0 where
  long : length s ≡ i + k
  kept : (t : ℕ) → t < i → get_or s t 0 ≡ get_or w t 0
  made : (t : ℕ) → i ≤ t → t < i + k → get_or s t 0 ≡ shift 1 (mixed (λ j. get_or s j 0) t)

schedule-Scheduled :
    (k i : ℕ) (w : List ℕ) → length w ≡ i → 16 ≤ i → Scheduled k i w (schedule k i w)
unfolding schedule rol
schedule-Scheduled zero i w e le = record {
  long = omega arith;
  kept = λ t lt. refl;
  made = λ t lo hi. absurd (omega arith);
}
schedule-Scheduled (suc k) i w e le =
    let y = shift 1 (mixed (λ j. get_or w j 0) i) in
    let r =
      schedule-Scheduled k (i + 1) (w ++ y ∷ []) (omega (arith, length-append w (y ∷ [])))
        (omega arith) in
    let s = schedule k (i + 1) (w ++ y ∷ []) in
    let old : (t : ℕ) → t < i → get_or s t 0 ≡ get_or w t 0 =
      λ t lt. r.kept t (omega arith) ∙ get_or-append w (y ∷ []) t 0 (omega arith) in
    record {
      long = omega (arith, r.long);
      kept = old;
      made = λ t lo hi. elim (ℕ_discrete t i) [
        | no ne ↦ r.made t (omega arith) (omega arith)
        | yes same ↦
            let here : get_or s i 0 ≡ y = r.kept i (omega arith) ∙ get_or-end w y i e in
            subst (λ j. get_or s j 0 ≡ shift 1 (mixed (λ n. get_or s n 0) j)) (sym same)
              (here
                ∙ ap (shift 1) (
                    rw
                      (
                        old (i - 3) (omega arith),
                        old (i - 8) (omega arith),
                        old (i - 14) (omega arith),
                        old (i - 16) (omega arith),
                      )
                      refl))
      ];
    }

round-step : (t w : ℕ) (s : Words) → round t w s ≡ step t w s
unfolding round rol mix
round-step t w s =
    let order : (x f e k : ℕ) → x + f + e + k + w ≡ x + f + e + w + k = λ x f e k. omega arith in
    elim (Bool-cases (ltb t 20)) [
      | inl a ↦ rw (a, order) refl
      | inr a ↦ elim (Bool-cases (ltb t 40)) [
        | inl b ↦ rw (a, b, order) refl
        | inr b ↦ elim (Bool-cases (ltb t 60)) [
          | inl c ↦ rw (a, b, c, order) refl
          | inr c ↦ rw (a, b, c, order) refl
        ]
      ]
    ]

rounds-steps :
    (w : ℕ → ℕ) (h : Words) (ws : List ℕ) (i : ℕ)
    → ((j : ℕ) → j < length ws → get_or ws j 0 ≡ w (i + j))
    → rounds i ws (steps w i h) ≡ steps w (i + length ws) h
unfolding rounds steps
rounds-steps w h [] i same = ap (λ n. steps w n h) (omega arith)
rounds-steps w h (x ∷ ws) i same =
    let first : x ≡ w i = same 0 (omega arith) ∙ ap w (omega arith) in
    let one : i + 1 ≡ suc i = omega arith in
    let ends : suc i + length ws ≡ i + suc (length ws) = omega arith in
    let now : round i x (steps w i h) ≡ steps w (suc i) h =
      round-step i x (steps w i h) ∙ ap (λ v. step i v (steps w i h)) first in
    ap (λ n. rounds n ws (round i x (steps w i h))) one
    ∙ ap (rounds (suc i) ws) now
    ∙ rounds-steps w h ws (suc i) (λ j lt.
      let at : i + suc j ≡ suc i + j = omega arith in same (suc j) (omega arith) ∙ ap w at)
    ∙ ap (λ n. steps w n h) ends

block-IsBlock : (h : Words) (p : Bytes) → IsBlock h p (block h p)
unfolding block steps
block-IsBlock h p =
    let r = schedule-Scheduled 64 16 (words 16 p) (length-words 16 p) (omega arith) in
    let s = schedule 64 16 (words 16 p) in
    let w : ℕ → ℕ = λ t. get_or s t 0 in
    let all : rounds 0 s h ≡ steps w 80 h =
      rounds-steps w h s 0 (λ j lt. let same : j ≡ 0 + j = omega arith in ap w same)
      ∙ ap (λ n. steps w n h) r.long in
    record {
      w = w;
      given_words = λ t lt. r.kept t lt ∙ words-word 16 p t lt;
      made_words = λ t lo hi. r.made t lo hi;
      added =
          ap
            (λ (s : Words). record {
              a = (h.a + s.a) % 2 ^ 32;
              b = (h.b + s.b) % 2 ^ 32;
              d = (h.d + s.d) % 2 ^ 32;
              e = (h.e + s.e) % 2 ^ 32;
              f = (h.f + s.f) % 2 ^ 32;
            })
            all;
    }

pub eat-Digests :
    (h : Words) (pending m : Bytes)
    → length pending < 64
    → (length pending + length m) % 64 ≡ 0
    → Digests h (pending ++ m) (eat h pending m).0
unfolding eat
eat-Digests h [] [] lt e = done
eat-Digests h (x ∷ p) [] lt e = absurd (omega arith)
eat-Digests h pending (x ∷ xs) lt e = elim (Bool-cases (length pending == 63)) [
  | inl full ↦
      let n : length pending ≡ 63 = (==_iff (length pending) 63).0 full in
      rw full (
        subst (λ m. Digests h m (eat (block h (pending ++ x ∷ [])) [] xs).0)
          (append_assoc pending (x ∷ []) xs)
          (next (pending ++ x ∷ []) xs (omega (arith, n, length-append pending (x ∷ [])))
            (block-IsBlock h (pending ++ x ∷ []))
            (eat-Digests (block h (pending ++ x ∷ [])) [] xs (omega arith) (omega (arith, n, e)))))
  | inr more ↦
      let ne : length pending ≢ 63 = λ n. ground (arith, n, more) in
      rw more (
        subst (λ m. Digests h m (eat h (pending ++ x ∷ []) xs).0) (append_assoc pending (x ∷ []) xs)
          (eat-Digests h (pending ++ x ∷ []) xs
            (omega (arith, ne, lt, length-append pending (x ∷ [])))
            (omega (arith, e, length-append pending (x ∷ [])))))
]
