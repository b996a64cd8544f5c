-- ===== src/Ws/Digest/Blocks.antt =====
-- The buffering of `sha1_update`: the bytes reach `sha1_block` in blocks of 64, however the input is
-- cut into calls.
use native.Mathlib.Decide.{ℕ_discrete}
use obs_foxfire.Prelude.{
  ◌==◌, if◌then◌else◌, Bool-cases, length, take, drop, length-append, length-take, length-drop,
  take_of_le, take_all, take-append-drop, Bytes, ℕ, zero, suc, ◌+◌, ◌-◌, ◌*◌, ◌%◌, ◌^◌, ◌≤◌, ◌<◌,
  min, ◌≡◌, refl, sym, ap, ◌∙◌, subst, ◌≢◌, inl, inr, [], ◌∷◌, ◌++◌, append-nil, append_assoc,
  arith,
}
use obs_foxfire.Ws.Digest.{block, write_at, absorb, absorb_all, sha1_update, Words, Sha1}

-- RFC 3174's way to take a message in: byte by byte, and each 64 bytes are a block.
unfoldable pub eat : Words → Bytes → Bytes → Words × Bytes
eat h pending [] = (h, pending)
eat h pending (x ∷ xs) =
    let filled = eat (block h (pending ++ x ∷ [])) [] xs in
    let more = eat h (pending ++ x ∷ []) xs in if length pending == 63 then filled else more

pub eat-append :
    (h : Words) (pending p q : Bytes)
    → eat h pending (p ++ q) ≡ (let (h', r) = eat h pending p in eat h' r q)
unfolding eat
eat-append h pending [] q = refl
eat-append h pending (x ∷ xs) q = elim (Bool-cases (length pending == 63)) [
  | inl full ↦ rw full (eat-append (block h (pending ++ x ∷ [])) [] xs q)
  | inr more ↦ rw more (eat-append h (pending ++ x ∷ []) xs q)
]

-- A piece that fits the block.
pub eat_piece :
    (h : Words) (pending t : Bytes)
    → length pending < 64
    → length pending + length t ≤ 64
    → eat h pending t ≡ (
        if length pending + length t == 64 then (block h (pending ++ t), []) else (h, pending ++ t))
unfolding eat
eat_piece h pending [] lt fits = ground (arith, append-nil pending)
eat_piece h pending (x ∷ []) lt fits = ground arith
eat_piece h pending (x ∷ y ∷ ys) lt fits = ground (
  arith,
  length-append pending (x ∷ []),
  append_assoc pending (x ∷ []) (y ∷ ys),
  eat_piece h (pending ++ x ∷ []) (y ∷ ys),
)

-- The invariant of the buffer, and what is pending in it.
pub record IsValid (c : Sha1) : Type 0 where
  pub storage : length c.buf ≡ 64
  pub room : c.n < 64

abbrev pub view : Sha1 → Words × Bytes
view c = (c.h, take c.n c.buf)

pub length-write_at :
    (buf : Bytes) (at : ℕ) (src : Bytes)
    → at + length src ≤ length buf
    → length (write_at buf at src) ≡ length buf
unfolding write_at
length-write_at buf at src h = omega (
  arith,
  length-append (take at buf) (src ++ drop (at + length src) buf),
  length-append src (drop (at + length src) buf),
  length-take at buf,
  length-drop (at + length src) buf,
)

-- The bytes in use after the copy.
pub take-write_at :
    (buf : Bytes) (at : ℕ) (src : Bytes) (k : ℕ)
    → k ≡ at + length src
    → k ≤ length buf
    → take k (write_at buf at src) ≡ take at buf ++ src
unfolding write_at
take-write_at buf at src k e h = ground (
  arith,
  append_assoc (take at buf) src (drop (at + length src) buf),
  take_of_le k (take at buf ++ src) (drop (at + length src) buf),
  take_all k (take at buf ++ src),
  length-append (take at buf) src,
  length-take at buf,
)

-- What taking in the bytes `p` does to a valid state.
pub record Fed (c : Sha1) (p : Bytes) (c' : Sha1) : Type 0 where
  pub valid : IsValid c'
  pub seen : view c' ≡ eat c.h (take c.n c.buf) p
  pub place : c'.n ≡ (c.n + length p) % 64
  pub counted : c'.bits ≡ c.bits

module _ (c : Sha1) (t : Bytes) (v : IsValid c) (fits : c.n + length t ≤ 64) where
  in_use : length (take c.n c.buf) ≡ c.n
  in_use = omega (arith, length-take c.n c.buf, v.storage, v.room)

  absorb_full : c.n + length t ≡ 64 → Fed c t (absorb c t)
  unfolding absorb
  absorb_full e = rw e (record {
    valid = record {
      storage = length-write_at c.buf c.n t (omega (arith, v.storage)) ∙ v.storage;
      room = omega arith;
    };
    seen = seen;
    place = omega arith;
    counted = refl;
  })
    where
      whole : write_at c.buf c.n t ≡ take c.n c.buf ++ t
      whole =
          sym (
            take_all 64 (write_at c.buf c.n t)
              (omega (arith, length-write_at c.buf c.n t (omega (arith, v.storage)), v.storage)))
          ∙ take-write_at c.buf c.n t 64 (omega arith) (omega (arith, v.storage))

      seen : (block c.h (write_at c.buf c.n t), []) ≡ eat c.h (take c.n c.buf) t
      seen = ground (arith, in_use, whole, eat_piece c.h (take c.n c.buf) t, v.room)

  absorb_part : c.n + length t ≢ 64 → Fed c t (absorb c t)
  absorb_part ne = rw step (record {
    valid = record {
      storage = length-write_at c.buf c.n t (omega (arith, v.storage)) ∙ v.storage;
      room = omega arith;
    };
    seen = seen;
    place = omega arith;
    counted = refl;
  })
    where
      step : absorb c t ≡ record c { buf = write_at c.buf c.n t; n = c.n + length t }
      step = unfold absorb in ground arith

      seen : (c.h, take (c.n + length t) (write_at c.buf c.n t)) ≡ eat c.h (take c.n c.buf) t
      seen = ground (
        arith,
        in_use,
        take-write_at c.buf c.n t (c.n + length t),
        eat_piece c.h (take c.n c.buf) t,
        v.room,
        v.storage,
      )

  absorb-Fed : Fed c t (absorb c t)
  absorb-Fed = elim (ℕ_discrete (c.n + length t) 64) [
    | yes e ↦ absorb_full e
    | no ne ↦ absorb_part ne
  ]

Fed-nil : (c : Sha1) → IsValid c → Fed c [] c
unfolding eat
Fed-nil c v = record { valid = v; seen = refl; place = omega (arith, v.room); counted = refl }

pub Fed-append : {c c' c'' : Sha1} (p q : Bytes) → Fed c p c' → Fed c' q c'' → Fed c (p ++ q) c''
Fed-append {c} {c'} {c''} p q s t = record {
  valid = t.valid;
  seen =
      t.seen
      ∙ sym (
          eat-append c.h (take c.n c.buf) p q
          ∙ ap (λ (w : Words × Bytes). eat w.0 w.1 q) (sym s.seen));
  place = omega (arith, s.place, t.place, length-append p q);
  counted = t.counted ∙ s.counted;
}

absorb_all-Fed :
    (f : ℕ) (c : Sha1) (p : Bytes) → IsValid c → length p ≤ f → Fed c p (absorb_all f c p)
unfolding absorb_all
absorb_all-Fed zero c [] v h = Fed-nil c v
absorb_all-Fed zero c (x ∷ xs) v h = absurd (omega arith)
absorb_all-Fed (suc f) c [] v h = Fed-nil c v
absorb_all-Fed (suc f) c (x ∷ xs) v h =
    subst (λ p. Fed c p (absorb_all f (absorb c piece) rest)) (take-append-drop k (x ∷ xs))
      (Fed-append piece rest step (
        absorb_all-Fed f (absorb c piece) rest step.valid
          (omega (arith, length-drop k (x ∷ xs), v.room))))
  where
    k : ℕ
    k = min (64 - c.n) (length (x ∷ xs))

    piece : Bytes
    piece = take k (x ∷ xs)

    rest : Bytes
    rest = drop k (x ∷ xs)

    step : Fed c piece (absorb c piece)
    step = absorb-Fed c piece v (omega (arith, length-take k (x ∷ xs), v.room))

-- However many bytes a call of `sha1_update` gets, it takes in all of them in order, ends in a valid
-- buffer, and adds eight bits for each to the count.
pub sha1_update-Fed :
    (c : Sha1) (p : Bytes)
    → IsValid c
    → Fed (record c { bits = (c.bits + length p * 8) % 2 ^ 64 }) p (sha1_update c p)
unfolding sha1_update
sha1_update-Fed c p v =
    absorb_all-Fed (length p) _ p (record { storage = v.storage; room = v.room }) (omega arith)
