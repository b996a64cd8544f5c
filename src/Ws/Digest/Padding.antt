-- ===== src/Ws/Digest/Padding.antt =====
-- The digest against RFC 3174: the message is padded to whole blocks, and the blocks are taken in
-- order. What the code does with its buffer, its count of bits and its padding loop comes to that.
use native.Mathlib.Decide.{ℕ_discrete}
use obs_foxfire.Ws.Frame.{be_bytes}
use obs_foxfire.Ws.Digest.Blocks.{
  eat, eat-append, eat_piece, IsValid, view, Fed, sha1_update-Fed, take-write_at, length-write_at,
}
use obs_foxfire.Prelude.{
  ◌==◌, if◌then◌else◌, length, take, replicate, length-append, length-take, take_all, Bytes, ℕ,
  zero, suc, ◌+◌, ◌-◌, ◌*◌, ◌%◌, ◌^◌, ◌<◌, ◌≡◌, refl, sym, ap, ◌∙◌, ◌≢◌, [], ◌∷◌, ◌++◌, arith,
}
use obs_foxfire.Ws.Digest.{
  block, initial_words, sha1_init, write_at, sha1_update, pad_zeros, digest_bytes, sha1_final,
  Words, Sha1,
}

-- The padding of RFC 3174, section 4: a one bit, then zeros up to the last eight bytes of a block.
abbrev pub zeros : ℕ → ℕ
zeros n = (119 - n % 64) % 64

abbrev pub padded : Bytes → Bytes
padded m = m ++ (0x80 ∷ (replicate (zeros (length m)) 0 ++ be_bytes 8 (8 * length m)))

-- RFC 3174, section 6.1: the words before the first block.
abbrev pub rfc_words : Words
rfc_words = record {
  a = 0x67452301;
  b = 0xefcdab89;
  d = 0x98badcfe;
  e = 0x10325476;
  f = 0xc3d2e1f0;
}

-- The digest of the padded message, block after block.
abbrev pub by_blocks : Bytes → Bytes
by_blocks m = digest_bytes (eat rfc_words [] (padded m)).0

-- The padding loop ends by its test at the place 56, having taken in zeros.
record Padded (c c' : Sha1) : Type 0 where
  valid : IsValid c'
  seen : view c' ≡ eat c.h (take c.n c.buf) (replicate ((120 - c.n) % 64) 0)
  stops : c'.n ≡ 56

eat-replicate_zero : (h : Words) (p : Bytes) (k : ℕ) → k ≡ 0 → eat h p (replicate k 0) ≡ (h, p)
unfolding eat
eat-replicate_zero h p zero e = refl
eat-replicate_zero h p (suc k) e = absurd (omega arith)

Padded-step :
    {c c' c'' : Sha1}
    → c.n < 64
    → c.n ≢ 56
    → Fed (record c { bits = (c.bits + 8) % 2 ^ 64 }) (0 ∷ []) c'
    → Padded c' c''
    → Padded c c''
Padded-step {c} {c'} {c''} lt ne s t = record {
  valid = t.valid;
  seen = t.seen ∙ turned;
  stops = t.stops;
}
  where
    count : (120 - c.n) % 64 ≡ suc ((120 - c'.n) % 64)
    count = omega (arith, s.place)

    turned :
        eat c'.h (take c'.n c'.buf) (replicate ((120 - c'.n) % 64) 0)
        ≡ eat c.h (take c.n c.buf) (replicate ((120 - c.n) % 64) 0)
    turned =
        ap (λ (w : Words × Bytes). eat w.0 w.1 (replicate ((120 - c'.n) % 64) 0)) s.seen
        ∙ sym (eat-append c.h (take c.n c.buf) (0 ∷ []) (replicate ((120 - c'.n) % 64) 0))
        ∙ ap (λ k. eat c.h (take c.n c.buf) (replicate k 0)) (sym count)

pad_zeros-Padded : (f : ℕ) (c : Sha1) → IsValid c → (120 - c.n) % 64 < f → Padded c (pad_zeros f c)
unfolding pad_zeros
pad_zeros-Padded zero c v h = absurd (omega arith)
pad_zeros-Padded (suc f) c v h = elim (ℕ_discrete c.n 56) [
  | yes e ↦ rw (stop e) (record {
    valid = v;
    seen = sym (eat-replicate_zero c.h (take c.n c.buf) ((120 - c.n) % 64) (omega arith));
    stops = e;
  })
  | no ne ↦ rw (go ne) (
      Padded-step v.room ne one
        (pad_zeros-Padded f (sha1_update c (0 ∷ [])) one.valid (omega (arith, one.place, v.room))))
]
  where
    one : Fed (record c { bits = (c.bits + 8) % 2 ^ 64 }) (0 ∷ []) (sha1_update c (0 ∷ []))
    one = sha1_update-Fed c (0 ∷ []) v

    stop : c.n ≡ 56 → (if c.n == 56 then c else pad_zeros f (sha1_update c (0 ∷ []))) ≡ c
    stop e = ground arith

    go :
        c.n ≢ 56
        → (if c.n == 56 then c else pad_zeros f (sha1_update c (0 ∷ [])))
          ≡ pad_zeros f (sha1_update c (0 ∷ []))
    go ne = ground arith

-- The last block is written over the end of the buffer.
last_block :
    (c : Sha1) (l : Bytes)
    → IsValid c
    → c.n ≡ 56
    → length l ≡ 8
    → block c.h (write_at c.buf 56 l) ≡ (eat c.h (take c.n c.buf) l).0
last_block c l v e h = ap (λ (w : Words × Bytes). w.0) (sym whole)
  where
    buffer : write_at c.buf 56 l ≡ take 56 c.buf ++ l
    buffer =
        sym (
          take_all 64 (write_at c.buf 56 l)
            (omega (arith, length-write_at c.buf 56 l (omega (arith, v.storage)), v.storage)))
        ∙ take-write_at c.buf 56 l 64 (omega arith) (omega (arith, v.storage))

    pending : length (take c.n c.buf) ≡ 56
    pending = omega (arith, length-take c.n c.buf, v.storage)

    whole : eat c.h (take c.n c.buf) l ≡ (block c.h (write_at c.buf 56 l), [])
    whole = ground (arith, pending, buffer, e, eat_piece c.h (take c.n c.buf) l)

-- The buffer, the count of bits and the padding loop lose, repeat and misplace nothing.
pub sha1_final-by_blocks :
    (stack p q : Bytes)
    → length stack ≡ 64
    → length p + length q < 2 ^ 61
    → sha1_final (sha1_update (sha1_update (sha1_init stack) p) q) ≡ by_blocks (p ++ q)
unfolding sha1_final sha1_init
sha1_final-by_blocks stack p q s small = ap digest_bytes (
    last_block c4 (be_bytes 8 c2.bits) pad.valid pad.stops refl
    ∙ ap (λ (w : Words × Bytes). w.0) taken)
  where
    c0 : Sha1
    c0 = record { h = initial_words; bits = 0; buf = stack; n = 0 }

    c1 : Sha1
    c1 = sha1_update c0 p

    c2 : Sha1
    c2 = sha1_update c1 q

    c3 : Sha1
    c3 = sha1_update c2 (0x80 ∷ [])

    c4 : Sha1
    c4 = pad_zeros 64 c3

    f1 : Fed (record c0 { bits = (0 + length p * 8) % 2 ^ 64 }) p c1
    f1 = sha1_update-Fed c0 p (record { storage = s; room = omega arith })

    f2 : Fed (record c1 { bits = (c1.bits + length q * 8) % 2 ^ 64 }) q c2
    f2 = sha1_update-Fed c1 q f1.valid

    f3 : Fed (record c2 { bits = (c2.bits + 8) % 2 ^ 64 }) (0x80 ∷ []) c3
    f3 = sha1_update-Fed c2 (0x80 ∷ []) f2.valid

    pad : Padded c3 c4
    pad = pad_zeros-Padded 64 c3 f3.valid (omega (arith, f3.place))

    n2 : c2.n ≡ length (p ++ q) % 64
    n2 = omega (arith, f1.place, f2.place, length-append p q)

    zs : (120 - c3.n) % 64 ≡ zeros (length (p ++ q))
    zs = omega (arith, f3.place, n2)

    counted : c2.bits ≡ 8 * length (p ++ q)
    counted = omega (arith, f1.counted, f2.counted, length-append p q)

    go : Words × Bytes → Bytes → Words × Bytes
    go w x = eat w.0 w.1 x

    message : view c2 ≡ eat initial_words [] (p ++ q)
    message = f2.seen ∙ ap (λ w. go w q) f1.seen ∙ sym (eat-append initial_words [] p q)

    taken :
        eat c4.h (take c4.n c4.buf) (be_bytes 8 c2.bits)
        ≡ eat initial_words [] (
            (p ++ q)
            ++ (0x80 ∷ (replicate (zeros (length (p ++ q))) 0 ++ be_bytes 8 (8 * length (p ++ q)))))
    taken =
        ap (λ b. eat c4.h (take c4.n c4.buf) (be_bytes 8 b)) counted
        ∙ ap (λ w. go w (be_bytes 8 (8 * length (p ++ q))))
            (pad.seen ∙ ap (λ k. eat c3.h (take c3.n c3.buf) (replicate k 0)) zs)
        ∙ sym (
            eat-append c3.h (take c3.n c3.buf) (replicate (zeros (length (p ++ q))) 0)
              (be_bytes 8 (8 * length (p ++ q))))
        ∙ ap (λ w. go w (replicate (zeros (length (p ++ q))) 0 ++ be_bytes 8 (8 * length (p ++ q))))
            f3.seen
        ∙ sym (
            eat-append c2.h (take c2.n c2.buf) (0x80 ∷ [])
              (replicate (zeros (length (p ++ q))) 0 ++ be_bytes 8 (8 * length (p ++ q))))
        ∙ ap
            (λ w.
              go w (
                0x80 ∷ (replicate (zeros (length (p ++ q))) 0 ++ be_bytes 8 (8 * length (p ++ q)))))
            message
        ∙ sym (
            eat-append initial_words [] (p ++ q)
              (0x80 ∷ (replicate (zeros (length (p ++ q))) 0 ++ be_bytes 8 (8 * length (p ++ q)))))
