-- ===== src/Ws/Digest.antt =====
-- The digest behind Sec-WebSocket-Accept, of src/ff-ws.c: SHA-1 as the code computes it, a block at a
-- time over a 64-byte buffer, base64, and `ff_ws_accept_for`. A `uint32_t` is a number below 2 ^ 32;
-- `v << s` is `v * 2 ^ s % 2 ^ 32`, and `~v` is `2 ^ 32 - 1 - v`.
pub mod Blocks
pub mod Padding
pub mod Rfc
pub mod Standard
use obs_foxfire.Ws.Frame.{be_bytes}
use obs_foxfire.Prelude.{
  ltb, ◌==◌, if◌then◌else◌, length, get_or, take, drop, Bytes, codes, ℕ, zero, suc, ◌+◌, ◌-◌, ◌*◌,
  ◌/◌, ◌%◌, ◌^◌, ◌<◌, min, bit_xor, bit_and, bit_or, Option, none, some, List, [], ◌∷◌, ◌++◌,
}

-- The five words, by the names that `sha1_block` gives them.
pub record Words : Type 0 where
  pub a : ℕ
  pub b : ℕ
  pub d : ℕ
  pub e : ℕ
  pub f : ℕ

-- `struct sha1`; `h` has five words, of `buf` the first `n` bytes are in use.
pub record Sha1 : Type 0 where
  pub h : Words
  pub bits : ℕ
  pub buf : Bytes
  pub n : ℕ

unfoldable pub rol : ℕ → ℕ → ℕ
rol v s = bit_or (v * 2 ^ s % 2 ^ 32) (v / 2 ^ (32 - s))

-- `w[i]` for i < 16: four bytes, the highest first.
unfoldable pub words : ℕ → Bytes → List ℕ
words zero p = []
words (suc k) p =
    (get_or p 0 0 * 2 ^ 24 + get_or p 1 0 * 2 ^ 16 + get_or p 2 0 * 2 ^ 8 + get_or p 3 0)
    ∷ words k (drop 4 p)

-- `w[i]` for the next `k` indices from `i` on.
unfoldable pub schedule : ℕ → ℕ → List ℕ → List ℕ
unfolding rol
schedule zero i w = w
schedule (suc k) i w =
    let x =
      bit_xor (bit_xor (bit_xor (get_or w (i - 3) 0) (get_or w (i - 8) 0)) (get_or w (i - 14) 0))
        (get_or w (i - 16) 0) in
    schedule k (i + 1) (w ++ rol x 1 ∷ [])

-- The function and the constant of round `i`.
unfoldable pub mix : ℕ → ℕ → ℕ → ℕ → ℕ × ℕ
mix i b d e =
    if ltb i 20
    then (bit_or (bit_and b d) (bit_and (2 ^ 32 - 1 - b) e), 0x5a827999)
    else if ltb i 40
    then (bit_xor (bit_xor b d) e, 0x6ed9eba1)
    else if ltb i 60
    then (bit_or (bit_or (bit_and b d) (bit_and b e)) (bit_and d e), 0x8f1bbcdc)
    else (bit_xor (bit_xor b d) e, 0xca62c1d6)

-- One round; the code's a, b, d, e, f.
unfoldable pub round : ℕ → ℕ → Words → Words
unfolding rol mix
round i w r =
    let (t, k) = mix i r.b r.d r.e in
    record { a = (rol r.a 5 + t + r.f + k + w) % 2 ^ 32; b = r.a; d = rol r.b 30; e = r.d; f = r.e }

-- The rounds from `i` on, one for each word of the schedule.
unfoldable pub rounds : ℕ → List ℕ → Words → Words
unfolding round
rounds i [] r = r
rounds i (w ∷ ws) r = rounds (i + 1) ws (round i w r)

-- `sha1_block` on the words of the state.
unfoldable pub block : Words → Bytes → Words
unfolding words schedule rounds
block h p =
    let r = rounds 0 (schedule 64 16 (words 16 p)) h in
    record {
      a = (h.a + r.a) % 2 ^ 32;
      b = (h.b + r.b) % 2 ^ 32;
      d = (h.d + r.d) % 2 ^ 32;
      e = (h.e + r.e) % 2 ^ 32;
      f = (h.f + r.f) % 2 ^ 32;
    }

abbrev pub initial_words : Words
initial_words = record {
  a = 0x67452301;
  b = 0xefcdab89;
  d = 0x98badcfe;
  e = 0x10325476;
  f = 0xc3d2e1f0;
}

-- `sha1_init` leaves `buf` as it was on the stack.
unfoldable pub sha1_init : Bytes → Sha1
sha1_init stack = record { h = initial_words; bits = 0; buf = stack; n = 0 }

-- `memcpy(buf + at, src, length src)`
unfoldable pub write_at : Bytes → ℕ → Bytes → Bytes
write_at buf at src = take at buf ++ (src ++ drop (at + length src) buf)

-- One turn of the loop of `sha1_update`, on the `taken` bytes that it copies.
unfoldable pub absorb : Sha1 → Bytes → Sha1
absorb c taken =
    let buf' = write_at c.buf c.n taken in
    if c.n + length taken == 64
    then record c { h = block c.h buf'; buf = buf'; n = 0 }
    else record c { buf = buf'; n = c.n + length taken }

-- The loop `while (n)`, with fuel.
unfoldable pub absorb_all : ℕ → Sha1 → Bytes → Sha1
absorb_all zero c p = c
absorb_all (suc f) c [] = c
absorb_all (suc f) c (x ∷ xs) =
    let k = min (64 - c.n) (length (x ∷ xs)) in
    absorb_all f (absorb c (take k (x ∷ xs))) (drop k (x ∷ xs))

-- `sha1_update`; each turn takes at least one byte, so the length is enough fuel.
unfoldable pub sha1_update : Sha1 → Bytes → Sha1
unfolding absorb_all absorb write_at
sha1_update c p = absorb_all (length p) (record c { bits = (c.bits + length p * 8) % 2 ^ 64 }) p

-- The loop `while (c->n != 56)`, with fuel.
unfoldable pub pad_zeros : ℕ → Sha1 → Sha1
pad_zeros zero c = c
pad_zeros (suc f) c =
    let rest = pad_zeros f (sha1_update c (0 ∷ [])) in if c.n == 56 then c else rest

unfoldable pub digest_bytes : Words → Bytes
digest_bytes h =
    be_bytes 4 h.a ++ (be_bytes 4 h.b ++ (be_bytes 4 h.d ++ (be_bytes 4 h.e ++ be_bytes 4 h.f)))

-- `sha1_final`
unfoldable pub sha1_final : Sha1 → Bytes
sha1_final c =
    let c' = pad_zeros 64 (sha1_update c (0x80 ∷ [])) in
    digest_bytes (block c'.h (write_at c'.buf 56 (be_bytes 8 c.bits)))

abbrev pub alphabet : Bytes
alphabet = codes "ABCDEFGHIJKLMNOPQRSTUVWXYZabcdefghijklmnopqrstuvwxyz0123456789+/"

-- `A[v >> s & 63]`
abbrev pub sextet : ℕ → ℕ → ℕ
sextet v s = get_or alphabet (v / 2 ^ s % 64) 0

-- The loop of `b64`: three bytes a turn, and what it writes for the last one or two.
unfoldable pub b64_groups : Bytes → Bytes
b64_groups [] = []
b64_groups (a ∷ []) = let v = a * 2 ^ 16 in sextet v 18 ∷ sextet v 12 ∷ b'=' ∷ b'=' ∷ []
b64_groups (a ∷ b ∷ []) =
    let v = a * 2 ^ 16 + b * 2 ^ 8 in sextet v 18 ∷ sextet v 12 ∷ sextet v 6 ∷ b'=' ∷ []
b64_groups (a ∷ b ∷ c ∷ rest) =
    let v = a * 2 ^ 16 + b * 2 ^ 8 + c in
    sextet v 18 ∷ sextet v 12 ∷ sextet v 6 ∷ sextet v 0 ∷ b64_groups rest

-- `b64`; `none` is the return of 0 for a buffer that is too small.
unfoldable pub b64 : Bytes → ℕ → Option Bytes
unfolding b64_groups
b64 s cap = if ltb cap ((length s + 2) / 3 * 4 + 1) then none else some (b64_groups s)

-- `ff_ws_accept_for`; `stack` is what `struct sha1` finds in its buffer.
unfoldable pub accept_for : Bytes → Bytes → ℕ → Option Bytes
unfolding sha1_init sha1_update sha1_final pad_zeros write_at digest_bytes block b64
accept_for stack key cap =
    if ltb cap 29
    then none
    else (let c =
          sha1_update (sha1_update (sha1_init stack) key)
            (codes "258EAFA5-E914-47DA-95CA-C5AB0DC85B11") in
        b64 (sha1_final c) cap)
