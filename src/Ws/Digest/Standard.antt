-- ===== src/Ws/Digest/Standard.antt =====
-- The code's digest is that of RFC 3174.
use obs_foxfire.Ws.Frame.{be_bytes}
use obs_foxfire.Ws.Digest.Blocks.{eat}
use obs_foxfire.Ws.Digest.Rfc.{Digests, eat-Digests}
use obs_foxfire.Ws.Digest.Padding.{rfc_words, zeros, padded, sha1_final-by_blocks}
use obs_foxfire.Ws.Digest.{sha1_init, sha1_update, digest_bytes, sha1_final, Words}
use obs_foxfire.Prelude.{
  length, replicate, length-append, length-replicate, Bytes, ℕ, ◌+◌, ◌*◌, ◌%◌, ◌^◌, ◌<◌, ◌≡◌, [],
  ◌∷◌, ◌++◌, arith,
}

-- RFC 3174's digest of a message: that of its padded text, as 20 bytes.
pub record IsDigest (m out : Bytes) : Type 0 where
  pub h : Words
  pub hashed : Digests rfc_words (padded m) h
  pub written :
      out
      ≡ be_bytes 4 h.a ++ (be_bytes 4 h.b ++ (be_bytes 4 h.d ++ (be_bytes 4 h.e ++ be_bytes 4 h.f)))

length-padded : (m : Bytes) → length (padded m) % 64 ≡ 0
length-padded m =
    let whole = replicate (zeros (length m)) 0 ++ be_bytes 8 (8 * length m) in
    omega (
      arith,
      length-append m (0x80 ∷ whole),
      length-append (replicate (zeros (length m)) 0) (be_bytes 8 (8 * length m)),
      length-replicate {A = ℕ} (zeros (length m)) 0,
    )

-- Fed with a key and then with a text, the code's SHA-1 is RFC 3174's digest of the two in a row: the
-- words of section 6.1, made by its schedule, steps and constants from every block of the padded message
-- in order.
pub sha1_final-IsDigest :
    (stack p q : Bytes)
    → length stack ≡ 64
    → length p + length q < 2 ^ 61
    → IsDigest (p ++ q) (sha1_final (sha1_update (sha1_update (sha1_init stack) p) q))
unfolding digest_bytes
sha1_final-IsDigest stack p q s small =
    let whole : (0 + length (padded (p ++ q))) % 64 ≡ 0 = omega (arith, length-padded (p ++ q)) in
    record {
      h = (eat rfc_words [] (padded (p ++ q))).0;
      hashed = eat-Digests rfc_words [] (padded (p ++ q)) (omega arith) whole;
      written = sha1_final-by_blocks stack p q s small;
    }
