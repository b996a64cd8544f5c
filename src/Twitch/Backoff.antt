-- ===== src/Twitch/Backoff.antt =====
-- The wait between attempts.
use obs_foxfire.Twitch.{backoff_loop, backoff_secs}
use obs_foxfire.Prelude.{
  ltb, if◌then◌else◌, ℕ, zero, suc, ◌+◌, ◌-◌, ◌*◌, ◌≤◌, min, ◌≡◌, refl, arith,
}
use obs_foxfire.Prelude.Int.{pos, negsuc}

abbrev capped : ℕ → ℕ
capped d = if ltb 60 d then 60 else d

loop_step :
    (k d : ℕ) → 1 ≤ d → capped (backoff_loop (suc k) d) ≡ min 60 (2 * capped (backoff_loop k d))
unfolding backoff_loop
loop_step zero d h = ground arith
loop_step (suc k) d h = ground (arith, loop_step k (d * 2) (omega (arith, h)))

-- The first attempt, and any below, waits one second, and each attempt after it waits twice as long as
-- the one before, up to 60 seconds.
pub backoff_lem :
    (n k : ℕ)
    → (backoff_secs (negsuc n) ≡ 1)
      × (backoff_secs (pos 0) ≡ 1)
      × (backoff_secs (pos 1) ≡ 1)
      × (backoff_secs (pos (k + 2)) ≡ min 60 (2 * backoff_secs (pos (k + 1))))
unfolding backoff_secs
backoff_lem n k =
    let more : k + 2 - 1 ≡ suc k = omega arith in
    let less : k + 1 - 1 ≡ k = omega arith in
    (refl, refl, refl, (rw (more, less) (loop_step k 1 (omega arith))))
