-- ===== src/Session/Silence.antt =====
-- When silence ends a session.
use obs_foxfire.Prelude.{ℕ, suc, ◌+◌, ◌*◌, ◌≤◌, ◌<◌, ◌≡◌, ◌↔◌, ◌⊎◌, arith}
use obs_foxfire.Prelude.Int.{ℤ, pos, ◌+ℤ◌, ◌≤ℤ◌, to_int32, +ℤ_parts, -ℤ_parts}
use obs_foxfire.Session.{patience, is_stale, idle, Session, nothing, drop_it}

patience_small : (k : ℕ) → k ≤ 1_000_000 → patience (pos k) ≡ pos (k + k + 2)
unfolding patience ◌+ℤ◌ to_int32
patience_small k h = ground arith

-- Without a welcome (no keepalive agreed) a session is dropped exactly when its socket has been open
-- for more than 30 seconds; one that is not dropped is left as it was.
pub idle_unwelcomed :
    (s : Session) (now : ℤ)
    → s.es.keepalive_secs ≡ pos 0
    → (((idle s now).0 ≡ drop_it) ↔ (s.opened +ℤ pos 31 ≤ℤ now))
      × (((idle s now).0 ≡ drop_it) ⊎ (idle s now ≡ (nothing, s)))
unfolding idle
idle_unwelcomed s now e = ground (arith, e, -ℤ_parts now s.opened, +ℤ_parts s.opened (pos 31))

-- With a keepalive of 1 to 1,000,000 seconds and a last message at a positive time, a session is
-- dropped exactly when more than twice the keepalive and two seconds have passed since that message;
-- one that is not dropped is left as it was.
pub idle_iff :
    (s : Session) (now : ℤ) (k : ℕ)
    → s.es.keepalive_secs ≡ pos (suc k)
    → k < 1_000_000
    → pos 1 ≤ℤ s.last_message
    → (((idle s now).0 ≡ drop_it) ↔ (s.last_message +ℤ pos (2 * k + 5) ≤ℤ now))
      × (((idle s now).0 ≡ drop_it) ⊎ (idle s now ≡ (nothing, s)))
unfolding idle is_stale
idle_iff s now k e small positive = ground (
  arith,
  e,
  patience_small (suc k),
  +ℤ_parts s.last_message (pos (2 * k + 5)),
  +ℤ_parts s.last_message (pos (suc k + suc k + 2)),
)
