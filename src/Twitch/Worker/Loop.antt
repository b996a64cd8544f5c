-- ===== src/Twitch/Worker/Loop.antt =====
-- The worker thread's own loop, `worker` of src/ff-twitch.c.
use obs_foxfire.Prelude.Text.{decimal_ℤ}
use obs_foxfire.Twitch.{backoff_secs}
use obs_foxfire.Twitch.Panel.{State, off, retrying, failed, taking_sign_in, taking_sign_out}
use obs_foxfire.Twitch.Worker.{
  Services, SignedIn, signed_in, not_signed_in, turns_out, read_running, read_enabled, read_state,
  set_state, set_text, nap, do_sign_in,
}
use obs_foxfire.Twitch.Worker.Run.{Ran, ran, unfinished, run_once}
use obs_foxfire.Prelude.{
  if◌then◌else◌, codes, clip, ℕ, zero, suc, Bool, true, false, Option, none, some,
}
use obs_foxfire.Prelude.Int.{ℤ, pos, ◌+ℤ◌}

-- What a turn of the loop gives: the end of the thread, or the number of attempts; `stuck` is the model's own.
pub data Round : Type 0 where
  over stuck : Round
  round : ℤ → Round

-- The states that wait for the streamer.
abbrev pub needs_streamer : State → Bool
needs_streamer failed = true
needs_streamer off = true
needs_streamer _ = false

-- The number of attempts that follows a connection.
abbrev pub attempts : Ran → ℤ → Option ℤ
attempts (ran true) attempt = some (pos 0)
attempts (ran false) attempt = some (attempt +ℤ pos 1)
attempts unfinished attempt = none

abbrev pub attempts_signed : SignedIn → ℤ → Round
attempts_signed signed_in attempt = round (pos 0)
attempts_signed not_signed_in attempt = round attempt
attempts_signed turns_out attempt = stuck

module _ (services : Services) where
  open services use {World, text, locked, token_forget}

  -- The wait before the next attempt.
  unfoldable pub back_off : ℤ → World → World
  unfolding backoff_secs set_text nap
  back_off attempt w =
      let secs = pos (backoff_secs attempt) in
      nap services secs (
        set_text services retrying (codes "Foxfire.Twitch.Retrying")
          (some (clip 16 (decimal_ℤ secs))) none none w)

  -- What follows a connection.
  unfoldable pub after_run : ℤ → World → World
  unfolding nap back_off
  after_run attempt w =
      let (running, w1) = locked read_running w in
      let (enabled, w2) = locked read_enabled w1 in
      let (state, w3) = locked read_state w2 in
      let rest = if needs_streamer state then nap services (pos 1) w3 else back_off attempt w3 in
      if running then (if enabled then rest else w2) else w1

  -- A turn that connects.
  unfoldable pub connect : ℕ → ℤ → World → Round × World
  unfolding run_once after_run
  connect turns attempt w =
      let (r, w1) = run_once services turns w in
      elim (attempts r attempt) [ none ↦ (stuck, w1) | some n ↦ (round n, after_run n w1) ]

  -- The rest of a turn, once no sign-in is asked for.
  unfoldable pub stay_connected : ℕ → ℤ → World → Round × World
  unfolding connect nap
  stay_connected turns attempt w =
      let (enabled, w1) = locked read_enabled w in
      let (state, w2) = locked read_state w1 in
      elim enabled [
        | false ↦ (round attempt, nap services (pos 1) w1)
        | true ↦ elim (needs_streamer state) [
          | true ↦ (round attempt, nap services (pos 1) w2)
          | false ↦ connect turns attempt w2
        ]
      ]

  unfoldable pub sign_out_first : World → World
  unfolding taking_sign_out set_state
  sign_out_first w =
      let (out, w1) = locked taking_sign_out w in
      if out
      then set_state services off (text (codes "Foxfire.Twitch.SignedOut")) (token_forget w1)
      else w1

  -- A turn of the loop of `worker`, its condition first.
  unfoldable pub worker_turn : ℕ → ℤ → World → Round × World
  unfolding sign_out_first taking_sign_in do_sign_in stay_connected
  worker_turn turns attempt w =
      let (running, w1) = locked read_running w in
      let (sign, w2) = locked taking_sign_in (sign_out_first w1) in
      let (r, w3) = do_sign_in services turns w2 in
      elim running [
        | false ↦ (over, w1)
        | true ↦ elim sign [
          | true ↦ (attempts_signed r attempt, w3)
          | false ↦ stay_connected turns attempt w2
        ]
      ]

  -- `worker`, for at most `rounds` turns.
  unfoldable pub worker : ℕ → ℕ → ℤ → World → Round × World
  unfolding worker_turn
  worker zero turns attempt w = (round attempt, w)
  worker (suc rounds) turns attempt w =
      let (r, w') = worker_turn turns attempt w in
      elim r [ over ↦ (over, w') | stuck ↦ (stuck, w') | round n ↦ worker rounds turns n w' ]
