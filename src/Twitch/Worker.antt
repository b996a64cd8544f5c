-- ===== src/Twitch/Worker.antt =====
-- The worker thread of src/ff-twitch.c: its naps, the sign-in, and the texts it shows. What it uses is
-- an interface: the panel under its lock, the clock, the stored sign-in, Twitch's API and the sockets.
-- Plain log lines are left out.
pub mod Turn
pub mod Run
pub mod Loop
pub mod Idle
pub mod Keeps
pub mod Once
use obs_foxfire.EventSub.{Json, Sub}
use obs_foxfire.Queue.{Event}
use obs_foxfire.Twitch.Panel.{State, signing_in, connecting, failed, Panel, set_line, store_code}
use obs_foxfire.Twitch.Api.{
  Token, Device, Outcome, fine, trouble, Polled, Renewed, pending, got_token, slow_down, denied,
  expired, error,
}
use obs_foxfire.Prelude.{
  if◌then◌else◌, Bytes, codes, is_empty, clip, ℕ, zero, suc, ◌⊎◌, inl, inr, Bool, true, false,
  Option, none, some,
}
use obs_foxfire.Prelude.Int.{ℤ, pos, pos_part, ◌+ℤ◌, ltb_ℤ, to_int32}

-- What a poll of a socket gives: -1, 0, or 1 with the payload.
pub data Arrival : Type 0 where
  lost quiet : Arrival
  arrived : Bytes → Arrival

-- The operations that the worker calls. `locked` is one section under the lock, before which other
-- threads may have had theirs; `report` is the log line and the callback of `set_line`; `text` is
-- `obs_module_text` and `replace` `dstr_replace`; `slice` sleeps 200 ms; `close_with` sends a close
-- frame and frees the socket, which `close` only frees; `unset` is what `ev` holds at first.
pub record Services : Type 1 where
  pub World : Type 0
  pub Socket : Type 0
  pub json : Json
  pub text : Bytes → Bytes
  pub replace : Bytes → Bytes → Bytes → Bytes
  pub unset : Event
  pub locked : {A : Type 0} → (Panel → A × Panel) → World → A × World
  pub report : World → State → Bytes → World
  pub emit : World → Event → World
  pub time : World → ℤ × World
  pub slice : World → World
  pub alloc : World → ℕ → Bool × World
  pub token_load : World → Option Token × World
  pub token_save : World → Token → Bool × World
  pub token_forget : World → World
  pub device_start : World → Bytes → Outcome Device × World
  pub device_poll : World → Bytes → Bytes → Polled × World
  pub refresh : World → Bytes → Bytes → Renewed × World
  pub user_id : World → Bytes → Bytes → Outcome (Bytes × Bytes) × World
  pub subscribe : World → Bytes → Bytes → Sub → Bytes → Bytes → Outcome ℤ × World
  pub open_socket : World → Bytes → Outcome Socket × World
  pub poll : World → Socket → Arrival × Socket × World
  pub error_of : Socket → Bytes
  pub wait : World → Socket → ℕ → World
  pub close : World → Socket → World
  pub close_with : World → Socket → ℕ → World

-- What `do_sign_in` returns; `turns_out` is the model's own.
pub data SignedIn : Type 0 where
  signed_in not_signed_in turns_out : SignedIn

-- `reading` of `running` and of `enabled`, and the sections that copy the client id and the state.
abbrev pub read_running : Panel → Bool × Panel
read_running t = (t.running, t)

abbrev pub read_enabled : Panel → Bool × Panel
read_enabled t = (t.enabled, t)

abbrev pub read_client_id : Panel → Bytes × Panel
read_client_id t = (t.client_id, t)

abbrev pub read_state : Panel → State × Panel
read_state t = (t.state, t)

abbrev pub times_5 : ℤ → ℤ
times_5 n = to_int32 (n +ℤ n +ℤ n +ℤ n +ℤ n)

module _ (services : Services) where
  open services use {
    World, text, replace, locked, report, time, slice, token_save, device_start, device_poll,
  }

  -- `set_line`, with what follows the section under the lock, and `set_state`.
  unfoldable pub show_line : State → Bytes → World → World
  unfolding set_line
  show_line s line w =
      let (changed, w') = locked (λ t. set_line t s line) w in
      if changed then report w' s line else w'

  unfoldable pub set_state : State → Bytes → World → World
  unfolding show_line
  set_state s line w = show_line s (clip 512 line) w

  -- `ff_twitch_format`, with the null arguments `none`.
  abbrev pub put : Bytes → Option Bytes → Bytes → Bytes
  put mark none s = s
  put mark (some a) s = replace s mark a

  unfoldable pub format : Bytes → Option Bytes → Option Bytes → Option Bytes → ℕ → Bytes
  format key a1 a2 a3 size =
      clip size (put (codes "%1") a1 (put (codes "%2") a2 (put (codes "%3") a3 (text key))))

  -- `set_text`
  unfoldable pub set_text :
      State → Bytes → Option Bytes → Option Bytes → Option Bytes → World → World
  unfolding show_line format
  set_text s key a1 a2 a3 w = show_line s (format key a1 a2 a3 512) w

  -- `nap`: at most `n` slices, as long as `running` is set.
  unfoldable pub nap_slices : ℕ → World → World
  nap_slices zero w = w
  nap_slices (suc n) w =
      let (running, w') = locked read_running w in
      let rest = nap_slices n (slice w') in if running then rest else w'

  unfoldable pub nap : ℤ → World → World
  unfolding nap_slices
  nap secs w = nap_slices (pos_part (times_5 secs)) w

  -- What `do_sign_in` makes of an answer: it returns, or asks again after the interval it is given.
  unfoldable pub of_poll : Polled → ℤ → World → (SignedIn ⊎ ℤ) × World
  unfolding set_state set_text
  of_poll (got_token tok) interval w =
      let (saved, w') = token_save w tok in
      if saved
      then (inl signed_in, set_state connecting (text (codes "Foxfire.Twitch.SignedIn")) w')
      else (
        inl not_signed_in,
        set_text failed (codes "Foxfire.Twitch.CannotStore") none none none w',
      )
  of_poll slow_down interval w = (inr (interval +ℤ pos 5), w)
  of_poll (pending err) interval w = (inr interval, w)
  of_poll (denied err) interval w = (inl not_signed_in, set_state failed err w)
  of_poll (expired err) interval w = (inl not_signed_in, set_state failed err w)
  of_poll (error err) interval w = (inl not_signed_in, set_state failed err w)

  -- What follows the loop.
  unfoldable pub code_expired : World → SignedIn × World
  unfolding set_state
  code_expired w =
      let (running, w') = locked read_running w in
      (
        not_signed_in,
        if running then set_state failed (text (codes "Foxfire.Twitch.CodeExpired")) w' else w',
      )

  -- The loop of `do_sign_in`, at most `turns` times.
  unfoldable pub ask_again : ℕ → Bytes → Bytes → ℤ → ℤ → World → SignedIn × World
  unfolding nap of_poll code_expired
  ask_again zero cid code interval deadline w = (turns_out, w)
  ask_again (suc turns) cid code interval deadline w =
      let (running, w1) = locked read_running w in
      let (now, w2) = time w1 in
      let (still, w3) = locked read_running (nap interval w2) in
      let (answer, w4) = device_poll w3 cid code in
      let (next, w5) = of_poll answer interval w4 in
      elim running [
        | false ↦ code_expired w1
        | true ↦ elim (ltb_ℤ now deadline) [
          | false ↦ code_expired w2
          | true ↦ elim still [
            | false ↦ (not_signed_in, w3)
            | true ↦ elim next [ inl r ↦ (r, w5) | inr i ↦ ask_again turns cid code i deadline w5 ]
          ]
        ]
      ]

  -- `do_sign_in` once there is a code to show.
  unfoldable pub show_code : ℕ → Bytes → Device → World → SignedIn × World
  unfolding set_text ask_again store_code
  show_code turns cid dev w =
      let (done, w1) = locked (λ t. (tt, store_code t dev.user_code dev.verify_url)) w in
      let w2 =
        set_text signing_in (codes "Foxfire.Twitch.EnterCode") (some dev.user_code)
          (some dev.verify_url) none w1 in
      let (now, w3) = time w2 in
      let lifetime = if ltb_ℤ (pos 0) dev.expires_in then dev.expires_in else pos 1800 in
      ask_again turns cid dev.device_code dev.interval (now +ℤ lifetime) w3

  -- `do_sign_in`
  unfoldable pub do_sign_in : ℕ → World → SignedIn × World
  unfolding set_state show_code
  do_sign_in turns w =
      let (id, w1) = locked read_client_id w in
      let cid = clip 256 id in
      let (started, w2) = device_start w1 cid in
      if is_empty cid
      then (not_signed_in, set_state failed (text (codes "Foxfire.Twitch.NoClientId")) w1)
      else elim started [
        | trouble err ↦ (not_signed_in, set_state failed err w2)
        | fine dev ↦ show_code turns cid dev w2
      ]
