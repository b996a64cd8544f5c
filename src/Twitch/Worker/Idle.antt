-- ===== src/Twitch/Worker/Idle.antt =====
-- The worker while nobody asks it to sign in.
use obs_foxfire.Twitch.Panel.{State, off, Panel, set_line, taking_sign_in, taking_sign_out}
use obs_foxfire.Twitch.Worker.{
  Services, read_running, read_enabled, read_state, show_line, set_state, nap_slices, nap,
}
use obs_foxfire.Twitch.Worker.Loop.{
  over, stuck, round, sign_out_first, stay_connected, worker_turn, worker,
}
use obs_foxfire.Prelude.{
  Bool-cases, Bytes, ℕ, zero, suc, ◌≡◌, refl, ◌∙◌, ◌≢◌, ◌⊎◌, inl, inr, false, arith, if_both,
}
use obs_foxfire.Prelude.Int.{ℤ, pos}

-- The panel as it is created, whether enabled or not: off, and with no request to sign in.
abbrev pub IsIdle : Panel → Type 0
IsIdle t = (t.state ≡ off) × (t.want_sign_in ≡ false)

-- What is relied on: the other threads' sections keep an idle panel idle, so that what holds of the
-- world holds after each section that does, which sees an idle panel; and it holds after a line is
-- reported, a slice of sleep, and the removal of the stored sign-in.
pub record Idles (services : Services) (P : services.World → Type 0) : Type 1 where
  pub section :
      {A : Type 0} (f : Panel → A × Panel) (w : services.World)
      → ((t : Panel) → IsIdle t → IsIdle (f t).1)
      → P w
      → P (services.locked f w).1
  pub seen :
      {A : Type 0} (f : Panel → A × Panel) (w : services.World)
      → P w
      → (t : Panel) × (IsIdle t × ((services.locked f w).0 ≡ (f t).0))
  pub reported :
      (w : services.World) (s : State) (line : Bytes) → P w → P (services.report w s line)
  pub slept : (w : services.World) → P w → P (services.slice w)
  pub forgotten : (w : services.World) → P w → P (services.token_forget w)

set_line-IsIdle : (t : Panel) (line : Bytes) → IsIdle t → IsIdle (set_line t off line).1
unfolding set_line
set_line-IsIdle t line h = (refl, h.1)

module _ (services : Services) (P : services.World → Type 0) (idles : Idles services P) where
  open services use {World, locked, report, slice, token_forget, text}
  open idles use {section, seen, reported, slept, forgotten}

  show_off : (line : Bytes) (w : World) → P w → P (show_line services off line w)
  unfolding show_line
  show_off line w p =
      let q = section (λ t. set_line t off line) w (λ t h. set_line-IsIdle t line h) p in
      if_both P _ _ _ (reported _ off line q) q

  nap_slices_keep : (n : ℕ) (w : World) → P w → P (nap_slices services n w)
  unfolding nap_slices
  nap_slices_keep zero w p = p
  nap_slices_keep (suc n) w p =
      let q = section read_running w (λ t h. h) p in
      if_both P _ _ _ (nap_slices_keep n _ (slept _ q)) q

  nap_keeps : (secs : ℤ) (w : World) → P w → P (nap services secs w)
  unfolding nap
  nap_keeps secs w p = nap_slices_keep _ w p

  sign_out_keeps : (w : World) → P w → P (sign_out_first services w)
  unfolding sign_out_first set_state taking_sign_out
  sign_out_keeps w p =
      let q = section taking_sign_out w (λ t h. h) p in
      if_both P _ _ _ (show_off _ _ (forgotten _ q)) q

  no_sign_in : (w : World) → P w → (locked taking_sign_in w).0 ≡ false
  unfolding taking_sign_in
  no_sign_in w p = let (t, (h, e)) = seen taking_sign_in w p in e ∙ h.1

  is_off : (w : World) → P w → (locked read_state w).0 ≡ off
  is_off w p = let (t, (h, e)) = seen read_state w p in e ∙ h.0

  stays_off :
      (turns : ℕ) (attempt : ℤ) (w : World)
      → P w
      → ((stay_connected services turns attempt w).0 ≡ round attempt)
        × P (stay_connected services turns attempt w).1
  unfolding stay_connected
  stays_off turns attempt w p =
      let q = section read_enabled w (λ t h. h) p in
      let w1 = (locked read_enabled w).1 in
      elim (Bool-cases (locked read_enabled w).0) [
        | inr gone ↦ rw (stay_connected, gone) (refl, nap_keeps (pos 1) _ q)
        | inl there ↦
            rw (stay_connected, there, is_off w1 q)
              (refl, nap_keeps (pos 1) _ (section read_state w1 (λ t h. h) q))
      ]

  turn_idle :
      (turns : ℕ) (attempt : ℤ) (w : World)
      → P w
      → (((worker_turn services turns attempt w).0 ≡ over)
          ⊎ ((worker_turn services turns attempt w).0 ≡ round attempt))
        × P (worker_turn services turns attempt w).1
  unfolding worker_turn
  turn_idle turns attempt w p =
      let q = section read_running w (λ t h. h) p in
      let w1 = (locked read_running w).1 in
      let q1 = sign_out_keeps w1 q in
      let w2 = sign_out_first services w1 in
      let s =
        stays_off turns attempt (locked taking_sign_in w2).1
          (section taking_sign_in w2 (λ t h. (h.0, refl)) q1) in
      elim (Bool-cases (locked read_running w).0) [
        | inr gone ↦ rw (worker_turn, gone) (inl refl, q)
        | inl there ↦ rw (worker_turn, there, no_sign_in w2 q1) (inr s.0, s.1)
      ]

  -- As long as nobody asks to sign in, the worker of a panel that is off, as it is created, does nothing but wait and
  -- forget the stored sign-in if it is asked to sign out: what these keep is kept for ever, so it does not connect,
  -- enabled or not, whatever sign-in is stored. It needs no turns of any other loop.
  pub worker_idle :
      (rounds turns : ℕ) (attempt : ℤ) (w : World)
      → P w
      → ((worker services rounds turns attempt w).0 ≢ stuck)
        × P (worker services rounds turns attempt w).1
  unfolding worker
  worker_idle zero turns attempt w p = (λ e. ground (arith, e), p)
  worker_idle (suc rounds) turns attempt w p =
      let (r, q) = turn_idle turns attempt w p in
      elim r [
        | inl e ↦ rw (worker, e) (λ e'. ground (arith, e'), q)
        | inr e ↦ rw (worker, e) (worker_idle rounds turns attempt _ q)
      ]
