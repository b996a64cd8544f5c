-- ===== src/Alert/OnScreen.antt =====
-- When the sound of an alert may be heard, over any operations on the source of src/ff-alert-source.c.
use obs_foxfire.Queue.{Event, pop, push, clear, kind_id, kind_value}
use obs_foxfire.Pack.Load.{Pack}
use obs_foxfire.Twitch.Panel.{Panel}
use obs_foxfire.Alert.{
  Real, unknown_kind, switched_off, cleared, no_feed, update_properties, log, asks,
  ensure_sound_child, Host, Source,
}
use obs_foxfire.Alert.Play.{
  body_of, tell_removed, draw_body, choose_art, choose_sound, restart_sound, start_alert,
  start_next, stop_sound, finish, tick, on_twitch_changed, kind_of, enqueue_known, enqueue,
  on_test_fire, on_skip, on_clear,
}
use obs_foxfire.Alert.Settings.{Data, update, read_settings, blank, create, update_feed}
use obs_foxfire.Alert.Page.{props, on_twitch_connect, on_twitch_sign_out}
use obs_foxfire.Alert.Steps.{
  event, frame, drawn, shown, test_pressed, skip_pressed, connect_pressed, sign_out_pressed,
  feed_changed, do_act, Op, act, clear_pressed, settings, do_op, do_ops,
}
use obs_foxfire.Alert.Audible.{loud, Owned, Calm, Calm-trans, asks-Calm, unheard-Calm}
use obs_foxfire.Alert.Quiet.{
  Quiet-trans, tell_queued-Quiet, text_kind-Quiet, ensure_sound_child-Quiet, tell_removed-Quiet,
  choose_art-Quiet, choose_sound-Quiet, draw_body-Quiet, render-Quiet,
}
use obs_foxfire.Prelude.{
  Bytes, clip, ℕ, ◌≡◌, refl, ◌∙◌, Bool, true, not, Option, some, List, [], ◌∷◌, arith, if_both,
  given_both, given_with,
}
use obs_foxfire.Prelude.Int.{ℤ, pos}

pub record OnScreen (a : Source) : Type 0 where
  pub owned : Owned a
  pub on_screen : (s : ℕ) → loud s a.calls ≡ true → a.playing ≡ true

Calm-OnScreen : {a b : Source} → OnScreen a → Calm a b → OnScreen b
Calm-OnScreen p c = record {
  owned = c.calm_owned p.owned;
  on_screen = λ s h. c.calm_playing ∙ p.on_screen s (c.calm_loud s h);
}

enqueue-Calm : (a : Source) (k : ℤ) (e : Event) → Calm a (enqueue a k e)
unfolding enqueue enqueue_known
enqueue-Calm a k e =
    given_both (Calm a) (kind_of k) _ _ (asks-Calm (log (unknown_kind k)) a (λ s b. refl)) (λ kind.
      let e' = record e { kind = kind } in
      let q = push a.queue e' in
      if_both (Calm a) (not (a.kinds kind).enabled) _ _
        (asks-Calm (log (switched_off (kind_id (pos (kind_value kind))) e.name)) a (λ s b. refl))
        (Calm-trans (unheard-Calm refl refl refl)
          (tell_queued-Quiet q.0 e' (record a { queue = q.1 })).calms))

module _ (host : Host) where
  restart_sound-Owned : (a : Source) → Owned a → Owned (restart_sound host a)
  unfolding restart_sound asks loud
  restart_sound-Owned a o = given_with Owned a.sound _ _ (λ e. o) (λ s e t h. ground (arith, o t))

  start_alert-OnScreen : (a : Source) (e : Event) → Owned a → OnScreen (start_alert host a e)
  unfolding start_alert asks loud
  start_alert-OnScreen a e o =
      let body = body_of host a.kinds e in
      let a0 = tell_removed host e a in
      let a1 = draw_body host body a0 in
      let a2 = choose_art host e.kind a1 in
      let a3 = choose_sound host e.kind a2 in
      let chosen =
        Quiet-trans (choose_art-Quiet host e.kind a1) (choose_sound-Quiet host e.kind a2) in
      let ready =
        Quiet-trans (Quiet-trans (draw_body-Quiet host body a0) chosen)
          (ensure_sound_child-Quiet host a3) in
      let shows : Calm a0 (record a0 { showing = clip 512 body }) = unheard-Calm refl refl refl in
      let c = Calm-trans (Calm-trans (tell_removed-Quiet host e a).calms shows) ready.calms in
      record {
        owned = restart_sound-Owned (ensure_sound_child host a3) (c.calm_owned o);
        on_screen = λ s h. refl;
      }

  start_next-OnScreen : (a : Source) → OnScreen a → OnScreen (start_next host a)
  unfolding start_next
  start_next-OnScreen a p =
      let q = (pop a.queue).2 in
      let b = Calm-OnScreen p (unheard-Calm refl refl refl) in
      if_both OnScreen a.paused _ _ p (
        given_both OnScreen (pop a.queue).1 _ _ b
          (λ e. start_alert-OnScreen (record a { queue = q }) e b.owned))

  finish-OnScreen : (a : Source) → Owned a → OnScreen (finish host a)
  unfolding finish stop_sound asks loud
  finish-OnScreen a o =
      given_with OnScreen a.sound _ _
        (λ e. record { owned = o; on_screen = λ s h. absurd (ground (arith, o s h)) })
        (λ t e. record {
          owned = λ s h. ground (arith, o s);
          on_screen = λ s h. absurd (ground (arith, o s));
        })

  tick-OnScreen : (a : Source) (dt : Real) → OnScreen a → OnScreen (tick host a dt)
  unfolding tick
  tick-OnScreen a dt p =
      let t = record a { elapsed = host.add_real a.elapsed dt } in
      if_both OnScreen (not a.playing) _ _ (start_next-OnScreen a p) (
        if_both OnScreen (host.lt_real t.elapsed a.duration) t _
          (record { owned = p.owned; on_screen = p.on_screen })
          (start_next-OnScreen (finish host t) (finish-OnScreen t p.owned)))

  update-OnScreen : (s : Data) (a : Source) → OnScreen a → OnScreen (update host s a)
  unfolding update read_settings
  update-OnScreen s a p =
      let r : OnScreen (read_settings s a) = record { owned = p.owned; on_screen = p.on_screen } in
      let b = Calm-OnScreen r (ensure_sound_child-Quiet host (read_settings s a)).calms in
      record { owned = b.owned; on_screen = b.on_screen }

  do_op-OnScreen :
      (sentence : Bytes → Bytes) (a : Source) (x : Op)
      → OnScreen a
      → OnScreen (do_op host sentence a x)
  unfolding do_op do_act on_test_fire on_skip on_clear on_twitch_connect on_twitch_sign_out
      on_twitch_changed props
  do_op-OnScreen sentence a (act (event k e)) p = Calm-OnScreen p (enqueue-Calm a k e)
  do_op-OnScreen sentence a (act (frame dt)) p = tick-OnScreen a dt p
  do_op-OnScreen sentence a (act drawn) p = Calm-OnScreen p (render-Quiet host a).calms
  do_op-OnScreen sentence a (act shown) p = Calm-OnScreen p (text_kind-Quiet host a).calms
  do_op-OnScreen sentence a (act test_pressed) p = Calm-OnScreen p (enqueue-Calm a _ _)
  do_op-OnScreen sentence a (act skip_pressed) p = record {
    owned = p.owned;
    on_screen = p.on_screen;
  }
  do_op-OnScreen sentence a (act connect_pressed) p = record {
    owned = p.owned;
    on_screen = p.on_screen;
  }
  do_op-OnScreen sentence a (act sign_out_pressed) p = record {
    owned = p.owned;
    on_screen = p.on_screen;
  }
  do_op-OnScreen sentence a (act feed_changed) p =
      Calm-OnScreen p (asks-Calm update_properties a (λ s b. refl))
  do_op-OnScreen sentence a clear_pressed p =
      let (n, q) = clear a.queue in
      Calm-OnScreen p (
        Calm-trans (unheard-Calm refl refl refl)
          (asks-Calm (log (cleared n)) (record a { queue = q }) (λ s b. refl)))
  do_op-OnScreen sentence a (settings s) p = update-OnScreen s a p

  do_ops-OnScreen :
      (sentence : Bytes → Bytes) (xs : List Op) (a : Source)
      → OnScreen a
      → OnScreen (do_ops host sentence a xs)
  unfolding do_ops
  do_ops-OnScreen sentence [] a p = p
  do_ops-OnScreen sentence (x ∷ xs) a p =
      do_ops-OnScreen sentence xs (do_op host sentence a x) (do_op-OnScreen sentence a x p)

  create-OnScreen :
      (renderer : Bool) (packs : List (Pack ℕ)) (feed : Option Panel) (s : Data)
      → OnScreen (create host renderer packs feed s)
  unfolding create blank loud
  create-OnScreen renderer packs feed s =
      let a = record (blank host.zero_real) { has_renderer = renderer; packs = packs } in
      let p : OnScreen a = record { owned = λ t h. cc; on_screen = λ t h. cc } in
      let u = update-OnScreen s a p in
      let b = record (update host s a) { twitch = update_feed s feed } in
      let q : OnScreen b = record { owned = u.owned; on_screen = u.on_screen } in
      given_both OnScreen feed _ _ (Calm-OnScreen q (asks-Calm (log no_feed) b (λ t r. refl)))
        (λ t. q)

  -- From the creation of the source, over any operations in any order, changes of the settings
  -- included: a child that was told to play, and since then neither told to stop nor let go, is the
  -- source's own sound child, and an alert is on the screen. So no sound outlives its alert.
  pub sound_on_screen :
      (renderer : Bool) (packs : List (Pack ℕ)) (feed : Option Panel) (first : Data)
      (sentence : Bytes → Bytes) (xs : List Op) (s : ℕ)
      → loud s (do_ops host sentence (create host renderer packs feed first) xs).calls ≡ true
      → (let a = do_ops host sentence (create host renderer packs feed first) xs in
          (a.sound ≡ some s) × (a.playing ≡ true))
  sound_on_screen renderer packs feed first sentence xs s h =
      let p = do_ops-OnScreen sentence xs _ (create-OnScreen renderer packs feed first) in
      (p.owned s h, p.on_screen s h)
