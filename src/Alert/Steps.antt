-- ===== src/Alert/Steps.antt =====
-- Sequences of operations on the alert source of src/ff-alert-source.c, and what the parts of one
-- operation leave alone.
use obs_foxfire.Queue.{Event}
use obs_foxfire.Queue.Fifo.{view}
use obs_foxfire.Alert.{Real, Host, Source, Call, Message, log, firing, asks}
use obs_foxfire.Alert.Play.{tick, on_twitch_changed, enqueue, on_test_fire, on_skip, on_clear}
use obs_foxfire.Alert.Settings.{Data, update}
use obs_foxfire.Alert.Draw.{render}
use obs_foxfire.Alert.Page.{props, on_twitch_connect, on_twitch_sign_out}
use obs_foxfire.Prelude.{Bytes, ◌≡◌, refl, ap, ◌∙◌, List, [], ◌∷◌, ◌++◌, append-nil, arith}
use obs_foxfire.Prelude.Int.{ℤ}

-- The operations that leave the settings and the waiting alerts to the others.
pub data Act : Type 0 where
  event : ℤ → Event → Act
  frame : Real → Act
  drawn shown test_pressed skip_pressed connect_pressed sign_out_pressed feed_changed : Act

pub data Op : Type 0 where
  act : Act → Op
  clear_pressed : Op
  settings : Data → Op

module _ (host : Host) (sentence : Bytes → Bytes) where
  unfoldable pub do_act : Source → Act → Source
  do_act a (event k e) = enqueue a k e
  do_act a (frame dt) = tick host a dt
  do_act a drawn = render host a
  do_act a shown = (props sentence host a).1
  do_act a test_pressed = on_test_fire a
  do_act a skip_pressed = on_skip a
  do_act a connect_pressed = on_twitch_connect a
  do_act a sign_out_pressed = on_twitch_sign_out a
  do_act a feed_changed = on_twitch_changed a

  unfoldable pub do_op : Source → Op → Source
  do_op a (act x) = do_act a x
  do_op a clear_pressed = on_clear a
  do_op a (settings s) = update host s a

  unfoldable pub do_acts : Source → List Act → Source
  do_acts a [] = a
  do_acts a (x ∷ xs) = do_acts (do_act a x) xs

  unfoldable pub do_ops : Source → List Op → Source
  do_ops a [] = a
  do_ops a (x ∷ xs) = do_ops (do_op a x) xs

-- The texts of the alerts that were started, the first one first.
abbrev pub body_in : Message → List Bytes
body_in (firing body) = body ∷ []
body_in _ = []

abbrev pub body_of_call : Call → List Bytes
body_of_call (log m) = body_in m
body_of_call _ = []

unfoldable pub fired : List Call → List Bytes
fired [] = []
fired (c ∷ cs) = fired cs ++ body_of_call c

abbrev pub waiting : Source → List Event
waiting a = (view a.queue).waiting

-- What every step of a start or an end leaves alone.
pub record Same (a b : Source) : Type 0 where
  pub same_kinds : b.kinds ≡ a.kinds
  pub same_queue : b.queue ≡ a.queue
  pub same_paused : b.paused ≡ a.paused
  pub same_duration : b.duration ≡ a.duration
  pub same_playing : b.playing ≡ a.playing
  pub same_elapsed : b.elapsed ≡ a.elapsed
  pub same_showing : b.showing ≡ a.showing
  pub same_fired : fired b.calls ≡ fired a.calls

pub same : (a : Source) → Same a a
same a = record {
  same_kinds = refl;
  same_queue = refl;
  same_paused = refl;
  same_duration = refl;
  same_playing = refl;
  same_elapsed = refl;
  same_showing = refl;
  same_fired = refl;
}

pub Same-trans : {a b c : Source} → Same a b → Same b c → Same a c
Same-trans p q = record {
  same_kinds = q.same_kinds ∙ p.same_kinds;
  same_queue = q.same_queue ∙ p.same_queue;
  same_paused = q.same_paused ∙ p.same_paused;
  same_duration = q.same_duration ∙ p.same_duration;
  same_playing = q.same_playing ∙ p.same_playing;
  same_elapsed = q.same_elapsed ∙ p.same_elapsed;
  same_showing = q.same_showing ∙ p.same_showing;
  same_fired = q.same_fired ∙ p.same_fired;
}

-- A call that starts nothing.
pub asks-Same : (c : Call) (a : Source) → body_of_call c ≡ [] → Same a (asks c a)
unfolding asks fired
asks-Same c a e = ground (arith, ap (λ t. fired a.calls ++ t) e ∙ append-nil (fired a.calls))
