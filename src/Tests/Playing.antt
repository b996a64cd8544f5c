-- ===== src/Tests/Playing.antt =====
-- The alert source on concrete events, with numbers of milliseconds for floats.
use obs_foxfire.Queue.{Event, raid, init, push, pop, kind_value, kind_id}
use obs_foxfire.Queue.Invariant.{IsValid, init-IsValid, push-IsValid}
use obs_foxfire.Alert.{
  asks, first_registered, text_kind, create_text_child, ensure_text_child, drop_sound_child,
  create_sound_child, ensure_sound_child, text_settings, KindSettings, Host, Source,
}
use obs_foxfire.Alert.Play.{
  cleaned, own_or, render_template, body_of, tell_removed, draw_body, choose_art, choose_sound,
  restart_sound, start_alert, start_next, stop_sound, finish, tick, kind_of, tell_queued,
  enqueue_known, enqueue, test_event, on_test_fire, on_skip,
}
use obs_foxfire.Alert.Draw.{warned, reload_art, draw_pack, draw_name, render}
use obs_foxfire.Alert.Page.{props}
use obs_foxfire.Sanitise.{sanitise}
use obs_foxfire.Prelude.Text.{decimal_ℤ}
use obs_foxfire.Alert.Settings.{Data, blank, create, update, read_settings, read_kind, kind_key}
use obs_foxfire.Alert.Steps.{
  Act, event, frame, test_pressed, skip_pressed, shown, drawn, Op, act, settings, do_op, do_act,
  do_ops, do_acts, fired, waiting,
}
use obs_foxfire.Alert.Fates.{Accounts}
use obs_foxfire.Alert.Account.{arrivals, do_acts-Accounts}
use obs_foxfire.Alert.Audible.{loud}
use obs_foxfire.Alert.OnScreen.{sound_on_screen}
use obs_foxfire.Alert.Waiting.{frames, later}
use obs_foxfire.Alert.Waiting.Rest.{every_alert_shown}
use obs_foxfire.Prelude.{
  ltb, if◌then◌else◌, length, Bytes, codes, bytes_eq, ℕ, zero, suc, ◌+◌, ◌-◌, ◌*◌, ◌/◌, ◌≤◌, ◌≡◌,
  refl, true, false, not, none, some, List, [], ◌∷◌, ◌++◌, begins,
}
use obs_foxfire.Prelude.Int.{pos}

-- `dstr_replace`: the occurrences from the left, of which `skip` bytes are to be passed over.
abbrev replace_from : Bytes → Bytes → ℕ → Bytes → Bytes
replace_from find by skip [] = []
replace_from find by (suc skip) (c ∷ s) = replace_from find by skip s
replace_from find by zero (c ∷ s) =
    let here = begins find (c ∷ s) in
    (if here then by else c ∷ []) ++ replace_from find by (if here then length find - 1 else 0) s

abbrev host : Host
host = record {
  zero_real = 0;
  one_real = 1000;
  half_real = 500;
  quarter_real = 250;
  add_real = λ a b. a + b;
  sub_real = λ a b. a - b;
  mul_real = λ a b. a * b / 1000;
  div_real = λ a b. a * 1000 / b;
  lt_real = ltb;
  real_of = λ n. 0;
  output_flags = λ k. if bytes_eq k (codes "text_ft2_source_v2") then 1 else 0;
  create_source = λ calls. some (length calls);
  replace = λ s find by. replace_from find by 0 s;
  width_of = λ s. 100;
  height_of = λ s. 20;
  art_rendered = λ calls. true;
  has_color_param = true;
  audio_timestamp = λ s. 1;
}

abbrev spoken : KindSettings
spoken = record {
  enabled = true;
  template = codes "{name} raided with {amount}!";
  preset = [];
  sound = codes "horn.wav";
}

-- a source with one alert that waits
abbrev raided : Event
raided = test_event raid

abbrev source : Source
source = record (blank 0) {
  duration = 3000;
  kinds = λ k. spoken;
  queue = (push init raided).1;
  test_kind = raid;
}

source-IsValid : IsValid source.queue
source-IsValid = push-IsValid raided init-IsValid

-- the test button's name, without its override and its line feed
test_text : body_of host (λ k. spoken) raided ≡ codes "TestViewer42 raided with 42!"
unfolding body_of render_template own_or cleaned sanitise test_event decimal_ℤ
test_text = refl

every_alert_shown_example :
    (t : ℕ) × (t ≤ 8)
    × ((frames host 1000 t source).playing ≡ false)
    × (waiting (frames host 1000 t source) ≡ [])
    × (fired (frames host 1000 t source).calls ≡ codes "TestViewer42 raided with 42!" ∷ [])
unfolding blank later push fired init body_of render_template own_or cleaned sanitise test_event
    decimal_ℤ
every_alert_shown_example = every_alert_shown host 1000 3 source source-IsValid refl refl refl

abbrev acts : List Act
acts =
    event (pos 5) raided
    ∷ event (pos 9) raided
    ∷ frame 1000
    ∷ drawn
    ∷ shown
    ∷ skip_pressed
    ∷ frame 1
    ∷ test_pressed
    ∷ []

do_acts-Accounts_example :
    Accounts host source (arrivals host (λ c. c) source acts) (do_acts host (λ c. c) source acts)
do_acts-Accounts_example = do_acts-Accounts host (λ c. c) acts source source-IsValid

-- the first two are started, and the one of the test button waits
acts_run :
    fired (do_acts host (λ c. c) source acts).calls
    ≡ codes "TestViewer42 raided with 42!" ∷ codes "TestViewer42 raided with 42!" ∷ []
unfolding do_acts do_act fired on_test_fire enqueue kind_of kind_value tick on_skip props text_kind
    render asks enqueue_known tell_queued push pop init blank start_next start_alert tell_removed
    draw_body choose_art choose_sound restart_sound ensure_text_child ensure_sound_child
    create_text_child create_sound_child drop_sound_child first_registered finish stop_sound
    draw_pack draw_name reload_art warned kind_id text_settings body_of render_template own_or
    cleaned sanitise test_event decimal_ℤ
acts_run = refl

abbrev chosen : Data
chosen = record {
  get_string = λ k. if bytes_eq k (codes "sound") then codes "horn.wav" else [];
  get_int = λ k. pos 100;
  get_bool = λ k. not (bytes_eq k (codes "paused"));
  get_double = λ k. 3000;
}

abbrev ops : List Op
ops = act (event (pos 5) raided) ∷ act (frame 1) ∷ settings chosen ∷ act (frame 1) ∷ []

sound_on_screen_example :
    (let a = do_ops host (λ c. c) (create host true [] none chosen) ops in
      (a.sound ≡ some 1) × (a.playing ≡ true))
unfolding create update read_settings read_kind kind_key do_ops do_op do_act loud enqueue kind_of
    kind_value tick text_kind asks enqueue_known tell_queued push pop init blank start_next
    start_alert tell_removed draw_body choose_art choose_sound restart_sound ensure_text_child
    ensure_sound_child create_text_child create_sound_child drop_sound_child first_registered finish
    stop_sound kind_id text_settings body_of render_template own_or cleaned sanitise test_event
    decimal_ℤ
sound_on_screen_example = sound_on_screen host true [] none chosen (λ c. c) ops 1 refl
