-- ===== src/Alert.antt =====
-- The alert source of src/ff-alert-source.c: its state, its two private children, and what it asks of
-- OBS. The text child's half of src/ff-alert.c stands here too. A `float` is its bit pattern, and the
-- operations on it are parameters, as are the calls of libobs. The source's `calls` lists what it has
-- asked of OBS and logged, the newest first; the reference of an `obs_source_t` is a number.
pub mod Play
pub mod Settings
pub mod Page
pub mod Draw
pub mod Audible
pub mod Quiet
pub mod OnScreen
pub mod Steps
pub mod Fates
pub mod Account
pub mod Waiting
pub mod Shown
use obs_foxfire.Queue.{Kind, Queue}
use obs_foxfire.Pack.Load.{Pack, Preset}
use obs_foxfire.Twitch.Panel.{Panel}
use obs_foxfire.Prelude.{
  ◌==◌, if◌then◌else◌, Bytes, codes, is_empty, ℕ, Bool, Option, none, some, List, [], ◌∷◌, given,
}
use obs_foxfire.Prelude.Int.{ℤ, pos, ltb_ℤ}

abbrev pub Real : Type 0
Real = ℕ

-- `struct ff_alert_text`, less the body.
pub record Style : Type 0 where
  pub face : Bytes
  pub size : ℤ
  pub colour : ℕ
  pub bold : Bool
  pub outline : Bool
  pub shadow : Bool

-- An entry of `kinds`.
pub record KindSettings : Type 0 where
  pub enabled : Bool
  pub template : Bytes
  pub preset : Bytes
  pub sound : Bytes

-- The settings that `ff_alert_text_apply` writes for a text source.
pub record TextSettings : Type 0 where
  pub text : Bytes
  pub font_face : Bytes
  pub font_size : ℤ
  pub font_bold : Bool
  pub color : ℕ
  pub color1 : ℕ
  pub color2 : ℕ
  pub outline : Bool
  pub drop_shadow : Bool

-- The lines of the log.
pub data Message : Type 0 where
  no_text_kind : Message
  drawing_with : Bytes → Message
  no_text : Bytes → Message
  no_media : Bytes → Message
  removed : ℕ → Message
  firing : Bytes → Message
  unknown_kind : ℤ → Message
  switched_off : Bytes → Bytes → Message
  queue_full : Bytes → ℕ → Message
  queued : Bytes → ℕ → Message
  cleared : ℕ → Message
  wrong_kind : Bytes → Bytes → Bytes → Message
  no_feed : Message

pub data Call : Type 0 where
  create_text : Bytes → Call
  create_sound : Bytes → Call
  add_child : ℕ → Call
  remove_child : ℕ → Call
  release : ℕ → Call
  update_text : ℕ → TextSettings → Call
  update_sound : ℕ → Bytes → Call
  restart : ℕ → Call
  stop : ℕ → Call
  load_art : Option (Pack ℕ) → Option (Preset ℕ) → Call
  render_art : Real → ℕ → ℕ → Call
  draw_art : ℕ → ℕ → Call
  draw_text : ℕ → Real → Real → Option Real → Call
  update_properties : Call
  join_worker : Call
  destroy_lock : Call
  destroy_renderer : Call
  free_packs : Call
  log : Message → Call

-- What the source takes from outside: the arithmetic of `float` with the constants it uses, and libobs.
-- `create_source` answers after the calls made so far.
pub record Host : Type 0 where
  pub zero_real : Real
  pub one_real : Real
  pub half_real : Real
  pub quarter_real : Real
  pub add_real : Real → Real → Real
  pub sub_real : Real → Real → Real
  pub mul_real : Real → Real → Real
  pub div_real : Real → Real → Real
  pub lt_real : Real → Real → Bool
  pub real_of : ℤ → Real
  pub output_flags : Bytes → ℕ
  pub create_source : List Call → Option ℕ
  pub replace : Bytes → Bytes → Bytes → Bytes
  pub width_of : ℕ → ℕ
  pub height_of : ℕ → ℕ
  pub art_rendered : List Call → Bool
  pub has_color_param : Bool
  pub audio_timestamp : ℕ → ℕ

-- `struct ff_alert_source`, less `self`, the lock and the renderer, which is there once the source is
-- created if `has_renderer`; and the statics of `ff_alert_text_kind`.
pub record Source : Type 0 where
  pub text : Option ℕ
  pub sound : Option ℕ
  pub width : ℕ
  pub height : ℕ
  pub has_renderer : Bool
  pub packs : List (Pack ℕ)
  pub pack_id : Bytes
  pub loaded_preset : Bytes
  pub want_preset : Bytes
  pub art_dirty : Bool
  pub kinds : Kind → KindSettings
  pub style : Style
  pub preset_fallback : Bytes
  pub sound_fallback : Bytes
  pub sound_path : Bytes
  pub duration : Real
  pub queue : Queue
  pub twitch : Option Panel
  pub paused : Bool
  pub test_kind : Kind
  pub playing : Bool
  pub elapsed : Real
  pub showing : Bytes
  pub looked : Option (Option Bytes)
  pub calls : List Call

unfoldable pub asks : Call → Source → Source
asks c a = record a { calls = c ∷ a.calls }

-- `TEXT_KINDS`
abbrev pub text_kinds : List Bytes
text_kinds =
    codes "text_gdiplus_v3"
    ∷ codes "text_gdiplus_v2"
    ∷ codes "text_gdiplus"
    ∷ codes "text_ft2_source_v2"
    ∷ codes "text_ft2_source"
    ∷ []

unfoldable pub first_registered : (Bytes → ℕ) → List Bytes → Option Bytes
first_registered flags [] = none
first_registered flags (k ∷ ks) = if flags k == 0 then first_registered flags ks else some k

abbrev pub found_message : Option Bytes → Message
found_message none = no_text_kind
found_message (some k) = drawing_with k

module _ (host : Host) where
  open host use {output_flags, create_source}

  -- `ff_alert_text_kind`
  unfoldable pub text_kind : Source → Option Bytes × Source
  text_kind a =
      let found = first_registered output_flags text_kinds in
      given a.looked (found, asks (log (found_message found)) (record a { looked = some found }))
        (λ known. (known, a))

  -- What stands behind the test of `kind` in `ensure_text_child`.
  unfoldable pub create_text_child : Bytes → Source → Source
  create_text_child kind a =
      let asked = asks (create_text kind) a in
      given (create_source asked.calls) (asks (log (no_text kind)) asked)
        (λ t. asks (add_child t) (record asked { text = some t }))

  unfoldable pub ensure_text_child : Source → Source
  ensure_text_child a =
      let (kind, a1) = text_kind a in
      given a.text (given kind a1 (λ k. create_text_child k a1)) (λ t. a)

  -- The three ways through `ensure_sound_child`: the child is dropped, created or updated.
  unfoldable pub drop_sound_child : Source → Source
  drop_sound_child a =
      given a.sound a (λ s. record (asks (release s) (asks (remove_child s) a)) { sound = none })

  unfoldable pub create_sound_child : Source → Source
  create_sound_child a =
      let asked = asks (create_sound a.sound_path) a in
      given (create_source asked.calls) (asks (log (no_media a.sound_path)) asked)
        (λ s. asks (add_child s) (record asked { sound = some s }))

  unfoldable pub ensure_sound_child : Source → Source
  ensure_sound_child a =
      if is_empty a.sound_path
      then drop_sound_child a
      else given a.sound (create_sound_child a) (λ s. asks (update_sound s a.sound_path) a)

-- `ff_alert_text_apply`: what is written. Both colours of a gradient are the one colour.
unfoldable pub text_settings : Style → Bytes → TextSettings
text_settings t body = record {
  text = body;
  font_face = if is_empty t.face then codes "Sans Serif" else t.face;
  font_size = if ltb_ℤ (pos 0) t.size then t.size else pos 48;
  font_bold = t.bold;
  color = t.colour;
  color1 = t.colour;
  color2 = t.colour;
  outline = t.outline;
  drop_shadow = t.shadow;
}
