-- ===== src/Alert/Settings.antt =====
-- The life of the alert source in src/ff-alert-source.c: its settings with their defaults, and how it is
-- created and destroyed. The settings of OBS are parameters; so is whether the feed could be created.
use obs_foxfire.Queue.{
  Kind, follow, sub, resub, gift, bits, raid, redeem, kind_value, kind_id, kind_parse, init,
}
use obs_foxfire.Pack.Load.{Pack}
use obs_foxfire.Twitch.Panel.{Panel, set_client_id, set_enabled}
use obs_foxfire.Alert.{
  Real, Style, KindSettings, Host, Source, remove_child, release, join_worker, destroy_lock,
  destroy_renderer, free_packs, log, no_feed, asks, ensure_sound_child,
}
use obs_foxfire.Prelude.{
  if◌then◌else◌, Bytes, codes, bytes_eq, clip, ℕ, ◌-◌, ◌%◌, ◌^◌, Bool, true, false, not, ◌||◌,
  Option, none, some, List, [], ◌∷◌, ◌++◌, given,
}
use obs_foxfire.Prelude.Int.{ℤ, pos, negsuc, to_int32}

-- The `obs_data_t` of the source.
pub record Data : Type 0 where
  pub get_string : Bytes → Bytes
  pub get_int : Bytes → ℤ
  pub get_bool : Bytes → Bool
  pub get_double : Bytes → Real

-- `(uint32_t)` of a `long long`
unfoldable pub to_u32 : ℤ → ℕ
to_u32 (pos n) = n % 2 ^ 32
to_u32 (negsuc n) = 2 ^ 32 - 1 - n % 2 ^ 32

-- The key `k.<id><field>` of a setting of a kind, in its 96 bytes.
unfoldable pub kind_key : Kind → Bytes → Bytes
kind_key k field = clip 96 (codes "k." ++ (kind_id (pos (kind_value k)) ++ field))

unfoldable pub read_kind : Data → Kind → KindSettings
read_kind s k = record {
  enabled = s.get_bool (kind_key k (codes ".enabled"));
  template = clip 512 (s.get_string (kind_key k (codes ".template")));
  preset = clip 64 (s.get_string (kind_key k (codes ".preset")));
  sound = clip 512 (s.get_string (kind_key k (codes ".sound")));
}

unfoldable pub read_style : Data → Style
read_style s = record {
  face = clip 128 (s.get_string (codes "font_face"));
  size = to_int32 (s.get_int (codes "font_size"));
  colour = to_u32 (s.get_int (codes "colour"));
  bold = s.get_bool (codes "bold");
  outline = s.get_bool (codes "outline");
  shadow = s.get_bool (codes "shadow");
}

-- The panel's two settings, where there is a feed.
unfoldable pub update_feed : Data → Option Panel → Option Panel
update_feed s none = none
update_feed s (some t) = some (
    set_enabled (set_client_id t (s.get_string (codes "twitch_client_id")))
      (s.get_bool (codes "twitch_enabled")))

unfoldable pub new_test_kind : Option Kind → Kind → Kind
new_test_kind none old = old
new_test_kind (some k) old = k

-- The fields that `alert_update` writes before it looks at the sound child.
unfoldable pub read_settings : Data → Source → Source
read_settings s a =
    let pk = s.get_string (codes "pack") in
    let same = bytes_eq pk a.pack_id in
    record a {
      pack_id = if same then a.pack_id else clip 64 pk;
      art_dirty = not same || a.art_dirty;
      preset_fallback = clip 64 (s.get_string (codes "preset"));
      sound_fallback = clip 512 (s.get_string (codes "sound"));
      kinds = read_kind s;
      width = to_u32 (s.get_int (codes "width"));
      height = to_u32 (s.get_int (codes "height"));
      style = read_style s;
      duration = s.get_double (codes "duration");
      paused = s.get_bool (codes "paused");
      test_kind = new_test_kind (kind_parse (s.get_string (codes "test_kind"))) a.test_kind;
      sound_path = clip 512 (s.get_string (codes "sound"));
    }

unfoldable pub update : Host → Data → Source → Source
update host s a =
    let b = ensure_sound_child host (read_settings s a) in
    record b { twitch = update_feed s b.twitch }

-- `bzalloc`, with the queue that `ff_alert_queue_init` leaves.
unfoldable pub blank : Real → Source
blank zero_real = record {
  text = none;
  sound = none;
  width = 0;
  height = 0;
  has_renderer = false;
  packs = [];
  pack_id = [];
  loaded_preset = [];
  want_preset = [];
  art_dirty = false;
  kinds = λ k. record { enabled = false; template = []; preset = []; sound = [] };
  style = record {
    face = [];
    size = pos 0;
    colour = 0;
    bold = false;
    outline = false;
    shadow = false;
  };
  preset_fallback = [];
  sound_fallback = [];
  sound_path = [];
  duration = zero_real;
  queue = init;
  twitch = none;
  paused = false;
  test_kind = follow;
  playing = false;
  elapsed = zero_real;
  showing = [];
  looked = none;
  calls = [];
}

-- `alert_create`: whether the renderer could be created, what the scan found, and the feed.
unfoldable pub create : Host → Bool → List (Pack ℕ) → Option Panel → Data → Source
create host renderer packs feed s =
    let a =
      update host s (record (blank host.zero_real) { has_renderer = renderer; packs = packs }) in
    let b = record a { twitch = update_feed s feed } in given feed (asks (log no_feed) b) (λ t. b)

-- A child is taken out of the tree before it is let go.
unfoldable pub drop_child : Option ℕ → Source → Source
drop_child none a = a
drop_child (some c) a = asks (release c) (asks (remove_child c) a)

-- `alert_destroy`
unfoldable pub destroy : Source → Source
destroy a =
    let b = drop_child a.sound (drop_child a.text a) in
    let c = record (asks join_worker b) { twitch = none } in
    asks free_packs (asks destroy_renderer (asks destroy_lock c))

-- A default of a setting.
pub data Default : Type 0 where
  default_bool : Bytes → Bool → Default
  default_int : Bytes → ℕ → Default
  default_string : Bytes → Bytes → Default
  default_double : Bytes → ℕ → Default

-- `KIND_DEFAULTS`
abbrev pub kind_defaults : List (Bytes × Bytes)
kind_defaults =
    (codes "follow", codes "{name} followed!")
    ∷ (codes "sub", codes "{name} subscribed!")
    ∷ (codes "resub", codes "{name} resubscribed for {amount} months!")
    ∷ (codes "gift", codes "{name} gifted {amount} subs!")
    ∷ (codes "bits", codes "{name} cheered {amount} bits!")
    ∷ (codes "raid", codes "{name} raided with {amount}!")
    ∷ (codes "redeem", codes "{name} redeemed {message}")
    ∷ []

-- The loop over `i`: the last entry of the id, over what is there before.
unfoldable pub default_template : List (Bytes × Bytes) → Bytes → Bytes → Bytes
default_template [] id tmpl = tmpl
default_template ((known, t) ∷ rest) id tmpl =
    default_template rest id (if bytes_eq known id then t else tmpl)

unfoldable pub kind_default : Kind → List Default
kind_default k =
    default_bool (kind_key k (codes ".enabled")) true
    ∷ default_string (kind_key k (codes ".template"))
        (default_template kind_defaults (kind_id (pos (kind_value k))) (codes "{name}!"))
    ∷ []

-- The loop over `k` in the order of the enumeration.
unfoldable pub kinds_default : List Kind → List Default
kinds_default [] = []
kinds_default (k ∷ ks) = kind_default k ++ kinds_default ks

abbrev pub all_kinds : List Kind
all_kinds = follow ∷ sub ∷ resub ∷ gift ∷ bits ∷ raid ∷ redeem ∷ []

-- `alert_defaults`. The one duration is given in seconds.
unfoldable pub defaults : List Default
defaults =
    kinds_default all_kinds
    ++ (default_bool (codes "twitch_enabled") false
        ∷ default_int (codes "width") 800
        ∷ default_int (codes "height") 240
        ∷ default_string (codes "font_face") (codes "Sans Serif")
        ∷ default_int (codes "font_size") 48
        ∷ default_int (codes "colour") 0xffffffff
        ∷ default_bool (codes "outline") true
        ∷ default_bool (codes "shadow") true
        ∷ default_double (codes "duration") 5
        ∷ default_string (codes "test_kind") (codes "follow")
        ∷ [])
