-- ===== src/Alert/Page.antt =====
-- The properties page of the alert source in src/ff-alert-source.c: `alert_props` and the lines of the
-- Twitch feed. A label that `obs_module_text` looks up is given by its key; a step or a bound of a
-- slider of `float` is given in tenths.
use obs_foxfire.Queue.{Kind, kind_value, kind_id}
use obs_foxfire.Pack.Load.{Pack, Preset}
use obs_foxfire.Pack.Load.Manifest.{packs_find}
use obs_foxfire.Twitch.Panel.{
  Panel, State, off, signing_in, retrying, failed, sign_in, sign_out, status,
}
use obs_foxfire.Alert.{Host, Source, text_kind}
use obs_foxfire.Alert.Settings.{kind_key, all_kinds}
use obs_foxfire.Prelude.{
  if◌then◌else◌, Bytes, codes, is_empty, bytes_eq, clip, ℕ, Bool, true, false, not, ◌&&◌, ◌||◌,
  Option, none, some, List, [], ◌∷◌, ◌++◌, map,
}
use obs_foxfire.Prelude.Int.{pos}

pub data InfoType : Type 0 where
  info_normal info_warning info_error : InfoType

pub data Item : Type 0 where
  list_of : Bytes → Bytes → List (Bytes × Bytes) → Item
  int_field : Bytes → Bytes → ℕ → ℕ → Item
  int_slider : Bytes → Bytes → ℕ → ℕ → Item
  float_slider : Bytes → Bytes → ℕ → ℕ → ℕ → Item
  font : Bytes → Bytes → Item
  color_alpha : Bytes → Bytes → Item
  switch : Bytes → Bytes → Item
  audio_path : Bytes → Bytes → Item
  text_field : Bytes → Bytes → Item
  info : Bytes → Bytes → InfoType → Item
  button : Bytes → Bytes → Item

pub data Property : Type 0 where
  item : Item → Property
  group : Bytes → Bytes → List Item → Property

-- The names and ids of the presets of the kind `alert`.
unfoldable pub alert_presets : List (Preset ℕ) → List (Bytes × Bytes)
alert_presets [] = []
alert_presets (p ∷ ps) =
    if bytes_eq p.kind (codes "alert") then (p.name, p.id) ∷ alert_presets ps else alert_presets ps

-- The loop over `j` that sets `any`.
unfoldable pub any_alert : List (Preset ℕ) → Bool
any_alert [] = false
any_alert (p ∷ ps) = bytes_eq p.kind (codes "alert") || any_alert ps

unfoldable pub alert_packs : List (Pack ℕ) → List (Bytes × Bytes)
alert_packs [] = []
alert_packs (p ∷ ps) =
    if any_alert p.presets then (p.name, p.id) ∷ alert_packs ps else alert_packs ps

unfoldable pub chosen_presets : Source → List (Bytes × Bytes)
chosen_presets a = elim (packs_find a.packs a.pack_id) [
  | none ↦ []
  | some p ↦ alert_presets p.presets
]

-- The group of a kind.
unfoldable pub kind_group : Source → Kind → Property
kind_group a k =
    group (kind_key k []) (clip 96 (codes "Foxfire.Alert.Kind." ++ kind_id (pos (kind_value k)))) (
      switch (kind_key k (codes ".enabled")) (codes "Foxfire.Alert.KindEnabled")
      ∷ text_field (kind_key k (codes ".template")) (codes "Foxfire.Alert.Template")
      ∷ list_of (kind_key k (codes ".preset")) (codes "Foxfire.Preset")
          ((codes "Foxfire.Alert.SameAsAbove", []) ∷ chosen_presets a)
      ∷ audio_path (kind_key k (codes ".sound")) (codes "Foxfire.Alert.Sound")
      ∷ [])

unfoldable pub kind_names : List Kind → List (Bytes × Bytes)
kind_names [] = []
kind_names (k ∷ ks) =
    (
      clip 96 (codes "Foxfire.Alert.Kind." ++ kind_id (pos (kind_value k))),
      kind_id (pos (kind_value k)),
    )
    ∷ kind_names ks

abbrev pub is_signing_in : State → Bool
is_signing_in signing_in = true
is_signing_in _ = false

abbrev pub info_type : State → InfoType
info_type failed = info_error
info_type retrying = info_warning
info_type _ = info_normal

-- The code and the address, while a streamer is signing in. `sentence` puts the code into the text of
-- `Foxfire.Twitch.CodeIs`.
unfoldable pub code_lines : (Bytes → Bytes) → State → Bytes → Bytes → List Item
code_lines sentence st code url =
    if is_signing_in st && not (is_empty code)
    then info (codes "twitch_code") (sentence code) info_normal
      ∷ (if is_empty url then [] else info (codes "twitch_url") url info_normal ∷ [])
    else []

-- `ff_twitch_status`, of a feed that may not be there: it is off, and the arrays are empty.
unfoldable pub shown_status : Option Panel → State × Bytes × Bytes × Bytes
shown_status none = (off, [], [], [])
shown_status (some t) = status t

-- `add_twitch_status`
unfoldable pub twitch_group : (Bytes → Bytes) → Option Panel → Property
twitch_group sentence feed =
    let (st, line, code, url) = shown_status feed in
    group (codes "twitch") (codes "Foxfire.Twitch.Group") (
      (text_field (codes "twitch_client_id") (codes "Foxfire.Twitch.ClientId")
        ∷ switch (codes "twitch_enabled") (codes "Foxfire.Twitch.Enabled")
        ∷ button (codes "twitch_connect") (codes "Foxfire.Twitch.Connect")
        ∷ button (codes "twitch_signout") (codes "Foxfire.Twitch.SignOut")
        ∷ [])
      ++ (code_lines sentence st code url
          ++ (info (codes "twitch_status") line (info_type st) ∷ [])))

-- `on_twitch_connect` and `on_twitch_sign_out`
unfoldable pub on_twitch_connect : Source → Source
on_twitch_connect a = record a {
  twitch = elim a.twitch [ none ↦ none | some t ↦ some (sign_in t) ];
}

unfoldable pub on_twitch_sign_out : Source → Source
on_twitch_sign_out a = record a {
  twitch = elim a.twitch [ none ↦ none | some t ↦ some (sign_out t) ];
}

-- `alert_props`: the page, and the source, whose text kind is looked up.
unfoldable pub props : (Bytes → Bytes) → Host → Source → List Property × Source
props sentence host a =
    let (kind, a1) = text_kind host a in
    (
      (item (
              list_of (codes "pack") (codes "Foxfire.Pack")
                ((codes "Foxfire.Alert.NoArt", []) ∷ alert_packs a.packs))
            ∷ item (
                list_of (codes "preset") (codes "Foxfire.Preset")
                  ((codes "Foxfire.Alert.NoArt", []) ∷ chosen_presets a))
            ∷ item (int_field (codes "width") (codes "Foxfire.Width") 16 8192)
            ∷ item (int_field (codes "height") (codes "Foxfire.Height") 16 8192)
            ∷ item (font (codes "font_face") (codes "Foxfire.Alert.Font"))
            ∷ item (int_slider (codes "font_size") (codes "Foxfire.Alert.FontSize") 8 256)
            ∷ item (color_alpha (codes "colour") (codes "Foxfire.Alert.Colour"))
            ∷ item (switch (codes "outline") (codes "Foxfire.Alert.Outline"))
            ∷ item (switch (codes "shadow") (codes "Foxfire.Alert.Shadow"))
            ∷ item (audio_path (codes "sound") (codes "Foxfire.Alert.Sound"))
            ∷ item (float_slider (codes "duration") (codes "Foxfire.Alert.Duration") 10 300 1)
            ∷ [])
          ++ (map (kind_group a) all_kinds
              ++ ((twitch_group sentence a.twitch
                    ∷ item (switch (codes "paused") (codes "Foxfire.Alert.Paused"))
                    ∷ item (
                        list_of (codes "test_kind") (codes "Foxfire.Alert.TestKind")
                          (kind_names all_kinds))
                    ∷ item (button (codes "test") (codes "Foxfire.Alert.Test"))
                    ∷ item (button (codes "skip") (codes "Foxfire.Alert.Skip"))
                    ∷ item (button (codes "clear") (codes "Foxfire.Alert.Clear"))
                    ∷ [])
                  ++ elim kind [
                    | none ↦
                        item
                          (info (codes "notext") (codes "Foxfire.Alert.NoTextSource") info_normal)
                        ∷ []
                    | some k ↦ []
                  ])),
      a1,
    )
