-- ===== src/Alert/Draw.antt =====
-- The drawing of the alert source in src/ff-alert-source.c: what a frame draws, which children OBS is told
-- of, and the mixing of the sound child.
use obs_foxfire.Pack.Load.{Pack, Preset}
use obs_foxfire.Pack.Load.Manifest.{packs_find, find_preset}
use obs_foxfire.Alert.{
  Real, Host, Source, load_art, render_art, draw_art, draw_text, log, wrong_kind, asks,
}
use obs_foxfire.Prelude.{
  ◌==◌, if◌then◌else◌, Bytes, codes, bytes_eq, clip, ℕ, zero, suc, ◌/◌, ◌%◌, false, not, ◌||◌,
  Option, none, some, List, [], ◌∷◌, ◌++◌, given,
}
use obs_foxfire.Prelude.Int.{◌-ℤ◌, signed32, to_int32}

unfoldable pub preset_of : Option (Pack ℕ) → Bytes → Option (Preset ℕ)
preset_of none want = none
preset_of (some p) want = find_preset p.presets want

-- The preset that is loaded: only one of the kind `alert`.
unfoldable pub alert_preset : Option (Preset ℕ) → Option (Preset ℕ)
alert_preset none = none
alert_preset (some p) = if bytes_eq p.kind (codes "alert") then some p else none

unfoldable pub warned : Option (Preset ℕ) → Source → Source
warned none a = a
warned (some p) a =
    if bytes_eq p.kind (codes "alert")
    then a
    else asks (log (wrong_kind a.want_preset a.pack_id p.kind)) a

unfoldable pub preset_name : Option (Preset ℕ) → Bytes
preset_name none = []
preset_name (some p) = p.id

-- The block of `alert_render` under `art_dirty`.
unfoldable pub reload_art : Source → Source
reload_art a =
    let pack = packs_find a.packs a.pack_id in
    let preset = preset_of pack a.want_preset in
    record (asks (load_art pack (alert_preset preset)) (warned preset a)) {
      loaded_preset = clip 64 (preset_name (alert_preset preset));
      art_dirty = false;
    }

module _ (host : Host) where
  open host use {
    zero_real, one_real, half_real, quarter_real, sub_real, mul_real, div_real, lt_real, real_of,
    width_of, height_of, art_rendered, has_color_param,
  }

  unfoldable pub at_most_one : Real → Real
  at_most_one r = if lt_real one_real r then one_real else r

  unfoldable pub progress : Source → Real
  progress a =
      at_most_one
        (if lt_real zero_real a.duration then div_real a.elapsed a.duration else zero_real)

  -- How far the text is faded in or out.
  unfoldable pub fade_of : Real → Real → Real
  fade_of elapsed duration =
      let left = sub_real duration elapsed in
      let r =
        if lt_real elapsed quarter_real
        then div_real elapsed quarter_real
        else if lt_real left quarter_real
        then div_real left quarter_real
        else one_real in
      at_most_one (if lt_real r zero_real then zero_real else r)

  unfoldable pub draw_pack : Source → Source
  draw_pack a =
      if not a.has_renderer
      then a
      else (let b = asks (render_art (progress a) a.width a.height) a in
          if art_rendered b.calls then asks (draw_art a.width a.height) b else b)

  -- `(float)((int)outer - (int)inner) * 0.5f`
  unfoldable pub centred : ℕ → ℕ → Real
  centred outer inner = mul_real (real_of (to_int32 (signed32 outer -ℤ signed32 inner))) half_real

  unfoldable pub draw_name : Source → Source
  draw_name a = given a.text a (λ t.
      if width_of t == 0 || height_of t == 0
      then a
      else (asks
          (draw_text t (centred a.width (width_of t)) (centred a.height (height_of t))
            (if has_color_param then some (fade_of a.elapsed a.duration) else none))
          a))

  -- `alert_render`
  unfoldable pub render : Source → Source
  render a =
      let b = if a.art_dirty then reload_art a else a in
      if b.playing then draw_name (draw_pack b) else b

-- `alert_enum`: the children that OBS is told of, in order.
unfoldable pub children : Source → List ℕ
children a =
    elim a.text [ none ↦ [] | some t ↦ t ∷ [] ] ++ elim a.sound [ none ↦ [] | some s ↦ s ∷ [] ]

-- The loops: a mix is the list of its channels, and there are MAX_AUDIO_MIXES of them, or fewer. A mix
-- that is asked for is the child's in its first `channels` channels; the others are left.
unfoldable pub copy_channels : {A : Type 0} → ℕ → List A → List A → List A
copy_channels zero child out = out
copy_channels (suc n) [] out = out
copy_channels (suc n) (c ∷ child) [] = []
copy_channels (suc n) (c ∷ child) (o ∷ out) = c ∷ copy_channels n child out

unfoldable pub copy_mixes : {A : Type 0} → ℕ → ℕ → List (List A) → List (List A) → List (List A)
copy_mixes mixers channels [] out = out
copy_mixes mixers channels (c ∷ child) [] = []
copy_mixes mixers channels (c ∷ child) (o ∷ out) =
    (if mixers % 2 == 0 then o else copy_channels channels c o)
    ∷ copy_mixes (mixers / 2) channels child out

-- `alert_audio_render`: nothing, or the timestamp and the mix.
unfoldable pub audio_render :
    {A : Type 0}
    → Host
    → Source
    → List (List A)
    → List (List A)
    → ℕ
    → ℕ
    → Option (ℕ × List (List A))
audio_render host a child out mixers channels = elim a.sound [
  | none ↦ none
  | some s ↦
      if host.audio_timestamp s == 0
      then none
      else some (host.audio_timestamp s, copy_mixes mixers channels child out)
]
