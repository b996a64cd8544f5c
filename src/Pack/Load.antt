-- ===== src/Pack/Load.antt =====
-- The loading of one pack directory, in src/ff-pack.c. The disk, the JSON reader of libobs, `sscanf` of a
-- version, the version of the plugin and the signature check are parameters; what the disk holds does
-- not change while a pack is read. Every refusal has the text that the code writes.
pub mod Manifest
pub mod Gate
pub mod Grant
use obs_foxfire.Pack.{id_ok, rel_ok}
use obs_foxfire.Licence.{Licence}
use obs_foxfire.Prelude.Text.{decimal}
use obs_foxfire.Prelude.{
  ltb, if◌then◌else◌, length, set, take, replicate, Bytes, codes, is_empty, bytes_eq, clip, ℕ, zero,
  ◌+◌, Bool, true, false, not, ◌&&◌, ◌||◌, Option, none, some, List, [], ◌∷◌, ◌++◌, map,
}
use obs_foxfire.Prelude.Int.{ℤ}

-- The values of `params`; a colour is an object, and `Real` is a number.
pub data Value (Data Real : Type 0) : Type 0 where
  colour : Data → Value Data Real
  number : Real → Value Data Real
  boolean : Bool → Value Data Real
  text : Bytes → Value Data Real
  other : Value Data Real

-- `obs_data_item_gettype`, as far as it is looked at.
pub data Kind : Type 0 where
  is_number is_boolean is_else : Kind

pub record Store : Type 1 where
  pub Data : Type 0
  pub Real : Type 0
  pub zero_real : Real
  pub one_real : Real
  pub json_file : Bytes → Option Data
  pub text_file : Bytes → Option Bytes
  pub file_exists : Bytes → Bool
  pub get_string : Data → Bytes → Bytes
  pub get_int : Data → Bytes → ℤ
  pub get_bool : Data → Bytes → Bool
  pub get_double : Data → Bytes → Real
  pub has_user_value : Data → Bytes → Bool
  pub kind_of : Data → Bytes → Option Kind
  pub get_array : Data → Bytes → List Data
  pub get_params : Data → List (Bytes × Value Data Real)
  pub scan_version : Bytes → Option (ℤ × ℤ × ℤ)
  pub engine : ℤ × ℤ × ℤ
  pub check : Bytes → Bytes → Bytes → Bool
  pub public_key : Bytes

-- FF_MAX_LAYERS and FF_MAX_PRESETS
abbrev pub max_layers : ℕ
max_layers = 8

abbrev pub max_presets : ℕ
max_presets = 64

-- `struct ff_param_override`, `struct ff_layer_def`, `struct ff_preset` and `struct ff_pack`
pub record Override (Real : Type 0) : Type 0 where
  pub name : Bytes
  pub v : List Real
  pub is_color : Bool
  pub str : Bytes
  pub is_str : Bool

pub record Layer (Real : Type 0) : Type 0 where
  pub effect_path : Bytes
  pub params : List (Override Real)

pub record Preset (Real : Type 0) : Type 0 where
  pub id : Bytes
  pub name : Bytes
  pub kind : Bytes
  pub thumb : Bytes
  pub heavy : Bool
  pub layers : List (Layer Real)

pub record Pack (Real : Type 0) : Type 0 where
  pub id : Bytes
  pub name : Bytes
  pub version : Bytes
  pub dir : Bytes
  pub licensed : Bool
  pub released : ℤ
  pub presets : List (Preset Real)
  pub licence : Licence
  pub licensee_name : Bytes

-- `struct ff_pack_list`
pub record PackList (Real : Type 0) : Type 0 where
  pub packs : List (Pack Real)
  pub errors : List Bytes

-- A check that returns true with what it read, or false with the reason.
pub data Checked (A : Type 0) : Type 0 where
  accepted : A → Checked A
  refused : Bytes → Checked A

-- KINDS
abbrev pub kinds : List Bytes
kinds =
    codes "visualizer" ∷ codes "effects" ∷ codes "overlay" ∷ codes "alert" ∷ codes "transition" ∷ []

abbrev pub is_known : List Bytes → Bytes → Bool
is_known [] kind = false
is_known (k ∷ ks) kind = bytes_eq kind k || is_known ks kind

abbrev pub is_kind_not : Option Kind → (Kind → Bool) → Bool
is_kind_not none test = false
is_kind_not (some k) test = not (test k)

abbrev pub a_boolean : Kind → Bool
a_boolean is_boolean = true
a_boolean _ = false

abbrev pub a_number : Kind → Bool
a_number is_number = true
a_number _ = false

module _ (store : Store) where
  open store use {
    Data, Real, zero_real, one_real, json_file, text_file, file_exists, get_string, get_int,
    get_bool, get_double, has_user_value, kind_of, get_array, get_params,
  }

  -- `file_in_pack`
  unfoldable pub file_in_pack : Bytes → Bytes → Bool
  file_in_pack dir rel = file_exists (dir ++ (b'/' ∷ rel))

  -- An entry of `params`, on memory set to zero.
  unfoldable pub override_of : Bytes × Value Data Real → Override Real
  override_of (name, colour c) = record {
    name = clip 64 name;
    v =
        get_double c (codes "r")
        ∷ get_double c (codes "g")
        ∷ get_double c (codes "b")
        ∷ (if has_user_value c (codes "a") then get_double c (codes "a") else one_real)
        ∷ [];
    is_color = true;
    str = [];
    is_str = false;
  }
  override_of (name, number x) = record {
    name = clip 64 name;
    v = x ∷ replicate 3 zero_real;
    is_color = false;
    str = [];
    is_str = false;
  }
  override_of (name, boolean b) = record {
    name = clip 64 name;
    v = (if b then one_real else zero_real) ∷ replicate 3 zero_real;
    is_color = false;
    str = [];
    is_str = false;
  }
  override_of (name, text s) = record {
    name = clip 64 name;
    v = replicate 4 zero_real;
    is_color = false;
    str = clip 512 s;
    is_str = true;
  }
  override_of (name, other) = record {
    name = clip 64 name;
    v = replicate 4 zero_real;
    is_color = false;
    str = [];
    is_str = false;
  }

  -- The loop over the layers, from layer `i` on.
  unfoldable pub read_layers : Bytes → Bytes → ℕ → List Data → Checked (List (Layer Real))
  unfolding file_in_pack override_of
  read_layers dir id i [] = accepted []
  read_layers dir id i (ld ∷ rest) =
      let path = clip 512 (get_string ld (codes "effect")) in
      let later = read_layers dir id (i + 1) rest in
      if not (rel_ok path && file_in_pack dir path)
      then refused (
          clip 512 (
            codes "preset '"
            ++ (id
                ++ (codes "' layer "
                    ++ (decimal i
                        ++ (codes ": effect '"
                            ++ (take 300 path ++ codes "' missing or not a relative path")))))))
      else elim later [
        | refused why ↦ refused why
        | accepted layers ↦
            accepted
              (record { effect_path = path; params = map override_of (get_params ld) } ∷ layers)
      ]

  -- `parse_preset`
  unfoldable pub parse_preset : Bytes → Data → Checked (Preset Real)
  unfolding file_in_pack read_layers
  parse_preset dir pd =
      let id = clip 64 (get_string pd (codes "id")) in
      let kind = clip 16 (get_string pd (codes "kind")) in
      let thumb = clip 512 (get_string pd (codes "thumb")) in
      let layers = get_array pd (codes "layers") in
      if not (id_ok id)
      then refused (clip 512 (codes "preset id '" ++ (id ++ codes "' must be [a-z0-9-]")))
      else if not (is_known kinds kind)
      then refused (
          clip 512 (
            codes "preset '"
            ++ (id ++ codes "': kind must be visualizer, effects, overlay, alert or transition")))
      else if not (is_empty thumb) && not (rel_ok thumb && file_in_pack dir thumb)
      then refused (
          clip 512 (
            codes "preset '"
            ++ (id
                ++ (codes "': thumb '"
                    ++ (take 300 thumb ++ codes "' missing or not a relative path")))))
      else if ltb (length layers) 1 || ltb max_layers (length layers)
      then refused (
          clip 512 (
            codes "preset '"
            ++ (id ++ (codes "': needs 1..8 layers, has " ++ decimal (length layers)))))
      else elim (read_layers dir id 0 layers) [
        | refused why ↦ refused why
        | accepted ls ↦ accepted (record {
          id = id;
          name = clip 128 (get_string pd (codes "name"));
          kind = kind;
          thumb = thumb;
          heavy = get_bool pd (codes "heavy");
          layers = ls;
        })
      ]

  -- The loop over the presets.
  unfoldable pub read_presets : Bytes → List Data → Checked (List (Preset Real))
  unfolding parse_preset
  read_presets dir [] = accepted []
  read_presets dir (pd ∷ rest) =
      let later = read_presets dir rest in
      elim (parse_preset dir pd) [
        | refused why ↦ refused why
        | accepted pr ↦ elim later [
          | refused why ↦ refused why
          | accepted prs ↦ accepted (pr ∷ prs)
        ]
      ]
