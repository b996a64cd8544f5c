-- ===== src/Pack/Load/Manifest.antt =====
-- The manifest of a pack, its licence, the list of packs and the scan of a directory, in src/ff-pack.c.
use obs_foxfire.Pack.{id_ok, path_basename}
use obs_foxfire.Pack.Load.{
  Store, Preset, Pack, PackList, Checked, accepted, refused, max_presets, is_kind_not, a_boolean,
  a_number, read_presets,
}
use obs_foxfire.Licence.{Licence, unchecked, invalid, verify}
use obs_foxfire.Prelude.{
  ltb, ◌==◌, if◌then◌else◌, length, take, Bytes, codes, bytes_eq, clip, Bool, true, false, not,
  ◌&&◌, ◌||◌, Option, none, some, List, [], ◌∷◌, ◌++◌,
}
use obs_foxfire.Prelude.Int.{ℤ, pos, ◌-ℤ◌, ltb_ℤ, leb_ℤ, eqb_ℤ, to_int32}

-- `pk.licence` on memory set to zero, with FF_LIC_NONE.
abbrev pub no_licence : Licence
no_licence = record {
  state = unchecked;
  discord_id = [];
  pack_id = [];
  licence_id = [];
  issued = pos 0;
  entitled_through = pos 0;
  reason = [];
}

-- `semver_cmp3`; `int` differences that overflow, which C leaves undefined, wrap.
unfoldable pub semver_cmp3 : ℤ × ℤ × ℤ → ℤ × ℤ × ℤ → ℤ
semver_cmp3 (a1, a2, a3) (b1, b2, b3) =
    if not (eqb_ℤ a1 b1)
    then to_int32 (a1 -ℤ b1)
    else if not (eqb_ℤ a2 b2)
    then to_int32 (a2 -ℤ b2)
    else to_int32 (a3 -ℤ b3)

module _ (store : Store) where
  open store use {
    Data, Real, json_file, text_file, get_string, get_int, get_bool, kind_of, get_array,
    scan_version, engine, check, public_key,
  }

  -- The licence of a pack, and who it is for.
  unfoldable pub read_licence : Bytes → Bytes → Bool → ℤ → Licence
  unfolding verify
  read_licence dir id licensed released =
      let found : Licence = elim (text_file (dir ++ codes "/licence.json")) [
        | none ↦ record no_licence { state = invalid; reason = codes "missing" }
        | some t ↦ verify check t public_key (some id) released
      ] in
      if licensed then found else no_licence

  abbrev pub licensee_of : Option Data → Bytes
  licensee_of none = []
  licensee_of (some lz) = clip 128 (get_string lz (codes "display_name"))

  -- The last part of `ff_pack_load_dir`, once the manifest's own entries are accepted.
  unfoldable pub finish_load : Bytes → Data → Bytes → Bool → ℤ → Checked (Pack Real)
  unfolding read_presets read_licence
  finish_load dir m id licensed released =
      let ps = get_array m (codes "presets") in
      if ltb (length ps) 1 || ltb max_presets (length ps)
      then refused (codes "presets must have 1..64 entries")
      else elim (read_presets store (clip 1024 dir) ps) [
        | refused why ↦ refused why
        | accepted prs ↦ accepted (record {
          id = id;
          name = clip 128 (get_string m (codes "name"));
          version = clip 32 (get_string m (codes "version"));
          dir = clip 1024 dir;
          licensed = licensed;
          released = released;
          presets = prs;
          licence = read_licence dir id licensed released;
          licensee_name =
              (if licensed then licensee_of (json_file (dir ++ codes "/licensee.json")) else []);
        })
      ]

  -- The check of `min_engine`.
  unfoldable pub check_engine : Bytes → Checked Unit
  unfolding semver_cmp3
  check_engine version = elim (scan_version version) [
    | none ↦ refused (codes "min_engine must be x.y.z")
    | some v ↦
        if ltb_ℤ (pos 0) (semver_cmp3 v engine)
        then refused (codes "needs a newer Foxfire (min_engine above this version)")
        else accepted tt
  ]

  -- The checks of the manifest's own entries.
  unfoldable pub read_manifest : Bytes → Data → Checked (Pack Real)
  unfolding id_ok check_engine finish_load
  read_manifest dir m =
      let id = clip 64 (get_string m (codes "id")) in
      let licensed = get_bool m (codes "licensed") in
      let released = get_int m (codes "released") in
      if not (eqb_ℤ (to_int32 (get_int m (codes "format"))) (pos 1))
      then refused (codes "format must be 1")
      else if is_kind_not (kind_of m (codes "licensed")) a_boolean
      then refused (codes "licensed must be true or false, not a string or a number")
      else if is_kind_not (kind_of m (codes "released")) a_number
      then refused (codes "released must be a number of unix seconds")
      else if licensed && leb_ℤ released (pos 0)
      then refused (
          codes
            "a licensed pack must declare a real 'released' date; without one every licence unlocks it")
      else if not (id_ok id)
      then refused (codes "id must be [a-z0-9-]")
      else elim (check_engine (get_string m (codes "min_engine"))) [
        | refused why ↦ refused why
        | accepted fine ↦ finish_load dir m id licensed released
      ]

  -- What `ff_pack_load_dir` makes of a directory.
  unfoldable pub load_pack : Bytes → Checked (Pack Real)
  unfolding read_manifest
  load_pack dir = elim (json_file (dir ++ codes "/pack.json")) [
    | none ↦ refused (codes "pack.json missing or not valid JSON")
    | some m ↦ read_manifest dir m
  ]

  -- `add_error`
  unfoldable pub add_error : PackList Real → Bytes → Bytes → PackList Real
  unfolding path_basename
  add_error l dir why =
      let entry =
        clip 512
          (codes "pack '" ++ (take 90 (path_basename dir) ++ (codes "': " ++ take 400 why))) in
      if ltb (length l.errors) 8 then record l { errors = l.errors ++ (entry ∷ []) } else l

  -- `ff_pack_load_dir`
  unfoldable pub pack_load_dir : PackList Real → Bytes → Bool × PackList Real
  unfolding load_pack add_error
  pack_load_dir l dir = elim (load_pack dir) [
    | refused why ↦ (false, add_error l dir why)
    | accepted pk ↦ (true, record l { packs = l.packs ++ (pk ∷ []) })
  ]

  -- `scan_dir`, for the entries that `os_readdir` gives: a name, and whether it is a directory.
  abbrev pub is_hidden : Bytes → Bool
  is_hidden [] = false
  is_hidden (c ∷ s) = c == b'.'

  unfoldable pub scan_dir : PackList Real → Bytes → List (Bytes × Bool) → PackList Real
  unfolding pack_load_dir
  scan_dir l root [] = l
  scan_dir l root ((name, directory) ∷ rest) =
      if not directory || is_hidden name
      then scan_dir l root rest
      else scan_dir (pack_load_dir l (root ++ (b'/' ∷ name))).1 root rest

-- `ff_packs_find` and `ff_pack_find_preset`
unfoldable pub packs_find : {R : Type 0} → List (Pack R) → Bytes → Option (Pack R)
packs_find [] id = none
packs_find (p ∷ ps) id = if bytes_eq p.id id then some p else packs_find ps id

unfoldable pub find_preset : {R : Type 0} → List (Preset R) → Bytes → Option (Preset R)
find_preset [] id = none
find_preset (p ∷ ps) id = if bytes_eq p.id id then some p else find_preset ps id
