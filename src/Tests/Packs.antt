-- ===== src/Tests/Packs.antt =====
-- Archives and packs on a simulated disk.
use obs_foxfire.Pack.Archive.{wrong_layout, one_top, lines, check_zip_entries, listing_has_symlink}
use obs_foxfire.Pack.Archive.Inside.{AllBelow, check_zip_entries-AllBelow}
use obs_foxfire.Pack.Load.{Store, Preset, Pack, accepted}
use obs_foxfire.Pack.Load.Manifest.{
  no_licence, load_pack, pack_load_dir, scan_dir, packs_find, find_preset,
}
use obs_foxfire.Pack.Load.Gate.{IsLoaded, load_pack-IsLoaded}
use obs_foxfire.Prelude.{
  if◌then◌else◌, Bytes, codes, bytes_eq, ℕ, ◌≡◌, refl, true, false, none, some, [], ◌∷◌,
}
use obs_foxfire.Prelude.Int.{pos, ◌-ℤ◌, to_int32}

abbrev listing : Bytes
listing = codes "a/pack.json\r\na/b.effect\r\n"

one_folder : check_zip_entries listing ≡ one_top (codes "a")
unfolding check_zip_entries lines obs_foxfire.Pack.Archive.check_lines
    obs_foxfire.Pack.Archive.first_entry_top obs_foxfire.Pack.Archive.before_slash
    obs_foxfire.Pack.Archive.is_bad obs_foxfire.Pack.Archive.without_returns
    obs_foxfire.Pack.Archive.goes_up
one_folder = refl

climbs : check_zip_entries (codes "a/x\na/../y\n") ≡ wrong_layout
unfolding check_zip_entries lines obs_foxfire.Pack.Archive.check_lines
    obs_foxfire.Pack.Archive.first_entry_top obs_foxfire.Pack.Archive.before_slash
    obs_foxfire.Pack.Archive.is_bad obs_foxfire.Pack.Archive.without_returns
    obs_foxfire.Pack.Archive.goes_up
climbs = refl

-- Backslashes are not looked at.
backslashes : check_zip_entries (codes "a/x\na/..\\..\\y\n") ≡ one_top (codes "a")
unfolding check_zip_entries lines obs_foxfire.Pack.Archive.check_lines
    obs_foxfire.Pack.Archive.first_entry_top obs_foxfire.Pack.Archive.before_slash
    obs_foxfire.Pack.Archive.is_bad obs_foxfire.Pack.Archive.without_returns
    obs_foxfire.Pack.Archive.goes_up
backslashes = refl

links :
    (listing_has_symlink (codes "-rw a\nlrw b\n") ≡ true)
    × (listing_has_symlink (codes "-rw l\n") ≡ false)
unfolding listing_has_symlink lines
links = (refl, refl)

check_zip_entries-AllBelow_example : AllBelow (codes "a") (lines listing)
check_zip_entries-AllBelow_example = check_zip_entries-AllBelow listing (codes "a") one_folder

-- A disk with one pack of one preset of one layer.
abbrev pub string_of : Bytes → Bytes
string_of key =
    if bytes_eq key (codes "id")
    then codes "demo"
    else if bytes_eq key (codes "kind")
    then codes "effects"
    else if bytes_eq key (codes "effect")
    then codes "b.effect"
    else []

abbrev pub disk : Store
disk = record {
  Data = Unit;
  Real = ℕ;
  zero_real = 0;
  one_real = 1;
  json_file = λ path. some tt;
  text_file = λ path. none;
  file_exists = λ path. true;
  get_string = λ d key. string_of key;
  get_int = λ d key. pos 1;
  get_bool = λ d key. false;
  get_double = λ d key. 0;
  has_user_value = λ d key. false;
  kind_of = λ d key. none;
  get_array = λ d key. tt ∷ [];
  get_params = λ d. [];
  scan_version = λ s. some (pos 1, pos 0, pos 0);
  engine = (pos 1, pos 0, pos 0);
  check = λ sig key text. false;
  public_key = [];
}

abbrev demo_preset : Preset ℕ
demo_preset = record {
  id = codes "demo";
  name = [];
  kind = codes "effects";
  thumb = [];
  heavy = false;
  layers = record { effect_path = codes "b.effect"; params = [] } ∷ [];
}

abbrev demo : Pack ℕ
demo = record {
  id = codes "demo";
  name = [];
  version = [];
  dir = codes "packs/demo";
  licensed = false;
  released = pos 1;
  presets = demo_preset ∷ [];
  licence = no_licence;
  licensee_name = [];
}

loads : load_pack disk (codes "packs/demo") ≡ accepted demo
unfolding load_pack obs_foxfire.Pack.Load.Manifest.read_manifest
    obs_foxfire.Pack.Load.Manifest.finish_load obs_foxfire.Pack.Load.read_presets
    obs_foxfire.Pack.Load.parse_preset obs_foxfire.Pack.Load.read_layers
    obs_foxfire.Pack.Load.file_in_pack obs_foxfire.Pack.Load.Manifest.read_licence
    obs_foxfire.Pack.Load.Manifest.check_engine obs_foxfire.Pack.Load.Manifest.semver_cmp3
    obs_foxfire.Pack.id_ok obs_foxfire.Pack.rel_ok to_int32 ◌-ℤ◌
loads = refl

load_pack-IsLoaded_example : IsLoaded disk (codes "packs/demo") demo
load_pack-IsLoaded_example = load_pack-IsLoaded disk (codes "packs/demo") demo loads

-- A scan goes past files and hidden names.
scanned :
    (scan_dir disk
      (record { packs = []; errors = [] })
      (codes "packs")
      ((codes ".git", true) ∷ (codes "demo", true) ∷ (codes "x", false) ∷ [])).packs
    ≡ demo ∷ []
unfolding scan_dir pack_load_dir load_pack obs_foxfire.Pack.Load.Manifest.read_manifest
    obs_foxfire.Pack.Load.Manifest.finish_load obs_foxfire.Pack.Load.read_presets
    obs_foxfire.Pack.Load.parse_preset obs_foxfire.Pack.Load.read_layers
    obs_foxfire.Pack.Load.file_in_pack obs_foxfire.Pack.Load.Manifest.read_licence
    obs_foxfire.Pack.Load.Manifest.check_engine obs_foxfire.Pack.Load.Manifest.semver_cmp3
    obs_foxfire.Pack.id_ok obs_foxfire.Pack.rel_ok to_int32 ◌-ℤ◌
scanned = refl

found :
    (packs_find (demo ∷ []) (codes "demo") ≡ some demo)
    × (find_preset demo.presets (codes "x") ≡ none)
unfolding packs_find find_preset
found = (refl, refl)
