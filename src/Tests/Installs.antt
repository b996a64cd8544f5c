-- ===== src/Tests/Installs.antt =====
-- The installing of an archive on a disk that is the list of its paths.
use obs_foxfire.Pack.Load.{is_known}
use obs_foxfire.Pack.Remove.{Disk, absent, not_a_link, remove_recursive}
use obs_foxfire.Pack.Remove.Within.{Reached, here, below, KeptBelow, remove_recursive-keeps}
use obs_foxfire.Pack.Install.{
  install, packs_user_dir, user_dir_of, find_on_path, first_with, path_parts, list_names, nonempty,
  run_args_capture, whole, check_names, check_kinds, unpack, validate, loaded, first_error,
  first_id, move_pack, put_in_place, replace_pack, tmp_dir, backup_dir,
}
use obs_foxfire.Pack.Install.Safe.{Survives, install_failed}
use obs_foxfire.Pack.Install.Vetted.{Vetted}
use obs_foxfire.Tests.Packs.{disk}
use obs_foxfire.Prelude.{
  ltb, leb, ◌==◌, if◌then◌else◌, ltb→lt, lt→ltb, ==_iff, Bool-cases, Option-cases, length,
  get_elem?, get_or, set, take, drop, replicate, length-append, length-set, length-take,
  length-drop, length-replicate, take_of_le, drop_of_le, take_all, take-append-drop, get_or-append,
  get_or-set_self, get_or-set_ne, Bytes, codes, is_empty, bytes_eq, bytes_eq_iff, clip, length-clip,
  cstr, IsBytes, ℕ, zero, suc, ◌+◌, ◌-◌, ◌*◌, ◌/◌, ◌%◌, ◌^◌, ◌≤◌, ◌<◌, min, bit_xor, bit_and,
  bit_or, ◌≡◌, refl, sym, ap, ◌∙◌, subst, ◌≢◌, ◌↔◌, ◌⊎◌, inl, inr, Bool, true, false, not, ◌&&◌,
  ◌||◌, Option, none, some, List, [], ◌∷◌, ◌++◌, map, append-nil, append_assoc, arith, if_both,
  get_elem?_of_le, drop_nil, drop-drop, given, given_both, given_with, begins,
}
use obs_foxfire.Prelude.Int.{pos, ◌-ℤ◌, to_int32}

abbrev without : Bytes → List Bytes → List Bytes
without p [] = []
without p (x ∷ xs) = if bytes_eq x p then without p xs else x ∷ without p xs

abbrev packs : Bytes
packs = codes "/c/plugin_config/foxfire/packs"

abbrev keep : Bytes
keep = codes "/c/plugin_config/foxfire/packs/keep"

abbrev zip : Bytes
zip = codes "/demo.zip"

abbrev paths : List Bytes
paths = zip ∷ codes "/usr/bin/unzip" ∷ keep ∷ []

abbrev printed : List Bytes → List Bytes
printed (tool ∷ option ∷ rest) =
    if bytes_eq option (codes "-Z1")
    then codes "demo/pack" ∷ codes ".json\n" ∷ []
    else if bytes_eq option (codes "-Z")
    then codes "-rw-r--r-- demo/pack.json\n" ∷ []
    else []
printed _ = []

-- Whether a rename succeeds is open.
abbrev machine : Bool → Disk
machine renames = record {
  World = List Bytes;
  file_exists = λ w p. is_known w p;
  lstat = λ w p. if is_known w p then not_a_link else absent;
  unlink = λ w p. (true, without p w);
  rmdir = λ w p. (true, without p w);
  read_dir = λ w p. if is_known w p then some ((codes "old", false) ∷ []) else none;
  mkdirs = λ w p. p ∷ w;
  rename = λ w from to. (renames, if renames then to ∷ w else w);
  safe_replace = λ w to from backup. (false, w);
  process = λ w args. (some (printed args, pos 0), w);
  path_variable = none;
  pid = pos 7;
  config_path = some (codes "/c/plugin_config/foxfire-alerts/packs");
  store = λ w. disk;
}

begins_longer : (root p s : Bytes) → begins root p ≡ true → begins root (p ++ s) ≡ true
begins_longer [] p s h = refl
begins_longer (x ∷ root) [] s h = cc
begins_longer (x ∷ root) (c ∷ p) s h = ground (arith, begins_longer root p s)

begins_self : (root : Bytes) → begins root root ≡ true
begins_self [] = refl
begins_self (x ∷ root) = ground (arith, begins_self root)

begins-Reached : (root p : Bytes) → Reached (machine false) root p → begins root p ≡ true
begins-Reached root _ here = begins_self root
begins-Reached root _ (below {path} w name plain named r) =
    begins_longer root path (b'/' ∷ name) (begins-Reached root path r)

differ : (root p : Bytes) → Reached (machine false) root p → begins root keep ≡ false → p ≢ keep
differ root p r out same = cc (begins-Reached root p r, out, ap (begins root) same)

ne_other : (x p : Bytes) → keep ≡ x → p ≢ keep → bytes_eq x p ≡ false
ne_other x p k ne = elim (Bool-cases (bytes_eq x p)) [
  | inl same ↦ absurd (ne (sym ((bytes_eq_iff x p).0 same) ∙ sym k))
  | inr other ↦ other
]

kept_more : (p : Bytes) (w : List Bytes) → is_known w keep ≡ true → is_known (p ∷ w) keep ≡ true
kept_more p w h = ground arith

-- The pack that is there stays when another path goes.
kept_without :
    (p : Bytes) (w : List Bytes)
    → p ≢ keep
    → is_known w keep ≡ true
    → is_known (without p w) keep ≡ true
kept_without p [] ne h = h
kept_without p (x ∷ w) ne h = elim (Bool-cases (bytes_eq keep x)) [
  | inl found ↦
      let other : bytes_eq x p ≡ false = ne_other x p ((bytes_eq_iff keep x).0 found) ne in
      rw other (rw found refl)
  | inr missing ↦
      let rest = kept_without p w ne (rw missing at h) in
      if_both (λ l. is_known l keep ≡ true) (bytes_eq x p) _ _ rest (rw missing rest)
]

below_kept :
    (root : Bytes)
    → begins root keep ≡ false
    → KeptBelow (machine false) root (λ w. is_known w keep ≡ true)
below_kept root out = record {
  by_unlink = λ w p r h. kept_without p w (λ same. differ root p r out same) h;
  by_rmdir = λ w p r h. kept_without p w (λ same. differ root p r out same) h;
}

survives : Survives (machine false) 3 (λ w. is_known w keep ≡ true)
unfolding packs_user_dir user_dir_of obs_foxfire.Pack.shared_config_path
    obs_foxfire.Pack.last_anchor tmp_dir backup_dir obs_foxfire.Prelude.Text.decimal
    obs_foxfire.Prelude.Text.decimal_onto obs_foxfire.Prelude.Text.decimal_ℤ
survives = record {
  by_mkdirs = λ w p h. kept_more p w h;
  by_process = λ w args h. h;
  in_tmp = below_kept _ refl;
  in_backup = λ id. below_kept _ refl;
  by_replace = λ w to from backup e h. h;
  by_rename = λ w from to e h. h;
}

install_failed_example : is_known (install (machine false) 3 paths zip).1 keep ≡ true
unfolding install packs_user_dir user_dir_of obs_foxfire.Pack.shared_config_path find_on_path
    first_with path_parts list_names nonempty run_args_capture whole check_names
    obs_foxfire.Pack.Archive.check_zip_entries check_kinds
    obs_foxfire.Pack.Archive.listing_has_symlink unpack validate loaded
    obs_foxfire.Pack.Archive.before_slash obs_foxfire.Pack.Archive.check_lines
    obs_foxfire.Pack.Archive.first_entry_top obs_foxfire.Pack.Archive.goes_up
    obs_foxfire.Pack.Archive.is_bad obs_foxfire.Pack.Archive.lines
    obs_foxfire.Pack.Archive.without_returns first_error first_id move_pack put_in_place
    replace_pack tmp_dir backup_dir obs_foxfire.Pack.Load.Manifest.check_engine
    obs_foxfire.Pack.Load.Manifest.finish_load obs_foxfire.Pack.Load.Manifest.load_pack
    obs_foxfire.Pack.Load.Manifest.pack_load_dir obs_foxfire.Pack.Load.Manifest.read_licence
    obs_foxfire.Pack.Load.Manifest.read_manifest obs_foxfire.Pack.Load.Manifest.semver_cmp3
    obs_foxfire.Pack.Load.Manifest.add_error obs_foxfire.Pack.Load.file_in_pack
    obs_foxfire.Pack.Load.override_of obs_foxfire.Pack.Load.parse_preset
    obs_foxfire.Pack.Load.read_layers obs_foxfire.Pack.Load.read_presets
    obs_foxfire.Pack.Remove.or_gone obs_foxfire.Pack.Remove.path_is_symlink
    obs_foxfire.Pack.Remove.remove_dir obs_foxfire.Pack.Remove.remove_entries
    obs_foxfire.Pack.Remove.remove_entry remove_recursive obs_foxfire.Pack.basename_from
    obs_foxfire.Pack.id_ok obs_foxfire.Pack.last_anchor obs_foxfire.Pack.path_basename
    obs_foxfire.Pack.rel_ok to_int32 ◌-ℤ◌ obs_foxfire.Prelude.Text.decimal
    obs_foxfire.Prelude.Text.decimal_onto obs_foxfire.Prelude.Text.decimal_ℤ
install_failed_example =
    install_failed (machine false) 3 (λ w. is_known w keep ≡ true) survives paths zip
      (codes "failed to install pack 'demo' into place") refl refl

abbrev tmp : Bytes
tmp = codes "/c/plugin_config/foxfire/packs/.tmp-7"

remove_recursive-keeps_example :
    is_known (remove_recursive (machine false) 3 (tmp ∷ paths) tmp).1 keep ≡ true
remove_recursive-keeps_example =
    remove_recursive-keeps (machine false) tmp (λ w. is_known w keep ≡ true) (below_kept tmp refl) 3
      (tmp ∷ paths) tmp here refl

-- the entry goes, then the directory
removed :
    remove_recursive (machine false) 3 (tmp ∷ (tmp ++ codes "/old") ∷ paths) tmp ≡ (true, paths)
unfolding remove_recursive obs_foxfire.Pack.Remove.or_gone obs_foxfire.Pack.Remove.path_is_symlink
    obs_foxfire.Pack.Remove.remove_dir obs_foxfire.Pack.Remove.remove_entries
    obs_foxfire.Pack.Remove.remove_entry
removed = refl
