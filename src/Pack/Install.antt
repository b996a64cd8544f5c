-- ===== src/Pack/Install.antt =====
-- The installing of an archive in src/ff-pack.c, over the disk of Pack/Remove. The tool is `unzip`, and
-- the paths are those of the branch for POSIX. A text is cut to the caller's buffer at the end; log
-- lines are not modelled. `depth` bounds the removals, as in Pack/Remove.
pub mod Safe
pub mod Vetted
use obs_foxfire.Pack.{shared_config_path}
use obs_foxfire.Pack.Archive.{
  Contents, wrong_layout, empty_zip, one_top, check_zip_entries, listing_has_symlink,
}
use obs_foxfire.Pack.Load.{Store, Pack, PackList}
use obs_foxfire.Pack.Load.Manifest.{pack_load_dir, scan_dir}
use obs_foxfire.Pack.Remove.{Disk, remove_recursive}
use obs_foxfire.Prelude.Text.{decimal_ℤ}
use obs_foxfire.Prelude.{
  ◌==◌, if◌then◌else◌, Bytes, codes, is_empty, clip, ℕ, Bool, true, false, not, ◌&&◌, Option, none,
  some, List, [], ◌∷◌, ◌++◌, given, begins,
}
use obs_foxfire.Prelude.Int.{pos, eqb_ℤ}

-- What comes of an installation: a text that says why not, or the id.
pub data Outcome : Type 0 where
  not_installed : Bytes → Outcome
  installed : Bytes → Outcome

-- The parts of a PATH between its colons.
abbrev onto_first : ℕ → List Bytes → List Bytes
onto_first c [] = (c ∷ []) ∷ []
onto_first c (p ∷ ps) = (c ∷ p) ∷ ps

unfoldable pub path_parts : Bytes → List Bytes
path_parts [] = [] ∷ []
path_parts (c ∷ s) = let rest = path_parts s in if c == b':' then [] ∷ rest else onto_first c rest

-- The loop of `find_on_path`.
unfoldable pub first_with : (Bytes → Bool) → Bytes → List Bytes → Option Bytes
first_with exists prog [] = none
first_with exists prog (d ∷ ds) =
    let candidate = d ++ (b'/' ∷ prog) in
    if not (is_empty d) && exists candidate then some candidate else first_with exists prog ds

-- `pubkey_is_zero`, of the 32 bytes of the key.
unfoldable pub pubkey_is_zero : Bytes → Bool
pubkey_is_zero [] = true
pubkey_is_zero (b ∷ key) = b == 0 && pubkey_is_zero key

-- The names that `log_stale_temp_dirs` logs.
unfoldable pub stale_temp_dirs : List (Bytes × Bool) → List Bytes
stale_temp_dirs [] = []
stale_temp_dirs ((name, directory) ∷ rest) =
    if directory && begins (codes ".tmp-") name
    then name ∷ stale_temp_dirs rest
    else stale_temp_dirs rest

-- `packs_user_dir`, where `obs_module_config_path` gave this: the directory, or nothing.
unfoldable pub user_dir_of : Bytes → Bytes
user_dir_of mine =
    let (ok, out) = shared_config_path mine (codes "packs") 1024 in
    if ok then given out [] (λ path. path) else clip 1024 mine

unfoldable pub packs_user_dir : Option Bytes → Bytes
packs_user_dir config = given config [] user_dir_of

-- `ff_packs_scan`: the bundled packs, then the user's, where `entries` is what a directory holds. The
-- disk is that of a store, which does not change meanwhile.
unfoldable pub packs_scan :
    (store : Store)
    → (Bytes → List (Bytes × Bool))
    → Option Bytes
    → Option Bytes
    → PackList store.Real
packs_scan store entries bundled config =
    let l0 : PackList store.Real = record { packs = []; errors = [] } in
    let l1 = given bundled l0 (λ dir. scan_dir store l0 dir (entries dir)) in
    let user = packs_user_dir config in
    if is_empty user then l1 else scan_dir store l1 user (entries user)

abbrev pub layout_text : Bytes
layout_text = codes "zip must contain exactly one top-level folder named like the pack id"

-- What a program writes, in pieces.
unfoldable pub whole : List Bytes → Bytes
whole [] = []
whole (chunk ∷ chunks) = chunk ++ whole chunks

-- A captured text that is not empty.
unfoldable pub nonempty : Option Bytes → Option Bytes
nonempty captured = given captured none (λ t. if is_empty t then none else some t)

unfoldable pub first_error : List Bytes → Bytes
first_error [] = codes "pack failed validation"
first_error (e ∷ es) = e

unfoldable pub first_id : {R : Type 0} → List (Pack R) → Bytes
first_id [] = []
first_id (p ∷ ps) = clip 64 p.id

module _ (disk : Disk) (depth : ℕ) where
  open disk use {
    World, file_exists, mkdirs, rename, safe_replace, process, path_variable, pid, config_path,
    store,
  }

  -- `find_on_path`
  unfoldable pub find_on_path : World → Bytes → Option Bytes
  find_on_path w prog =
      let path = given path_variable [] (λ p. p) in
      first_with (file_exists w) prog
        (path_parts (if is_empty path then codes "/usr/bin:/bin" else path))

  -- `run_args_capture`: what the program writes, if it ends with 0.
  unfoldable pub run_args_capture : World → List Bytes → Option Bytes × World
  run_args_capture w args =
      let (ran, w') = process w args in
      (given ran none (λ r. if eqb_ℤ r.1 (pos 0) then some (whole r.0) else none), w')

  unfoldable pub tmp_dir : Bytes → Bytes
  tmp_dir packs_dir = packs_dir ++ (codes "/.tmp-" ++ decimal_ℤ pid)

  unfoldable pub backup_dir : Bytes → Bytes → Bytes
  backup_dir packs_dir id = packs_dir ++ (codes "/.bak-" ++ (id ++ (b'-' ∷ decimal_ℤ pid)))

  -- The move into place: over a pack of the same id, which is put back if that fails, or to a free place.
  unfoldable pub replace_pack : World → Bytes → Bytes → Bytes → Bool × World
  replace_pack w backup dest pack_src =
      let w1 = (remove_recursive disk depth w backup).1 in
      let (moved, w2) = safe_replace w1 dest pack_src backup in
      (moved, if moved then (remove_recursive disk depth w2 backup).1 else w2)

  unfoldable pub move_pack : World → Bytes → Bytes → Bytes → Bool × World
  move_pack w packs_dir id pack_src =
      let dest = packs_dir ++ (b'/' ∷ id) in
      if file_exists w dest
      then replace_pack w (backup_dir packs_dir id) dest pack_src
      else rename w pack_src dest

  unfoldable pub put_in_place : World → Bytes → Bytes → Bytes → Outcome × World
  put_in_place w packs_dir id pack_src =
      let (moved, w1) = move_pack w packs_dir id pack_src in
      if moved
      then (installed id, (remove_recursive disk depth w1 (tmp_dir packs_dir)).1)
      else (not_installed (codes "failed to install pack '" ++ (id ++ codes "' into place")), w1)

  -- What `ff_pack_load_dir` makes of the unpacked folder, on an empty list.
  unfoldable pub loaded : (w : World) → Bytes → Bool × PackList (store w).Real
  loaded w pack_src = pack_load_dir (store w) (record { packs = []; errors = [] }) pack_src

  unfoldable pub validate : World → Bytes → Bytes → Outcome × World
  validate w packs_dir pack_src =
      let (ok, check) = loaded w pack_src in
      if ok then put_in_place w packs_dir (first_id check.packs) pack_src else (
        not_installed (first_error check.errors),
        (remove_recursive disk depth w (tmp_dir packs_dir)).1,
      )

  unfoldable pub unpack : World → Bytes → Bytes → Bytes → Bytes → Outcome × World
  unpack w packs_dir tool zip top =
      let tmp = tmp_dir packs_dir in
      let w1 = mkdirs (remove_recursive disk depth w tmp).1 tmp in
      let (out, w2) =
        run_args_capture w1 (tool ∷ codes "-o" ∷ codes "-q" ∷ codes "-d" ∷ tmp ∷ zip ∷ []) in
      given out
        (not_installed (codes "failed to extract the zip"), (remove_recursive disk depth w2 tmp).1)
        (λ t. validate w2 packs_dir (tmp ++ (b'/' ∷ top)))

  unfoldable pub check_kinds : World → Bytes → Bytes → Bytes → Bytes → Outcome × World
  check_kinds w packs_dir tool zip top =
      let (out, w1) = run_args_capture w (tool ∷ codes "-Z" ∷ zip ∷ []) in
      given (nonempty out)
        (not_installed (codes "could not check the zip for invalid entries (symlinks)"), w1)
        (λ listing.
          if listing_has_symlink listing
          then (
            not_installed (
                codes
                  "zip must not contain symlinks. Re-download from kitsune.gg if this is an official pack."),
            w1,
          )
          else unpack w1 packs_dir tool zip top)

  unfoldable pub check_names : World → Bytes → Bytes → Bytes → Contents → Outcome × World
  check_names w packs_dir tool zip wrong_layout = (not_installed layout_text, w)
  check_names w packs_dir tool zip empty_zip = (not_installed (codes "zip is empty"), w)
  check_names w packs_dir tool zip (one_top top) = check_kinds w packs_dir tool zip top

  unfoldable pub list_names : World → Bytes → Bytes → Bytes → Outcome × World
  list_names w packs_dir tool zip =
      let (out, w1) = run_args_capture w (tool ∷ codes "-Z1" ∷ zip ∷ []) in
      given (nonempty out) (not_installed (codes "could not read the zip's contents"), w1)
        (λ listing. check_names w1 packs_dir tool zip (check_zip_entries listing))

  -- `ff_packs_install_zip`, with its text whole.
  unfoldable pub install : World → Bytes → Outcome × World
  install w zip =
      let packs_dir = packs_user_dir config_path in
      if not (file_exists w zip)
      then (not_installed (codes "zip file not found"), w)
      else if is_empty packs_dir
      then (not_installed (codes "could not resolve the packs directory"), w)
      else (let w1 = mkdirs w packs_dir in
          given (find_on_path w1 (codes "unzip"))
            (not_installed (codes "'unzip' was not found on PATH"), w1)
            (λ tool. list_names w1 packs_dir tool zip))

-- The result and the text of `ff_packs_install_zip`, in `cap` bytes.
unfoldable pub answer : ℕ → Outcome → Bool × Bytes
answer cap (not_installed why) = (false, clip cap why)
answer cap (installed id) = (true, clip cap (codes "installed '" ++ (id ++ codes "'")))
