-- ===== src/Pack/Install/Vetted.antt =====
-- What an installation by src/ff-pack.c that succeeds has checked.
use obs_foxfire.Pack.{id_ok}
use obs_foxfire.Pack.Archive.{one_top, check_zip_entries, listing_has_symlink}
use obs_foxfire.Pack.Load.{Pack, accepted}
use obs_foxfire.Pack.Load.Manifest.{load_pack}
use obs_foxfire.Pack.Remove.{Disk, remove_recursive}
use obs_foxfire.Pack.Install.{
  Outcome, installed, packs_user_dir, run_args_capture, tmp_dir, move_pack,
}
use obs_foxfire.Prelude.{Bytes, codes, ℕ, ◌≡◌, true, false, Option, some, [], ◌∷◌, ◌++◌}

module _ (disk : Disk) (depth : ℕ) where
  open disk use {World, config_path, store, mkdirs, file_exists}

  abbrev packs_dir : Bytes
  packs_dir = packs_user_dir config_path

  abbrev tmp : Bytes
  tmp = tmp_dir disk depth packs_dir

  -- The three runs of the tool, each in the world that the one before it leaves: the second in that of
  -- the first, and the third once the temporary directory is made anew.
  abbrev names_run : World → Bytes → Bytes → Option Bytes × World
  names_run w tool zip =
      run_args_capture disk depth (mkdirs w packs_dir) (tool ∷ codes "-Z1" ∷ zip ∷ [])

  abbrev kinds_run : World → Bytes → Bytes → Option Bytes × World
  kinds_run w tool zip =
      run_args_capture disk depth (names_run w tool zip).1 (tool ∷ codes "-Z" ∷ zip ∷ [])

  abbrev unpack_run : World → Bytes → Bytes → Option Bytes × World
  unpack_run w tool zip =
      run_args_capture disk depth
        (mkdirs (remove_recursive disk depth (kinds_run w tool zip).1 tmp).1 tmp)
        (tool ∷ codes "-o" ∷ codes "-q" ∷ codes "-d" ∷ tmp ∷ zip ∷ [])

  -- Of the last steps: the folder holds a pack that is accepted, and is moved under its id.
  abbrev pub Placed : World → Bytes → Bytes → Type 0
  Placed w pack_src id =
      (pk : Pack (store w).Real) × (load_pack (store w) pack_src ≡ accepted pk)
      × (id ≡ pk.id)
      × (id_ok id ≡ true)
      × ((move_pack disk depth w packs_dir id pack_src).0 ≡ true)

  -- What an installation from the world `w` that succeeds has found and done.
  pub record Vetted (w : World) (zip id : Bytes) : Type 0 where
    pub tool : Bytes
    pub top : Bytes
    pub listing : Bytes
    pub kinds : Bytes
    pub said : Bytes
    pub listed : (names_run w tool zip).0 ≡ some listing
    pub one_folder : check_zip_entries listing ≡ one_top top
    pub kinds_listed : (kinds_run w tool zip).0 ≡ some kinds
    pub no_link : listing_has_symlink kinds ≡ false
    pub unpacked : (unpack_run w tool zip).0 ≡ some said
    pub placed : Placed (unpack_run w tool zip).1 (tmp ++ (b'/' ∷ top)) id

  module _ (w : World) (zip id : Bytes) where
    abbrev Vets : Outcome × World → Type 0
    Vets r = r.0 ≡ installed id → Vetted w zip id

    abbrev Places : Bytes → Bytes → Outcome × World → Type 0
    Places tool top r =
        r.0 ≡ installed id
        → (said : Bytes) × ((unpack_run w tool zip).0 ≡ some said)
          × Placed (unpack_run w tool zip).1 (tmp ++ (b'/' ∷ top)) id
