-- ===== src/Pack/Install/Safe.antt =====
-- What a failed installation of src/ff-pack.c leaves alone, and what a successful one rests on.
use obs_foxfire.Pack.Archive.{
  Contents, wrong_layout, empty_zip, one_top, check_zip_entries, listing_has_symlink,
}
use obs_foxfire.Pack.Remove.{Disk, remove_recursive}
use obs_foxfire.Pack.Remove.Within.{here, KeptBelow, remove_recursive-keeps}
use obs_foxfire.Pack.Install.{
  Outcome, not_installed, packs_user_dir, find_on_path, run_args_capture, tmp_dir, backup_dir,
  replace_pack, move_pack, put_in_place, loaded, validate, unpack, check_kinds, check_names,
  list_names, install,
}
use obs_foxfire.Prelude.{
  Bool-cases, Bytes, codes, is_empty, ℕ, ◌≡◌, inl, inr, false, not, List, [], ◌∷◌, ◌++◌, if_both,
  given_both,
}

module _ (disk : Disk) (depth : ℕ) where
  open disk use {World, file_exists, mkdirs, rename, safe_replace, process, config_path, store}

  abbrev packs_dir : Bytes
  packs_dir = packs_user_dir config_path

  -- What makes no directory, runs no program, removes nothing but the two directories of this process
  -- and moves nothing: such a property of the disk survives them. `os_safe_replace` and `os_rename`
  -- that fail leave things as they were.
  pub record Survives (P : World → Type 0) : Type 0 where
    pub by_mkdirs : (w : World) (path : Bytes) → P w → P (mkdirs w path)
    pub by_process : (w : World) (args : List Bytes) → P w → P (process w args).1
    pub in_tmp : KeptBelow disk (tmp_dir disk depth packs_dir) P
    pub in_backup : (id : Bytes) → KeptBelow disk (backup_dir disk depth packs_dir id) P
    pub by_replace :
        (w : World) (to from backup : Bytes)
        → (safe_replace w to from backup).0 ≡ false
        → P w
        → P (safe_replace w to from backup).1
    pub by_rename :
        (w : World) (from to : Bytes) → (rename w from to).0 ≡ false → P w → P (rename w from to).1

  module _ (P : World → Type 0) (k : Survives P) where
    abbrev Fails : Outcome × World → Type 0
    Fails r = (why : Bytes) → r.0 ≡ not_installed why → P r.1

    tmp_removed :
        (w : World) → P w → P (remove_recursive disk depth w (tmp_dir disk depth packs_dir)).1
    tmp_removed w p = remove_recursive-keeps disk _ P k.in_tmp depth w _ here p

    ran : (w : World) (args : List Bytes) → P w → P (run_args_capture disk depth w args).1
    unfolding run_args_capture
    ran w args p = k.by_process w args p

    unmoved :
        (w : World) (id pack_src : Bytes)
        → (move_pack disk depth w packs_dir id pack_src).0 ≡ false
        → P w
        → P (move_pack disk depth w packs_dir id pack_src).1
    unfolding move_pack replace_pack
    unmoved w id pack_src h p =
        let dest = packs_dir ++ (b'/' ∷ id) in
        let backup = backup_dir disk depth packs_dir id in
        let w1 = (remove_recursive disk depth w backup).1 in
        elim (Bool-cases (file_exists w dest)) [
          | inl there ↦
              let failed : (safe_replace w1 dest pack_src backup).0 ≡ false =
                rw (there, move_pack) at h in
              rw (there, move_pack, failed)
                (k.by_replace w1 dest pack_src backup failed
                  (remove_recursive-keeps disk _ P (k.in_backup id) depth w _ here p))
          | inr free ↦
              rw (free, move_pack) (k.by_rename w pack_src dest (rw (free, move_pack) at h) p)
        ]

    put_in_place-Fails :
        (w : World) (id pack_src : Bytes)
        → P w
        → Fails (put_in_place disk depth w packs_dir id pack_src)
    unfolding put_in_place
    put_in_place-Fails w id pack_src p =
        elim (Bool-cases (move_pack disk depth w packs_dir id pack_src).0) [
          | inl moved ↦ rw (moved, put_in_place) (λ why h. cc)
          | inr failed ↦ rw (failed, put_in_place) (λ why h. unmoved w id pack_src failed p)
        ]

    validate-Fails :
        (w : World) (pack_src : Bytes) → P w → Fails (validate disk depth w packs_dir pack_src)
    unfolding validate
    validate-Fails w pack_src p =
        if_both Fails (loaded disk depth w pack_src).0 _ _ (put_in_place-Fails w _ pack_src p)
          (λ why h. tmp_removed w p)

    unpack-Fails :
        (w : World) (tool zip top : Bytes)
        → P w
        → Fails (unpack disk depth w packs_dir tool zip top)
    unfolding unpack
    unpack-Fails w tool zip top p =
        let tmp = tmp_dir disk depth packs_dir in
        let q =
          ran _ (tool ∷ codes "-o" ∷ codes "-q" ∷ codes "-d" ∷ tmp ∷ zip ∷ [])
            (k.by_mkdirs _ tmp (tmp_removed w p)) in
        given_both Fails _ _ _ (λ why h. tmp_removed _ q)
          (λ t. validate-Fails _ (tmp ++ (b'/' ∷ top)) q)

    check_kinds-Fails :
        (w : World) (tool zip top : Bytes)
        → P w
        → Fails (check_kinds disk depth w packs_dir tool zip top)
    unfolding check_kinds
    check_kinds-Fails w tool zip top p =
        let q = ran w (tool ∷ codes "-Z" ∷ zip ∷ []) p in
        given_both Fails _ _ _ (λ why h. q)
          (λ listing.
            if_both Fails (listing_has_symlink listing) _ _ (λ why h. q)
              (unpack-Fails _ tool zip top q))

    check_names-Fails :
        (w : World) (tool zip : Bytes) (c : Contents)
        → P w
        → Fails (check_names disk depth w packs_dir tool zip c)
    unfolding check_names
    check_names-Fails w tool zip wrong_layout p = λ why h. p
    check_names-Fails w tool zip empty_zip p = λ why h. p
    check_names-Fails w tool zip (one_top top) p = check_kinds-Fails w tool zip top p

    list_names-Fails :
        (w : World) (tool zip : Bytes) → P w → Fails (list_names disk depth w packs_dir tool zip)
    unfolding list_names
    list_names-Fails w tool zip p =
        let q = ran w (tool ∷ codes "-Z1" ∷ zip ∷ []) p in
        given_both Fails _ _ _ (λ why h. q)
          (λ listing. check_names-Fails _ tool zip (check_zip_entries listing) q)

    -- A failed installation leaves the packs that are installed alone: whatever making directories,
    -- running the tool, failed moves, and removals at or below the two directories that carry this
    -- process's number keep of the disk, a call of ff_packs_install_zip keeps that ends in any of its
    -- refusals. Below such a directory nothing is reached through a link.
    pub install_failed :
        (w : World) (zip why : Bytes)
        → P w
        → (install disk depth w zip).0 ≡ not_installed why
        → P (install disk depth w zip).1
    unfolding install
    install_failed w zip why p h =
        let q = k.by_mkdirs w packs_dir p in
        if_both Fails (not (file_exists w zip)) _ _ (λ y e. p)
          (if_both Fails (is_empty packs_dir) _ _ (λ y e. p)
            (given_both Fails (find_on_path disk depth (mkdirs w packs_dir) (codes "unzip")) _ _
              (λ y e. q) (λ tool. list_names-Fails (mkdirs w packs_dir) tool zip q)))
          why h
