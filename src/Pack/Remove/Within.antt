-- ===== src/Pack/Remove/Within.antt =====
-- What the removal of a directory in src/ff-pack.c touches.
use obs_foxfire.Pack.Remove.{
  Disk, Link, absent, link_itself, not_a_link, cannot_tell, counts_as_link, is_dots,
  path_is_symlink, or_gone, remove_entry, remove_entries, remove_dir, remove_recursive,
}
use obs_foxfire.Prelude.{
  Bool-cases, Bytes, ℕ, zero, suc, ◌≡◌, refl, ◌⊎◌, inl, inr, Bool, false, List, [], arith, ◌∷◌,
  ◌++◌, if_both, given_both,
}

no_link : (l : Link) → counts_as_link l ≡ false → (l ≡ not_a_link) ⊎ (l ≡ absent)
no_link absent h = inr refl
no_link link_itself h = ground (arith, h)
no_link not_a_link h = inl refl
no_link cannot_tell h = ground (arith, h)

module _ (disk : Disk) where
  open disk use {World, lstat, unlink, rmdir, read_dir}

  -- A path that is `root`, or is reached from it through paths of which `lstat` said, at some moment,
  -- that they are no links, or that they are not there.
  pub data Reached (root : Bytes) : Bytes → Type 0 where
    here : Reached root root
    below :
        {path : Bytes} (w : World) (name : Bytes)
        → (lstat w path ≡ not_a_link) ⊎ (lstat w path ≡ absent)
        → is_dots name ≡ false
        → Reached root path
        → Reached root (path ++ (b'/' ∷ name))

  -- A property of the disk that the two calls keep on every path that is reached.
  pub record KeptBelow (root : Bytes) (P : World → Type 0) : Type 0 where
    pub by_unlink : (w : World) (path : Bytes) → Reached root path → P w → P (unlink w path).1
    pub by_rmdir : (w : World) (path : Bytes) → Reached root path → P w → P (rmdir w path).1

  module _ (root : Bytes) (P : World → Type 0) (k : KeptBelow root P) where
    abbrev Keeps : (World → Bytes → Bool × World) → Type 0
    Keeps remove = (w : World) (path : Bytes) → Reached root path → P w → P (remove w path).1

    entry_kept :
        (remove : World → Bytes → Bool × World)
        → Keeps remove
        → (path : Bytes) (v w : World) (e : Bytes × Bool) → Reached root path
        → path_is_symlink disk v path ≡ false
        → P w
        → P (remove_entry disk remove path w e).1
    unfolding remove_entry path_is_symlink
    entry_kept remove h path v w (name, directory) r plain p =
        let q = path ++ (b'/' ∷ name) in
        elim (Bool-cases (is_dots name)) [
          | inl dots ↦ rw dots p
          | inr named ↦
              let s = below v name (no_link (lstat v path) plain) named r in
              rw named (
                if_both (λ (x : Bool × World). P x.1) (path_is_symlink disk w q) _ _
                  (k.by_unlink w q s p)
                  (if_both (λ (x : Bool × World). P x.1) directory _ _ (h w q s p)
                    (k.by_unlink w q s p)))
        ]

    entries_kept :
        (remove : World → Bytes → Bool × World)
        → Keeps remove
        → (path : Bytes) (v w : World) (es : List (Bytes × Bool)) → Reached root path
        → path_is_symlink disk v path ≡ false
        → P w
        → P (remove_entries disk remove path w es).1
    unfolding remove_entries
    entries_kept remove h path v w [] r plain p = p
    entries_kept remove h path v w (e ∷ es) r plain p =
        entries_kept remove h path v (remove_entry disk remove path w e).1 es r plain
          (entry_kept remove h path v w e r plain p)

    -- Whatever the two calls keep on the paths that are reached from `root` without passing through a
    -- link, the removal of such a path keeps, however deep it goes and whatever the calls answer.
    -- What a link points to is not reached: a link is unlinked, and a path that `lstat` cannot tell
    -- counts as one.
    pub remove_recursive-keeps :
        (depth : ℕ) (w : World) (path : Bytes)
        → Reached root path
        → P w
        → P (remove_recursive disk depth w path).1
    unfolding remove_recursive or_gone remove_dir
    remove_recursive-keeps zero w path r p = p
    remove_recursive-keeps (suc depth) w path r p =
        elim (Bool-cases (path_is_symlink disk w path)) [
          | inl link ↦ rw (link, remove_recursive) (k.by_unlink w path r p)
          | inr plain ↦
              rw (plain, remove_recursive)
                (given_both (λ (x : Bool × World). P x.1) (read_dir w path) _ _
                  (k.by_rmdir w path r p)
                  (λ es. k.by_rmdir _ path r (
                    entries_kept (remove_recursive disk depth) (remove_recursive-keeps depth) path w
                      w es r plain p)))
        ]
