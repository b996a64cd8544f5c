-- ===== src/Pack/Remove.antt =====
-- The removal of a directory in src/ff-pack.c, over a disk whose calls are parameters. The entries of a
-- directory are those that are there when it is opened. The code's recursion goes as deep as the
-- directories do; here it stops with a failure below `depth` of them, whatever `depth` is.
pub mod Within
use obs_foxfire.Pack.Load.{Store}
use obs_foxfire.Prelude.{
  ◌==◌, if◌then◌else◌, Bytes, codes, bytes_eq, ℕ, zero, suc, Bool, true, false, not, ◌&&◌, ◌||◌,
  Option, List, [], ◌∷◌, ◌++◌, given,
}
use obs_foxfire.Prelude.Int.{ℤ}

-- What `lstat` says of a path; on Windows, the attributes of the file.
pub data Link : Type 0 where
  absent link_itself not_a_link cannot_tell : Link

pub record Disk : Type 1 where
  pub World : Type 0
  pub file_exists : World → Bytes → Bool
  pub lstat : World → Bytes → Link
  pub unlink : World → Bytes → Bool × World
  pub rmdir : World → Bytes → Bool × World
  pub read_dir : World → Bytes → Option (List (Bytes × Bool))
  pub mkdirs : World → Bytes → World
  pub rename : World → Bytes → Bytes → Bool × World
  pub safe_replace : World → Bytes → Bytes → Bytes → Bool × World
  pub process : World → List Bytes → Option (List Bytes × ℤ) × World
  pub path_variable : Option Bytes
  pub pid : ℤ
  pub config_path : Option Bytes
  pub store : World → Store

-- `path_is_symlink`: what cannot be told is taken for a link.
abbrev pub counts_as_link : Link → Bool
counts_as_link absent = false
counts_as_link link_itself = true
counts_as_link not_a_link = false
counts_as_link cannot_tell = true

abbrev pub is_dots : Bytes → Bool
is_dots name = bytes_eq name (codes ".") || bytes_eq name (codes "..")

module _ (disk : Disk) where
  open disk use {World, file_exists, lstat, unlink, rmdir, read_dir}

  unfoldable pub path_is_symlink : World → Bytes → Bool
  path_is_symlink w path = counts_as_link (lstat w path)

  -- `call(path) == 0 || !os_file_exists(path)`
  unfoldable pub or_gone : Bytes → Bool × World → Bool × World
  or_gone path (ok, w) = (ok || not (file_exists w path), w)

  -- One turn of the loop, where `remove` is the call for a directory.
  unfoldable pub remove_entry :
      (World → Bytes → Bool × World) → Bytes → World → Bytes × Bool → Bool × World
  remove_entry remove path w (name, directory) =
      let p = path ++ (b'/' ∷ name) in
      if is_dots name
      then (true, w)
      else if path_is_symlink w p
      then unlink w p
      else if directory
      then remove w p
      else unlink w p

  unfoldable pub remove_entries :
      (World → Bytes → Bool × World) → Bytes → World → List (Bytes × Bool) → Bool × World
  remove_entries remove path w [] = (true, w)
  remove_entries remove path w (e ∷ es) =
      let (ok, w1) = remove_entry remove path w e in
      let (rest, w2) = remove_entries remove path w1 es in (ok && rest, w2)

  unfoldable pub remove_dir :
      (World → Bytes → Bool × World) → Bytes → World → List (Bytes × Bool) → Bool × World
  remove_dir remove path w es =
      let (ok, w1) = remove_entries remove path w es in
      let (gone, w2) = rmdir w1 path in (ok && gone, w2)

  -- `ff_remove_recursive`
  unfoldable pub remove_recursive : ℕ → World → Bytes → Bool × World
  remove_recursive zero w path = (false, w)
  remove_recursive (suc depth) w path =
      if path_is_symlink w path
      then or_gone path (unlink w path)
      else (given (read_dir w path) (or_gone path (rmdir w path))
          (λ es. remove_dir (remove_recursive depth) path w es))
