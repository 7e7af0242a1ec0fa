-- ===== src/Fsys/Tree.antt =====
-- src/fsys/dir.go and symlink.go: the types, and the walks over a directory.
pub mod Preorder
use ftu.Common.{ℕ, Bool, true, false, List, ◌++◌, Bytes}
use ftu.Fsys.Disk.{File}

pub record Symlink : Type 0 where
  pub target_path : Bytes
  pub path : Bytes

-- What a `Directory` holds besides its slices.
pub record DirInfo : Type 0 where
  pub name : Bytes
  pub path : Bytes
  pub size : ℕ
  pub relative_parent_path : Bytes

-- `fsys.Directory`, with its `Symlinks`, `Files` and `Directories`.
mutual
  pub data Directory : Type 0 where
    dir : DirInfo → List Symlink → List File → Directories → Directory

  pub data Directories : Type 0 where
    nil : Directories
    cons : Directory → Directories → Directories

unfoldable pub info : Directory → DirInfo
info (dir i links files dirs) = i

-- `GetAllFiles`: the second function is the loop over `dir.Directories`.
unfoldable mutual
  pub get_all_files : Directory → Bool → List File
  get_all_files (dir i links files dirs) true = append_files dirs files
  get_all_files (dir i links files dirs) false = files

  pub append_files : Directories → List File → List File
  append_files nil files = files
  append_files (cons d dirs) files = append_files dirs (files ++ get_all_files d true)

-- `GetAllSymlinks`
unfoldable mutual
  pub get_all_symlinks : Directory → Bool → List Symlink
  get_all_symlinks (dir i links files dirs) true = append_symlinks dirs links
  get_all_symlinks (dir i links files dirs) false = links

  pub append_symlinks : Directories → List Symlink → List Symlink
  append_symlinks nil links = links
  append_symlinks (cons d dirs) links = append_symlinks dirs (links ++ get_all_symlinks d true)
