-- ===== src/Fsys/Tree/Preorder.antt =====
-- src/fsys/dir.go: the order in which `GetAllFiles` and `GetAllSymlinks` list what is in a
-- directory.
use ftu.Common.{◌≡◌, sym, ap, ◌∙◌, true, List, [], ◌++◌, append-nil, append_assoc}
use ftu.Fsys.Disk.{File}
use ftu.Fsys.Tree.{
  Symlink, Directory, Directories, dir, nil, cons, get_all_files, append_files, get_all_symlinks,
  append_symlinks,
}

-- What stands in a directory comes before what stands in the directories in it.
abbrev mutual
  pub files_below : Directory → List File
  files_below (dir i links files dirs) = files ++ files_in dirs

  pub files_in : Directories → List File
  files_in nil = []
  files_in (cons d ds) = files_below d ++ files_in ds

abbrev mutual
  pub links_below : Directory → List Symlink
  links_below (dir i links files dirs) = links ++ links_in dirs

  pub links_in : Directories → List Symlink
  links_in nil = []
  links_in (cons d ds) = links_below d ++ links_in ds

mutual
  unfolding get_all_files append_files

  get_all_files-below : (d : Directory) → get_all_files d true ≡ files_below d
  get_all_files-below (dir i links files dirs) = append_files-in dirs files

  append_files-in : (ds : Directories) (fs : List File) → append_files ds fs ≡ fs ++ files_in ds
  append_files-in nil fs = sym (append-nil fs)
  append_files-in (cons d ds) fs =
      append_files-in ds (fs ++ get_all_files d true)
      ∙ ap (λ x. (fs ++ x) ++ files_in ds) (get_all_files-below d)
      ∙ append_assoc fs (files_below d) (files_in ds)

mutual
  unfolding get_all_symlinks append_symlinks

  get_all_symlinks-below : (d : Directory) → get_all_symlinks d true ≡ links_below d
  get_all_symlinks-below (dir i links files dirs) = append_symlinks-in dirs links

  append_symlinks-in :
      (ds : Directories) (ls : List Symlink) → append_symlinks ds ls ≡ ls ++ links_in ds
  append_symlinks-in nil ls = sym (append-nil ls)
  append_symlinks-in (cons d ds) ls =
      append_symlinks-in ds (ls ++ get_all_symlinks d true)
      ∙ ap (λ x. (ls ++ x) ++ links_in ds) (get_all_symlinks-below d)
      ∙ append_assoc ls (links_below d) (links_in ds)

-- `GetAllFiles` and `GetAllSymlinks`, if recursive, list every file and every link below a
-- directory once: those directly in it first, and then, directory by directory, those below each.
pub get_all-below :
    (d : Directory)
    → (get_all_files d true ≡ files_below d) × (get_all_symlinks d true ≡ links_below d)
get_all-below d = (get_all_files-below d, get_all_symlinks-below d)
