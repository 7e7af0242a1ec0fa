-- ===== src/Fsys/Scan.antt =====
-- src/fsys/file.go, `GetFile`, src/fsys/symlink.go, `IsSymlink` and `GetSymlink`, and
-- src/fsys/dir.go, `GetDir`: the disk is looked at, and a file that is opened for its checksum may
-- appear on it.
pub mod Size
pub mod Returns
pub mod Depth
use ftu.Common.{
  ℕ, zero, suc, ◌+◌, ◌%◌, ◌^◌, Bool, true, false, not, ◌&&◌, Option, none, some, List, [], ◌∷◌,
  ◌++◌, Bytes, if◌then◌else◌, Outcome, ok, err, panic, unfinished, ◌>>=◌, os_error, not_directory,
  not_file, not_symlink,
}
use ftu.Checksum.{check_sum_of}
use ftu.Fsys.Disk.{Disk, Os, File, open_handle, close}
use ftu.Fsys.Tree.{Symlink, Directory, Directories, DirInfo, dir, info, nil, cons}

-- What `os.Stat`, `os.Lstat` and the entries of a directory tell.
pub record FileInfo : Type 0 where
  pub name : Bytes
  pub is_dir : Bool
  pub is_link : Bool
  pub size : ℕ

-- An error of `os.ReadDir`: `fs.ErrPermission` itself, or any other.
pub data ReadError : Type 0 where
  permission other_error : ReadError

-- An entry of a directory: its name, and what its `Info` returns.
abbrev pub DirEntry : Type 0
DirEntry = Bytes × Option FileInfo

-- What the operating system is asked for, with `path/filepath` and sha256 in hexadecimal.
pub record Looks : Type 0 where
  pub os : Os
  pub abs : Bytes → Option Bytes
  pub join : Bytes → Bytes → Bytes
  pub stat : Disk → Bytes → Option FileInfo
  pub lstat : Disk → Bytes → Option FileInfo
  pub read_dir : Disk → Bytes → List DirEntry × Option ReadError
  pub read_link : Disk → Bytes → Option Bytes
  pub sha : Bytes → Bytes

-- What the loop of `GetDir` has gathered.
pub record Gathered : Type 0 where
  pub size : ℕ
  pub dirs : Directories
  pub files : List File
  pub links : List Symlink

-- `append(innerDirs, innerDir)`
unfoldable pub add_dir : Directories → Directory → Directories
add_dir nil d = cons d nil
add_dir (cons d ds) d' = cons d (add_dir ds d')

-- What is done with the outcome of the call for an inner directory, a link and a file: only an
-- error of the first ends the loop.
unfoldable pub with_dir : Gathered → Outcome Directory → Outcome Gathered
unfolding add_dir
with_dir g (ok inner) =
    ok (record g { size = (g.size + (info inner).size) % 2 ^ 64; dirs = add_dir g.dirs inner })
with_dir g (err e) = err e
with_dir g panic = panic
with_dir g unfinished = unfinished

unfoldable pub with_link : Gathered → Outcome Symlink → Outcome Gathered
with_link g (ok link) = ok (record g { links = g.links ++ (link ∷ []) })
with_link g (err e) = ok g
with_link g panic = panic
with_link g unfinished = unfinished

unfoldable pub with_file : Gathered → Outcome File → Outcome Gathered
with_file g (ok f) =
    ok (record g { size = (g.size + f.size) % 2 ^ 64; files = g.files ++ (f ∷ []) })
with_file g (err e) = ok g
with_file g panic = panic
with_file g unfinished = unfinished

-- `err != nil && err != fs.ErrPermission`
abbrev pub read_fails : Option ReadError → Bool
read_fails none = false
read_fails (some permission) = false
read_fails (some other_error) = true

abbrev pub nothing : Gathered
nothing = record { size = 0; dirs = nil; files = []; links = [] }

abbrev pub directory_of : FileInfo → Bytes → Gathered → Directory
directory_of stats path g =
    dir (record { name = stats.name; path = path; size = g.size; relative_parent_path = [] })
      g.links g.files g.dirs

-- What follows an entry that did not end the loop.
unfoldable pub and_then :
    Outcome Gathered × Disk → (Gathered → Disk → Outcome Gathered × Disk) → Outcome Gathered × Disk
and_then (ok g, d) next = next g d
and_then (err e, d) next = (err e, d)
and_then (panic, d) next = (panic, d)
and_then (unfinished, d) next = (unfinished, d)

module _ (looks : Looks) where
  -- `GetFile` behind its checks: the file is opened for its checksum, and closed.
  unfoldable pub summed_file : File → Disk → Outcome File × Disk
  summed_file f d = elim (open_handle looks.os f d) [
    | ok (opened, d') ↦ (
      (elim opened.handler [ none ↦ panic | some h ↦ check_sum_of looks.sha (d' h) ])
          >>= (λ sum. ok (close looks.os (record opened { checksum = sum }))),
      d',
    )
    | err e ↦ (err e, d)
    | panic ↦ (panic, d)
    | unfinished ↦ (unfinished, d)
  ]

  unfoldable pub stat_file : Bytes → Option FileInfo → Disk → Outcome File × Disk
  unfolding summed_file
  stat_file path none d = (err os_error, d)
  stat_file path (some stats) d =
      if stats.is_dir
      then (err not_file, d)
      else summed_file
          (record {
            id = 0;
            name = stats.name;
            path = path;
            relative_parent_path = [];
            size = stats.size;
            checksum = [];
            handler = none;
            sent_bytes = 0;
          })
          d

  unfoldable pub get_file : Bytes → Disk → Outcome File × Disk
  unfolding stat_file
  get_file path d = elim (looks.abs path) [
    | none ↦ (err os_error, d)
    | some abs_path ↦ stat_file abs_path (looks.stat d abs_path) d
  ]

  unfoldable pub is_symlink : Bytes → Disk → Outcome Bool
  is_symlink path d = elim (looks.lstat d path) [
    | none ↦ err os_error
    | some stats ↦ ok stats.is_link
  ]

  -- `os.Readlink` and what is made of it.
  unfoldable pub link_at : Bytes → Disk → Outcome Symlink
  link_at path d = elim (looks.read_link d path) [
    | none ↦ err os_error
    | some target ↦ ok (record { path = path; target_path = target })
  ]

  unfoldable pub get_symlink : Bytes → Bool → Disk → Outcome Symlink
  unfolding is_symlink link_at
  get_symlink path false d = link_at path d
  get_symlink path true d =
      is_symlink path d >>= λ is. if is then link_at path d else err not_symlink

  -- The body of the loop of `GetDir` on an entry that is no directory.
  unfoldable pub gather_leaf : Bytes → FileInfo → Gathered → Disk → Outcome Gathered × Disk
  unfolding with_link with_file
  gather_leaf path i g d =
      let r = get_file (looks.join path i.name) d in
      if i.is_link
      then (with_link g (get_symlink (looks.join path i.name) false d), d)
      else (with_file g r.0, r.1)

  -- The body of the loop. `inner` is the call of `GetDir` for an inner directory.
  unfoldable pub gather :
      (Bytes → Disk → Outcome Directory × Disk)
      → Bool
      → Bytes
      → DirEntry
      → Gathered
      → Disk
      → Outcome Gathered × Disk
  unfolding gather_leaf with_dir
  gather inner recursive path (name, none) g d = (err os_error, d)
  gather inner recursive path (name, some i) g d =
      let r = inner (looks.join path name) d in
      if i.is_dir
      then (if recursive then (with_dir g r.0, r.1) else (ok g, d))
      else gather_leaf path i g d

  unfoldable pub gather_all :
      (Bytes → Disk → Outcome Directory × Disk)
      → Bool
      → Bytes
      → List DirEntry
      → Gathered
      → Disk
      → Outcome Gathered × Disk
  unfolding and_then
  gather_all inner recursive path [] g d = (ok g, d)
  gather_all inner recursive path (e ∷ es) g d =
      and_then (gather inner recursive path e g d) (gather_all inner recursive path es)

  -- `GetDir` from the entries of a directory on.
  unfoldable pub get_entries :
      (Bytes → Disk → Outcome Directory × Disk)
      → Bool
      → Bytes
      → FileInfo
      → Disk
      → Outcome Directory × Disk
  get_entries inner recursive path stats d =
      let entries = looks.read_dir d path in
      let r = gather_all inner recursive path entries.0 nothing d in
      if read_fails entries.1
      then (err os_error, d)
      else (r.0 >>= (λ g. ok (directory_of stats path g)), r.1)

  unfoldable pub stat_dir :
      (Bytes → Disk → Outcome Directory × Disk)
      → Bool
      → Bytes
      → Option FileInfo
      → Disk
      → Outcome Directory × Disk
  unfolding get_entries
  stat_dir inner recursive path none d = (err os_error, d)
  stat_dir inner recursive path (some stats) d =
      if stats.is_dir then get_entries inner recursive path stats d else (err not_directory, d)

  -- `GetDir`. The fuel bounds how deep the directories stand in each other.
  unfoldable pub get_dir : ℕ → Bytes → Bool → Disk → Outcome Directory × Disk
  get_dir zero path recursive d = (unfinished, d)
  get_dir (suc fuel) path recursive d = elim (looks.abs path) [
    | none ↦ (err os_error, d)
    | some abs_path ↦
        stat_dir (λ p e. get_dir fuel p true e) recursive abs_path (looks.stat d abs_path) d
  ]
